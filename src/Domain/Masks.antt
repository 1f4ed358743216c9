-- ===== src/Domain/Masks.antt =====
-- domain/mask.go: the masks of generated identifiers.
use mock_vision.Prelude.{
  ℕ, ◌+◌, ◌≡◌, ◌≤◌, ◌<◌, refl, Bool, true, false, not, ◌&&◌, ◌||◌, List, [], ◌∷◌, Option, none,
  some, arith, ltb, leb, nat_beq, if◌then◌else◌,
}
use mock_vision.Prelude.Equality.{◌==◌}
use mock_vision.Domain.Text.{Text, text_eq, byte_length}

pub data MaskError : Type 0 where
  empty_mask long_mask lone_backslash no_variable : MaskError

abbrev pub backslash : ℕ
backslash = 92

abbrev pub digit_mark : ℕ
digit_mark = 57

abbrev pub letter_mark : ℕ
letter_mark = 65

abbrev pub hex_mark : ℕ
hex_mark = 88

-- strings.HasSuffix of one backslash, and of two.
unfoldable pub ends_in_one : Text → Bool
ends_in_one [] = false
ends_in_one (r ∷ []) = nat_beq r backslash
ends_in_one (r ∷ s ∷ rs) = ends_in_one (s ∷ rs)

unfoldable pub ends_in_two : Text → Bool
ends_in_two [] = false
ends_in_two (r ∷ []) = false
ends_in_two (r ∷ s ∷ []) = nat_beq r backslash && nat_beq s backslash
ends_in_two (r ∷ s ∷ t ∷ rs) = ends_in_two (s ∷ t ∷ rs)

abbrev pub is_mark : ℕ → Bool
is_mark r = nat_beq r digit_mark || nat_beq r letter_mark || nat_beq r hex_mark

-- The loop of `ValidateMask`, from whether the last rune was a backslash that escapes.
unfoldable pub has_variable : Bool → Text → Bool
has_variable escaped [] = false
has_variable true (r ∷ rs) = has_variable false rs
has_variable false (r ∷ rs) =
    if nat_beq r backslash then has_variable true rs else is_mark r || has_variable false rs

unfoldable pub validate_mask : Text → Option MaskError
unfolding ends_in_one ends_in_two has_variable byte_length
validate_mask mask =
    if mask == []
    then some empty_mask
    else if ltb 64 (byte_length mask)
    then some long_mask
    else if ends_in_one mask && not (ends_in_two mask)
    then some lone_backslash
    else if has_variable false mask
    then none
    else some no_variable

-- The rune at a place of the letters "A" to "Z", and of the hex digits "0" to "F".
abbrev pub letter_at : ℕ → ℕ
letter_at k = 65 + k

abbrev pub hex_at : ℕ → ℕ
hex_at k = if ltb k 10 then 48 + k else 55 + k

-- The loop of `ExpandMask`; `next i n` is what the `i`-th call of `next` returns for `n`.
unfoldable pub expand_loop : (ℕ → ℕ → ℕ) → ℕ → Bool → Text → Text
expand_loop next i escaped [] = []
expand_loop next i true (r ∷ rs) = r ∷ expand_loop next i false rs
expand_loop next i false (r ∷ rs) =
    let skip = expand_loop next i true rs in
    let filled = expand_loop next (i + 1) false rs in
    let kept = expand_loop next i false rs in
    if nat_beq r backslash
    then skip
    else if nat_beq r digit_mark
    then (48 + next i 10) ∷ filled
    else if nat_beq r letter_mark
    then letter_at (next i 26) ∷ filled
    else if nat_beq r hex_mark
    then hex_at (next i 16) ∷ filled
    else r ∷ kept

unfoldable pub expand_mask : (ℕ → ℕ → ℕ) → Text → Text
unfolding expand_loop
expand_mask next mask = expand_loop next 0 false mask

-- A mask read as the positions of what it generates.
pub data Position : Type 0 where
  digit letter hex_digit : Position
  literal : ℕ → Position

abbrev position_of : ℕ → Position
position_of r =
    if nat_beq r digit_mark
    then digit
    else if nat_beq r letter_mark
    then letter
    else if nat_beq r hex_mark
    then hex_digit
    else literal r

-- A backslash makes a literal of the rune after it; one at the end stands for nothing.
unfoldable pub positions : Text → List Position
positions [] = []
positions (r ∷ []) = if nat_beq r backslash then [] else position_of r ∷ []
positions (r ∷ s ∷ rs) =
    let after = positions rs in
    let rest = positions (s ∷ rs) in
    if nat_beq r backslash then literal s ∷ after else position_of r ∷ rest

abbrev pub fits_position : Position → ℕ → Bool
fits_position digit c = leb 48 c && leb c 57
fits_position letter c = leb 65 c && leb c 90
fits_position hex_digit c = (leb 48 c && leb c 57) || (leb 65 c && leb c 70)
fits_position (literal r) c = nat_beq c r

-- A text has a rune that fits at each position, and no other.
unfoldable pub fits_all : List Position → Text → Bool
fits_all [] [] = true
fits_all [] (c ∷ cs) = false
fits_all (p ∷ ps) [] = false
fits_all (p ∷ ps) (c ∷ cs) = fits_position p c && fits_all ps cs

module _ (next : ℕ → ℕ → ℕ) (bound : (i n : ℕ) → 1 ≤ n → next i n < n) where
  expand_loop-fits :
      (i : ℕ) (mask : Text) → fits_all (positions mask) (expand_loop next i false mask) ≡ true
  unfolding fits_all positions expand_loop
  expand_loop-fits i [] = refl
  expand_loop-fits i (r ∷ []) =
      let a = bound i 10 (omega arith) in
      let b = bound i 26 (omega arith) in
      let c = bound i 16 (omega arith) in ground (arith, a, b, c)
  expand_loop-fits i (r ∷ s ∷ rs) =
      let a = bound i 10 (omega arith) in
      let b = bound i 26 (omega arith) in
      let c = bound i 16 (omega arith) in
      let same = expand_loop-fits i (s ∷ rs) in
      let later = expand_loop-fits (i + 1) (s ∷ rs) in
      let after = expand_loop-fits i rs in ground (arith, a, b, c, same, later, after)

  -- Where `next i n` is below `n`, the expansion of a mask has exactly one rune for each of its
  -- positions: a digit, a capital letter, a hex digit, or the rune that the mask has there.
  pub expand_mask-fits : (mask : Text) → fits_all (positions mask) (expand_mask next mask) ≡ true
  unfolding expand_mask
  expand_mask-fits mask = expand_loop-fits 0 mask
