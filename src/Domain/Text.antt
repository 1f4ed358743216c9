-- ===== src/Domain/Text.antt =====
-- Texts that the code walks: a Go string is the list of its runes, and `len` counts the bytes of
-- their UTF-8. The classes and case of runes (packages unicode and strings) are a parameter.
use mock_vision.Prelude.{
  ℕ, ◌+◌, ◌≤◌, ◌≡◌, refl, ◌↔◌, Bool, true, false, ◌&&◌, List, [], ◌∷◌, arith, ltb, nat_beq,
  if◌then◌else◌, length, All,
}
use mock_vision.Prelude.Equality.{Eq}

abbrev pub Text : Type 0
Text = List ℕ

-- What package unicode says of a rune.
pub record Unicode : Type 0 where
  pub lower : ℕ → ℕ
  pub is_space : ℕ → Bool
  pub is_control : ℕ → Bool

abbrev pub text_beq : Text → Text → Bool
text_beq [] [] = true
text_beq [] (d ∷ ds) = false
text_beq (c ∷ cs) [] = false
text_beq (c ∷ cs) (d ∷ ds) = nat_beq c d && text_beq cs ds

pub text_beq_iff : (s t : Text) → (text_beq s t ≡ true) ↔ (s ≡ t)
text_beq_iff [] [] = (λ _. refl, λ _. refl)
text_beq_iff [] (d ∷ ds) = (λ e. cc, λ e. cc)
text_beq_iff (c ∷ cs) [] = (λ e. cc, λ e. cc)
text_beq_iff (c ∷ cs) (d ∷ ds) =
    (λ e. ground (arith, text_beq_iff cs ds), λ e. ground (arith, text_beq_iff cs ds))

instance abbrev pub text_eq : Eq Text
text_eq = record { beq = text_beq; beq_iff = text_beq_iff }

-- utf8.RuneLen
abbrev pub rune_bytes : ℕ → ℕ
rune_bytes r = if ltb r 0x80 then 1 else if ltb r 0x800 then 2 else if ltb r 0x10000 then 3 else 4

-- len(s)
unfoldable pub byte_length : Text → ℕ
byte_length [] = 0
byte_length (r ∷ rs) = rune_bytes r + byte_length rs

-- strings.TrimLeft and strings.TrimRight by a class of runes.
unfoldable pub trim_left : (ℕ → Bool) → Text → Text
trim_left p [] = []
trim_left p (c ∷ cs) = let rest = trim_left p cs in if p c then rest else c ∷ cs

abbrev is_nil : Text → Bool
is_nil [] = true
is_nil (_ ∷ _) = false

unfoldable pub trim_right : (ℕ → Bool) → Text → Text
trim_right p [] = []
trim_right p (c ∷ cs) = let rest = trim_right p cs in if p c && is_nil rest then [] else c ∷ rest

-- strings.Trim
unfoldable pub trim : (ℕ → Bool) → Text → Text
unfolding trim_left trim_right
trim p s = trim_right p (trim_left p s)

-- The first rune, if there is one, is not in the class.
abbrev pub HeadNot : (ℕ → Bool) → Text → Type 0
HeadNot p [] = Unit
HeadNot p (c ∷ cs) = p c ≡ false

-- The last rune, if there is one, is not in the class.
abbrev pub LastNot : (ℕ → Bool) → Text → Type 0
LastNot p [] = Unit
LastNot p (c ∷ []) = p c ≡ false
LastNot p (c ∷ d ∷ ds) = LastNot p (d ∷ ds)

module _ (p : ℕ → Bool) where
  pub trim_left-HeadNot : (s : Text) → HeadNot p (trim_left p s)
  unfolding trim_left
  trim_left-HeadNot [] = tt
  trim_left-HeadNot (c ∷ cs) = ground (arith, trim_left-HeadNot cs)

  pub trim_right-HeadNot : (s : Text) → HeadNot p s → HeadNot p (trim_right p s)
  unfolding trim_right
  trim_right-HeadNot [] h = tt
  trim_right-HeadNot (c ∷ cs) h = ground arith

  cons-LastNot : (c : ℕ) (t : Text) → LastNot p t → p c && is_nil t ≡ false → LastNot p (c ∷ t)
  cons-LastNot c [] l h = ground arith
  cons-LastNot c (d ∷ ds) l h = l

  pub trim_right-LastNot : (s : Text) → LastNot p (trim_right p s)
  unfolding trim_right
  trim_right-LastNot [] = tt
  trim_right-LastNot (c ∷ cs) =
      ground (arith, trim_right-LastNot cs, cons-LastNot c (trim_right p cs))

  pub trim-HeadNot : (s : Text) → HeadNot p (trim p s)
  unfolding trim
  trim-HeadNot s = trim_right-HeadNot (trim_left p s) (trim_left-HeadNot s)

  pub trim-LastNot : (s : Text) → LastNot p (trim p s)
  unfolding trim
  trim-LastNot s = trim_right-LastNot (trim_left p s)

  length-trim_left : (s : Text) → length (trim_left p s) ≤ length s
  unfolding trim_left
  length-trim_left [] = omega arith
  length-trim_left (c ∷ cs) = ground (arith, length-trim_left cs)

  length-trim_right : (s : Text) → length (trim_right p s) ≤ length s
  unfolding trim_right
  length-trim_right [] = omega arith
  length-trim_right (c ∷ cs) = ground (arith, length-trim_right cs)

  pub length-trim : (s : Text) → length (trim p s) ≤ length s
  unfolding trim
  length-trim s = omega (arith, length-trim_left s, length-trim_right (trim_left p s))

  All-trim_left : (P : ℕ → Type 0) (s : Text) → All P s → All P (trim_left p s)
  unfolding trim_left
  All-trim_left P [] h = tt
  All-trim_left P (c ∷ cs) h = ground (arith, All-trim_left P cs)

  All-trim_right : (P : ℕ → Type 0) (s : Text) → All P s → All P (trim_right p s)
  unfolding trim_right
  All-trim_right P [] h = tt
  All-trim_right P (c ∷ cs) h = ground (arith, All-trim_right P cs)

  pub All-trim : (P : ℕ → Type 0) (s : Text) → All P s → All P (trim p s)
  unfolding trim
  All-trim P s h = All-trim_right P (trim_left p s) (All-trim_left P s h)
