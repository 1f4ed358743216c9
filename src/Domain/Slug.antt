-- ===== src/Domain/Slug.antt =====
-- `Slug` of backend/internal/domain/camera.go.
pub mod Shape
use mock_vision.Prelude.{
  ℕ, ◌+◌, ◌≤◌, Bool, true, false, ◌&&◌, ◌||◌, not, List, [], ◌∷◌, ◌++◌, map, Option, none, some,
  ltb, leb, nat_beq, if◌then◌else◌, length, take,
}
use mock_vision.Domain.Text.{Text, Unicode, trim}

abbrev pub is_lower_or_digit : ℕ → Bool
is_lower_or_digit r = leb b'a' r && leb r b'z' || leb b'0' r && leb r b'9'

abbrev pub is_dash : ℕ → Bool
is_dash r = nat_beq r b'-'

-- The byte that the `switch` writes for a rune; `none` is its default case.
unfoldable pub slug_byte : ℕ → Option ℕ
slug_byte r =
    if is_lower_or_digit r
    then some r
    else if nat_beq r 0xe1 || nat_beq r 0xe0 || nat_beq r 0xe4 || nat_beq r 0xe2
    then some b'a'
    else if nat_beq r 0xe9 || nat_beq r 0xe8 || nat_beq r 0xeb || nat_beq r 0xea
    then some b'e'
    else if nat_beq r 0xed || nat_beq r 0xec || nat_beq r 0xef || nat_beq r 0xee
    then some b'i'
    else if nat_beq r 0xf3 || nat_beq r 0xf2 || nat_beq r 0xf6 || nat_beq r 0xf4
    then some b'o'
    else if nat_beq r 0xfa || nat_beq r 0xf9 || nat_beq r 0xfc || nat_beq r 0xfb
    then some b'u'
    else if nat_beq r 0xf1
    then some b'n'
    else none

-- One round of the loop: what is written, and the flag `dash`.
unfoldable pub slug_write : Option ℕ → Bool → Text → Text × Bool
slug_write (some c) dash b = (b ++ c ∷ [], false)
slug_write none dash b = if not dash && ltb 0 (length b) then (b ++ b'-' ∷ [], true) else (b, dash)

unfoldable pub slug_loop : ℕ → Bool → Text → Text → Text
unfolding slug_write slug_byte
slug_loop max dash b [] = b
slug_loop max dash b (r ∷ rs) =
    let w = slug_write (slug_byte r) dash b in
    let rest = slug_loop max w.1 w.0 rs in if leb max (length w.0) then w.0 else rest

unfoldable pub slug : Unicode → Text → ℕ → Text
slug u name max =
    let s = slug_loop max false [] (map u.lower name) in
    let cut = if ltb max (length s) then take max s else s in trim is_dash cut
