-- ===== src/Domain/Profiles.antt =====
-- domain/profile.go: the IDs of profiles and the resolutions of streams.
use mock_vision.Prelude.{
  ℕ, ◌+◌, ◌-◌, ◌*◌, ◌%◌, ◌≡◌, ◌≤◌, Bool, false, not, ◌&&◌, ◌||◌, [], ◌∷◌, Option, none, some, arith,
  ltb, leb, nat_beq, length, any, if◌then◌else◌, Bool-cases, inl, inr,
}
use mock_vision.Domain.Text.{Text}

abbrev pub is_digit : ℕ → Bool
is_digit r = leb 48 r && leb r 57

abbrev pub is_id_start : ℕ → Bool
is_id_start r = (leb 97 r && leb r 122) || is_digit r

abbrev pub is_id_rune : ℕ → Bool
is_id_rune r = is_id_start r || nat_beq r 46 || nat_beq r 95 || nat_beq r 45

-- The text before the first rune `r`, and the text after it, where there is one.
abbrev after_first : ℕ → Option (Text × Text) → Option (Text × Text)
after_first c none = none
after_first c (some (s, t)) = some (c ∷ s, t)

unfoldable pub cut : ℕ → Text → Option (Text × Text)
cut r [] = none
cut r (c ∷ cs) = let rest = after_first c (cut r cs) in if nat_beq c r then some ([], cs) else rest

-- [a-z0-9][a-z0-9._-]{0,62}
abbrev pub is_id_part : Text → Bool
is_id_part [] = false
is_id_part (c ∷ cs) = is_id_start c && not (any (λ r. not (is_id_rune r)) cs) && leb (length cs) 62

abbrev both_parts : Option (Text × Text) → Bool
both_parts none = false
both_parts (some (s, t)) = is_id_part s && is_id_part t

-- `ValidProfileID`: no part has a "/", so that the first one parts them.
unfoldable pub valid_profile_id : Text → Bool
unfolding cut
valid_profile_id id = both_parts (cut 47 id)

pub record Resolution : Type 0 where
  pub width : ℕ
  pub height : ℕ

-- [1-9][0-9]{1,4}
abbrev pub is_size : Text → Bool
is_size [] = false
is_size (c ∷ cs) =
    leb 49 c
    && leb c 57
    && not (any (λ r. not (is_digit r)) cs)
    && leb 1 (length cs)
    && leb (length cs) 4

-- strconv.Atoi on digits.
unfoldable pub atoi : ℕ → Text → ℕ
atoi n [] = n
atoi n (c ∷ cs) = atoi (n * 10 + (c - 48)) cs

unfoldable pub check_resolution : ℕ → ℕ → Option Resolution
check_resolution w h =
    if nat_beq (w % 2) 0 && nat_beq (h % 2) 0
    then (if ltb 7680 w || ltb 4320 h then none else some (record { width = w; height = h }))
    else none

abbrev sizes_of : Option (Text × Text) → Option Resolution
sizes_of none = none
sizes_of (some (s, t)) =
    if is_size s && is_size t then check_resolution (atoi 0 s) (atoi 0 t) else none

-- `ParseResolution`, `none` for an error; a size has no "x", so that the first one parts them.
unfoldable pub parse_resolution : Text → Option Resolution
unfolding cut atoi check_resolution
parse_resolution s = sizes_of (cut 120 s)

check_resolution-bounds :
    (w h : ℕ) (r : Resolution)
    → check_resolution w h ≡ some r
    → (r.width % 2 ≡ 0) × (r.height % 2 ≡ 0) × (r.width ≤ 7680) × (r.height ≤ 4320)
unfolding check_resolution
check_resolution-bounds w h r e = ground (arith, e)

sizes_of-bounds :
    (o : Option (Text × Text)) (r : Resolution)
    → sizes_of o ≡ some r
    → (r.width % 2 ≡ 0) × (r.height % 2 ≡ 0) × (r.width ≤ 7680) × (r.height ≤ 4320)
sizes_of-bounds none r e = absurd (ground (arith, e))
sizes_of-bounds (some (s, t)) r e = elim (Bool-cases (is_size s && is_size t)) [
  | inl b ↦ check_resolution-bounds (atoi 0 s) (atoi 0 t) r (rw b at e)
  | inr b ↦ absurd (ground (arith, rw b at e))
]

-- A resolution that is parsed is even in both directions, and 7680x4320 at most.
pub parse_resolution-bounds :
    (s : Text) (r : Resolution)
    → parse_resolution s ≡ some r
    → (r.width % 2 ≡ 0) × (r.height % 2 ≡ 0) × (r.width ≤ 7680) × (r.height ≤ 4320)
unfolding parse_resolution
parse_resolution-bounds s r e = sizes_of-bounds (cut 120 s) r e
