-- ===== src/Domain/Slug/Shape.antt =====
-- The shape of a slug: its characters, its length and its ends.
use mock_vision.Prelude.{
  ℕ, zero, suc, ◌≤◌, ◌≡◌, refl, Bool, true, false, ◌||◌, [], ◌∷◌, map, Option, none, some, arith,
  ltb, if◌then◌else◌, length, take, length-take, All, All-append,
}
use mock_vision.Domain.Text.{
  Text, Unicode, HeadNot, LastNot, trim-HeadNot, trim-LastNot, length-trim, All-trim,
}
use mock_vision.Domain.Slug.{is_lower_or_digit, is_dash, slug_byte, slug_write, slug_loop, slug}

-- A letter a-z, a digit or a dash.
abbrev pub IsSlugChar : ℕ → Type 0
IsSlugChar c = is_lower_or_digit c || is_dash c ≡ true

slug_byte-IsSlugChar : (r c : ℕ) → slug_byte r ≡ some c → IsSlugChar c
unfolding slug_byte
slug_byte-IsSlugChar r c h = ground arith

slug_write-All :
    (o : Option ℕ) (dash : Bool) (b : Text)
    → ((c : ℕ) → o ≡ some c → IsSlugChar c)
    → All IsSlugChar b
    → All IsSlugChar (slug_write o dash b).0
unfolding slug_write
slug_write-All (some c) dash b ok h = All-append IsSlugChar b (c ∷ []) h (ok c refl, tt)
slug_write-All none true b ok h = h
slug_write-All none false [] ok h = h
slug_write-All none false (d ∷ ds) ok h =
    ground (arith, All-append IsSlugChar (d ∷ ds) (b'-' ∷ []) h (refl, tt))

slug_loop-All :
    (max : ℕ) (dash : Bool) (b rs : Text)
    → All IsSlugChar b
    → All IsSlugChar (slug_loop max dash b rs)
unfolding slug_loop
slug_loop-All max dash b [] h = h
slug_loop-All max dash b (r ∷ rs) h = ground (
  arith,
  slug_write-All (slug_byte r) dash b (slug_byte-IsSlugChar r) h,
  slug_loop-All max (slug_write (slug_byte r) dash b).1 (slug_write (slug_byte r) dash b).0 rs,
)

All-take : (n : ℕ) (s : Text) → All IsSlugChar s → All IsSlugChar (take n s)
All-take zero s h = tt
All-take (suc n) [] h = tt
All-take (suc n) (c ∷ cs) h = (h.0, All-take n cs h.1)

pub record IsSlug (max : ℕ) (s : Text) : Type 0 where
  pub chars : All IsSlugChar s
  pub short : length s ≤ max
  pub no_leading_dash : HeadNot is_dash s
  pub no_trailing_dash : LastNot is_dash s

abbrev cut_to : ℕ → Text → Text
cut_to max s = if ltb max (length s) then take max s else s

cut-All : (max : ℕ) (s : Text) → All IsSlugChar s → All IsSlugChar (cut_to max s)
cut-All max s h = ground (arith, All-take max s h)

length-cut : (max : ℕ) (s : Text) → length (cut_to max s) ≤ max
length-cut max s = ground (arith, length-take max s)

-- Whatever the name and the rune classes: a slug has only a-z, 0-9 and dashes, is at most `max`
-- characters long, and neither starts nor ends with a dash.
pub slug-IsSlug : (u : Unicode) (name : Text) (max : ℕ) → IsSlug max (slug u name max)
unfolding slug
slug-IsSlug u name max =
    let s = slug_loop max false [] (map u.lower name) in
    let cut = cut_to max s in
    record {
      chars =
          All-trim is_dash IsSlugChar cut
            (cut-All max s (slug_loop-All max false [] (map u.lower name) tt));
      short = omega (arith, length-trim is_dash cut, length-cut max s);
      no_leading_dash = trim-HeadNot is_dash cut;
      no_trailing_dash = trim-LastNot is_dash cut;
    }
