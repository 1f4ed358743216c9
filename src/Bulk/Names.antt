-- ===== src/Bulk/Names.antt =====
-- `freeCloneName` of app/bulk.go. Whether a camera has a name is asked of the database: `none` where
-- it cannot tell.
use mock_vision.Prelude.{
  ℕ, zero, suc, ◌+◌, ◌-◌, ◌/◌, ◌%◌, ◌≡◌, ◌≤◌, refl, Bool, true, false, [], ◌∷◌, ◌++◌, Option, none,
  some, ◌⊎◌, inl, inr, arith, ltb, length, take, length-take, length-append, if◌then◌else◌,
}
use mock_vision.Domain.Text.{Text, Unicode, length-trim}
use mock_vision.Domain.Labels.{trim_space, max_camera_name}

pub data NameFailure : Type 0 where
  not_asked no_name_left : NameFailure

-- "-copy"
abbrev copy_text : Text
copy_text = 45 ∷ 99 ∷ 111 ∷ 112 ∷ 121 ∷ []

-- A number below 100 in digits.
abbrev pub digits : ℕ → Text
digits n = if ltb n 10 then (48 + n) ∷ [] else (48 + n / 10) ∷ (48 + n % 10) ∷ []

unfoldable pub suffix_of : ℕ → Text
suffix_of n = if ltb 1 n then copy_text ++ 45 ∷ digits n else copy_text

-- The last rune is dropped until the name fits.
unfoldable pub stem_of : Text → ℕ → Text
unfolding suffix_of
stem_of base n = take (max_camera_name - length (suffix_of n)) base

unfoldable pub clone_name : Unicode → Text → ℕ → Text
unfolding stem_of
clone_name u base n = trim_space u (stem_of base n) ++ suffix_of n

-- What the loop goes on with after the answer on a name.
unfoldable pub name_or_rest : Text → NameFailure ⊎ Text → Option Bool → NameFailure ⊎ Text
name_or_rest name rest none = inl not_asked
name_or_rest name rest (some true) = rest
name_or_rest name rest (some false) = inr name

-- The loop over `n`, with `left` rounds left.
unfoldable pub free_name_loop : Unicode → (Text → Option Bool) → Text → ℕ → ℕ → NameFailure ⊎ Text
unfolding clone_name name_or_rest
free_name_loop u taken base zero n = inl no_name_left
free_name_loop u taken base (suc left) n =
    let rest = free_name_loop u taken base left (n + 1) in
    let name = clone_name u base n in name_or_rest name rest (taken name)

unfoldable pub free_clone_name : Unicode → (Text → Option Bool) → Text → NameFailure ⊎ Text
unfolding free_name_loop
free_clone_name u taken base = free_name_loop u taken base 99 1

length-suffix_of : (n : ℕ) → length (suffix_of n) ≤ 8
unfolding suffix_of
length-suffix_of n = ground arith

length-clone_name :
    (u : Unicode) (base : Text) (n : ℕ) → length (clone_name u base n) ≤ max_camera_name
unfolding clone_name stem_of
length-clone_name u base n =
    let stem = take (max_camera_name - length (suffix_of n)) base in
    omega (
      arith,
      length-append (trim_space u stem) (suffix_of n),
      length-trim u.is_space stem,
      length-take (max_camera_name - length (suffix_of n)) base,
      length-suffix_of n,
    )

-- A name that was found fits and is not taken.
abbrev IsFound : (Text → Option Bool) → NameFailure ⊎ Text → Type 0
IsFound taken (inl _) = Unit
IsFound taken (inr name) = (length name ≤ max_camera_name) × (taken name ≡ some false)

name_or_rest-IsFound :
    (taken : Text → Option Bool) (name : Text) (rest : NameFailure ⊎ Text) (o : Option Bool)
    → length name ≤ max_camera_name
    → taken name ≡ o
    → IsFound taken rest
    → IsFound taken (name_or_rest name rest o)
unfolding name_or_rest
name_or_rest-IsFound taken name rest none l e h = tt
name_or_rest-IsFound taken name rest (some true) l e h = h
name_or_rest-IsFound taken name rest (some false) l e h = (l, e)

free_name_loop-IsFound :
    (u : Unicode) (taken : Text → Option Bool) (base : Text) (left n : ℕ)
    → IsFound taken (free_name_loop u taken base left n)
unfolding free_name_loop
free_name_loop-IsFound u taken base zero n = tt
free_name_loop-IsFound u taken base (suc left) n =
    let name = clone_name u base n in
    name_or_rest-IsFound taken name (free_name_loop u taken base left (n + 1)) (taken name)
      (length-clone_name u base n) refl (free_name_loop-IsFound u taken base left (n + 1))

-- The name that a clone gets is at most 64 runes long, and no camera has it.
pub free_clone_name-free :
    (u : Unicode) (taken : Text → Option Bool) (base name : Text)
    → free_clone_name u taken base ≡ inr name
    → (length name ≤ max_camera_name) × (taken name ≡ some false)
unfolding free_clone_name
free_clone_name-free u taken base name h = rw h at (free_name_loop-IsFound u taken base 99 1)
