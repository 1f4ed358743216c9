-- ===== src/Guard/Sorting.antt =====
-- Lemmas on the sort and on deleting the keys that it puts first.
use mock_vision.Prelude.{
  ℕ, zero, suc, ◌+◌, ◌≤◌, ◌≡◌, refl, ◌∙◌, String, Bool, true, false, List, [], ◌∷◌, arith, map,
  length, take, All, Bool-cases, inl, inr,
}
use mock_vision.Prelude.Equality.{◌==◌, string_eq}
use mock_vision.Prelude.GoMap.{GoMap, get, del, size, is_some, get-del, size-del-le, size-del-lt}
use mock_vision.Guard.Login.{insert_by, sort_by, delete_keys, tenth}

module _ {A : Type 0} (le : A → A → Bool) where
  pub All-insert_by {κ} :
      (P : A → Type κ) (x : A) (ys : List A) → P x → All P ys → All P (insert_by le x ys)
  unfolding insert_by
  All-insert_by P x [] p h = (p, tt)
  All-insert_by P x (y ∷ ys) p h = elim (Bool-cases (le x y)) [
    | inl b ↦ rw b (p, h)
    | inr b ↦ rw b (h.0, All-insert_by P x ys p h.1)
  ]

  pub All-sort_by {κ} : (P : A → Type κ) (xs : List A) → All P xs → All P (sort_by le xs)
  unfolding sort_by
  All-sort_by P [] h = tt
  All-sort_by P (x ∷ xs) h = All-insert_by P x (sort_by le xs) h.0 (All-sort_by P xs h.1)

  length-insert_by : (x : A) (ys : List A) → length (insert_by le x ys) ≡ length ys + 1
  unfolding insert_by
  length-insert_by x [] = omega arith
  length-insert_by x (y ∷ ys) = ground (arith, length-insert_by x ys)

  pub length-sort_by : (xs : List A) → length (sort_by le xs) ≡ length xs
  unfolding sort_by
  length-sort_by [] = refl
  length-sort_by (x ∷ xs) = omega (arith, length-insert_by x (sort_by le xs), length-sort_by xs)

pub All-take {κ} :
    {A : Type 0} (P : A → Type κ) (n : ℕ) (xs : List A) → All P xs → All P (take n xs)
All-take P zero xs h = tt
All-take P (suc n) [] h = tt
All-take P (suc n) (x ∷ xs) h = (h.0, All-take P n xs h.1)

pub size-delete_keys :
    {V : Type 0} (ks : List String) (m : GoMap String V) → size (delete_keys ks m) ≤ size m
unfolding delete_keys
size-delete_keys [] m = omega arith
size-delete_keys (k ∷ ks) m = omega (arith, size-delete_keys ks (del k m), size-del-le k m)

-- A key that is not among those deleted keeps its value.
pub get-delete_keys :
    {V : Type 0} (key : String) (ks : List String) (m : GoMap String V)
    → All (λ (k : String). (k == key) ≡ false) ks
    → get key (delete_keys ks m) ≡ get key m
unfolding delete_keys
get-delete_keys key [] m h = refl
get-delete_keys key (k ∷ ks) m h = get-delete_keys key ks (del k m) h.1 ∙ get-del k key m ∙ (rw h.0)

-- Deleting the keys of the first of some entries, one at least, makes room.
pub size-delete_first :
    {A V : Type 0} (key : A → String) (n : ℕ) (xs : List A) (m : GoMap String V)
    → 1 ≤ length xs
    → All (λ (x : A). is_some (get (key x) m) ≡ true) xs
    → size (delete_keys (map key (take (tenth n) xs)) m) + 1 ≤ size m
unfolding delete_keys
size-delete_first key n [] m l h = absurd (omega (arith, l))
size-delete_first key n (x ∷ xs) m l h = first (tenth n) (omega arith)
  where
    first : (k : ℕ) → 1 ≤ k → size (delete_keys (map key (take k (x ∷ xs))) m) + 1 ≤ size m
    first zero p = absurd (omega (arith, p))
    first (suc k) p =
        omega
          (arith, size-delete_keys (map key (take k xs)) (del (key x) m), size-del-lt (key x) m h.0)
