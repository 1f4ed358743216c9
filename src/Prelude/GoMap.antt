-- ===== src/Prelude/GoMap.antt =====
-- A Go map as an association list with one entry to a key; the order of the entries stands for the
-- order in which a `range` loop happens to visit them.
use mathlib.Core.Logic.{inl, inr}
use Prim.Native.Nat.{ℕ, ◌+◌, ◌≤◌}
use mathlib.Core.Path.{◌≡◌, refl}
use mathlib.Core.Bool.{Bool, true, false}
use mathlib.Core.Option.{Option, none, some}
use mathlib.Core.List.{List, [], ◌∷◌}
use native.Mathlib.Omega.{arith}
use mock_vision.Prelude.Tests.{if◌then◌else◌, Bool-cases}
use mock_vision.Prelude.Lists.{length, All}
use mock_vision.Prelude.Equality.{Eq, ◌==◌}

abbrev pub GoMap {ℓ} : Type ℓ → Type ℓ → Type ℓ
GoMap K V = List (K × V)

abbrev pub is_some {ℓ} : {A : Type ℓ} → Option A → Bool
is_some none = false
is_some (some _) = true

module _ {ℓ} {K V : Type ℓ} ⦃e : Eq K⦄ where
  unfoldable pub get : K → GoMap K V → Option V
  get k [] = none
  get k ((j, v) ∷ m) = if j == k then some v else get k m

  unfoldable pub put : K → V → GoMap K V → GoMap K V
  put k v [] = (k, v) ∷ []
  put k v ((j, w) ∷ m) = let rest = put k v m in if j == k then (k, v) ∷ m else (j, w) ∷ rest

  unfoldable pub del : K → GoMap K V → GoMap K V
  del k [] = []
  del k ((j, w) ∷ m) = let rest = del k m in if j == k then rest else (j, w) ∷ rest

  abbrev pub size : GoMap K V → ℕ
  size m = length m

  pub get-put :
      (k j : K) (v : V) (m : GoMap K V) → get j (put k v m) ≡ (if k == j then some v else get j m)
  unfolding get put
  get-put k j v [] = refl
  get-put k j v ((i, w) ∷ m) =
      ground (arith, e.beq_iff k j, e.beq_iff i k, e.beq_iff i j, get-put k j v m)

  pub get-del : (k j : K) (m : GoMap K V) → get j (del k m) ≡ (if k == j then none else get j m)
  unfolding get del
  get-del k j [] = ground arith
  get-del k j ((i, w) ∷ m) =
      ground (arith, e.beq_iff k j, e.beq_iff i k, e.beq_iff i j, get-del k j m)

  pub size-put :
      (k : K) (v : V) (m : GoMap K V)
      → size (put k v m) ≡ (if is_some (get k m) then size m else size m + 1)
  unfolding get put
  size-put k v [] = omega arith
  size-put k v ((i, w) ∷ m) = ground (arith, size-put k v m)

  pub size-del-le : (k : K) (m : GoMap K V) → size (del k m) ≤ size m
  unfolding del
  size-del-le k [] = omega arith
  size-del-le k ((i, w) ∷ m) = ground (arith, size-del-le k m)

  pub size-del-lt : (k : K) (m : GoMap K V) → is_some (get k m) ≡ true → size (del k m) + 1 ≤ size m
  unfolding get del
  size-del-lt k [] h = absurd (ground arith)
  size-del-lt k ((i, w) ∷ m) h = ground (arith, size-del-le k m, size-del-lt k m)

  pub All-put {κ} :
      (P : K × V → Type κ) (k : K) (v : V) (m : GoMap K V) → P (k, v) → All P m → All P (put k v m)
  unfolding put
  All-put P k v [] p h = (p, tt)
  All-put P k v ((j, w) ∷ m) p h = elim (Bool-cases (j == k)) [
    | inl b ↦ rw b (p, h.1)
    | inr b ↦ rw b (h.0, All-put P k v m p h.1)
  ]

  pub All-del {κ} : (P : K × V → Type κ) (k : K) (m : GoMap K V) → All P m → All P (del k m)
  unfolding del
  All-del P k [] h = tt
  All-del P k ((j, w) ∷ m) h = elim (Bool-cases (j == k)) [
    | inl b ↦ rw b (All-del P k m h.1)
    | inr b ↦ rw b (h.0, All-del P k m h.1)
  ]

  -- What a key has is an entry, under a key that is equal to it.
  pub All-get {κ} :
      (P : K × V → Type κ) (k : K) (m : GoMap K V) {v : V} → get k m ≡ some v → All P m → P (k, v)
  unfolding get
  All-get P k [] {v} g h = absurd (ground arith)
  All-get P k ((j, w) ∷ m) {v} g h = elim (Bool-cases (j == k)) [
    | inl b ↦
        let same : w ≡ v = ground (arith, rw b at g) in rw⁻¹ ((e.beq_iff j k).0 b) (rw⁻¹ same h.0)
    | inr b ↦ All-get P k m (rw b at g) h.1
  ]

pub ruleset map_laws = (get-put, get-del)
