-- ===== src/Supervisor/Reserved.antt =====
-- Who holds the name of a network namespace.
use mock_vision.Prelude.{
  ◌≡◌, refl, ◌∙◌, true, false, List, [], ◌∷◌, none, some, arith, Bool-cases, inl, inr,
}
use mock_vision.Prelude.Equality.{◌==◌}
use mock_vision.Prelude.GoMap.{get, put, get-put}
use mock_vision.Domain.Text.{Text, text_eq, Unicode}
use mock_vision.Supervisor.Names.{
  Names, release_netns, free_for, reserve, own_name, netns_name, names_to_try,
}

get-release_netns :
    (id o owner : Text) (m : Names)
    → get o m ≡ some owner
    → (owner == id) ≡ false
    → get o (release_netns id m) ≡ some owner
unfolding get release_netns
get-release_netns id o owner [] g ne = g
get-release_netns id o owner ((k, w) ∷ m) g ne = elim (Bool-cases (k == o)) [
  | inl b ↦ let same : w ≡ owner = ground (arith, rw b at g) in rw same (rw ne (rw b))
  | inr b ↦
      let rest = get-release_netns id o owner m (rw b at g) ne in
      elim (Bool-cases (w == id)) [ inl c ↦ rw c rest | inr c ↦ rw c (rw b rest) ]
]

none-release_netns : (id o : Text) (m : Names) → get o m ≡ none → get o (release_netns id m) ≡ none
unfolding get release_netns
none-release_netns id o [] g = refl
none-release_netns id o ((k, w) ∷ m) g = elim (Bool-cases (k == o)) [
  | inl b ↦ absurd (ground (arith, rw b at g))
  | inr b ↦
      let rest = none-release_netns id o m (rw b at g) in
      elim (Bool-cases (w == id)) [ inl c ↦ rw c rest | inr c ↦ rw c (rw b rest) ]
]

get-put_self : (n id : Text) (m : Names) → get n (put n id m) ≡ some id
get-put_self n id m =
    let e : n == n ≡ true = (text_eq.beq_iff n n).1 refl in get-put n n id m ∙ (rw e)

get-reserve :
    (ns : List Text) (last id : Text) (m : Names)
    → (let r = reserve ns last id m in get r.0 r.1 ≡ some id)
unfolding reserve
get-reserve [] last id m = get-put_self last id m
get-reserve (n ∷ ns) last id m = elim (Bool-cases (free_for id (get n m))) [
  | inl b ↦ rw b (get-put_self n id m)
  | inr b ↦ rw b (get-reserve ns last id m)
]

-- A name that is free for a camera is not one that another camera holds.
free_apart :
    (id n o owner : Text) (m : Names)
    → free_for id (get n m) ≡ true
    → get o m ≡ some owner
    → (owner == id) ≡ false
    → (n == o) ≡ false
free_apart id n o owner m f g ne = elim (Bool-cases (n == o)) [
  | inr b ↦ b
  | inl b ↦
      let e : n ≡ o = (text_eq.beq_iff n o).0 b in
      let h : free_for id (some owner) ≡ true = rw g at (rw e at f) in
      absurd (ground (arith, h, ne))
]

kept-reserve :
    (ns : List Text) (last id o owner : Text) (m : Names)
    → free_for id (get last m) ≡ true
    → get o m ≡ some owner
    → (owner == id) ≡ false
    → get o (reserve ns last id m).1 ≡ some owner
unfolding reserve
kept-reserve [] last id o owner m l g ne =
    let a = free_apart id last o owner m l g ne in get-put last o id m ∙ (rw a g)
kept-reserve (n ∷ ns) last id o owner m l g ne = elim (Bool-cases (free_for id (get n m))) [
  | inl b ↦ let a = free_apart id n o owner m b g ne in rw b (get-put n o id m ∙ (rw a g))
  | inr b ↦ rw b (kept-reserve ns last id o owner m l g ne)
]

-- If nobody holds "sim-" with the camera's whole ID, which the code takes without looking when the
-- other names are taken, then the name that the camera is given is reserved for it, and another
-- camera that holds a name keeps it.
pub netns_name-reserved :
    (u : Unicode) (name id o owner : Text) (m : Names)
    → get (own_name u id) m ≡ none
    → get o m ≡ some owner
    → (owner == id) ≡ false
    → (let r = netns_name u name id m in (get r.0 r.1 ≡ some id) × (get o r.1 ≡ some owner))
unfolding netns_name
netns_name-reserved u name id o owner m h g ne =
    let l = none-release_netns id (own_name u id) m h in
    (
      get-reserve (names_to_try u name id) (own_name u id) id (release_netns id m),
      kept-reserve (names_to_try u name id) (own_name u id) id o owner (release_netns id m) (rw l)
          (get-release_netns id o owner m g ne) ne,
    )
