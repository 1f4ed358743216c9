-- ===== src/Digest/Bounds.antt =====
-- The size of the replay cache, and that its pruning comes to an end.
use mock_vision.Prelude.{
  ℕ, zero, suc, ◌-◌, ◌≤◌, ◌<◌, ◌≡◌, refl, true, false, [], ◌∷◌, Option, none, some, arith, leb, ltb,
  All, Bool-cases, inl, inr, ◌⊎◌,
}
use mock_vision.Prelude.GoMap.{
  get, put, del, size, is_some, size-put, size-del-lt, All-put, All-del, All-get, get-put,
}
use mock_vision.Domain.Text.{Text, text_eq}
use mock_vision.Digest.Cache.{
  NonceUses, Cache, nonce_ttl, max_nonces, max_uses, drop_expired, oldest, drop_oldest, prune,
  Verdict, or_unused, use_key, use_entry, use_new, make_room, use_of, use_nonce, new_uses,
}

-- Entries that were made at the time `now` or before it.
abbrev pub IsPast : ℕ → Text × NonceUses → Type 0
IsPast now e = e.1.first ≤ now

-- Entries with at most `max_uses` uses.
abbrev pub IsBounded : Text × NonceUses → Type 0
IsBounded e = size e.1.used ≤ max_uses

get-cons :
    (k j : Text) (u : NonceUses) (c : Cache)
    → is_some (get k c) ≡ true
    → is_some (get k ((j, u) ∷ c)) ≡ true
unfolding get
get-cons k j u c h = ground arith

get-here : (k : Text) (u : NonceUses) (c : Cache) → is_some (get k ((k, u) ∷ c)) ≡ true
unfolding get
get-here k u c = ground (arith, text_eq.beq_iff k k)

-- What the search for the oldest comes to is an entry, or what it started from.
oldest-get :
    (found : Text) (at : ℕ) (c : Cache)
    → (is_some (get (oldest found at c) c) ≡ true) ⊎ (oldest found at c ≡ found)
oldest-get found at [] = inr (unfold oldest in refl)
oldest-get found at ((n, u) ∷ rest) = elim (Bool-cases (leb u.first at)) [
  | inr b ↦ elim (oldest-get found at rest) [
    | inl h ↦ inl (unfold oldest in rw b (get-cons _ n u rest h))
    | inr h ↦ inr (unfold oldest in rw b h)
  ]
  | inl b ↦ elim (oldest-get n u.first rest) [
    | inl h ↦ inl (unfold oldest in rw b (get-cons _ n u rest h))
    | inr h ↦ inl (unfold oldest in rw b (rw h (get-here n u rest)))
  ]
]

-- The oldest of a cache that is not empty is one of its nonces.
oldest-is_some :
    (now : ℕ) (c : Cache)
    → 1 ≤ size c
    → All (IsPast now) c
    → is_some (get (oldest [] now c) c) ≡ true
oldest-is_some now [] l h = absurd (omega (arith, l))
oldest-is_some now ((n, u) ∷ rest) l h =
    let b : leb u.first now ≡ true = ground (arith, h.0) in
    elim (oldest-get n u.first rest) [
      | inl k ↦ unfold oldest in rw b (get-cons _ n u rest k)
      | inr k ↦ unfold oldest in rw b (rw k (get-here n u rest))
    ]

-- A cache with room, whose entries are past and bounded.
abbrev pub IsRoom : ℕ → Cache → Type 0
IsRoom now c = (size c < max_nonces) × All (IsPast now) c × All IsBounded c

abbrev RoomOf : ℕ → Option Cache → Type 0
RoomOf now none = ⊥
RoomOf now (some c) = IsRoom now c

room-drop_oldest :
    (rounds now : ℕ) (c : Cache)
    → size c ≤ rounds
    → All (IsPast now) c
    → All IsBounded c
    → RoomOf now (drop_oldest rounds now c)
unfolding drop_oldest
room-drop_oldest zero now c l h k =
    let b : leb max_nonces (size c) ≡ false = ground (arith, l) in rw b (omega (arith, l), h, k)
room-drop_oldest (suc rounds) now c l h k = elim (Bool-cases (leb max_nonces (size c))) [
  | inr b ↦ rw b (ground (arith, b), h, k)
  | inl b ↦
      let o = oldest [] now c in
      let g = oldest-is_some now c (ground (arith, b)) h in
      rw b (
        room-drop_oldest rounds now (del o c) (omega (arith, size-del-lt o c g, l))
          (All-del (IsPast now) o c h) (All-del IsBounded o c k))
]

All-drop_expired :
    (P : Text × NonceUses → Type 0) (now : ℕ) (c : Cache) → All P c → All P (drop_expired now c)
unfolding drop_expired
All-drop_expired P now [] h = tt
All-drop_expired P now ((n, u) ∷ c) h = elim (Bool-cases (ltb nonce_ttl (now - u.first))) [
  | inl b ↦ rw b (All-drop_expired P now c h.1)
  | inr b ↦ rw b (h.0, All-drop_expired P now c h.1)
]

room-make_room :
    (now : ℕ) (c : Cache) → All (IsPast now) c → All IsBounded c → RoomOf now (make_room now c)
room-make_room now c h k = elim (Bool-cases (leb max_nonces (size c))) [
  | inr b ↦ unfold make_room in rw b (ground (arith, b), h, k)
  | inl b ↦
      unfold make_room prune in
      rw b (
        room-drop_oldest (size (drop_expired now c)) now (drop_expired now c) (omega arith)
          (All-drop_expired (IsPast now) now c h) (All-drop_expired IsBounded now c k))
]

-- The cache's invariant at the time `now`.
pub record IsCache (now : ℕ) (c : Cache) : Type 0 where
  pub small : size c ≤ max_nonces
  pub past : All (IsPast now) c
  pub bounded : All IsBounded c

-- What `use` leaves, if it returned: a cache of the invariant.
abbrev pub ReturnsCache : ℕ → Option (Verdict × Cache) → Type 0
ReturnsCache now none = ⊥
ReturnsCache now (some (v, c)) = IsCache now c

IsCache-use_entry :
    (nonce key : Text) (u : NonceUses) (now : ℕ) (c : Cache)
    → get nonce c ≡ some u
    → IsCache now c
    → IsCache now (use_entry nonce key u c).1
IsCache-use_entry nonce key u now c g h =
    let p = All-get (IsPast now) nonce c g h.past in
    let b = All-get IsBounded nonce c g h.bounded in
    elim (Bool-cases (or_unused (get key u.used))) [
      | inl e ↦ unfold use_entry in rw e h
      | inr e ↦ elim (Bool-cases (leb max_uses (size u.used))) [
        | inl f ↦ unfold use_entry in rw e (rw f h)
        | inr f ↦
            let u' = record u { used = put key true u.used } in
            unfold use_entry in
            rw e (
              rw f (record {
                small = ground (arith, g, size-put nonce u' c, h.small);
                past = All-put (IsPast now) nonce u' c p h.past;
                bounded =
                    All-put IsBounded nonce u' c (ground (arith, f, size-put key true u.used))
                      h.bounded;
              }))
      ]
    ]

-- `use` returns, whatever header comes and however full the cache is, and keeps the cache's bounds:
-- at most 4096 nonces, each with at most 1024 uses and none from the future.
pub use_nonce-IsCache :
    (nonce nc cnonce : Text) (now : ℕ) (c : Cache)
    → IsCache now c
    → ReturnsCache now (use_nonce nonce nc cnonce now c)
unfolding use_nonce
use_nonce-IsCache nonce nc cnonce now c h = used (get nonce c) refl
  where
    filled :
        (o : Option Cache)
        → RoomOf now o
        → ReturnsCache now
            (elim o [ none ↦ none | some room ↦ some (use_new nonce (use_key nc cnonce) now room) ])
    filled none r = r
    filled (some room) r =
        let u = new_uses now in
        unfold use_new in
        IsCache-use_entry nonce (use_key nc cnonce) u now (put nonce u room)
          (ground (arith, get-put nonce nonce u room, text_eq.beq_iff nonce nonce))
          (record {
            small = ground (arith, size-put nonce u room, r.0);
            past = All-put (IsPast now) nonce u room (omega arith) r.1;
            bounded = All-put IsBounded nonce u room (omega arith) r.2;
          })

    used :
        (o : Option NonceUses)
        → get nonce c ≡ o
        → ReturnsCache now (use_of nonce (use_key nc cnonce) now o c)
    used (some u) g = IsCache-use_entry nonce (use_key nc cnonce) u now c g h
    used none g = filled (make_room now c) (room-make_room now c h.past h.bounded)
