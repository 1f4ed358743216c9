-- ===== src/Digest/Refusal.antt =====
-- A header that was accepted is refused when it is sent again.
use mock_vision.Prelude.{
  ℕ, ◌+◌, ◌≤◌, ◌<◌, ◌≡◌, refl, sym, ap, true, List, [], ◌∷◌, Option, none, some, arith, length,
  subst,
}
use mock_vision.Prelude.GoMap.{get, put, size, is_some, size-put, get-put}
use mock_vision.Domain.Text.{Text, text_eq}
use mock_vision.Digest.Cache.{
  NonceUses, Cache, max_nonces, Verdict, fresh, seen, or_unused, use_key, use_entry, use_new,
  make_room, use_of, use_nonce, new_uses,
}

-- A Digest header, and when it comes.
pub record Header : Type 0 where
  pub nonce : Text
  pub nc : Text
  pub cnonce : Text
  pub at : ℕ

unfoldable pub use_header : Header → Cache → Option (Verdict × Cache)
unfolding use_nonce
use_header h c = use_nonce h.nonce h.nc h.cnonce h.at c

-- The cache after headers that come one by one.
unfoldable pub use_all : List Header → Cache → Option Cache
unfolding use_header
use_all [] c = some c
use_all (h ∷ hs) c = elim (use_header h c) [ none ↦ none | some r ↦ use_all hs r.1 ]

-- This key was used with this nonce.
abbrev or_empty : Option NonceUses → NonceUses
or_empty none = new_uses 0
or_empty (some u) = u

abbrev IsUsed : Text → Text → Cache → Type 0
IsUsed nonce key c =
    (is_some (get nonce c) ≡ true) × (or_unused (get key (or_empty (get nonce c)).used) ≡ true)

IsUsed-use_entry :
    (n k nonce key : Text) (u : NonceUses) (c : Cache)
    → get nonce c ≡ some u
    → IsUsed n k c
    → IsUsed n k (use_entry nonce key u c).1 × (size (use_entry nonce key u c).1 ≤ size c)
unfolding use_entry
IsUsed-use_entry n k nonce key u c g h =
    let u' = record u { used = put key true u.used } in
    ground (
      arith,
      get-put nonce n u' c,
      size-put nonce u' c,
      get-put key k true u.used,
      text_eq.beq_iff nonce n,
    )

IsUsed-put_new :
    (n k nonce : Text) (now : ℕ) (c : Cache)
    → get nonce c ≡ none
    → IsUsed n k c
    → IsUsed n k (put nonce (new_uses now) c)
IsUsed-put_new n k nonce now c g h =
    ground (arith, get-put nonce n (new_uses now) c, text_eq.beq_iff nonce n)

make_room-small : (now : ℕ) (c : Cache) → size c < max_nonces → make_room now c ≡ some c
unfolding make_room
make_room-small now c l = ground (arith, l)

-- A use that has room keeps what was used, and adds a nonce at most.
abbrev KeepsUsed : Text → Text → ℕ → Option (Verdict × Cache) → Type 0
KeepsUsed n k s none = ⊥
KeepsUsed n k s (some (v, c)) = IsUsed n k c × (size c ≤ s + 1)

IsUsed-use_nonce :
    (n k nonce nc cnonce : Text) (now : ℕ) (c : Cache)
    → size c < max_nonces
    → IsUsed n k c
    → KeepsUsed n k (size c) (use_nonce nonce nc cnonce now c)
unfolding use_nonce
IsUsed-use_nonce n k nonce nc cnonce now c l h = used (get nonce c) refl
  where
    used :
        (o : Option NonceUses)
        → get nonce c ≡ o
        → KeepsUsed n k (size c) (use_of nonce (use_key nc cnonce) now o c)
    used (some u) g =
        let r = IsUsed-use_entry n k nonce (use_key nc cnonce) u c g h in (r.0, omega (arith, r.1))
    used none g =
        let u = new_uses now in
        let r =
          IsUsed-use_entry n k nonce (use_key nc cnonce) u (put nonce u c)
            (ground (arith, get-put nonce nonce u c, text_eq.beq_iff nonce nonce))
            (IsUsed-put_new n k nonce now c g h) in
        subst
          (λ (o : Option Cache). KeepsUsed n k (size c) (elim o [
            | none ↦ none
            | some room ↦ some (use_new nonce (use_key nc cnonce) now room)
          ]))
          (sym (make_room-small now c l))
          (unfold use_new in (r.0, ground (arith, size-put nonce u c, r.1)))

-- An accepted header is used, and so is a header that was seen.
accepted :
    (nonce key : Text) (u : NonceUses) (c : Cache)
    → get nonce c ≡ some u
    → (use_entry nonce key u c).0 ≡ fresh
    → IsUsed nonce key (use_entry nonce key u c).1 × (size (use_entry nonce key u c).1 ≤ size c)
unfolding use_entry
accepted nonce key u c g f =
    let u' = record u { used = put key true u.used } in
    ground (
      arith,
      get-put nonce nonce u' c,
      size-put nonce u' c,
      get-put key key true u.used,
      text_eq.beq_iff nonce nonce,
      text_eq.beq_iff key key,
    )

accepted-use_nonce :
    (nonce nc cnonce : Text) (now : ℕ) (c c' : Cache)
    → size c < max_nonces
    → use_nonce nonce nc cnonce now c ≡ some (fresh, c')
    → IsUsed nonce (use_key nc cnonce) c' × (size c' ≤ size c + 1)
accepted-use_nonce nonce nc cnonce now c c' l e = used (get nonce c) refl (unfold use_nonce in e)
  where
    key : Text
    key = use_key nc cnonce

    used :
        (o : Option NonceUses)
        → get nonce c ≡ o
        → use_of nonce key now o c ≡ some (fresh, c')
        → IsUsed nonce key c' × (size c' ≤ size c + 1)
    used (some u) g e =
        let p : use_entry nonce key u c ≡ (fresh, c') = cc e in
        let r = accepted nonce key u c g (ap (λ q. q.0) p) in
        subst (λ (d : Cache). IsUsed nonce key d × (size d ≤ size c + 1)) (ap (λ q. q.1) p)
          (r.0, omega (arith, r.1))
    used none g e =
        let u = new_uses now in
        let f : use_of nonce key now none c ≡ some (use_new nonce key now c) =
          ap
            (λ (o : Option Cache). elim o [
              | none ↦ none
              | some room ↦ some (use_new nonce key now room)
            ])
            (make_room-small now c l) in
        let q : use_new nonce key now c ≡ (fresh, c') = cc (f, e) in
        let p : use_entry nonce key u (put nonce u c) ≡ (fresh, c') = unfold use_new in q in
        let r =
          accepted nonce key u (put nonce u c)
            (ground (arith, get-put nonce nonce u c, text_eq.beq_iff nonce nonce))
            (ap (λ q. q.0) p) in
        subst (λ (d : Cache). IsUsed nonce key d × (size d ≤ size c + 1)) (ap (λ q. q.1) p)
          (r.0, ground (arith, size-put nonce u c, r.1))

abbrev UsedAfter : Text → Text → Option Cache → Type 0
UsedAfter n k none = ⊥
UsedAfter n k (some c) = IsUsed n k c

IsUsed-use_all :
    (n k : Text) (hs : List Header) (c : Cache)
    → size c + length hs ≤ max_nonces
    → IsUsed n k c
    → UsedAfter n k (use_all hs c)
unfolding use_all use_header
IsUsed-use_all n k [] c l h = h
IsUsed-use_all n k (x ∷ hs) c l h =
    next (use_nonce x.nonce x.nc x.cnonce x.at c)
      (IsUsed-use_nonce n k x.nonce x.nc x.cnonce x.at c (omega (arith, l)) h)
      (λ d m. IsUsed-use_all n k hs d m)
  where
    next :
        (o : Option (Verdict × Cache))
        → KeepsUsed n k (size c) o
        → ((d : Cache)
            → size d + length hs ≤ max_nonces
            → IsUsed n k d
            → UsedAfter n k (use_all hs d))
        → UsedAfter n k (elim o [ none ↦ none | some r ↦ use_all hs r.1 ])
    next none r f = r
    next (some (v, d)) r f = f d (omega (arith, r.1, l)) r.0

seen-use_nonce :
    (nonce nc cnonce : Text) (now : ℕ) (c : Cache)
    → IsUsed nonce (use_key nc cnonce) c
    → use_nonce nonce nc cnonce now c ≡ some (seen, c)
unfolding use_nonce use_entry
seen-use_nonce nonce nc cnonce now c h = used (get nonce c) h
  where
    used :
        (o : Option NonceUses)
        → (is_some o ≡ true) × (or_unused (get (use_key nc cnonce) (or_empty o).used) ≡ true)
        → use_of nonce (use_key nc cnonce) now o c ≡ some (seen, c)
    used none h = absurd (ground arith)
    used (some u) h = rw h.1

-- A use of a nonce, with its count and client nonce, that the cache took as fresh is answered "seen",
-- and leaves the cache as it is, when it comes again after any other uses, as long as they are so
-- few that the cache has room for a nonce of each and so drops none: with the nonces that it holds,
-- at most 4096. It is a statement on the cache alone: a header without qop does not reach it.
pub use_all-seen :
    (nonce nc cnonce : Text) (now later : ℕ) (c c1 c2 : Cache) (hs : List Header)
    → use_nonce nonce nc cnonce now c ≡ some (fresh, c1)
    → size c + 1 + length hs ≤ max_nonces
    → use_all hs c1 ≡ some c2
    → use_nonce nonce nc cnonce later c2 ≡ some (seen, c2)
use_all-seen nonce nc cnonce now later c c1 c2 hs first room others =
    let key = use_key nc cnonce in
    let a = accepted-use_nonce nonce nc cnonce now c c1 (omega (arith, room)) first in
    let b = IsUsed-use_all nonce key hs c1 (omega (arith, room, a.1)) a.0 in
    seen-use_nonce nonce nc cnonce later c2 (subst (UsedAfter nonce key) others b)
