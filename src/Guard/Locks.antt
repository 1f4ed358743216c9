-- ===== src/Guard/Locks.antt =====
-- The locks of the login guard: how long they are, and that a flood of other names clears none.
use mock_vision.Prelude.{
  ℕ, zero, suc, ◌+◌, ◌-◌, ◌^◌, ◌≤◌, ◌<◌, ◌≡◌, refl, sym, ap, ◌∙◌, String, true, false, List, [],
  ◌∷◌, Option, none, some, arith, leb, ltb, min, map, if◌then◌else◌, take, All, Bool-cases, inl,
  inr,
}
use mock_vision.Prelude.Equality.{◌==◌, string_eq}
use mock_vision.Prelude.GoMap.{GoMap, get, put, size, get-put}
use mock_vision.Guard.Login.{
  LoginEntry, Cand, cand_of, cand_before, insert_by, sort_by, tenth, LoginGuard, locked, lock_time,
  failed_entry, or_no_failures, evict_entries, entries_with_room, fail, max_guard_entries,
}
use mock_vision.Guard.Sorting.{All-insert_by, All-sort_by, All-take, get-delete_keys}

-- Unlocked candidates first: after a locked one, all are locked.
abbrev IsLockedCand : Cand → Type 0
IsLockedCand c = c.locked ≡ true

abbrev IsSplit : List Cand → Type 0
IsSplit [] = Unit
IsSplit (c ∷ cs) = (c.locked ≡ true → All IsLockedCand cs) × IsSplit cs

IsSplit-insert_by : (x : Cand) (ys : List Cand) → IsSplit ys → IsSplit (insert_by cand_before x ys)
unfolding insert_by
IsSplit-insert_by x [] h = (λ _. tt, tt)
IsSplit-insert_by x (y ∷ ys) h = elim (Bool-cases (cand_before x y)) [
  | inl b ↦ rw b (λ l. let m : y.locked ≡ true = ground (arith, l, b) in (m, h.0 m), h)
  | inr b ↦ rw b (
    λ l.
        let m : x.locked ≡ true = ground (arith, l, b) in
        All-insert_by cand_before IsLockedCand x ys m (h.0 l),
    IsSplit-insert_by x ys h.1,
  )
]

IsSplit-sort_by : (xs : List Cand) → IsSplit (sort_by cand_before xs)
unfolding sort_by
IsSplit-sort_by [] = tt
IsSplit-sort_by (x ∷ xs) = IsSplit-insert_by x (sort_by cand_before xs) (IsSplit-sort_by xs)

-- How many are unlocked.
abbrev pub unlocked : List Cand → ℕ
unlocked [] = 0
unlocked (c ∷ cs) = (if c.locked then 0 else 1) + unlocked cs

unlocked-insert_by :
    (x : Cand) (ys : List Cand)
    → unlocked (insert_by cand_before x ys) ≡ (if x.locked then 0 else 1) + unlocked ys
unfolding insert_by
unlocked-insert_by x [] = refl
unlocked-insert_by x (y ∷ ys) = ground (arith, unlocked-insert_by x ys)

unlocked-sort_by : (xs : List Cand) → unlocked (sort_by cand_before xs) ≡ unlocked xs
unfolding sort_by
unlocked-sort_by [] = refl
unlocked-sort_by (x ∷ xs) =
    omega (arith, unlocked-insert_by x (sort_by cand_before xs), unlocked-sort_by xs)

unlocked-All : (cs : List Cand) → All IsLockedCand cs → unlocked cs ≡ 0
unlocked-All [] h = refl
unlocked-All (c ∷ cs) h = ground (arith, unlocked-All cs h.1, h.0)

abbrev IsUnlockedCand : Cand → Type 0
IsUnlockedCand c = c.locked ≡ false

take-IsSplit :
    (n : ℕ) (cs : List Cand) → IsSplit cs → n ≤ unlocked cs → All IsUnlockedCand (take n cs)
take-IsSplit zero cs h l = tt
take-IsSplit (suc n) [] h l = tt
take-IsSplit (suc n) (c ∷ cs) h l = elim (Bool-cases c.locked) [
  | inr b ↦ (b, take-IsSplit n cs h.1 (ground (arith, b, l)))
  | inl b ↦ absurd (ground (arith, b, l, unlocked-All cs (h.0 b)))
]

-- A key that has no entry is none of the keys.
absent :
    (key : String) (m : GoMap String LoginEntry)
    → get key m ≡ none
    → All (λ (e : String × LoginEntry). (e.0 == key) ≡ false) m
unfolding get
absent key [] h = tt
absent key ((k, v) ∷ m) h = elim (Bool-cases (k == key)) [
  | inl b ↦ absurd (ground (arith, rw b at h))
  | inr b ↦ (b, absent key m (rw b at h))
]

-- One entry to a key.
abbrev pub IsMap : GoMap String LoginEntry → Type 0
IsMap [] = Unit
IsMap ((k, v) ∷ m) = (get k m ≡ none) × IsMap m

-- An unlocked candidate is not the locked key.
abbrev Spares : String → Cand → Type 0
Spares key c = c.locked ≡ false → (c.key == key) ≡ false

All-Spares :
    (key : String) (now : ℕ) (e : LoginEntry) (m : GoMap String LoginEntry)
    → IsMap m
    → get key m ≡ some e
    → now < e.until
    → All (Spares key) (map (cand_of now) m)
unfolding get
All-Spares key now e [] u g l = tt
All-Spares key now e ((k, v) ∷ m) u g l = elim (Bool-cases (k == key)) [
  | inr b ↦ (λ _. b, All-Spares key now e m u.1 (rw b at g) l)
  | inl b ↦
      let same : v ≡ e = ground (arith, rw b at g) in
      let none_left : get key m ≡ none =
        ap (λ (j : String). get j m) (sym ((string_eq.beq_iff k key).0 b)) ∙ u.0 in
      (λ f. absurd (ground (arith, f, same, l)), others m (absent key m none_left))
]
  where
    others :
        (m : GoMap String LoginEntry)
        → All (λ (e : String × LoginEntry). (e.0 == key) ≡ false) m
        → All (Spares key) (map (cand_of now) m)
    others [] h = tt
    others (x ∷ m) h = (λ _. h.0, others m h.1)

unlocked_keys :
    (key : String) (cs : List Cand)
    → All (Spares key) cs
    → All IsUnlockedCand cs
    → All (λ (k : String). (k == key) ≡ false) (map (λ (c : Cand). c.key) cs)
unlocked_keys key [] h k = tt
unlocked_keys key (c ∷ cs) h k = (h.0 k.0, unlocked_keys key cs h.1 k.1)

-- Making room takes no locked entry while a tenth of the guard is unlocked.
get-evict_entries :
    (key : String) (now : ℕ) (e : LoginEntry) (m : GoMap String LoginEntry)
    → IsMap m
    → get key m ≡ some e
    → now < e.until
    → tenth (size m) ≤ unlocked (map (cand_of now) m)
    → get key (evict_entries now m) ≡ some e
unfolding evict_entries
get-evict_entries key now e m u g l t =
    let cands = map (cand_of now) m in
    let sorted = sort_by cand_before cands in
    get-delete_keys key (map (λ (c : Cand). c.key) (take (tenth (size m)) sorted)) m (
      unlocked_keys key (take (tenth (size m)) sorted)
        (All-take (Spares key) (tenth (size m)) sorted
          (All-sort_by cand_before (Spares key) cands (All-Spares key now e m u g l)))
        (take-IsSplit (tenth (size m)) sorted (IsSplit-sort_by cands)
          (omega (arith, t, unlocked-sort_by cands))))
    ∙ g

-- What `locked` reads in an entry.
abbrev until_of : ℕ → Option LoginEntry → Option ℕ
until_of t o = elim o [ none ↦ none | some e ↦ if ltb e.until t then none else some e.until ]

-- A flood of failed sign-ins for other names does not clear the lock of an account: while the lock
-- stands, a failure of another name leaves it as it is, even where the guard is full, as long as a
-- tenth of its entries are unlocked.
pub fail-locked_other :
    (key other : String) (now t : ℕ) (e : LoginEntry) (g : LoginGuard)
    → IsMap g.entries
    → get key g.entries ≡ some e
    → now < e.until
    → (other == key) ≡ false
    → tenth (size g.entries) ≤ unlocked (map (cand_of now) g.entries)
    → locked key t (fail other now g) ≡ locked key t g
unfolding locked fail
fail-locked_other key other now t e g u k l ne free =
    let old = get other g.entries in
    let new = failed_entry now (or_no_failures old) in
    let kept : get key (entries_with_room now old g.entries) ≡ some e = room old in
    let same : get key (put other new (entries_with_room now old g.entries)) ≡ get key g.entries =
      get-put other key new (entries_with_room now old g.entries) ∙ rw ne (kept ∙ sym k) in
    ap (until_of t) same
  where
    room : (o : Option LoginEntry) → get key (entries_with_room now o g.entries) ≡ some e
    room (some x) = k
    room none = elim (Bool-cases (leb max_guard_entries (size g.entries))) [
      | inr b ↦ rw b k
      | inl b ↦ rw b (get-evict_entries key now e g.entries u k l free)
    ]

positive : (k : ℕ) → 1 ≤ 2 ^ k
positive zero = omega arith
positive (suc k) = omega (arith, positive k)

lock_time-bounds : (f : ℕ) → (30_000_000_000 ≤ lock_time f) × (lock_time f ≤ 900_000_000_000)
unfolding lock_time
lock_time-bounds f = omega (arith, positive (min (f - 5) 5))

-- From the fifth failure on, a failure locks the name for 30 seconds at least and 15 minutes at
-- most from that moment.
pub fail-locked_own :
    (key : String) (now t : ℕ) (g : LoginGuard)
    → 4 ≤ (or_no_failures (get key g.entries)).failures
    → t ≤ now + 30_000_000_000
    → (until : ℕ) × (locked key t (fail key now g) ≡ some until)
      × (now + 30_000_000_000 ≤ until)
      × (until ≤ now + 900_000_000_000)
unfolding locked fail failed_entry
fail-locked_own key now t g f l =
    let old = get key g.entries in
    let n = lock_time (suc (or_no_failures old).failures) in
    let new = failed_entry now (or_no_failures old) in
    let bounds = lock_time-bounds (suc (or_no_failures old).failures) in
    let late : leb 5 (suc (or_no_failures old).failures) ≡ true = ground (arith, f) in
    let e : get key (put key new (entries_with_room now old g.entries)) ≡ some new =
      get-put key key new (entries_with_room now old g.entries)
      ∙ (let r : key == key ≡ true = (string_eq.beq_iff key key).1 refl in rw r) in
    let u : new.until ≡ now + n = unfold failed_entry in rw late in
    (
      now + n,
      ap (until_of t) e ∙ rw u (ground (arith, bounds, l)),
      omega (arith, bounds),
      omega (arith, bounds),
    )
