-- ===== src/Guard/Memory.antt =====
-- The memory that the login guard takes.
use mock_vision.Prelude.{
  ℕ, ◌+◌, ◌≤◌, ◌<◌, ◌≡◌, refl, ap, ◌∙◌, String, true, List, [], ◌∷◌, Option, none, some, arith, leb,
  ltb, map, length, All, Bool-cases, inl, inr, All-map, subst,
}
use mock_vision.Prelude.Equality.{string_eq}
use mock_vision.Prelude.GoMap.{GoMap, get, put, size, is_some, size-put, size-del-le}
use mock_vision.Guard.Bucket.{Bucket, take_token}
use mock_vision.Guard.Login.{
  LoginEntry, Cand, cand_of, cand_before, older, sort_by, max_guard_entries, ip_burst, ip_per,
  LoginGuard, evict_entries, failed_entry, or_no_failures, entries_with_room, fail, drop_full,
  evict_buckets, or_full, ips_with_room, allow_ip, give_back, success,
}
use mock_vision.Guard.Sorting.{All-sort_by, length-sort_by, size-delete_first}

get-cons :
    {V : Type 0} (k j : String) (v : V) (m : GoMap String V)
    → is_some (get k m) ≡ true
    → is_some (get k ((j, v) ∷ m)) ≡ true
unfolding get
get-cons k j v m h = ground arith

get-here :
    {V : Type 0} (k : String) (v : V) (m : GoMap String V) → is_some (get k ((k, v) ∷ m)) ≡ true
unfolding get
get-here k v m = ground (arith, string_eq.beq_iff k k)

-- The key of every entry has a value.
All-keys :
    {A V : Type 0} (key : A → String) (f : String × V → A)
    → ((e : String × V) → key (f e) ≡ e.0)
    → (m : GoMap String V) → All (λ (x : A). is_some (get (key x) m) ≡ true) (map f m)
All-keys key f same [] = tt
All-keys key f same ((k, v) ∷ m) = (
  ap (λ (j : String). is_some (get j ((k, v) ∷ m))) (same (k, v)) ∙ get-here k v m,
  All-map _ _ (map f m) (λ x h. get-cons (key x) k v m h) (All-keys key f same m),
)

length-map : {A B : Type 0} (f : A → B) (xs : List A) → length (map f xs) ≡ length xs
length-map f [] = refl
length-map f (x ∷ xs) = omega (arith, length-map f xs)

size-evict_entries :
    (now : ℕ) (m : GoMap String LoginEntry) → 1 ≤ size m → size (evict_entries now m) + 1 ≤ size m
unfolding evict_entries
size-evict_entries now m l =
    let cands = map (cand_of now) m in
    size-delete_first (λ (c : Cand). c.key) (size m) (sort_by cand_before cands) m
      (omega (arith, length-sort_by cand_before cands, length-map (cand_of now) m, l))
      (All-sort_by cand_before _ cands (All-keys (λ (c : Cand). c.key) (cand_of now) (λ e. refl) m))

size-drop_full : (now : ℕ) (m : GoMap String Bucket) → size (drop_full now m) ≤ size m
unfolding drop_full
size-drop_full now [] = omega arith
size-drop_full now ((k, b) ∷ m) = ground (arith, size-drop_full now m)

map-id : {V : Type 0} (m : GoMap String V) → map (λ (e : String × V). e) m ≡ m
map-id [] = refl
map-id (e ∷ m) = ap (λ l. e ∷ l) (map-id m)

size-evict_buckets :
    (now : ℕ) (m : GoMap String Bucket)
    → size m ≤ max_guard_entries
    → size (evict_buckets now m) < max_guard_entries
size-evict_buckets now m l =
    let left = drop_full now m in
    let fits = size-drop_full now m in
    elim (Bool-cases (ltb (size left) max_guard_entries)) [
      | inl b ↦ unfold evict_buckets in rw b (ground (arith, b))
      | inr b ↦
          let keys : All (λ (e : String × Bucket). is_some (get e.0 left) ≡ true) left =
            subst (λ l. All (λ (e : String × Bucket). is_some (get e.0 left) ≡ true) l)
              (map-id left) (All-keys (λ (e : String × Bucket). e.0) (λ e. e) (λ e. refl) left) in
          let first =
            size-delete_first (λ (e : String × Bucket). e.0) (size left) (sort_by older left) left
              (ground (arith, length-sort_by older left, b)) (All-sort_by older _ left keys) in
          unfold evict_buckets in rw b (omega (arith, first, fits, l))
    ]

-- The guard's two maps have at most 10,000 entries.
pub record IsSmall (g : LoginGuard) : Type 0 where
  pub few_entries : size g.entries ≤ max_guard_entries
  pub few_ips : size g.ips ≤ max_guard_entries

size-entries :
    (key : String) (now : ℕ) (e' : LoginEntry) (o : Option LoginEntry) (m : GoMap String LoginEntry)
    → get key m ≡ o
    → size m ≤ max_guard_entries
    → size (put key e' (entries_with_room now o m)) ≤ max_guard_entries
size-entries key now e' (some e) m g l = ground (arith, size-put key e' m, g, l)
size-entries key now e' none m g l = elim (Bool-cases (leb max_guard_entries (size m))) [
  | inr b ↦ rw b (ground (arith, size-put key e' m, b))
  | inl b ↦
      let room = size-evict_entries now m (ground (arith, b)) in
      rw b (ground (arith, size-put key e' (evict_entries now m), room, l))
]

size-ips :
    (key : String) (now : ℕ) (b' : Bucket) (o : Option Bucket) (m : GoMap String Bucket)
    → get key m ≡ o
    → size m ≤ max_guard_entries
    → size (put key b' (ips_with_room now o m)) ≤ max_guard_entries
size-ips key now b' (some e) m g l = ground (arith, size-put key b' m, g, l)
size-ips key now b' none m g l = elim (Bool-cases (leb max_guard_entries (size m))) [
  | inr b ↦ rw b (ground (arith, size-put key b' m, b))
  | inl b ↦
      let room = size-evict_buckets now m l in
      rw b (ground (arith, size-put key b' (evict_buckets now m), room))
]

-- What the guard is asked: a failed sign-in, an attempt of an address, a sign-in.
pub data Request : Type 0 where
  failing : String → Request
  attempting : String → Request
  signing_in : String → String → Request

unfoldable pub answer_request : (String → String) → ℕ → Request → LoginGuard → LoginGuard
unfolding fail allow_ip success
answer_request ip_key now (failing key) g = fail key now g
answer_request ip_key now (attempting ip) g = (allow_ip ip_key ip now g).1
answer_request ip_key now (signing_in key ip) g = success ip_key key ip g

-- Whatever the guard is asked, and however many names and addresses an attacker tries, its two
-- maps keep at most 10,000 entries each.
pub answer_request-IsSmall :
    (ip_key : String → String) (now : ℕ) (q : Request) (g : LoginGuard)
    → IsSmall g
    → IsSmall (answer_request ip_key now q g)
unfolding answer_request
answer_request-IsSmall ip_key now (failing key) g h = record {
  few_entries =
      unfold fail in
      size-entries key now (failed_entry now (or_no_failures (get key g.entries)))
        (get key g.entries) g.entries refl h.few_entries;
  few_ips = unfold fail in h.few_ips;
}
answer_request-IsSmall ip_key now (attempting ip) g h = record {
  few_entries = unfold allow_ip in h.few_entries;
  few_ips =
      let key = ip_key ip in
      unfold allow_ip in
      size-ips key now (take_token ip_burst ip_per now (or_full now (get key g.ips))).1
        (get key g.ips) g.ips refl h.few_ips;
}
answer_request-IsSmall ip_key now (signing_in key ip) g h = record {
  few_entries = unfold success in omega (arith, size-del-le key g.entries, h.few_entries);
  few_ips = unfold success in returned (get (ip_key ip) g.ips) refl;
}
  where
    returned :
        (o : Option Bucket)
        → get (ip_key ip) g.ips ≡ o
        → size (elim o [ none ↦ g.ips | some b ↦ put (ip_key ip) (give_back b) g.ips ])
          ≤ max_guard_entries
    returned none e = h.few_ips
    returned (some b) e = ground (arith, size-put (ip_key ip) (give_back b) g.ips, e, h.few_ips)
