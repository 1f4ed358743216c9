-- ===== src/Guard/Login.antt =====
-- `loginGuard` of auth.go. Times are nanoseconds, and 0 is the zero time. The key of an address,
-- which package netip computes, is a parameter. slices.SortFunc is a sort by insertion.
use mock_vision.Prelude.{
  ℕ, suc, ◌+◌, ◌-◌, ◌*◌, ◌/◌, ◌^◌, String, Bool, true, false, List, [], ◌∷◌, Option, none, some,
  leb, ltb, min, max, map, if◌then◌else◌, take,
}
use mock_vision.Prelude.Equality.{string_eq}
use mock_vision.Prelude.GoMap.{GoMap, get, put, del, size}
use mock_vision.Guard.Bucket.{Bucket, take_token}

abbrev pub max_guard_entries : ℕ
max_guard_entries = 10_000

abbrev pub ip_burst : ℕ
ip_burst = 10

-- 10.0 / 60 tokens a second
abbrev pub ip_per : ℕ
ip_per = 6_000_000_000

pub record LoginEntry : Type 0 where
  pub failures : ℕ
  pub until : ℕ
  pub last : ℕ

pub record LoginGuard : Type 0 where
  pub entries : GoMap String LoginEntry
  pub ips : GoMap String Bucket

-- `locked`: until when, if it is.
unfoldable pub locked : String → ℕ → LoginGuard → Option ℕ
locked key now g = elim (get key g.entries) [
  | none ↦ none
  | some e ↦ if ltb e.until now then none else some e.until
]

-- `cand` of evictEntries, and its order.
pub record Cand : Type 0 where
  pub key : String
  pub locked : Bool
  pub last : ℕ

abbrev pub cand_before : Cand → Cand → Bool
cand_before a b =
    if a.locked
    then (if b.locked then leb a.last b.last else false)
    else (if b.locked then true else leb a.last b.last)

unfoldable pub insert_by : {A : Type 0} → (A → A → Bool) → A → List A → List A
insert_by le x [] = x ∷ []
insert_by le x (y ∷ ys) = let rest = insert_by le x ys in if le x y then x ∷ y ∷ ys else y ∷ rest

unfoldable pub sort_by : {A : Type 0} → (A → A → Bool) → List A → List A
unfolding insert_by
sort_by le [] = []
sort_by le (x ∷ xs) = insert_by le x (sort_by le xs)

unfoldable pub delete_keys : {V : Type 0} → List String → GoMap String V → GoMap String V
delete_keys [] m = m
delete_keys (k ∷ ks) m = delete_keys ks (del k m)

abbrev pub cand_of : ℕ → String × LoginEntry → Cand
cand_of now e = record { key = e.0; locked = ltb now e.1.until; last = e.1.last }

-- A tenth of them, one at least.
abbrev pub tenth : ℕ → ℕ
tenth n = max (n / 10) 1

unfoldable pub evict_entries : ℕ → GoMap String LoginEntry → GoMap String LoginEntry
unfolding sort_by delete_keys
evict_entries now m =
    delete_keys
      (map (λ c. c.key) (take (tenth (size m)) (sort_by cand_before (map (cand_of now) m)))) m

-- 30 s, doubled with every failure past the fifth, and at most 15 min.
unfoldable pub lock_time : ℕ → ℕ
lock_time failures = min (30_000_000_000 * 2 ^ min (failures - 5) 5) 900_000_000_000

abbrev pub or_no_failures : Option LoginEntry → LoginEntry
or_no_failures none = record { failures = 0; until = 0; last = 0 }
or_no_failures (some e) = e

-- The entry after one more failure.
unfoldable pub failed_entry : ℕ → LoginEntry → LoginEntry
unfolding lock_time
failed_entry now e = record {
  failures = suc e.failures;
  until = if leb 5 (suc e.failures) then now + lock_time (suc e.failures) else e.until;
  last = now;
}

abbrev pub entries_with_room :
    ℕ → Option LoginEntry → GoMap String LoginEntry → GoMap String LoginEntry
entries_with_room now (some e) m = m
entries_with_room now none m = if leb max_guard_entries (size m) then evict_entries now m else m

unfoldable pub fail : String → ℕ → LoginGuard → LoginGuard
unfolding evict_entries failed_entry
fail key now g =
    let old = get key g.entries in
    record g {
      entries =
          put key (failed_entry now (or_no_failures old)) (entries_with_room now old g.entries);
    }

-- The first loop of `evictBuckets`.
unfoldable pub drop_full : ℕ → GoMap String Bucket → GoMap String Bucket
drop_full now [] = []
drop_full now ((k, b) ∷ rest) =
    let kept = drop_full now rest in
    if leb (ip_burst * ip_per) (b.credit + (now - b.at)) then kept else (k, b) ∷ kept

abbrev pub older : String × Bucket → String × Bucket → Bool
older a b = leb a.1.at b.1.at

unfoldable pub evict_buckets : ℕ → GoMap String Bucket → GoMap String Bucket
unfolding drop_full sort_by delete_keys
evict_buckets now m =
    let left = drop_full now m in
    if ltb (size left) max_guard_entries
    then left
    else delete_keys (map (λ e. e.0) (take (tenth (size left)) (sort_by older left))) left

abbrev pub full_bucket : ℕ → Bucket
full_bucket now = record { credit = ip_burst * ip_per; at = now }

abbrev pub or_full : ℕ → Option Bucket → Bucket
or_full now none = full_bucket now
or_full now (some b) = b

abbrev pub ips_with_room : ℕ → Option Bucket → GoMap String Bucket → GoMap String Bucket
ips_with_room now (some b) m = m
ips_with_room now none m = if leb max_guard_entries (size m) then evict_buckets now m else m

-- `allowIP`: when to retry, if the attempt is refused.
unfoldable pub allow_ip : (String → String) → String → ℕ → LoginGuard → Option ℕ × LoginGuard
unfolding take_token evict_buckets
allow_ip ip_key ip now g =
    let key = ip_key ip in
    let old = get key g.ips in
    let t = take_token ip_burst ip_per now (or_full now old) in
    (
      if t.0 then none else some (ip_per - t.1.credit),
      record g { ips = put key t.1 (ips_with_room now old g.ips) },
    )

abbrev pub give_back : Bucket → Bucket
give_back b = record b { credit = min (ip_burst * ip_per) (b.credit + ip_per) }

unfoldable pub success : (String → String) → String → String → LoginGuard → LoginGuard
success ip_key key ip g = record {
  entries = del key g.entries;
  ips = elim (get (ip_key ip) g.ips) [
    | none ↦ g.ips
    | some b ↦ put (ip_key ip) (give_back b) g.ips
  ];
}
