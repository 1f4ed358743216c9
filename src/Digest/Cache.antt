-- ===== src/Digest/Cache.antt =====
-- `replayCache` of digest.go. Times are nanoseconds of a monotonic clock. A header is the nonce with its nc and cnonce.
-- The order of the map's entries stands for the order that a `range` loop meets. `none` says that
-- the loop of `prune` ran out of rounds.
use mock_vision.Prelude.{
  ℕ, zero, suc, ◌-◌, Bool, true, false, [], ◌∷◌, ◌++◌, Option, none, some, leb, ltb, if◌then◌else◌,
}
use mock_vision.Prelude.GoMap.{GoMap, get, put, del, size}
use mock_vision.Domain.Text.{Text, text_eq}

abbrev pub nonce_ttl : ℕ
nonce_ttl = 300_000_000_000

abbrev pub max_nonces : ℕ
max_nonces = 4096

abbrev pub max_uses : ℕ
max_uses = 1024

pub record NonceUses : Type 0 where
  pub first : ℕ
  pub used : GoMap Text Bool

abbrev pub Cache : Type 0
Cache = GoMap Text NonceUses

-- The loop that deletes the expired nonces.
unfoldable pub drop_expired : ℕ → Cache → Cache
drop_expired now [] = []
drop_expired now ((n, u) ∷ rest) =
    let kept = drop_expired now rest in
    if ltb nonce_ttl (now - u.first) then kept else (n, u) ∷ kept

-- The loop that finds the oldest.
unfoldable pub oldest : Text → ℕ → Cache → Text
oldest found at [] = found
oldest found at ((n, u) ∷ rest) =
    let other = oldest found at rest in if leb u.first at then oldest n u.first rest else other

unfoldable pub drop_oldest : ℕ → ℕ → Cache → Option Cache
unfolding oldest
drop_oldest zero now c = if leb max_nonces (size c) then none else some c
drop_oldest (suc rounds) now c =
    let rest = drop_oldest rounds now (del (oldest [] now c) c) in
    if leb max_nonces (size c) then rest else some c

unfoldable pub prune : ℕ → Cache → Option Cache
unfolding drop_expired drop_oldest
prune now c = let kept = drop_expired now c in drop_oldest (size kept) now kept

-- What `use` says: fresh, seen, or the nonce is full.
pub data Verdict : Type 0 where
  fresh seen full : Verdict

abbrev pub use_key : Text → Text → Text
use_key nc cnonce = nc ++ 58 ∷ [] ++ cnonce

abbrev pub or_unused : Option Bool → Bool
or_unused none = false
or_unused (some b) = b

-- The second half of `use`: the nonce has its entry.
unfoldable pub use_entry : Text → Text → NonceUses → Cache → Verdict × Cache
use_entry nonce key u c =
    if or_unused (get key u.used)
    then (seen, c)
    else if leb max_uses (size u.used)
    then (full, c)
    else (fresh, put nonce (record u { used = put key true u.used }) c)

abbrev pub new_uses : ℕ → NonceUses
new_uses now = record { first = now; used = [] }

-- A nonce that has no entry gets one.
unfoldable pub use_new : Text → Text → ℕ → Cache → Verdict × Cache
unfolding use_entry
use_new nonce key now c = use_entry nonce key (new_uses now) (put nonce (new_uses now) c)

unfoldable pub make_room : ℕ → Cache → Option Cache
unfolding prune
make_room now c = if leb max_nonces (size c) then prune now c else some c

abbrev pub use_of : Text → Text → ℕ → Option NonceUses → Cache → Option (Verdict × Cache)
use_of nonce key now (some u) c = some (use_entry nonce key u c)
use_of nonce key now none c = elim (make_room now c) [
  | none ↦ none
  | some room ↦ some (use_new nonce key now room)
]

unfoldable pub use_nonce : Text → Text → Text → ℕ → Cache → Option (Verdict × Cache)
unfolding use_entry use_new make_room
use_nonce nonce nc cnonce now c = use_of nonce (use_key nc cnonce) now (get nonce c) c
