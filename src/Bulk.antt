-- ===== src/Bulk.antt =====
-- app/bulk.go: one action on several cameras, and the free address that a clone gets. An IPv4 address
-- is a number below 2 ^ 32.
pub mod Free
pub mod Names
use mock_vision.Prelude.{
  ℕ, zero, suc, ◌+◌, ◌-◌, ◌%◌, ◌^◌, ◌≡◌, String, Bool, true, false, not, ◌&&◌, ◌||◌, List, [], ◌∷◌,
  ◌++◌, Option, none, some, ltb, nat_beq, any, length, if◌then◌else◌,
}
use mock_vision.Prelude.Equality.{string_eq, ◌==◌}
use mock_vision.Domain.Network.{size_of, first_addr}

pub data BulkAction : Type 0 where
  bulk_start bulk_stop bulk_restart bulk_clone bulk_delete : BulkAction
  other_action : String → BulkAction

abbrev pub max_bulk_cameras : ℕ
max_bulk_cameras = 200

-- How many cameras are handled at once; `none` for an unknown action.
unfoldable pub bulk_workers : BulkAction → Option ℕ
bulk_workers bulk_clone = some 1
bulk_workers (other_action _) = none
bulk_workers _ = some 4

pub data BulkError : Type 0 where
  bad_action no_cameras too_many_cameras : BulkError

-- The cameras that are asked for, each once; `ids` has those before.
unfoldable pub distinct_loop : List String → List String → List String
distinct_loop ids [] = ids
distinct_loop ids (id ∷ rest) =
    let skip = distinct_loop ids rest in
    let keep = distinct_loop (ids ++ id ∷ []) rest in
    if id == "" || any (λ x. x == id) ids then skip else keep

unfoldable pub distinct_ids : List String → List String
unfolding distinct_loop
distinct_ids = distinct_loop []

-- The checks of `BulkCameras`.
unfoldable pub bulk_error : BulkAction → List String → Option BulkError
unfolding distinct_ids bulk_workers
bulk_error action asked = elim (bulk_workers action) [
  | none ↦ some bad_action
  | some _ ↦
      let n = length (distinct_ids asked) in
      if nat_beq n 0
      then some no_cameras
      else if ltb max_bulk_cameras n
      then some too_many_cameras
      else none
]

abbrev pub is_used : List ℕ → ℕ → Bool
is_used used a = any (λ x. nat_beq x a) used

-- The place of the `i`-th address after `cur` in its network, from the first.
abbrev pub offset : ℕ → ℕ → ℕ → ℕ → ℕ
offset size first cur i = (cur - first + i) % size

-- A host that is not used; neither the network's address nor the broadcast address is a host.
abbrev pub is_free : ℕ → ℕ → List ℕ → ℕ → Bool
is_free size first used off =
    not (nat_beq off 0) && not (nat_beq off (size - 1)) && not (is_used used (first + off))

-- The loop of `nextHost`, with `n` rounds left.
unfoldable pub next_host_loop : ℕ → ℕ → ℕ → List ℕ → ℕ → ℕ → Option ℕ
next_host_loop size first cur used zero i = none
next_host_loop size first cur used (suc n) i =
    let off = offset size first cur i in
    let rest = next_host_loop size first cur used n (i + 1) in
    if is_free size first used off then some (first + off) else rest

-- `nextHost`, in the network of `from` with this prefix length.
unfoldable pub next_host : ℕ → ℕ → List ℕ → Option ℕ
unfolding next_host_loop
next_host bits from used =
    let size = size_of bits in
    if ltb size 4 then none else next_host_loop size (first_addr bits from) from used (size - 1) 1
