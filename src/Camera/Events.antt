-- ===== src/Camera/Events.antt =====
-- camera/events.go: a camera's events, logged with the service and routed to the engines that
-- deliver them. The clock, a new ID and whether the service could be told are arguments.
use mock_vision.Prelude.{
  ℕ, ◌-◌, String, Bool, true, false, ◌&&◌, List, [], ◌∷◌, Option, none, some, ltb, nat_beq, any,
  filter, map, if◌then◌else◌, ◌*◌,
}
use mock_vision.Prelude.Int.{ℤ, pos}
use mock_vision.Prelude.Equality.{string_eq, ◌==◌}
use mock_vision.Prelude.GoMap.{GoMap, get, put, del}

-- An event type of the profile; a duration that is not above 0 counts as not given.
pub record EventSpec : Type 0 where
  pub vendor_name : String
  pub min_interval : ℕ
  pub timeout : ℕ
  pub retries : Option ℤ
  pub backoff : ℕ
  pub transports : GoMap String String

pub record Event : Type 0 where
  pub id : String
  pub kind : String
  pub at : ℕ

pub record BusTarget : Type 0 where
  pub target : ℕ
  pub kind : String
  pub event_types : List String

-- A subscription stands for the engine that made it.
pub record Bus : Type 0 where
  pub subs : GoMap String ℕ
  pub last : GoMap String ℕ
  pub targets : List BusTarget

pub record Policy : Type 0 where
  pub timeout : ℕ
  pub retries : ℤ
  pub backoff : ℕ

-- What an engine is handed.
pub record Dispatch : Type 0 where
  pub engine : ℕ
  pub event : Event
  pub vendor_name : String
  pub transport : String
  pub policy : Policy
  pub targets : List ℕ

pub data Emitted : Type 0 where
  unknown_type limited not_told : Event → Emitted
  emitted : Event → List Dispatch → Emitted

abbrev second : ℕ
second = 1_000_000_000

abbrev pub or_default : ℕ → ℕ → ℕ
or_default d n = if ltb 0 n then n else d

unfoldable pub policy_of : EventSpec → Policy
policy_of s = record {
  timeout = or_default (5 * second) s.timeout;
  retries = elim s.retries [ none ↦ pos 0 | some n ↦ n ];
  backoff = or_default second s.backoff;
}

-- `transportTargets`
unfoldable pub transport_target : String → String
transport_target t =
    if t == "http_push"
    then "http"
    else if t == "mqtt"
    then "mqtt"
    else if t == "ftp"
    then "ftp"
    else ""

unfoldable pub wants_type : List String → String → Bool
wants_type [] t = true
wants_type (x ∷ xs) t = any (λ y. y == t) (x ∷ xs)

unfoldable pub matched : String → String → List BusTarget → List ℕ
unfolding transport_target wants_type
matched transport t targets =
    map (λ x. x.target)
      (filter (λ x. x.kind == transport_target transport && wants_type x.event_types t) targets)

abbrev is_none_left : List ℕ → Bool
is_none_left [] = true
is_none_left (_ ∷ _) = false

-- The loop over the transports of an event type.
unfoldable pub dispatches : EventSpec → Event → Bus → GoMap String String → List Dispatch
unfolding matched policy_of
dispatches s e b [] = []
dispatches s e b ((transport, raw) ∷ ts) =
    let rest = dispatches s e b ts in
    let found = matched transport e.kind b.targets in
    elim (get transport b.subs) [
      | none ↦ rest
      | some engine ↦
          if is_none_left found
          then rest
          else (record {
            engine = engine;
            event = e;
            vendor_name = if s.vendor_name == "" then e.kind else s.vendor_name;
            transport = raw;
            policy = policy_of s;
            targets = found;
          })
            ∷ rest
    ]

-- The profile's limit on how often a type is emitted.
unfoldable pub is_limited : EventSpec → ℕ → Option ℕ → Bool
is_limited s now none = false
is_limited s now (some last) = ltb 0 s.min_interval && ltb (now - last) s.min_interval

abbrev pub with_last : String → ℕ → Bus → Bus
with_last t now b = record b { last = put t now b.last }

abbrev filled : String → ℕ → Event → Event
filled id now e = record e {
  id = if e.id == "" then id else e.id;
  at = if nat_beq e.at 0 then now else e.at;
}

-- `Emit` of a type that the profile defines.
unfoldable pub emit_known : EventSpec → String → Bool → ℕ → Event → Bus → Emitted × Bus
unfolding is_limited dispatches
emit_known s id told now e b =
    let after = with_last e.kind now b in
    let full = filled id now e in
    if is_limited s now (get e.kind b.last)
    then (limited e, b)
    else if told
    then (emitted full (dispatches s full b s.transports), after)
    else (not_told full, after)

abbrev pub emit_of : Option EventSpec → String → Bool → ℕ → Event → Bus → Emitted × Bus
emit_of none id told now e b = (unknown_type e, b)
emit_of (some s) id told now e b = emit_known s id told now e b

unfoldable pub emit : GoMap String EventSpec → String → Bool → ℕ → Event → Bus → Emitted × Bus
unfolding emit_known
emit specs id told now e b = emit_of (get e.kind specs) id told now e b

unfoldable pub subscribe : String → ℕ → Bus → Bus
subscribe transport engine b = record b { subs = put transport engine b.subs }

unfoldable pub unsubscribe : String → Bus → Bus
unsubscribe transport b = record b { subs = del transport b.subs }

unfoldable pub set_targets : List BusTarget → Bus → Bus
set_targets ts b = record b { targets = ts }
