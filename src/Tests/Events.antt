-- ===== src/Tests/Events.antt =====
-- The events of a camera, and the addresses of clones.
use mock_vision.Prelude.{ℕ, ◌<◌, ◌≡◌, refl, String, true, false, List, [], ◌∷◌, some, none, arith}
use mock_vision.Prelude.Equality.{string_eq}
use mock_vision.Prelude.GoMap.{GoMap, get}
use mock_vision.Camera.Events.{EventSpec, Event, Bus, emit, emit_known, limited, is_limited}
use mock_vision.Camera.Pacing.{
  BusStep, subscribes, targets_set, bus_steps, emit-paced, is_let_through,
}
use mock_vision.Domain.Network.{first_addr, last_addr}
use mock_vision.Bulk.{is_used, next_host}
use mock_vision.Bulk.Free.{next_host-found}

-- Motion, at most once in five units of time.
abbrev motion_spec : EventSpec
motion_spec = record {
  vendor_name = "";
  min_interval = 5;
  timeout = 0;
  retries = none;
  backoff = 0;
  transports = [];
}

abbrev event_specs : GoMap String EventSpec
event_specs = ("motion", motion_spec) ∷ []

abbrev motion : Event
motion = record { id = ""; kind = "motion"; at = 0 }

abbrev empty_bus : Bus
empty_bus = record { subs = []; last = []; targets = [] }

abbrev meanwhile : List BusStep
meanwhile = subscribes "http_push" 1 ∷ targets_set [] ∷ []

let_through : is_let_through (emit event_specs "a" true 10 motion empty_bus).0 ≡ true
unfolding emit emit_known is_limited get
let_through = refl

emit-paced_example :
    let later = bus_steps event_specs meanwhile (emit event_specs "a" true 10 motion empty_bus).1 in
    emit event_specs "b" true 12 motion later ≡ (limited motion, later)
emit-paced_example =
    emit-paced event_specs motion_spec motion motion "a" "b" true true 10 12 meanwhile empty_bus
      (unfold get in refl) refl let_through (tt, (tt, tt)) (omega arith) (omega arith)

-- 10.0.0.9/29, where 10.0.0.10 to 12 are used.
abbrev used_hosts : List ℕ
used_hosts = 167_772_170 ∷ 167_772_171 ∷ 167_772_172 ∷ []

next_host-found_example :
    (b : ℕ) × (next_host 29 167_772_169 used_hosts ≡ some b)
    × (first_addr 29 167_772_169 < b)
    × (b < last_addr 29 167_772_169)
    × (is_used used_hosts b ≡ false)
next_host-found_example =
    next_host-found 29 167_772_169 167_772_174 used_hosts (omega arith)
      (unfold first_addr in omega arith) (unfold last_addr first_addr in omega arith) refl refl
