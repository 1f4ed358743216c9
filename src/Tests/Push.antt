-- ===== src/Tests/Push.antt =====
-- Deliveries of events.
use mock_vision.Prelude.{ℕ, ◌≡◌, ◌≤◌, List, [], ◌∷◌, none, some, All, String}
use mock_vision.Prelude.Int.{pos}
use mock_vision.Prelude.Equality.{string_eq}
use mock_vision.Prelude.GoMap.{get}
use mock_vision.Push.{Sent, start, slot_free, answered, back_off_over}
use mock_vision.Push.Request.{
  Http, TransportConfig, Target, request_headers, request_headers-get, last_value, base_headers,
}
use mock_vision.Push.Slots.{Life, live, dispatched, moved, start-slots, sending_now}
use mock_vision.Push.Reports.{IsProper, live-IsProper}

abbrev http_answer : ℕ → Sent
http_answer status = record { http_status = status; failure = none; start = 5; latency = 2 }

-- Two targets; the first answers 500 and then 200, while the second waits for the only slot.
abbrev busy_life : List Life
busy_life =
    dispatched (pos 1) ((7, "http") ∷ (8, "mqtt") ∷ (9, "http") ∷ [])
    ∷ moved (
        (0, slot_free)
        ∷ (1, slot_free)
        ∷ (0, answered (http_answer 500))
        ∷ (0, back_off_over)
        ∷ (0, slot_free)
        ∷ (0, answered (http_answer 200))
        ∷ (1, slot_free)
        ∷ [])
    ∷ []

start-slots_example :
    let after = live busy_life (start (pos 1)) in
    (after.in_use ≡ sending_now after.deliveries)
    × (after.inflight ≡ sending_now after.deliveries)
    × (sending_now after.deliveries ≤ after.max_parallel)
    × (after.max_parallel ≡ (start (pos 1)).max_parallel)
    × (1 ≤ after.max_parallel)
start-slots_example = start-slots (pos 1) busy_life

live-IsProper_example : All IsProper (live busy_life (start (pos 1))).deliveries
live-IsProper_example = live-IsProper busy_life (start (pos 1)) (unfold start in tt)

abbrev plain_http : Http
plain_http = record { canonical = λ k. k; basic_auth = λ user password. user }

abbrev push_config : TransportConfig
push_config = record {
  method = "";
  content_type = "text/xml";
  headers = ("X-Vendor", "acme") ∷ ("X-Site", "a") ∷ [];
}

abbrev push_target : Target
push_target = record {
  method = "PUT";
  headers = ("X-Site", "b") ∷ [];
  username = "ana";
  password = "secret";
}

abbrev site_header : String
site_header = "X-Site"

request_headers-get_example :
    get site_header (request_headers plain_http "agent" push_config push_target) ≡ some "b"
unfolding last_value base_headers
request_headers-get_example =
    request_headers-get plain_http "agent" site_header push_config push_target
