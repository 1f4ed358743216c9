-- ===== src/Push.antt =====
-- The engine that delivers events, backend/internal/engines/httppush/engine.go. Each delivery is a
-- goroutine of its own: here a worker, which goes from wait to wait, and an interleaving is a list
-- of moves of workers. A target stands for its ID; a report is kept without that of its event.
pub mod Request
pub mod Slots
pub mod Reports
use mock_vision.Prelude.{
  ℕ, zero, suc, ◌+◌, ◌-◌, String, Bool, true, false, not, ◌&&◌, List, [], ◌∷◌, ◌++◌, Option, none,
  some, ltb, leb, if◌then◌else◌, map, filter,
}
use mock_vision.Prelude.Int.{ℤ, pos, negsuc}
use mock_vision.Prelude.Equality.{string_eq, ◌==◌}
use mock_vision.Prelude.GoMap.{is_some}

pub data DeliveryStatus : Type 0 where
  delivery_ok delivery_retry delivery_failed : DeliveryStatus

pub data DeliveryError : Type 0 where
  send_failed : String → DeliveryError
  target_answered : ℕ → DeliveryError
  template_failed : String → DeliveryError

pub record DeliveryReport : Type 0 where
  pub target_id : ℕ
  pub attempt : ℕ
  pub at : ℕ
  pub status : DeliveryStatus
  pub http_status : ℕ
  pub latency : ℕ
  pub error : Option DeliveryError

-- What `send` returned, when it was called and how long it took.
pub record Sent : Type 0 where
  pub http_status : ℕ
  pub failure : Option String
  pub start : ℕ
  pub latency : ℕ

-- Where a delivery is: before the semaphore, in `send`, in the back-off, at its end.
pub data Phase : Type 0 where
  waiting sending backing_off : ℕ → Phase
  finished : Phase

-- A call of `deliver`; `reports` are the ones it made, the oldest first.
pub record Delivery : Type 0 where
  pub target_id : ℕ
  pub attempts : ℕ
  pub phase : Phase
  pub reports : List DeliveryReport

pub record Engine : Type 0 where
  pub max_parallel : ℕ
  pub in_use : ℕ
  pub inflight : ℕ
  pub delivered : ℕ
  pub failures : ℕ
  pub deliveries : List Delivery

abbrev pub is_success : Sent → Bool
is_success s = not (is_some s.failure) && leb 200 s.http_status && ltb s.http_status 300

abbrev pub error_of : Sent → DeliveryError
error_of s = elim s.failure [ none ↦ target_answered s.http_status | some e ↦ send_failed e ]

abbrev pub report_of : Delivery → ℕ → Sent → DeliveryStatus → Option DeliveryError → DeliveryReport
report_of d k s status error = record {
  target_id = d.target_id;
  attempt = k;
  at = s.start;
  status = status;
  http_status = s.http_status;
  latency = s.latency;
  error = error;
}

-- The rest of the loop's body after `send`.
unfoldable pub after_send : ℕ → Sent → Delivery → Delivery
after_send k s d =
    if is_success s
    then record d { phase = finished; reports = d.reports ++ report_of d k s delivery_ok none ∷ [] }
    else if ltb k d.attempts
    then record d {
      phase = backing_off k;
      reports = d.reports ++ report_of d k s delivery_retry (some (error_of s)) ∷ [];
    }
    else record d {
      phase = finished;
      reports = d.reports ++ report_of d k s delivery_failed (some (error_of s)) ∷ [];
    }

-- What can happen to a delivery: it gets a slot, `send` returns, the back-off is over, the engine's
-- context is done.
pub data Move : Type 0 where
  slot_free back_off_over context_done : Move
  answered : Sent → Move

-- A delivery with the engine's counters; a move that does not fit the phase changes nothing. The
-- context's end is read where the loop waits for it, not while it sends. Taking a place of the
-- semaphore and counting the delivery as in flight, two statements of the code, are one move.
unfoldable pub move : Move → Delivery → Engine → Delivery × Engine
unfolding after_send
move slot_free d e = elim d.phase [
  | waiting k ↦
      if ltb e.in_use e.max_parallel
      then (
        record d { phase = sending k },
        record e { in_use = e.in_use + 1; inflight = e.inflight + 1 },
      )
      else (d, e)
  | _ ↦ (d, e)
]
move (answered s) d e = elim d.phase [
  | sending k ↦ (
    after_send k s d,
    record e {
      in_use = e.in_use - 1;
      inflight = e.inflight - 1;
      delivered = if is_success s then e.delivered + 1 else e.delivered;
      failures = if is_success s then e.failures else e.failures + 1;
    },
  )
  | _ ↦ (d, e)
]
move back_off_over d e = elim d.phase [
  | backing_off k ↦ (record d { phase = waiting (k + 1) }, e)
  | _ ↦ (d, e)
]
move context_done d e = elim d.phase [
  | waiting k ↦ (record d { phase = finished }, e)
  | backing_off k ↦ (record d { phase = finished }, e)
  | _ ↦ (d, e)
]

-- A move of the `i`-th delivery.
unfoldable pub move_at : ℕ → Move → List Delivery → Engine → List Delivery × Engine
unfolding move
move_at i m [] e = ([], e)
move_at zero m (d ∷ ds) e = ((move m d e).0 ∷ ds, (move m d e).1)
move_at (suc i) m (d ∷ ds) e = (d ∷ (move_at i m ds e).0, (move_at i m ds e).1)

unfoldable pub step : ℕ × Move → Engine → Engine
unfolding move_at
step (i, m) e = let (ds, after) = move_at i m e.deliveries e in record after { deliveries = ds }

unfoldable pub steps : List (ℕ × Move) → Engine → Engine
unfolding step
steps [] e = e
steps (m ∷ ms) e = steps ms (step m e)

-- `policy.Retries + 1`, as often as the loop runs.
abbrev pub attempts_of : ℤ → ℕ
attempts_of (pos n) = n + 1
attempts_of (negsuc n) = 0

abbrev pub new_delivery : ℕ → ℕ → Delivery
new_delivery attempts target = record {
  target_id = target;
  attempts = attempts;
  phase = if leb 1 attempts then waiting 1 else finished;
  reports = [];
}

-- The end of `dispatch` once the template rendered: a delivery for each target of type "http".
unfoldable pub dispatch : ℤ → List (ℕ × String) → Engine → Engine
dispatch retries targets e =
    let http = filter (λ t. t.1 == "http") targets in
    record e { deliveries = e.deliveries ++ map (λ t. new_delivery (attempts_of retries) t.0) http }

-- The reports of `dispatch` when the template fails, one for each target.
unfoldable pub template_reports : ℕ → String → List (ℕ × String) → List DeliveryReport
template_reports now e targets =
    map
      (λ t. record {
        target_id = t.0;
        attempt = 1;
        at = now;
        status = delivery_failed;
        http_status = 0;
        latency = 0;
        error = some (template_failed e);
      })
      targets

-- `Start`, without a transport of its own; a number not above 0 means 8.
unfoldable pub start : ℤ → Engine
start (pos n) = record {
  max_parallel = if leb n 0 then 8 else n;
  in_use = 0;
  inflight = 0;
  delivered = 0;
  failures = 0;
  deliveries = [];
}
start (negsuc n) = record {
  max_parallel = 8;
  in_use = 0;
  inflight = 0;
  delivered = 0;
  failures = 0;
  deliveries = [];
}
