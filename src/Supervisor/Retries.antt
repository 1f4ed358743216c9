-- ===== src/Supervisor/Retries.antt =====
-- The retries of supervisor.go and what they start. A session is what `stop` was told, if it was;
-- a camera is known by a number that stands for its ID. What the store and the admission answer are
-- arguments, `none` for an error of the store.
use mock_vision.Prelude.{
  ℕ, ◌+◌, String, Bool, true, false, ◌&&◌, List, [], ◌∷◌, ◌++◌, Option, none, some, ltb, leb,
  if◌then◌else◌,
}
use mock_vision.Prelude.Equality.{nat_eq}
use mock_vision.Prelude.GoMap.{GoMap, get, put, del, is_some}
use mock_vision.Domain.Lifecycle.{DesiredState, desired_running, desired_stopped}
use mock_vision.Domain.Backoff.{retry_backoff, max_auto_retries}

-- `timer` is the number of the timer that was last set; it stays set after the timer fired. `timers`
-- has the timers that will fire: the camera, and the wait that it was set for.
pub record RetryState : Type 0 where
  pub attempts : ℕ
  pub timer : Option ℕ

pub record Supervisor : Type 0 where
  pub retries : GoMap ℕ RetryState
  pub sessions : GoMap ℕ (Option String)
  pub timers : GoMap ℕ (ℕ × ℕ)
  pub next_timer : ℕ
  pub refused : List (ℕ × String)
  pub destroyed : List ℕ

abbrev pub or_no_retry : Option RetryState → RetryState
or_no_retry none = record { attempts = 0; timer = none }
or_no_retry (some r) = r

abbrev pub should_run : Option DesiredState → Bool
should_run none = false
should_run (some desired_running) = true
should_run (some desired_stopped) = false

-- `afterFailure`
unfoldable pub after_failure : Option DesiredState → ℕ → Supervisor → Supervisor
unfolding retry_backoff
after_failure desired id s =
    let r = or_no_retry (get id s.retries) in
    let n = r.attempts + 1 in
    if should_run desired
    then (if ltb max_auto_retries n
        then record s { retries = put id (record r { attempts = n }) s.retries }
        else record s {
          retries = put id (record { attempts = n; timer = some s.next_timer }) s.retries;
          timers = put s.next_timer (id, retry_backoff n) s.timers;
          next_timer = s.next_timer + 1;
        })
    else s

abbrev pub is_given_up : Option RetryState → Bool
is_given_up none = false
is_given_up (some r) = ltb max_auto_retries r.attempts

abbrev pub is_pending : Option RetryState → Bool
is_pending none = false
is_pending (some r) = is_some r.timer && leb r.attempts max_auto_retries

unfoldable pub gave_up : ℕ → Supervisor → Bool
gave_up id s = is_given_up (get id s.retries)

unfoldable pub retry_pending : ℕ → Supervisor → Bool
retry_pending id s = is_pending (get id s.retries)

-- What the store and the admission say of a camera that is to be started.
pub record Look : Type 0 where
  pub loaded : Option DesiredState
  pub refusal : Option String

-- `startSession`, as far as the map of sessions goes.
abbrev pub start_session : ℕ → Supervisor → Supervisor
start_session id s = record s { sessions = put id none s.sessions }

-- `retryStart`
unfoldable pub retry_start : Look → ℕ → Supervisor → Supervisor
retry_start l id s =
    if is_some (get id s.sessions)
    then s
    else if should_run l.loaded
    then (elim l.refusal [
      | none ↦ start_session id s
      | some reason ↦ record s { refused = s.refused ++ (id, reason) ∷ [] }
    ])
    else s

-- A timer fires.
unfoldable pub timer_fires : (ℕ → Look) → ℕ → Supervisor → Supervisor
unfolding retry_start
timer_fires look timer s = elim (get timer s.timers) [
  | none ↦ s
  | some (id, wait) ↦ retry_start (look id) id (record s { timers = del timer s.timers })
]

abbrev pub timer_of : Option RetryState → Option ℕ
timer_of none = none
timer_of (some r) = r.timer

-- `cancelRetry` and `resetRetries`
unfoldable pub cancel_retry : ℕ → Supervisor → Supervisor
cancel_retry id s = record s {
  retries = del id s.retries;
  timers = elim (timer_of (get id s.retries)) [ none ↦ s.timers | some t ↦ del t s.timers ];
}

unfoldable pub reset_retries : ℕ → Supervisor → Supervisor
reset_retries id s = record s { retries = del id s.retries }
