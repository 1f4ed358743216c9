-- ===== src/Supervisor/Session.antt =====
-- A session of supervisor.go: what it keeps, `setState`, and the ways it ends. `clock n` is the time
-- at the session's `n`-th change of state, and a reason is kept as the parts it is put together of.
-- The log and the samples that are forgotten at the end are left out, and so are the database's
-- errors, which setState only logs.
pub mod Running
pub mod Legal
pub mod Ending
pub mod Watching
pub mod Messages
pub mod Ended
use mock_vision.Prelude.{
  ℕ, ◌≡◌, String, Bool, true, false, not, ◌&&◌, List, [], ◌∷◌, ◌++◌, Option, none, some, length,
  nat_beq, if◌then◌else◌,
}
use mock_vision.Prelude.Equality.{nat_eq, string_eq, ◌==◌}
use mock_vision.Prelude.GoMap.{GoMap, get, del}
use mock_vision.Domain.Lifecycle.{
  CameraState, same_state, can_transition, stopped, running, stopping, error, DesiredState,
}
use mock_vision.Supervisor.Retries.{Supervisor, after_failure}

-- netctl.ExitEvent
pub record Exit : Type 0 where
  pub code : ℕ
  pub signal : String

-- A base text, with the exit's signal or else its code.
pub data Reason : Type 0 where
  plain : String → Reason
  because : String → String → Reason
  by_signal : String → String → Reason
  by_code : String → ℕ → Reason

abbrev pub no_reason : Reason
no_reason = plain ""

-- What `setState` saves and publishes.
pub record Status : Type 0 where
  pub state : CameraState
  pub reason : Reason
  pub started : ℕ
  pub at : ℕ

pub record Process : Type 0 where
  pub pid : ℕ
  pub netns : String
  pub ip : String

-- `published` has the statuses, the oldest first; `unusual` the transitions that were logged as
-- unusual. `connected` is false from the moment the session closes its connection, or has none.
pub record Session : Type 0 where
  pub id : ℕ
  pub state : CameraState
  pub reason : Reason
  pub started : ℕ
  pub last_beat : ℕ
  pub process : Option Process
  pub endpoints : List String
  pub connected : Bool
  pub published : List Status
  pub unusual : List (CameraState × CameraState)

-- The session with what it shares: the retries and sessions of all cameras, and the exits that the
-- runtime reported. `done` is set when the session is over.
pub record Life : Type 0 where
  pub session : Session
  pub cameras : Supervisor
  pub exits : GoMap ℕ Exit
  pub done : Bool

abbrev pub is_unusual : CameraState → CameraState → Bool
is_unusual prev st =
    not (same_state prev st) && not (can_transition prev st) && not (same_state prev stopped)

unfoldable pub exit_reason : Option Exit → String → Reason
exit_reason none base = plain base
exit_reason (some e) base = if e.signal == "" then by_code base e.code else by_signal base e.signal

-- `Destroy` of the runtime.
abbrev pub destroy : Life → Life
destroy l =
    let destroyed = l.cameras.destroyed ++ l.session.id ∷ [] in
    record l { cameras = record (l.cameras) { destroyed = destroyed } }

abbrev pub disconnect : Life → Life
disconnect l = record l { session = record (l.session) { connected = false } }

module _ (clock : ℕ → ℕ) where
  unfoldable pub set_state : CameraState → Reason → Session → Session
  unfolding can_transition
  set_state st reason ss =
      let now = clock (length ss.published) in
      let first = same_state st running && nat_beq ss.started 0 in
      let began = if first then now else ss.started in
      record ss {
        state = st;
        reason = reason;
        started = began;
        published =
            ss.published
            ++ (record { state = st; reason = reason; started = began; at = now }) ∷ [];
        unusual = ss.unusual ++ (if is_unusual ss.state st then (ss.state, st) ∷ [] else []);
      }

  abbrev pub change : CameraState → Reason → Life → Life
  change st reason l = record l { session = set_state st reason l.session }

  -- `finishStopped`
  unfoldable pub finish_stopped : String → Life → Life
  unfolding set_state
  finish_stopped reason l = change stopped no_reason (destroy (change stopping (plain reason) l))

  -- `gracefulStop`: its connection is gone when it goes on, or it closes it.
  unfoldable pub graceful_stop : String → Life → Life
  unfolding set_state
  graceful_stop reason l =
      change stopped no_reason (destroy (disconnect (change stopping (plain reason) l)))

  -- `fail`; `wanted` is what the store has as the desired state.
  unfoldable pub fail : Option DesiredState → Reason → Life → Life
  unfolding set_state after_failure
  fail wanted reason l =
      let over = change error reason (destroy (disconnect l)) in
      record over { cameras = after_failure wanted over.session.id over.cameras }

  -- `fail` with `exitReason`, which forgets the exit it reads.
  unfoldable pub fail_exited : Option DesiredState → String → Life → Life
  unfolding fail exit_reason
  fail_exited wanted base l =
      let reason = exit_reason (get l.session.id l.exits) base in
      fail wanted reason (record l { exits = del l.session.id l.exits })

-- What `run` defers: the map forgets the session, when it is the one the map holds. The name of the
-- namespace is given back as Supervisor/Names has it.
unfoldable pub close : Bool → Life → Life
close is_own l =
    let c = l.cameras in
    let left = if is_own then del l.session.id c.sessions else c.sessions in
    record l { cameras = record c { sessions = left }; done = true }
