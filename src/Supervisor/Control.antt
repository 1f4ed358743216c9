-- ===== src/Supervisor/Control.antt =====
-- `StartCamera`, and `StopCamera` up to its wait, of supervisor.go. What the store answers is an
-- argument, and so is the name of who asks.
use mock_vision.Prelude.{
  ℕ, ◌≡◌, refl, String, Bool, true, false, not, List, [], ◌∷◌, ◌++◌, Option, none, some, arith,
  nat_beq, nat_beq_iff, if◌then◌else◌,
}
use mock_vision.Prelude.Equality.{nat_eq}
use mock_vision.Prelude.GoMap.{GoMap, get, put, is_some, get-put, get-del}
use mock_vision.Domain.Lifecycle.{DesiredState, desired_running, desired_stopped}
use mock_vision.Supervisor.Retries.{
  Supervisor, Look, start_session, cancel_retry, retry_pending, gave_up,
}
use mock_vision.Supervisor.Reconcile.{stop_session}

pub data ControlError : Type 0 where
  not_loaded not_written : ControlError
  not_admitted : String → ControlError

-- The supervisor with the desired states that the store has, and the audit log.
pub record Node : Type 0 where
  pub cameras : Supervisor
  pub desired : GoMap ℕ DesiredState
  pub audit : List (String × ℕ)

abbrev has_no_session : ℕ → Node → Bool
has_no_session id n = not (is_some (get id n.cameras.sessions))

-- From `setDesired` on.
abbrev started : ℕ → Node → Node
started id n =
    let calm = cancel_retry id n.cameras in
    let wanted = put id desired_running n.desired in
    if has_no_session id n
    then record {
      cameras = start_session id calm;
      desired = wanted;
      audit = n.audit ++ ("camera.start", id) ∷ [];
    }
    else record { cameras = calm; desired = wanted; audit = n.audit }

abbrev start_written : Bool → ℕ → Node → Option ControlError × Node
start_written written id n = if written then (none, started id n) else (some not_written, n)

unfoldable pub start_camera : Look → Bool → ℕ → Node → Option ControlError × Node
unfolding cancel_retry
start_camera l written id n = elim l.loaded [
  | none ↦ (some not_loaded, n)
  | some _ ↦ elim l.refusal [
    | none ↦ start_written written id n
    | some reason ↦
        if has_no_session id n then (some (not_admitted reason), n) else start_written written id n
  ]
]

abbrev stopped_now : String → ℕ → Supervisor → Supervisor
stopped_now reason id s =
    if is_some (get id s.sessions)
    then stop_session reason id s
    else record s { destroyed = s.destroyed ++ id ∷ [] }

unfoldable pub stop_camera : Bool → Bool → String → ℕ → Node → Option ControlError × Node
unfolding cancel_retry stop_session
stop_camera found written reason id n =
    if found
    then (if written
        then (
          none,
          record n {
            cameras = stopped_now reason id (cancel_retry id n.cameras);
            desired = put id desired_stopped n.desired;
          },
        )
        else (some not_written, n))
    else (some not_loaded, n)

self : (id : ℕ) → nat_beq id id ≡ true
self id = (nat_beq_iff id id).1 refl

started-running :
    (id : ℕ) (n : Node)
    → (let after = started id n in
        (get id after.desired ≡ some desired_running)
        × (is_some (get id after.cameras.sessions) ≡ true)
        × (get id after.cameras.retries ≡ none))
unfolding cancel_retry
started-running id n = ground (
  arith,
  self id,
  get-put id id desired_running n.desired,
  get-del id id n.cameras.retries,
  get-put id id none n.cameras.sessions,
)

-- A call of `StartCamera` that returns no error leaves the camera wanted running, with a session,
-- and without a retry that is pending or given up.
pub start_camera-running :
    (l : Look) (written : Bool) (id : ℕ) (n : Node)
    → (start_camera l written id n).0 ≡ none
    → (let after = (start_camera l written id n).1 in
        (get id after.desired ≡ some desired_running)
        × (is_some (get id after.cameras.sessions) ≡ true)
        × (retry_pending id after.cameras ≡ false)
        × (gave_up id after.cameras ≡ false))
unfolding start_camera cancel_retry retry_pending gave_up
start_camera-running l written id n e = ground (arith, e, started-running id n)
