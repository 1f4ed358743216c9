-- ===== src/Supervisor/Reconcile.antt =====
-- `Reconcile` of supervisor.go.
use mock_vision.Prelude.{
  ℕ, String, not, ◌&&◌, List, [], ◌∷◌, ◌++◌, Option, none, some, if◌then◌else◌,
}
use mock_vision.Prelude.Equality.{nat_eq}
use mock_vision.Prelude.GoMap.{get, put, is_some}
use mock_vision.Domain.Lifecycle.{DesiredState, desired_running, desired_stopped}
use mock_vision.Supervisor.Retries.{Supervisor, Look, gave_up, retry_pending, retry_start}

pub record CameraRow : Type 0 where
  pub id : ℕ
  pub desired : DesiredState

-- What a pass reads: the cameras, what a start finds of each, and the runtimes that live.
pub record World : Type 0 where
  pub cameras : Option (List CameraRow)
  pub look : ℕ → Look
  pub live : Option (List ℕ)

-- `stop` of a session: the first reason counts.
abbrev pub first_reason : String → Option String → Option String
first_reason reason none = some reason
first_reason reason (some r) = some r

unfoldable pub stop_session : String → ℕ → Supervisor → Supervisor
stop_session reason id s = elim (get id s.sessions) [
  | none ↦ s
  | some told ↦ record s { sessions = put id (first_reason reason told) s.sessions }
]

unfoldable pub reconcile_camera : (ℕ → Look) → CameraRow → Supervisor → Supervisor
unfolding retry_start gave_up retry_pending stop_session
reconcile_camera look c s = elim c.desired [
  | desired_running ↦
      if not (is_some (get c.id s.sessions)) && not (retry_pending c.id s) && not (gave_up c.id s)
      then retry_start (look c.id) c.id s
      else s
  | desired_stopped ↦ stop_session "desired state is stopped" c.id s
]

unfoldable pub reconcile_cameras : (ℕ → Look) → List CameraRow → Supervisor → Supervisor
unfolding reconcile_camera
reconcile_cameras look [] s = s
reconcile_cameras look (c ∷ cs) s = reconcile_cameras look cs (reconcile_camera look c s)

-- A live runtime without a session is destroyed.
unfoldable pub remove_orphan : ℕ → Supervisor → Supervisor
remove_orphan id s =
    if is_some (get id s.sessions) then s else record s { destroyed = s.destroyed ++ id ∷ [] }

unfoldable pub remove_orphans : List ℕ → Supervisor → Supervisor
unfolding remove_orphan
remove_orphans [] s = s
remove_orphans (id ∷ ids) s = remove_orphans ids (remove_orphan id s)

unfoldable pub reconcile : World → Supervisor → Supervisor
unfolding reconcile_cameras remove_orphans
reconcile w s = elim w.cameras [
  | none ↦ s
  | some cams ↦
      let s1 = reconcile_cameras w.look cams s in
      elim w.live [ none ↦ s1 | some live ↦ remove_orphans live s1 ]
]
