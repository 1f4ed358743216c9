-- ===== src/Domain/Lifecycle.antt =====
-- The camera lifecycle of backend/internal/domain/camera.go: the states, the table of transitions
-- and the tests on a state.
pub mod Paths
use mock_vision.Prelude.{Bool, true, false, List, [], ◌∷◌, ◌||◌, any}

pub data CameraState : Type 0 where
  stopped provisioning starting running degraded restarting stopping error : CameraState

abbrev pub same_state : CameraState → CameraState → Bool
same_state stopped stopped = true
same_state provisioning provisioning = true
same_state starting starting = true
same_state running running = true
same_state degraded degraded = true
same_state restarting restarting = true
same_state stopping stopping = true
same_state error error = true
same_state _ _ = false

-- The map `transitions`.
unfoldable pub transitions : CameraState → List CameraState
transitions stopped = provisioning ∷ []
transitions provisioning = starting ∷ error ∷ stopping ∷ []
transitions starting = running ∷ error ∷ stopping ∷ []
transitions running = degraded ∷ restarting ∷ stopping ∷ error ∷ []
transitions degraded = running ∷ stopping ∷ error ∷ []
transitions restarting = starting ∷ stopping ∷ error ∷ []
transitions stopping = stopped ∷ error ∷ []
transitions error = provisioning ∷ stopping ∷ stopped ∷ []

unfoldable pub can_transition : CameraState → CameraState → Bool
unfolding transitions
can_transition s next = any (λ allowed. same_state allowed next) (transitions s)

unfoldable pub active : CameraState → Bool
active s = same_state s running || same_state s degraded

unfoldable pub settled : CameraState → Bool
settled stopped = true
settled running = true
settled degraded = true
settled error = true
settled _ = false

-- What the user asked for.
pub data DesiredState : Type 0 where
  desired_running desired_stopped : DesiredState
