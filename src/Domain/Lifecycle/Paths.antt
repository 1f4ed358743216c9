-- ===== src/Domain/Lifecycle/Paths.antt =====
-- Paths through the table of transitions of camera.go.
use mathlib.Core.List.{Memᴰ}
use mock_vision.Prelude.{◌≡◌, Bool, true, false, List, [], ◌∷◌, arith, sym, ◌⊎◌, inl, inr, refl}
use mock_vision.Domain.Lifecycle.{
  CameraState, stopped, provisioning, starting, running, degraded, restarting, stopping, error,
  can_transition, active,
}

-- `Path s ss t`: the states `ss` are entered one after the other from `s`, and `t` is the last.
pub data Walk : CameraState → List CameraState → CameraState → Type 0 where
  here : {s : CameraState} → Walk s [] s
  step :
      {s t u : CameraState} {ss : List CameraState}
      → can_transition s t ≡ true
      → Walk t ss u
      → Walk s (t ∷ ss) u

-- The states from which a camera can answer without `starting` again.
abbrev warm : CameraState → Bool
warm starting = true
warm running = true
warm degraded = true
warm _ = false

warm_entry :
    (s t : CameraState)
    → can_transition s t ≡ true
    → warm s ≡ false
    → (warm t ≡ false) ⊎ (t ≡ starting)
unfolding can_transition
warm_entry s t h w = ground arith

active-warm : (s : CameraState) → active s ≡ true → warm s ≡ true
unfolding active
active-warm s h = ground arith

cold_walk :
    {s t : CameraState} {ss : List CameraState}
    → warm s ≡ false
    → Walk s ss t
    → active t ≡ true
    → Memᴰ starting ss
cold_walk {s} w here a = absurd (ground (arith, active-warm s a))
cold_walk {s} w (step {t = t} h rest) a = elim (warm_entry s t h w) [
  | inl cold ↦ Memᴰ.tail (cold_walk cold rest a)
  | inr e ↦ Memᴰ.head (sym e)
]

-- A camera that is stopped or in error answers on the network again only after a walk of allowed
-- transitions that enters `starting`.
pub active_needs_starting :
    (s t : CameraState) (ss : List CameraState)
    → (s ≡ stopped) ⊎ (s ≡ error)
    → Walk s ss t
    → active t ≡ true
    → Memᴰ starting ss
active_needs_starting s t ss h w a = cold_walk {s = s} (ground arith) w a

-- Every state has a walk of at most three allowed transitions back to `stopped`.
pub walk_to_stopped : (s : CameraState) → (ss : List CameraState) × Walk s ss stopped
unfolding can_transition
walk_to_stopped stopped = ([], here)
walk_to_stopped provisioning = (stopping ∷ stopped ∷ [], step refl (step refl here))
walk_to_stopped starting = (stopping ∷ stopped ∷ [], step refl (step refl here))
walk_to_stopped running = (stopping ∷ stopped ∷ [], step refl (step refl here))
walk_to_stopped degraded = (stopping ∷ stopped ∷ [], step refl (step refl here))
walk_to_stopped restarting = (stopping ∷ stopped ∷ [], step refl (step refl here))
walk_to_stopped stopping = (stopped ∷ [], step refl here)
walk_to_stopped error = (stopped ∷ [], step refl here)
