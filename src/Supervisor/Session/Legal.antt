-- ===== src/Supervisor/Session/Legal.antt =====
-- The changes of state of a session, against the table of transitions.
use mock_vision.Prelude.{
  ℕ, ◌≡◌, refl, sym, ap, subst, Bool, true, false, List, [], ◌∷◌, ◌++◌, arith, map, if◌then◌else◌,
}
use mock_vision.Domain.Lifecycle.{
  CameraState, stopped, provisioning, starting, running, stopping, error, can_transition,
}
use mock_vision.Domain.Lifecycle.Paths.{Walk, here, step}
use mock_vision.Supervisor.Session.{Session, Status, Reason, set_state, is_unusual, no_reason}

abbrev pub states_of : List Status → List CameraState
states_of = map (λ p. p.state)

-- The states that were published lead from `stopped` to the session's, and none was unusual.
abbrev pub IsLegal : Session → Type 0
IsLegal ss = Walk stopped (states_of ss.published) ss.state × (ss.unusual ≡ [])

Walk-append :
    {s t u : CameraState} {ss : List CameraState}
    → Walk s ss t
    → can_transition t u ≡ true
    → Walk s (ss ++ u ∷ []) u
Walk-append here h = step h here
Walk-append (step k w) h = step k (Walk-append w h)

states_of-append :
    (ps : List Status) (p : Status) → states_of (ps ++ p ∷ []) ≡ states_of ps ++ p.state ∷ []
states_of-append [] p = refl
states_of-append (q ∷ ps) p = ap (λ (l : List CameraState). q.state ∷ l) (states_of-append ps p)

-- The walk with one more state that may follow.
Walk-publish :
    (ps : List Status) (p : Status) {s t : CameraState}
    → Walk s (states_of ps) t
    → can_transition t p.state ≡ true
    → Walk s (states_of (ps ++ p ∷ [])) p.state
Walk-publish ps p {s} w h =
    subst (λ (x : List CameraState). Walk s x p.state) (sym (states_of-append ps p))
      (Walk-append w h)

usual :
    (s t : CameraState) (log : List (CameraState × CameraState))
    → can_transition s t ≡ true
    → log ≡ []
    → log ++ (if is_unusual s t then (s, t) ∷ [] else []) ≡ []
usual s t log h e = ground (arith, h, e)

pub set_state-IsLegal :
    (clock : ℕ → ℕ) (st : CameraState) (reason : Reason) (ss : Session)
    → can_transition ss.state st ≡ true
    → IsLegal ss
    → IsLegal (set_state clock st reason ss)
unfolding set_state
set_state-IsLegal clock st reason ss h l =
    (Walk-publish ss.published _ l.0 h, usual ss.state st ss.unusual h l.1)

-- The states that a session can fail in and be stopped in.
abbrev pub in_progress : CameraState → Bool
in_progress provisioning = true
in_progress starting = true
in_progress running = true
in_progress _ = false

abbrev pub is_terminal : CameraState → Bool
is_terminal stopped = true
is_terminal error = true
is_terminal _ = false

pub can_fail : (s : CameraState) → in_progress s ≡ true → can_transition s error ≡ true
unfolding can_transition
can_fail s h = ground arith

pub can_stop : (s : CameraState) → in_progress s ≡ true → can_transition s stopping ≡ true
unfolding can_transition
can_stop s h = ground arith

pub stopped-IsLegal :
    (clock : ℕ → ℕ) (reason : Reason) (ss : Session)
    → in_progress ss.state ≡ true
    → IsLegal ss
    → IsLegal (set_state clock stopped no_reason (set_state clock stopping reason ss))
stopped-IsLegal clock reason ss h l =
    set_state-IsLegal clock stopped no_reason (set_state clock stopping reason ss)
      (unfold set_state can_transition in refl)
      (set_state-IsLegal clock stopping reason ss (can_stop ss.state h) l)

pub error-IsLegal :
    (clock : ℕ → ℕ) (reason : Reason) (ss : Session)
    → in_progress ss.state ≡ true
    → IsLegal ss
    → IsLegal (set_state clock error reason ss)
error-IsLegal clock reason ss h l = set_state-IsLegal clock error reason ss (can_fail ss.state h) l
