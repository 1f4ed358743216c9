-- ===== src/Supervisor/Session/Ending.antt =====
-- How a session can end.
use mock_vision.Prelude.{
  ℕ, ◌+◌, ◌≡◌, refl, sym, ◌∙◌, String, Bool, true, false, ◌||◌, List, [], ◌∷◌, ◌++◌, Option, none,
  some, arith, ltb, nat_beq, nat_beq_iff, inl, inr, Bool-cases,
}
use mock_vision.Prelude.Equality.{nat_eq, string_eq}
use mock_vision.Prelude.GoMap.{GoMap, get, del, get-put, get-del}
use mock_vision.Domain.Lifecycle.{error, DesiredState}
use mock_vision.Domain.Backoff.{max_auto_retries}
use mock_vision.Supervisor.Retries.{
  Supervisor, RetryState, after_failure, should_run, retry_pending, gave_up, or_no_retry,
}
use mock_vision.Supervisor.Session.{
  Life, Reason, set_state, finish_stopped, graceful_stop, fail, fail_exited, close, plain,
  disconnect, destroy,
}
use mock_vision.Supervisor.Session.Running.{Course}
use mock_vision.Supervisor.Session.Legal.{
  IsLegal, in_progress, is_terminal, stopped-IsLegal, error-IsLegal,
}

-- The session is under way, and the runtime of its camera is as it was.
abbrev pub IsAlive : ℕ → List ℕ → Life → Type 0
IsAlive id destroyed l =
    IsLegal l.session
    × (in_progress l.session.state ≡ true)
    × (l.session.id ≡ id)
    × (l.done ≡ false)
    × (l.cameras.destroyed ≡ destroyed)

-- A camera that should run and failed is tried again or given up.
abbrev pub retries_or_not : ℕ → Life → Bool
retries_or_not id l = retry_pending id l.cameras || gave_up id l.cameras

abbrev pub IsOver : Course → ℕ → List ℕ → Life → Type 0
IsOver c id destroyed l =
    IsLegal l.session
    × (is_terminal l.session.state ≡ true)
    × (l.done ≡ true)
    × (l.cameras.destroyed ≡ destroyed ++ id ∷ [])
    × (c.is_own ≡ true → get id l.cameras.sessions ≡ none)
    × (l.session.state ≡ error → should_run c.wanted ≡ true → retries_or_not id l ≡ true)

self : (id : ℕ) → nat_beq id id ≡ true
self id = (nat_beq_iff id id).1 refl

-- The retry state after a failure.
after_failure-retries :
    (wanted : Option DesiredState) (id : ℕ) (s : Supervisor)
    → should_run wanted ≡ true
    → retry_pending id (after_failure wanted id s) || gave_up id (after_failure wanted id s) ≡ true
after_failure-retries wanted id s h =
    let r = or_no_retry (get id s.retries) in
    elim (Bool-cases (ltb max_auto_retries (r.attempts + 1))) [
      | inl b ↦
          let g = get-put id id (record r { attempts = r.attempts + 1 }) s.retries in
          unfold after_failure retry_pending gave_up in rw h (rw b (ground (arith, self id, g, b)))
      | inr b ↦
          let next : RetryState = record { attempts = r.attempts + 1; timer = some s.next_timer } in
          let g = get-put id id next s.retries in
          unfold after_failure retry_pending gave_up in rw h (rw b (ground (arith, self id, g, b)))
    ]

after_failure-destroyed :
    (wanted : Option DesiredState) (id : ℕ) (s : Supervisor)
    → (after_failure wanted id s).destroyed ≡ s.destroyed
unfolding after_failure
after_failure-destroyed wanted id s = ground arith

after_failure-session :
    (wanted : Option DesiredState) (id : ℕ) (s : Supervisor)
    → (after_failure wanted id s).sessions ≡ s.sessions
unfolding after_failure
after_failure-session wanted id s = ground arith

forgotten : (id : ℕ) (m : GoMap ℕ (Option String)) → get id (del id m) ≡ none
forgotten id m = get-del id id m ∙ (rw (self id))

module _ (clock : ℕ → ℕ) (c : Course) (id : ℕ) (destroyed : List ℕ) where
  pub finish_stopped-IsOver :
      (reason : String) (l : Life)
      → IsAlive id destroyed l
      → IsOver c id destroyed (close c.is_own (finish_stopped clock reason l))
  unfolding finish_stopped set_state close
  finish_stopped-IsOver reason l h = (
    stopped-IsLegal clock (plain reason) l.session h.1 h.0,
    refl,
    refl,
    rw h.2 (rw h.4),
    λ own. rw own (rw h.2 (forgotten id l.cameras.sessions)),
    λ e _. absurd (ground (arith, e)),
  )

  pub graceful_stop-IsOver :
      (reason : String) (l : Life)
      → IsAlive id destroyed l
      → IsOver c id destroyed (close c.is_own (graceful_stop clock reason l))
  unfolding graceful_stop set_state close
  graceful_stop-IsOver reason l h = (
    stopped-IsLegal clock (plain reason) l.session h.1 h.0,
    refl,
    refl,
    rw h.2 (rw h.4),
    λ own. rw own (rw h.2 (forgotten id l.cameras.sessions)),
    λ e _. absurd (ground (arith, e)),
  )

  pub fail-IsOver :
      (reason : Reason) (l : Life)
      → IsAlive id destroyed l
      → IsOver c id destroyed (close c.is_own (fail clock c.wanted reason l))
  unfolding fail set_state close
  fail-IsOver reason l h =
      let d : Supervisor = (destroy (disconnect l)).cameras in
      (
        error-IsLegal clock reason l.session h.1 h.0,
        refl,
        refl,
        after_failure-destroyed c.wanted l.session.id d ∙ (rw h.2 (rw h.4)),
        λ own. rw own (
            rw (after_failure-session c.wanted l.session.id d)
              (rw h.2 (forgotten id l.cameras.sessions))),
        λ _ w.
            unfold retry_pending gave_up in
            rw (sym h.2) (after_failure-retries c.wanted l.session.id d w),
      )

  pub fail_exited-IsOver :
      (base : String) (l : Life)
      → IsAlive id destroyed l
      → IsOver c id destroyed (close c.is_own (fail_exited clock c.wanted base l))
  unfolding fail_exited
  fail_exited-IsOver base l h = fail-IsOver _ (record l { exits = del l.session.id l.exits }) h
