-- ===== src/Supervisor/Session/Ended.antt =====
-- A whole session, from `startSession` to its end.
use mock_vision.Prelude.{
  ℕ, ◌-◌, ◌≡◌, refl, true, false, List, [], ◌∷◌, ◌++◌, none, arith, ltb, inl, inr, ◌⊎◌, Bool-cases,
  Option-cases,
}
use mock_vision.Prelude.Equality.{nat_eq, string_eq, ◌==◌}
use mock_vision.Prelude.GoMap.{GoMap, get}
use mock_vision.Domain.Lifecycle.{
  CameraState, stopped, provisioning, starting, running, error, can_transition,
}
use mock_vision.Domain.Lifecycle.Paths.{Walk, here}
use mock_vision.Supervisor.Retries.{Supervisor, reset_retries, should_run, start_session}
use mock_vision.Supervisor.Session.{Life, Exit, change, no_reason, set_state, plain}
use mock_vision.Supervisor.Session.Running.{
  Course, Event, HelloWait, ReadyWait, Launched, supervise, await_ready, configure, await_hello,
  await_launch, launch_camera, run, live, stop_asked, exited, stable, ticked, heartbeat,
  heartbeat_timeout, calm, with_beat, with_endpoints, connect, became_ready, reported_failure,
  exited_before_ready, not_ready, stopped_before_ready, said_hello, exited_before_hello, no_hello,
  stopped_before_hello, launch_failed, launched, new_session,
}
use mock_vision.Supervisor.Session.Legal.{in_progress, is_terminal, set_state-IsLegal, states_of}
use mock_vision.Supervisor.Session.Ending.{
  IsAlive, IsOver, finish_stopped-IsOver, graceful_stop-IsOver, fail-IsOver, fail_exited-IsOver,
  retries_or_not,
}

-- The session is over, or still in the loop on the running camera.
abbrev IsOutcome : Course → ℕ → List ℕ → Life → Type 0
IsOutcome c id destroyed l =
    (IsAlive id destroyed l × (l.session.state ≡ running)) ⊎ IsOver c id destroyed l

module _ (clock : ℕ → ℕ) (interval : ℕ) (c : Course) (id : ℕ) (destroyed : List ℕ) where
  enters-IsAlive :
      (st : CameraState) (l : Life)
      → can_transition l.session.state st ≡ true
      → in_progress st ≡ true
      → IsAlive id destroyed l
      → IsAlive id destroyed (change clock st no_reason l)
  enters-IsAlive st l t p h = (
    set_state-IsLegal clock st no_reason l.session t h.0,
    unfold set_state in p,
    unfold set_state in h.2,
    h.3,
    h.4,
  )

  supervise-IsOutcome :
      (es : List Event) (l : Life)
      → IsAlive id destroyed l
      → l.session.state ≡ running
      → IsOutcome c id destroyed (supervise clock interval c es l)
  unfolding supervise
  supervise-IsOutcome [] l h r = inl (h, r)
  supervise-IsOutcome (stop_asked reason ∷ es) l h r =
      inr (graceful_stop-IsOver clock c id destroyed reason l h)
  supervise-IsOutcome (exited ∷ es) l h r =
      inr (fail_exited-IsOver clock c id destroyed "the camera process exited" l h)
  supervise-IsOutcome (stable ∷ es) l h r =
      supervise-IsOutcome es (calm l) (unfold reset_retries in h) r
  supervise-IsOutcome (heartbeat now ∷ es) l h r = supervise-IsOutcome es (with_beat now l) h r
  supervise-IsOutcome (ticked now ∷ es) l h r =
      elim (Bool-cases (ltb (heartbeat_timeout interval) (now - l.session.last_beat))) [
        | inl b ↦
            rw b (
              inr (fail-IsOver clock c id destroyed (plain "no response: 3 heartbeats missed") l h))
        | inr b ↦ rw b (supervise-IsOutcome es l h r)
      ]

  await_ready-IsOutcome :
      (w : ReadyWait) (l : Life)
      → IsAlive id destroyed l
      → l.session.state ≡ starting
      → IsOutcome c id destroyed (await_ready clock interval c w l)
  unfolding await_ready
  await_ready-IsOutcome (became_ready es now) l h s =
      let m = with_endpoints es now l in
      supervise-IsOutcome c.events (change clock running no_reason m)
        (enters-IsAlive running m (rw s (unfold can_transition in refl)) refl h)
        (unfold set_state in refl)
  await_ready-IsOutcome (reported_failure reason) l h s =
      inr (fail-IsOver clock c id destroyed (plain reason) l h)
  await_ready-IsOutcome exited_before_ready l h s =
      inr (fail_exited-IsOver clock c id destroyed _ l h)
  await_ready-IsOutcome (stopped_before_ready reason) l h s =
      inr (graceful_stop-IsOver clock c id destroyed reason l h)
  await_ready-IsOutcome not_ready l h s = inr (fail-IsOver clock c id destroyed _ l h)

  configure-IsOutcome :
      (l : Life)
      → IsAlive id destroyed l
      → l.session.state ≡ starting
      → IsOutcome c id destroyed (configure clock interval c l)
  configure-IsOutcome l h s = elim (Option-cases c.configure_failure) [
    | inr (e, p) ↦ unfold configure in rw p (inr (fail-IsOver clock c id destroyed (plain e) l h))
    | inl p ↦ elim (Option-cases c.rejection) [
      | inr (e, q) ↦ unfold configure in rw p (rw q (inr (fail-IsOver clock c id destroyed _ l h)))
      | inl q ↦ unfold configure in rw p (rw q (await_ready-IsOutcome c.ready l h s))
    ]
  ]

  await_hello-IsOutcome :
      (w : HelloWait) (l : Life)
      → IsAlive id destroyed l
      → l.session.state ≡ starting
      → IsOutcome c id destroyed (await_hello clock interval c w l)
  unfolding await_hello
  await_hello-IsOutcome said_hello l h s = configure-IsOutcome l h s
  await_hello-IsOutcome exited_before_hello l h s =
      inr (fail_exited-IsOver clock c id destroyed _ l h)
  await_hello-IsOutcome (stopped_before_hello reason) l h s =
      inr (graceful_stop-IsOver clock c id destroyed reason l h)
  await_hello-IsOutcome no_hello l h s = inr (fail-IsOver clock c id destroyed _ l h)

  await_launch-IsOutcome :
      (w : Launched) (l : Life)
      → IsAlive id destroyed l
      → l.session.state ≡ provisioning
      → IsOutcome c id destroyed (await_launch clock interval c w l)
  unfolding await_launch
  await_launch-IsOutcome (launch_failed e) l h s =
      inr (fail-IsOver clock c id destroyed (plain e) l h)
  await_launch-IsOutcome (launched p) l h s =
      let m = connect p l in
      await_hello-IsOutcome c.hello (change clock starting no_reason m)
        (enters-IsAlive starting m (rw s (unfold can_transition in refl)) refl h)
        (unfold set_state in refl)

  launch_camera-IsOutcome :
      (l : Life)
      → IsAlive id destroyed l
      → l.session.state ≡ provisioning
      → IsOutcome c id destroyed (launch_camera clock interval c l)
  launch_camera-IsOutcome l h s = elim (Option-cases c.stop_requested) [
    | inr (e, p) ↦
        unfold launch_camera in rw p (inr (finish_stopped-IsOver clock c id destroyed e l h))
    | inl p ↦ elim (Option-cases c.spec_failure) [
      | inr (e, q) ↦
          unfold launch_camera in rw p (rw q (inr (fail-IsOver clock c id destroyed (plain e) l h)))
      | inl q ↦ unfold launch_camera in rw p (rw q (await_launch-IsOutcome c.launch l h s))
    ]
  ]

  run-IsOutcome :
      (l : Life)
      → IsAlive id destroyed l
      → l.session.state ≡ provisioning
      → IsOutcome c id destroyed (run clock interval c l)
  run-IsOutcome l h s = elim (Bool-cases (c.prepared.stop_reason == "")) [
    | inr b ↦ unfold run in rw b (inr (finish_stopped-IsOver clock c id destroyed _ l h))
    | inl b ↦ elim (Option-cases c.prepared.failure) [
      | inr (e, q) ↦ unfold run in rw b (rw q (inr (fail-IsOver clock c id destroyed _ l h)))
      | inl q ↦ unfold run in rw b (rw q (launch_camera-IsOutcome l h s))
    ]
  ]

live-IsOutcome :
    (clock : ℕ → ℕ) (interval : ℕ) (c : Course) (id : ℕ) (s : Supervisor) (exits : GoMap ℕ Exit)
    → IsOutcome c id s.destroyed (live clock interval c id s exits)
unfolding live
live-IsOutcome clock interval c id s exits =
    let l : Life = record {
      session = new_session id;
      cameras = start_session id s;
      exits = exits;
      done = false;
    } in
    run-IsOutcome clock interval c id s.destroyed (change clock provisioning no_reason l)
      (
        set_state-IsLegal clock provisioning no_reason l.session (unfold can_transition in refl)
            (here, refl),
        unfold set_state in refl,
        unfold set_state in refl,
        refl,
        refl,
      )
      (unfold set_state in refl)

-- However the waits of a session end, the states it publishes are a walk of allowed transitions
-- from `stopped` to the state it is in, and no transition is logged as unusual.
pub live-Walk :
    (clock : ℕ → ℕ) (interval : ℕ) (c : Course) (id : ℕ) (s : Supervisor) (exits : GoMap ℕ Exit)
    → (let after = (live clock interval c id s exits).session in
        Walk stopped (states_of after.published) after.state × (after.unusual ≡ []))
live-Walk clock interval c id s exits = elim (live-IsOutcome clock interval c id s exits) [
  | inl (h, _) ↦ h.0
  | inr h ↦ h.0
]

-- A session that has not ended has a running camera and destroyed nothing.
pub live-running :
    (clock : ℕ → ℕ) (interval : ℕ) (c : Course) (id : ℕ) (s : Supervisor) (exits : GoMap ℕ Exit)
    → (live clock interval c id s exits).done ≡ false
    → (let after = live clock interval c id s exits in
        (after.session.state ≡ running) × (after.cameras.destroyed ≡ s.destroyed))
live-running clock interval c id s exits e = elim (live-IsOutcome clock interval c id s exits) [
  | inl (h, r) ↦ (r, h.4)
  | inr h ↦ absurd (ground (arith, e, h.2))
]

-- A session that has ended, and that the map of sessions had as its camera's, is stopped or in
-- error, its camera's runtime was destroyed exactly once, and the map does not have it any more.
pub live-ends :
    (clock : ℕ → ℕ) (interval : ℕ) (c : Course) (id : ℕ) (s : Supervisor) (exits : GoMap ℕ Exit)
    → (live clock interval c id s exits).done ≡ true
    → c.is_own ≡ true
    → (let after = live clock interval c id s exits in
        (is_terminal after.session.state ≡ true)
        × (after.cameras.destroyed ≡ s.destroyed ++ id ∷ [])
        × (get id after.cameras.sessions ≡ none))
live-ends clock interval c id s exits e own = elim (live-IsOutcome clock interval c id s exits) [
  | inl (h, r) ↦ absurd (ground (arith, e, h.3))
  | inr h ↦ (h.1, h.3, h.4 own)
]

-- A session that is in error, of a camera that should run, leaves it with a retry pending or
-- given up.
pub live-retries :
    (clock : ℕ → ℕ) (interval : ℕ) (c : Course) (id : ℕ) (s : Supervisor) (exits : GoMap ℕ Exit)
    → (live clock interval c id s exits).session.state ≡ error
    → should_run c.wanted ≡ true
    → retries_or_not id (live clock interval c id s exits) ≡ true
live-retries clock interval c id s exits e w = elim (live-IsOutcome clock interval c id s exits) [
  | inl (h, r) ↦ absurd (ground (arith, e, r))
  | inr h ↦ h.5 e w
]
