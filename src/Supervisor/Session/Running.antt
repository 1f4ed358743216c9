-- ===== src/Supervisor/Session/Running.antt =====
-- `startSession` and `run` of supervisor.go: a session from provisioning to its end. How each wait
-- ends, and what the helper, the camera and the store answer, are arguments.
use mock_vision.Prelude.{
  ℕ, ◌+◌, ◌-◌, ◌*◌, String, Bool, true, false, List, [], ◌∷◌, Option, none, some, ltb,
  if◌then◌else◌,
}
use mock_vision.Prelude.Equality.{nat_eq, string_eq, ◌==◌}
use mock_vision.Prelude.GoMap.{GoMap}
use mock_vision.Domain.Lifecycle.{stopped, provisioning, starting, running, DesiredState}
use mock_vision.Supervisor.Retries.{Supervisor, start_session, reset_retries}
use mock_vision.Supervisor.Session.{
  Session, Life, Process, Exit, plain, because, no_reason, change, set_state, finish_stopped,
  graceful_stop, fail, fail_exited, close,
}

-- In nanoseconds; the interval between heartbeats is a parameter of the model, in milliseconds.
abbrev pub heartbeat_timeout : ℕ → ℕ
heartbeat_timeout interval = 3 * interval * 1_000_000 + 1_000_000_000

-- `prepareStreamsUnlessStopped`: the reason of a stop, "" for none, and the error.
pub record Prepared : Type 0 where
  pub stop_reason : String
  pub failure : Option String

pub data Launched : Type 0 where
  launch_failed : String → Launched
  launched : Process → Launched

pub data HelloWait : Type 0 where
  said_hello exited_before_hello no_hello : HelloWait
  stopped_before_hello : String → HelloWait

pub data ReadyWait : Type 0 where
  became_ready : List String → ℕ → ReadyWait
  reported_failure : String → ReadyWait
  exited_before_ready not_ready : ReadyWait
  stopped_before_ready : String → ReadyWait

-- What happens while the camera runs; `heartbeat` is the handler's.
pub data Event : Type 0 where
  stop_asked : String → Event
  exited stable : Event
  ticked heartbeat : ℕ → Event

-- The run's waits and answers, in the order of the code.
pub record Course : Type 0 where
  pub prepared : Prepared
  pub stop_requested : Option String
  pub spec_failure : Option String
  pub launch : Launched
  pub hello : HelloWait
  pub configure_failure : Option String
  pub rejection : Option String
  pub ready : ReadyWait
  pub events : List Event
  pub wanted : Option DesiredState
  pub is_own : Bool

abbrev pub new_session : ℕ → Session
new_session id = record {
  id = id;
  state = stopped;
  reason = no_reason;
  started = 0;
  last_beat = 0;
  process = none;
  endpoints = [];
  connected = false;
  published = [];
  unusual = [];
}

abbrev pub with_beat : ℕ → Life → Life
with_beat now l = record l { session = record (l.session) { last_beat = now } }

abbrev pub with_endpoints : List String → ℕ → Life → Life
with_endpoints es now l = record l {
  session = record (l.session) { endpoints = es; last_beat = now };
}

abbrev pub connect : Process → Life → Life
connect p l = record l { session = record (l.session) { process = some p; connected = true } }

abbrev pub calm : Life → Life
calm l = record l { cameras = reset_retries l.session.id l.cameras }

module _ (clock : ℕ → ℕ) (interval : ℕ) (c : Course) where
  -- The loop on a running camera; with no event left the session is still in it.
  unfoldable pub supervise : List Event → Life → Life
  unfolding graceful_stop fail fail_exited close reset_retries
  supervise [] l = l
  supervise (stop_asked reason ∷ es) l = close c.is_own (graceful_stop clock reason l)
  supervise (exited ∷ es) l =
      close c.is_own (fail_exited clock c.wanted "the camera process exited" l)
  supervise (stable ∷ es) l = supervise es (calm l)
  supervise (heartbeat now ∷ es) l = supervise es (with_beat now l)
  supervise (ticked now ∷ es) l =
      let rest = supervise es l in
      if ltb (heartbeat_timeout interval) (now - l.session.last_beat)
      then close c.is_own (fail clock c.wanted (plain "no response: 3 heartbeats missed") l)
      else rest

  -- From the configuration's answer on.
  unfoldable pub await_ready : ReadyWait → Life → Life
  unfolding supervise fail fail_exited graceful_stop close
  await_ready (became_ready es now) l =
      supervise c.events (change clock running no_reason (with_endpoints es now l))
  await_ready (reported_failure reason) l = close c.is_own (fail clock c.wanted (plain reason) l)
  await_ready exited_before_ready l =
      close c.is_own (fail_exited clock c.wanted "the camera process exited during start-up" l)
  await_ready (stopped_before_ready reason) l = close c.is_own (graceful_stop clock reason l)
  await_ready not_ready l =
      close c.is_own (fail clock c.wanted (plain "the camera did not become ready") l)

  unfoldable pub configure : Life → Life
  unfolding await_ready fail close
  configure l = elim c.configure_failure [
    | some e ↦ close c.is_own (fail clock c.wanted (plain e) l)
    | none ↦ elim c.rejection [
      | some e ↦ close c.is_own (fail clock c.wanted (because "configuration rejected" e) l)
      | none ↦ await_ready c.ready l
    ]
  ]

  unfoldable pub await_hello : HelloWait → Life → Life
  unfolding configure fail fail_exited graceful_stop close
  await_hello said_hello l = configure l
  await_hello exited_before_hello l =
      close c.is_own (fail_exited clock c.wanted "the camera process exited during start-up" l)
  await_hello (stopped_before_hello reason) l = close c.is_own (graceful_stop clock reason l)
  await_hello no_hello l =
      close c.is_own (fail clock c.wanted (plain "the camera process did not say hello") l)

  unfoldable pub await_launch : Launched → Life → Life
  unfolding await_hello fail close set_state
  await_launch (launch_failed e) l = close c.is_own (fail clock c.wanted (plain e) l)
  await_launch (launched p) l = await_hello c.hello (change clock starting no_reason (connect p l))

  unfoldable pub launch_camera : Life → Life
  unfolding await_launch fail finish_stopped close
  launch_camera l = elim c.stop_requested [
    | some reason ↦ close c.is_own (finish_stopped clock reason l)
    | none ↦ elim c.spec_failure [
      | some e ↦ close c.is_own (fail clock c.wanted (plain e) l)
      | none ↦ await_launch c.launch l
    ]
  ]

  unfoldable pub run : Life → Life
  unfolding launch_camera fail finish_stopped close
  run l =
      if c.prepared.stop_reason == ""
      then (elim c.prepared.failure [
        | some e ↦ close c.is_own (fail clock c.wanted (because "stream" e) l)
        | none ↦ launch_camera l
      ])
      else close c.is_own (finish_stopped clock c.prepared.stop_reason l)

  -- `startSession`, and the run it starts.
  unfoldable pub live : ℕ → Supervisor → GoMap ℕ Exit → Life
  unfolding run set_state
  live id cameras exits = run (
      change clock provisioning no_reason (record {
        session = new_session id;
        cameras = start_session id cameras;
        exits = exits;
        done = false;
      }))
