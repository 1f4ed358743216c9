-- ===== src/Tests/Life.antt =====
-- Sessions of cameras.
use mock_vision.Prelude.{ℕ, suc, ◌≡◌, refl, true, false, not, List, [], ◌∷◌, none, some}
use mock_vision.Prelude.Equality.{nat_eq}
use mock_vision.Prelude.GoMap.{get}
use mock_vision.Domain.Lifecycle.{stopped, error, desired_running}
use mock_vision.Domain.Lifecycle.Paths.{Walk}
use mock_vision.Supervisor.Retries.{Supervisor}
use mock_vision.Supervisor.Session.{Life, close, fail, set_state}
use mock_vision.Supervisor.Session.Running.{
  run, launch_camera, await_launch, await_hello, configure, await_ready, Course, Event, new_session,
  live, supervise, launched, said_hello, became_ready, heartbeat, ticked, stable, stop_asked,
  heartbeat_timeout,
}
use mock_vision.Supervisor.Session.Legal.{states_of, is_terminal}
use mock_vision.Supervisor.Session.Ending.{retries_or_not}
use mock_vision.Supervisor.Session.Ended.{live-Walk, live-ends, live-retries}
use mock_vision.Supervisor.Session.Watching.{supervise-done, is_quiet}

abbrev idle_node : Supervisor
idle_node = record {
  retries = [];
  sessions = [];
  timers = [];
  next_timer = 0;
  refused = [];
  destroyed = [];
}

-- A camera that becomes ready and runs until the given events are over.
abbrev ready_course : List Event → Course
ready_course es = record {
  prepared = record { stop_reason = ""; failure = none };
  stop_requested = none;
  spec_failure = none;
  launch = launched (record { pid = 40; netns = "sim-gate"; ip = "10.0.0.9" });
  hello = said_hello;
  configure_failure = none;
  rejection = none;
  ready = became_ready ("http" ∷ []) 10;
  events = es;
  wanted = some desired_running;
  is_own = true;
}

-- A heartbeat, then a tick, with an interval of 5 ms; and a stop after them.
abbrev alive_events : List Event
alive_events = heartbeat 2_000_000_000 ∷ ticked 2_500_000_000 ∷ stable ∷ []

abbrev stop_events : List Event
stop_events = heartbeat 2_000_000_000 ∷ stop_asked "stopped by ana" ∷ []

abbrev late_events : List Event
late_events = ticked 2_000_000_000 ∷ []

abbrev seconds : ℕ → ℕ
seconds n = suc n

-- Two courses, computed.
over : (live seconds 5 (ready_course stop_events) 7 idle_node []).done ≡ true
unfolding live run launch_camera await_launch await_hello configure await_ready supervise close
over = refl

failed : (live seconds 5 (ready_course late_events) 7 idle_node []).session.state ≡ error
unfolding live run launch_camera await_launch await_hello configure await_ready supervise close fail
    set_state
failed = refl

abbrev begun : Life
begun = record { session = new_session 7; cameras = idle_node; exits = []; done = false }

live-Walk_example :
    let after = (live seconds 5 (ready_course stop_events) 7 idle_node []).session in
    Walk stopped (states_of after.published) after.state × (after.unusual ≡ [])
live-Walk_example = live-Walk seconds 5 (ready_course stop_events) 7 idle_node []

live-ends_example :
    let after = live seconds 5 (ready_course stop_events) 7 idle_node [] in
    (is_terminal after.session.state ≡ true)
    × (after.cameras.destroyed ≡ 7 ∷ [])
    × (get 7 after.cameras.sessions ≡ none)
live-ends_example = live-ends seconds 5 (ready_course stop_events) 7 idle_node [] over refl

live-retries_example :
    retries_or_not 7 (live seconds 5 (ready_course late_events) 7 idle_node []) ≡ true
live-retries_example = live-retries seconds 5 (ready_course late_events) 7 idle_node [] failed refl

supervise-done_example :
    (supervise seconds 5 (ready_course []) alive_events begun).done
    ≡ not (is_quiet (heartbeat_timeout 5) 0 alive_events)
supervise-done_example = supervise-done seconds 5 (ready_course []) alive_events begun refl
