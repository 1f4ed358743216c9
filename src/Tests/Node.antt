-- ===== src/Tests/Node.antt =====
-- The supervisor of the cameras.
use mock_vision.Supervisor.Control.{Node}
use mock_vision.Prelude.{
  ℕ, ◌+◌, ◌≡◌, refl, false, ◌&&◌, ◌||◌, List, [], ◌∷◌, ◌++◌, none, some, arith, leb, ltb, min,
}
use mock_vision.Prelude.Equality.{nat_eq}
use mock_vision.Prelude.GoMap.{get}
use mock_vision.Domain.Text.{Unicode, text_eq}
use mock_vision.Domain.Lifecycle.{desired_running, desired_stopped}
use mock_vision.Domain.Backoff.{retry_backoff, max_auto_retries}
use mock_vision.Supervisor.Retries.{Supervisor, gave_up, retry_pending, Look}
use mock_vision.Supervisor.Attempts.{after_failures, after_failures-attempts, after_failures-wait}
use mock_vision.Supervisor.Reconcile.{World, reconcile, CameraRow}
use mock_vision.Supervisor.Converging.{has_session, starts, orphans, reconcile-sessions}
use mock_vision.Supervisor.Names.{Names, netns_name}
use mock_vision.Supervisor.Reserved.{netns_name-reserved}

-- Camera 2 has a session.
abbrev node : Supervisor
node = record {
  retries = [];
  sessions = (2, none) ∷ [];
  timers = [];
  next_timer = 0;
  refused = [];
  destroyed = [];
}

after_failures-attempts_example :
    let after = after_failures 6 1 node in
    (after.next_timer ≡ node.next_timer + min 6 max_auto_retries)
    × (retry_pending 1 after ≡ (leb 1 6 && leb 6 max_auto_retries))
    × (gave_up 1 after ≡ ltb max_auto_retries 6)
unfolding get
after_failures-attempts_example = after_failures-attempts 6 1 node refl

after_failures-wait_example :
    get (node.next_timer + 2) (after_failures 3 1 node).timers ≡ some (1, retry_backoff 3)
unfolding get
after_failures-wait_example = after_failures-wait 2 1 node refl (omega arith)

-- Camera 1 is to run, camera 2 is to stop; runtimes 1, 2 and 9 live.
abbrev cams : List CameraRow
cams =
    record { id = 1; desired = desired_running } ∷ record { id = 2; desired = desired_stopped } ∷ []

abbrev live : List ℕ
live = 1 ∷ 2 ∷ 9 ∷ []

abbrev world : World
world = record {
  cameras = some cams;
  look = λ id. record { loaded = some desired_running; refusal = none };
  live = some live;
}

reconcile-sessions_example :
    (has_session 1 (reconcile world node) ≡ (has_session 1 node || starts world.look cams 1 node))
    × ((reconcile world node).destroyed ≡ node.destroyed ++ orphans live (reconcile world node))
reconcile-sessions_example = reconcile-sessions world cams live 1 node refl refl

abbrev plain : Unicode
plain = record { lower = λ r. r; is_space = λ r. false; is_control = λ r. false }

-- "gate", held by "b"
abbrev names : Names
names = (115 ∷ 105 ∷ 109 ∷ 45 ∷ 103 ∷ [], 98 ∷ []) ∷ []

netns_name-reserved_example :
    let r = netns_name plain (103 ∷ []) (97 ∷ []) names in
    (get r.0 r.1 ≡ some (97 ∷ [])) × (get (115 ∷ 105 ∷ 109 ∷ 45 ∷ 103 ∷ []) r.1 ≡ some (98 ∷ []))
unfolding get
netns_name-reserved_example =
    netns_name-reserved plain (103 ∷ []) (97 ∷ []) (115 ∷ 105 ∷ 109 ∷ 45 ∷ 103 ∷ []) (98 ∷ []) names
      refl refl refl

abbrev controlled : Node
controlled = record { cameras = after_failures 2 1 node; desired = []; audit = [] }

abbrev admitted : Look
admitted = record { loaded = some desired_stopped; refusal = none }
