-- ===== src/Supervisor/Session/Watching.antt =====
-- The loop on a running camera against a test of what happened meanwhile.
use mock_vision.Prelude.{ℕ, ◌-◌, ◌≡◌, refl, Bool, true, false, not, ◌&&◌, List, [], ◌∷◌, arith, leb}
use mock_vision.Supervisor.Retries.{reset_retries}
use mock_vision.Supervisor.Session.{Life, close}
use mock_vision.Supervisor.Session.Running.{
  Course, Event, supervise, stop_asked, exited, stable, ticked, heartbeat, heartbeat_timeout, calm,
  with_beat,
}

-- No stop is asked for, the process lives, and each tick comes at most the timeout after the
-- heartbeat that is then the last.
unfoldable pub is_quiet : ℕ → ℕ → List Event → Bool
is_quiet timeout last [] = true
is_quiet timeout last (stop_asked _ ∷ es) = false
is_quiet timeout last (exited ∷ es) = false
is_quiet timeout last (stable ∷ es) = is_quiet timeout last es
is_quiet timeout last (heartbeat now ∷ es) = is_quiet timeout now es
is_quiet timeout last (ticked now ∷ es) = leb (now - last) timeout && is_quiet timeout last es

-- The loop has ended exactly when what happened is not quiet.
pub supervise-done :
    (clock : ℕ → ℕ) (interval : ℕ) (c : Course) (es : List Event) (l : Life)
    → l.done ≡ false
    → (supervise clock interval c es l).done
      ≡ not (is_quiet (heartbeat_timeout interval) l.session.last_beat es)
unfolding supervise is_quiet close
supervise-done clock interval c [] l h = h
supervise-done clock interval c (stop_asked reason ∷ es) l h = refl
supervise-done clock interval c (exited ∷ es) l h = refl
supervise-done clock interval c (stable ∷ es) l h =
    unfold reset_retries in supervise-done clock interval c es (calm l) h
supervise-done clock interval c (heartbeat now ∷ es) l h =
    supervise-done clock interval c es (with_beat now l) h
supervise-done clock interval c (ticked now ∷ es) l h =
    let rest = supervise-done clock interval c es l h in ground (arith, rest)
