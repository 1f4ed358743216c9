-- ===== src/Supervisor/Attempts.antt =====
-- How often a camera that fails is started again.
use mock_vision.Prelude.{
  ℕ, zero, suc, ◌+◌, ◌≡◌, refl, ap, ◌∙◌, true, false, ◌&&◌, none, some, arith, ltb, leb, nat_beq,
  nat_beq_iff, min, Bool-cases, inl, inr, ◌<◌,
}
use mock_vision.Prelude.Equality.{nat_eq}
use mock_vision.Prelude.GoMap.{get, put, is_some, get-put, GoMap}
use mock_vision.Domain.Lifecycle.{desired_running}
use mock_vision.Domain.Backoff.{retry_backoff, max_auto_retries}
use mock_vision.Supervisor.Retries.{
  RetryState, Supervisor, or_no_retry, after_failure, gave_up, retry_pending,
}

-- Failures of one camera, one after the other, while it should be running.
unfoldable pub after_failures : ℕ → ℕ → Supervisor → Supervisor
unfolding after_failure
after_failures zero id s = s
after_failures (suc n) id s = after_failure (some desired_running) id (after_failures n id s)

get-put_self : {V : Type 0} (id : ℕ) (v : V) (m : GoMap ℕ V) → get id (put id v m) ≡ some v
get-put_self id v m =
    let e : nat_beq id id ≡ true = (nat_beq_iff id id).1 refl in get-put id id v m ∙ (rw e)

-- The retry state of a camera that failed `n` times since it had none.
abbrev IsCount : ℕ → ℕ → ℕ → Supervisor → Type 0
IsCount id first n s =
    ((or_no_retry (get id s.retries)).attempts ≡ n)
    × (is_some (or_no_retry (get id s.retries)).timer ≡ leb 1 n)
    × (s.next_timer ≡ first + min n max_auto_retries)

after_failure-IsCount :
    (id first n : ℕ) (s : Supervisor)
    → IsCount id first n s
    → IsCount id first (suc n) (after_failure (some desired_running) id s)
after_failure-IsCount id first n s h =
    let r = or_no_retry (get id s.retries) in
    elim (Bool-cases (ltb max_auto_retries (r.attempts + 1))) [
      | inl b ↦
          let g = get-put_self id (record r { attempts = r.attempts + 1 }) s.retries in
          unfold after_failure in rw b (rw g (ground (arith, h, b)))
      | inr b ↦
          let next : RetryState = record { attempts = r.attempts + 1; timer = some s.next_timer } in
          let g = get-put_self id next s.retries in
          unfold after_failure in rw b (rw g (ground (arith, h, b)))
    ]

after_failures-IsCount :
    (n id : ℕ) (s : Supervisor)
    → get id s.retries ≡ none
    → IsCount id s.next_timer n (after_failures n id s)
unfolding after_failures
after_failures-IsCount zero id s h = rw h (ground arith)
after_failures-IsCount (suc n) id s h =
    after_failure-IsCount id s.next_timer n (after_failures n id s)
      (after_failures-IsCount n id s h)

-- A camera without retry state that fails `n` times in a row while it should be running: a timer is
-- set for each of the first five failures and for no other, a retry is pending after one to five of
-- them, and the camera has given up after the sixth.
pub after_failures-attempts :
    (n id : ℕ) (s : Supervisor)
    → get id s.retries ≡ none
    → (let after = after_failures n id s in
        (after.next_timer ≡ s.next_timer + min n max_auto_retries)
        × (retry_pending id after ≡ (leb 1 n && leb n max_auto_retries))
        × (gave_up id after ≡ ltb max_auto_retries n))
unfolding gave_up retry_pending
after_failures-attempts n id s h =
    let c = after_failures-IsCount n id s h in (c.2, ground (arith, c.0, c.1), ground (arith, c.0))

-- The timer of each of the first five failures waits as long as `RetryBackoff` says for it.
pub after_failures-wait :
    (n id : ℕ) (s : Supervisor)
    → get id s.retries ≡ none
    → n < max_auto_retries
    → get (s.next_timer + n) (after_failures (suc n) id s).timers ≡ some (id, retry_backoff (suc n))
unfolding after_failures
after_failures-wait n id s h l =
    let before = after_failures n id s in
    let c = after_failures-IsCount n id s h in
    let r = or_no_retry (get id before.retries) in
    let b : ltb max_auto_retries (r.attempts + 1) ≡ false = ground (arith, c.0, l) in
    let t : before.next_timer ≡ s.next_timer + n = omega (arith, c.2, l) in
    let a : r.attempts + 1 ≡ suc n = omega (arith, c.0) in
    unfold after_failure in
    rw b (
      rw⁻¹ t (
        get-put_self before.next_timer (id, retry_backoff (r.attempts + 1)) before.timers
        ∙ ap (λ (k : ℕ). some (id, retry_backoff k)) a))
