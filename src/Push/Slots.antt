-- ===== src/Push/Slots.antt =====
-- How many deliveries send at once.
use mock_vision.Prelude.{
  ℕ, zero, suc, ◌+◌, ◌≡◌, ◌≤◌, refl, ◌∙◌, String, List, [], ◌∷◌, ◌++◌, arith, map,
}
use mock_vision.Prelude.Int.{ℤ, pos, negsuc}
use mock_vision.Push.{
  Engine, Delivery, Move, Phase, Sent, waiting, sending, backing_off, finished, move, move_at, step,
  steps, start, dispatch, new_delivery, attempts_of, after_send, slot_free, answered, back_off_over,
  context_done,
}

abbrev sends : Phase → ℕ
sends (sending _) = 1
sends _ = 0

-- How many of the deliveries are in `send`.
unfoldable pub sending_now : List Delivery → ℕ
sending_now [] = 0
sending_now (d ∷ ds) = sends d.phase + sending_now ds

-- The semaphore and the counter count the deliveries that send, with `others` more than are listed.
abbrev IsCounted : ℕ → List Delivery → Engine → Type 0
IsCounted others ds e =
    (e.in_use ≡ others + sending_now ds)
    × (e.inflight ≡ others + sending_now ds)
    × (e.in_use ≤ e.max_parallel)

sends-after_send : (k : ℕ) (s : Sent) (d : Delivery) → sends (after_send k s d).phase ≡ 0
unfolding after_send
sends-after_send k s d = ground arith

abbrev IsCountedMove : ℕ → ℕ → Delivery × Engine → Type 0
IsCountedMove others max r =
    (r.1.in_use ≡ others + sends r.0.phase)
    × (r.1.inflight ≡ others + sends r.0.phase)
    × (r.1.in_use ≤ r.1.max_parallel)
    × (r.1.max_parallel ≡ max)

answered-IsCounted :
    (others : ℕ) (s : Sent) (d : Delivery) (e : Engine) (p : Phase)
    → d.phase ≡ p
    → e.in_use ≡ others + sends d.phase
    → e.inflight ≡ others + sends d.phase
    → e.in_use ≤ e.max_parallel
    → IsCountedMove others e.max_parallel (move (answered s) d e)
unfolding move
answered-IsCounted others s d e (waiting k) q u i l = ground (arith, q, u, i, l)
answered-IsCounted others s d e (sending k) q u i l =
    ground (arith, q, u, i, l, sends-after_send k s d)
answered-IsCounted others s d e (backing_off k) q u i l = ground (arith, q, u, i, l)
answered-IsCounted others s d e finished q u i l = ground (arith, q, u, i, l)

move-IsCounted :
    (others : ℕ) (m : Move) (d : Delivery) (e : Engine)
    → e.in_use ≡ others + sends d.phase
    → e.inflight ≡ others + sends d.phase
    → e.in_use ≤ e.max_parallel
    → IsCountedMove others e.max_parallel (move m d e)
unfolding move
move-IsCounted others slot_free d e u i l = ground (arith, u, i, l)
move-IsCounted others (answered s) d e u i l = answered-IsCounted others s d e d.phase refl u i l
move-IsCounted others back_off_over d e u i l = ground (arith, u, i, l)
move-IsCounted others context_done d e u i l = ground (arith, u, i, l)

-- A move of a listed delivery keeps the counts, and the size of the semaphore.
move_at-IsCounted :
    (i : ℕ) (m : Move) (others : ℕ) (ds : List Delivery) (e : Engine)
    → IsCounted others ds e
    → (let r = move_at i m ds e in IsCounted others r.0 r.1 × (r.1.max_parallel ≡ e.max_parallel))
unfolding move_at sending_now
move_at-IsCounted i m others [] e h = (h, refl)
move_at-IsCounted zero m others (d ∷ ds) e h =
    let k =
      move-IsCounted (others + sending_now ds) m d e (omega (arith, h.0)) (omega (arith, h.1))
        h.2 in
    ground (arith, k)
move_at-IsCounted (suc i) m others (d ∷ ds) e h =
    let k =
      move_at-IsCounted i m (others + sends d.phase) ds e
        (omega (arith, h.0), omega (arith, h.1), h.2) in
    ground (arith, k)

steps-IsCounted :
    (ms : List (ℕ × Move)) (e : Engine)
    → IsCounted 0 e.deliveries e
    → (let after = steps ms e in
        IsCounted 0 after.deliveries after × (after.max_parallel ≡ e.max_parallel))
unfolding steps
steps-IsCounted [] e h = (h, refl)
steps-IsCounted ((i, m) ∷ ms) e h =
    let one = move_at-IsCounted i m 0 e.deliveries e h in
    let rest = steps-IsCounted ms (step (i, m) e) (unfold step in one.0) in
    (rest.0, rest.1 ∙ (unfold step in one.1))

sending_now-new :
    (ds : List Delivery) (n : ℕ) (ts : List (ℕ × String))
    → sending_now (ds ++ map (λ t. new_delivery n t.0) ts) ≡ sending_now ds
unfolding sending_now
sending_now-new [] n [] = refl
sending_now-new [] n (t ∷ ts) = ground (arith, sending_now-new [] n ts)
sending_now-new (d ∷ ds) n ts = omega (arith, sending_now-new ds n ts)

dispatch-IsCounted :
    (retries : ℤ) (ts : List (ℕ × String)) (e : Engine)
    → IsCounted 0 e.deliveries e
    → IsCounted 0 (dispatch retries ts e).deliveries (dispatch retries ts e)
unfolding dispatch
dispatch-IsCounted retries ts e h = rw (sending_now-new e.deliveries (attempts_of retries) _) h

-- What the engine does over its life: events to deliver, and moves of deliveries.
pub data Life : Type 0 where
  dispatched : ℤ → List (ℕ × String) → Life
  moved : List (ℕ × Move) → Life

unfoldable pub live : List Life → Engine → Engine
unfolding dispatch steps
live [] e = e
live (dispatched retries ts ∷ ls) e = live ls (dispatch retries ts e)
live (moved ms ∷ ls) e = live ls (steps ms e)

live-IsCounted :
    (ls : List Life) (e : Engine)
    → IsCounted 0 e.deliveries e
    → (let after = live ls e in
        IsCounted 0 after.deliveries after × (after.max_parallel ≡ e.max_parallel))
unfolding live
live-IsCounted [] e h = (h, refl)
live-IsCounted (dispatched retries ts ∷ ls) e h =
    let rest = live-IsCounted ls (dispatch retries ts e) (dispatch-IsCounted retries ts e h) in
    (rest.0, rest.1 ∙ (unfold dispatch in refl))
live-IsCounted (moved ms ∷ ls) e h =
    let some_steps = steps-IsCounted ms e h in
    let rest = live-IsCounted ls (steps ms e) some_steps.0 in (rest.0, rest.1 ∙ some_steps.1)

-- From `Start` on, in every interleaving of deliveries, as many as the semaphore and the counter of
-- `Health` say are in `send`, and never more than `max_parallel`, which is above 0.
pub start-slots :
    (max : ℤ) (ls : List Life)
    → (let after = live ls (start max) in
        (after.in_use ≡ sending_now after.deliveries)
        × (after.inflight ≡ sending_now after.deliveries)
        × (sending_now after.deliveries ≤ after.max_parallel)
        × (after.max_parallel ≡ (start max).max_parallel)
        × (1 ≤ after.max_parallel))
start-slots (pos n) ls =
    let h = live-IsCounted ls (start (pos n)) (unfold start sending_now in ground arith) in
    let m : 1 ≤ (start (pos n)).max_parallel = unfold start in ground arith in ground (arith, h, m)
start-slots (negsuc n) ls =
    let h = live-IsCounted ls (start (negsuc n)) (unfold start sending_now in ground arith) in
    let m : 1 ≤ (start (negsuc n)).max_parallel = unfold start in ground arith in
    ground (arith, h, m)
