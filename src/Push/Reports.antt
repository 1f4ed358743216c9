-- ===== src/Push/Reports.antt =====
-- What a delivery reports, and how long it can go on.
use mock_vision.Prelude.{
  ℕ, zero, suc, ◌+◌, ◌-◌, ◌*◌, ◌≡◌, ◌≤◌, ◌<◌, refl, ◌∙◌, String, Bool, true, false, List, [], ◌∷◌,
  ◌++◌, arith, ltb, map, length, length-append, Bool-cases, inl, inr, All, All-append, ltb→lt,
}
use mock_vision.Push.{
  Engine, Delivery, DeliveryReport, DeliveryStatus, Move, Phase, Sent, waiting, sending,
  backing_off, finished, move, move_at, step, steps, dispatch, new_delivery, attempts_of,
  after_send, slot_free, answered, back_off_over, context_done, is_success, delivery_ok,
  delivery_retry, delivery_failed, report_of,
}
use mock_vision.Push.Slots.{Life, live, dispatched, moved}

-- A report with the status says of the reports after it, when it is of attempt `k` of `n`: only a
-- retry is followed by others, and only the last attempt fails for good.
abbrev pub IsFollowed : ℕ → ℕ → DeliveryStatus → List DeliveryReport → Type 0
IsFollowed n k delivery_ok rs = rs ≡ []
IsFollowed n k delivery_retry rs = k < n
IsFollowed n k delivery_failed rs = (rs ≡ []) × (k ≡ n)

-- The reports of a delivery of `n` attempts from attempt `k` on, numbered without a gap.
unfoldable pub IsRun : ℕ → ℕ → List DeliveryReport → Type 0
IsRun n k [] = Unit
IsRun n k (r ∷ rs) = (r.attempt ≡ k) × (k ≤ n) × IsFollowed n k r.status rs × IsRun n (k + 1) rs

abbrev IsRetry : DeliveryReport → Type 0
IsRetry r = r.status ≡ delivery_retry

-- The reports so far are of retries, `k` of them.
abbrev IsOpen : ℕ → Delivery → Type 0
IsOpen k d = All IsRetry d.reports × (length d.reports ≡ k)

abbrev IsPhase : Delivery → Phase → Type 0
IsPhase d (waiting k) = (suc (length d.reports) ≡ k) × (k ≤ d.attempts) × All IsRetry d.reports
IsPhase d (sending k) = (suc (length d.reports) ≡ k) × (k ≤ d.attempts) × All IsRetry d.reports
IsPhase d (backing_off k) = (length d.reports ≡ k) × (k < d.attempts) × All IsRetry d.reports
IsPhase d finished = Unit

abbrev pub IsProper : Delivery → Type 0
IsProper d = IsRun d.attempts 1 d.reports × IsPhase d d.phase

IsRun-append :
    (n k : ℕ) (rs : List DeliveryReport) (r : DeliveryReport)
    → IsRun n k rs
    → All IsRetry rs
    → r.attempt ≡ k + length rs
    → k + length rs ≤ n
    → IsFollowed n (k + length rs) r.status []
    → IsRun n k (rs ++ r ∷ [])
unfolding IsRun
IsRun-append n k [] r h a e l f =
    let z : k + 0 ≡ k = omega arith in (e ∙ z, omega (arith, l), (rw z at f), tt)
IsRun-append n k (q ∷ qs) r h a e l f =
    let z : k + suc (length qs) ≡ k + 1 + length qs = omega arith in
    let still : IsFollowed n k q.status (qs ++ r ∷ []) = rw a.0 (let p = rw a.0 at h.2 in p) in
    (h.0, h.1, still, IsRun-append n (k + 1) qs r h.3 a.1 (e ∙ z) (omega (arith, l)) (rw z at f))

after_send-IsProper :
    (k : ℕ) (s : Sent) (d : Delivery)
    → IsRun d.attempts 1 d.reports
    → IsPhase d (sending k)
    → IsProper (after_send k s d)
after_send-IsProper k s d h p = elim (Bool-cases (is_success s)) [
  | inl b ↦
      unfold after_send in
      rw b (
        IsRun-append d.attempts 1 d.reports _ h p.2 (omega (arith, p.0)) (omega (arith, p.0, p.1))
            refl,
        tt,
      )
  | inr b ↦ elim (Bool-cases (ltb k d.attempts)) [
    | inl c ↦
        unfold after_send in
        rw b (
          rw c (
            IsRun-append d.attempts 1 d.reports _ h p.2 (omega (arith, p.0))
                (omega (arith, p.0, p.1)) (ground (arith, p.0, c)),
            (
              omega (arith, length-append d.reports (report_of d k s delivery_retry _ ∷ []), p.0),
              ltb→lt k d.attempts c,
              All-append IsRetry d.reports _ p.2 (refl, tt),
            ),
          ))
    | inr c ↦
        unfold after_send in
        rw b (
          rw c (
            IsRun-append d.attempts 1 d.reports _ h p.2 (omega (arith, p.0))
                (omega (arith, p.0, p.1)) (refl, ground (arith, p.0, p.1, c)),
            tt,
          ))
  ]
]

move-IsProper :
    (m : Move) (d : Delivery) (e : Engine) (p : Phase)
    → d.phase ≡ p
    → IsRun d.attempts 1 d.reports
    → IsPhase d p
    → IsProper (move m d e).0
unfolding move
move-IsProper slot_free d e (waiting k) q h p =
    rw q (elim (Bool-cases (ltb e.in_use e.max_parallel)) [
      | inl b ↦ rw b (h, p)
      | inr b ↦ rw b (h, p)
    ])
move-IsProper slot_free d e (sending k) q h p = rw q (h, p)
move-IsProper slot_free d e (backing_off k) q h p = rw q (h, p)
move-IsProper slot_free d e finished q h p = rw q (h, p)
move-IsProper (answered s) d e (waiting k) q h p = rw q (h, p)
move-IsProper (answered s) d e (sending k) q h p = rw q (after_send-IsProper k s d h p)
move-IsProper (answered s) d e (backing_off k) q h p = rw q (h, p)
move-IsProper (answered s) d e finished q h p = rw q (h, p)
move-IsProper back_off_over d e (waiting k) q h p = rw q (h, p)
move-IsProper back_off_over d e (sending k) q h p = rw q (h, p)
move-IsProper back_off_over d e (backing_off k) q h p =
    rw q (h, (omega (arith, p.0), omega (arith, p.1), p.2))
move-IsProper back_off_over d e finished q h p = rw q (h, p)
move-IsProper context_done d e (waiting k) q h p = rw q (h, tt)
move-IsProper context_done d e (sending k) q h p = rw q (h, p)
move-IsProper context_done d e (backing_off k) q h p = rw q (h, tt)
move-IsProper context_done d e finished q h p = rw q (h, p)

move_at-IsProper :
    (i : ℕ) (m : Move) (ds : List Delivery) (e : Engine)
    → All IsProper ds
    → All IsProper (move_at i m ds e).0
unfolding move_at
move_at-IsProper i m [] e h = tt
move_at-IsProper zero m (d ∷ ds) e h = (move-IsProper m d e d.phase refl h.0.0 h.0.1, h.1)
move_at-IsProper (suc i) m (d ∷ ds) e h = (h.0, move_at-IsProper i m ds e h.1)

steps-IsProper :
    (ms : List (ℕ × Move)) (e : Engine)
    → All IsProper e.deliveries
    → All IsProper (steps ms e).deliveries
unfolding steps
steps-IsProper [] e h = h
steps-IsProper ((i, m) ∷ ms) e h =
    steps-IsProper ms (step (i, m) e) (unfold step in move_at-IsProper i m e.deliveries e h)

new_delivery-IsProper : (n target : ℕ) → IsProper (new_delivery n target)
unfolding IsRun
new_delivery-IsProper zero target = (tt, tt)
new_delivery-IsProper (suc n) target = ground arith

new-IsProper : (n : ℕ) (ts : List (ℕ × String)) → All IsProper (map (λ t. new_delivery n t.0) ts)
new-IsProper n [] = tt
new-IsProper n (t ∷ ts) = (new_delivery-IsProper n t.0, new-IsProper n ts)

-- From any proper engine on, in every interleaving of deliveries, the reports of each delivery are
-- numbered from 1 without a gap and at most as many as its attempts, only the last of them is not a
-- retry, and it is a failure only after the last attempt.
pub live-IsProper :
    (ls : List Life) (e : Engine) → All IsProper e.deliveries → All IsProper (live ls e).deliveries
unfolding live
live-IsProper [] e h = h
live-IsProper (dispatched retries ts ∷ ls) e h =
    live-IsProper ls (dispatch retries ts e) (
      unfold dispatch in
      All-append IsProper e.deliveries _ h (new-IsProper (attempts_of retries) _))
live-IsProper (moved ms ∷ ls) e h = live-IsProper ls (steps ms e) (steps-IsProper ms e h)

-- How many moves a delivery can still make.
abbrev left_of : ℕ → Phase → ℕ
left_of n (waiting k) = 3 * (n - k) + 3
left_of n (sending k) = 3 * (n - k) + 2
left_of n (backing_off k) = 3 * (n - k) + 1
left_of n finished = 0

abbrev pub moves_left : Delivery → ℕ
moves_left d = left_of d.attempts d.phase

-- The move fits the phase of the delivery, and a slot is free where it takes one.
unfoldable pub fits : Move → Delivery → Engine → Bool
fits slot_free d e = elim d.phase [ waiting k ↦ ltb e.in_use e.max_parallel | _ ↦ false ]
fits (answered s) d e = elim d.phase [ sending k ↦ true | _ ↦ false ]
fits back_off_over d e = elim d.phase [ backing_off k ↦ ltb k d.attempts | _ ↦ false ]
fits context_done d e = elim d.phase [ waiting k ↦ true | backing_off k ↦ true | _ ↦ false ]

left_of-after_send :
    (k : ℕ) (s : Sent) (d : Delivery)
    → left_of (after_send k s d).attempts (after_send k s d).phase < 3 * (d.attempts - k) + 2
unfolding after_send
left_of-after_send k s d = ground arith

moves_left-answered :
    (s : Sent) (d : Delivery) (e : Engine) (p : Phase)
    → d.phase ≡ p
    → fits (answered s) d e ≡ true
    → moves_left (move (answered s) d e).0 < moves_left d
unfolding move fits
moves_left-answered s d e (waiting k) q f = absurd (ground (arith, q, f))
moves_left-answered s d e (sending k) q f = rw q (left_of-after_send k s d)
moves_left-answered s d e (backing_off k) q f = absurd (ground (arith, q, f))
moves_left-answered s d e finished q f = absurd (ground (arith, q, f))

-- Each move that fits a delivery leaves it fewer moves to make.
pub moves_left-move :
    (m : Move) (d : Delivery) (e : Engine)
    → fits m d e ≡ true
    → moves_left (move m d e).0 < moves_left d
unfolding move fits
moves_left-move slot_free d e f = ground (arith, f)
moves_left-move (answered s) d e f = moves_left-answered s d e d.phase refl f
moves_left-move back_off_over d e f = ground (arith, f)
moves_left-move context_done d e f = ground (arith, f)
