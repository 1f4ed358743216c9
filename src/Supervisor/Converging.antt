-- ===== src/Supervisor/Converging.antt =====
-- What a pass of `Reconcile` brings about.
use mathlib.Core.List.{append-nil, append_assoc}
use mock_vision.Prelude.{
  ℕ, ◌≡◌, refl, sym, ap, ◌∙◌, String, Bool, true, not, ◌&&◌, ◌||◌, List, [], ◌∷◌, ◌++◌, Option,
  none, some, arith, nat_beq, nat_beq_iff, if◌then◌else◌, filter, any, Bool-cases, inl, inr,
}
use mock_vision.Prelude.Equality.{nat_eq}
use mock_vision.Prelude.GoMap.{get, put, is_some, get-put, GoMap}
use mock_vision.Domain.Lifecycle.{DesiredState, desired_running, desired_stopped}
use mock_vision.Supervisor.Retries.{
  Supervisor, Look, should_run, gave_up, retry_pending, retry_start,
}
use mock_vision.Supervisor.Reconcile.{
  CameraRow, World, stop_session, reconcile_camera, reconcile_cameras, remove_orphans, reconcile,
  first_reason, remove_orphan,
}

abbrev pub has_session : ℕ → Supervisor → Bool
has_session id s = is_some (get id s.sessions)

abbrev wants_running : ℕ → CameraRow → Bool
wants_running id c = nat_beq c.id id && should_run (some c.desired)

abbrev can_start : Look → Bool
can_start l = should_run l.loaded && not (is_some l.refusal)

-- A pass starts this camera, if it has no session.
abbrev pub starts : (ℕ → Look) → List CameraRow → ℕ → Supervisor → Bool
starts look cams id s =
    any (wants_running id) cams
    && can_start (look id)
    && not (retry_pending id s)
    && not (gave_up id s)

retries-reconcile_camera :
    (look : ℕ → Look) (c : CameraRow) (s : Supervisor)
    → (reconcile_camera look c s).retries ≡ s.retries
unfolding reconcile_camera retry_start stop_session
retries-reconcile_camera look c s = ground arith

session-start :
    (id : ℕ) (k : ℕ) (told : Option String) (s : Supervisor)
    → is_some (get id (put k told s.sessions)) ≡ (has_session id s || nat_beq k id)
session-start id k told s = ground (arith, get-put k id told s.sessions)

session-stop_session :
    (reason : String) (k id : ℕ) (s : Supervisor)
    → has_session id (stop_session reason k s) ≡ has_session id s
unfolding stop_session
session-stop_session reason k id s = stopped (get k s.sessions) refl
  where
    stopped :
        (o : Option (Option String))
        → get k s.sessions ≡ o
        → has_session id (elim o [
          | none ↦ s
          | some told ↦ record s { sessions = put k (first_reason reason told) s.sessions }
        ])
          ≡ has_session id s
    stopped none e = refl
    stopped (some told) e =
        let same : nat_beq k id ≡ true → has_session id s ≡ true = λ b.
          ap (λ (i : ℕ). is_some (get i s.sessions)) (sym ((nat_beq_iff k id).0 b))
          ∙ ap is_some e in
        session-start id k (first_reason reason told) s ∙ (elim (Bool-cases (nat_beq k id)) [
          | inl b ↦ rw b (ground (arith, same b))
          | inr b ↦ rw b (ground arith)
        ])

session-retry_start :
    (l : Look) (k id : ℕ) (s : Supervisor)
    → has_session id (retry_start l k s)
      ≡ (has_session id s || (nat_beq k id && not (has_session k s) && can_start l))
unfolding retry_start
session-retry_start l k id s = ground (arith, session-start id k none s)

session-reconcile_camera :
    (look : ℕ → Look) (k : ℕ) (d : DesiredState) (id : ℕ) (s : Supervisor)
    → has_session id (reconcile_camera look (record { id = k; desired = d }) s)
      ≡ (has_session id s || starts look (record { id = k; desired = d } ∷ []) id s)
session-reconcile_camera look k desired_stopped id s =
    unfold reconcile_camera in session-stop_session "desired state is stopped" k id s ∙ ground arith
session-reconcile_camera look k desired_running id s = elim (Bool-cases (nat_beq k id)) [
  | inl b ↦
      let e : k ≡ id = (nat_beq_iff k id).0 b in
      unfold reconcile_camera in
      rw e (ground (arith, session-retry_start (look id) id id s, nat_beq_iff id id))
  | inr b ↦ unfold reconcile_camera in rw b (ground (arith, session-retry_start (look k) k id s, b))
]

starts-same :
    (look : ℕ → Look) (cams : List CameraRow) (id : ℕ) (s t : Supervisor)
    → t.retries ≡ s.retries
    → starts look cams id t ≡ starts look cams id s
unfolding gave_up retry_pending
starts-same look cams id s t e = rw e

session-reconcile_cameras :
    (look : ℕ → Look) (cams : List CameraRow) (id : ℕ) (s : Supervisor)
    → has_session id (reconcile_cameras look cams s) ≡ (has_session id s || starts look cams id s)
unfolding reconcile_cameras
session-reconcile_cameras look [] id s = ground arith
session-reconcile_cameras look (c ∷ cs) id s =
    let t = reconcile_camera look c s in
    let rest = session-reconcile_cameras look cs id t in
    let one = session-reconcile_camera look c.id c.desired id s in
    let same = starts-same look cs id s t (retries-reconcile_camera look c s) in
    ground (arith, rest, one, same)

-- Only the pass over the live runtimes destroys any.
destroyed-reconcile_camera :
    (look : ℕ → Look) (c : CameraRow) (s : Supervisor)
    → (reconcile_camera look c s).destroyed ≡ s.destroyed
unfolding reconcile_camera retry_start stop_session
destroyed-reconcile_camera look c s = ground arith

destroyed-reconcile_cameras :
    (look : ℕ → Look) (cams : List CameraRow) (s : Supervisor)
    → (reconcile_cameras look cams s).destroyed ≡ s.destroyed
unfolding reconcile_cameras
destroyed-reconcile_cameras look [] s = refl
destroyed-reconcile_cameras look (c ∷ cs) s =
    destroyed-reconcile_cameras look cs (reconcile_camera look c s)
    ∙ destroyed-reconcile_camera look c s

sessions-remove_orphan : (id : ℕ) (s : Supervisor) → (remove_orphan id s).sessions ≡ s.sessions
unfolding remove_orphan
sessions-remove_orphan id s = ground arith

sessions-remove_orphans :
    (ids : List ℕ) (s : Supervisor) → (remove_orphans ids s).sessions ≡ s.sessions
unfolding remove_orphans
sessions-remove_orphans [] s = refl
sessions-remove_orphans (id ∷ ids) s =
    sessions-remove_orphans ids (remove_orphan id s) ∙ sessions-remove_orphan id s

abbrev lacking : GoMap ℕ (Option String) → ℕ → Bool
lacking m id = not (is_some (get id m))

abbrev pub orphans : List ℕ → Supervisor → List ℕ
orphans ids s = filter (lacking s.sessions) ids

destroyed-remove_orphan :
    (id : ℕ) (s : Supervisor)
    → (remove_orphan id s).destroyed
      ≡ s.destroyed ++ (if lacking s.sessions id then id ∷ [] else [])
unfolding remove_orphan
destroyed-remove_orphan id s = elim (Bool-cases (is_some (get id s.sessions))) [
  | inl b ↦ rw b (sym (append-nil s.destroyed))
  | inr b ↦ rw b
]

filter-cons :
    (p : ℕ → Bool) (id : ℕ) (ids : List ℕ)
    → (if p id then id ∷ [] else []) ++ filter p ids ≡ filter p (id ∷ ids)
filter-cons p id ids = elim (Bool-cases (p id)) [ inl b ↦ rw b | inr b ↦ rw b ]

destroyed-remove_orphans :
    (ids : List ℕ) (s : Supervisor)
    → (remove_orphans ids s).destroyed ≡ s.destroyed ++ orphans ids s
unfolding remove_orphans
destroyed-remove_orphans [] s = sym (append-nil s.destroyed)
destroyed-remove_orphans (id ∷ ids) s =
    let one = if lacking s.sessions id then id ∷ [] else [] in
    destroyed-remove_orphans ids (remove_orphan id s)
    ∙ ap (λ (m : GoMap ℕ (Option String)). (remove_orphan id s).destroyed ++ filter (lacking m) ids)
        (sessions-remove_orphan id s)
    ∙ ap (λ (l : List ℕ). l ++ orphans ids s) (destroyed-remove_orphan id s)
    ∙ append_assoc s.destroyed one (orphans ids s)
    ∙ ap (λ (l : List ℕ). s.destroyed ++ l) (filter-cons (lacking s.sessions) id ids)

-- One pass of `Reconcile` that can read the cameras and the live runtimes: a camera has a session
-- after it where it had one before, or where it is listed as wanted running, has neither a retry
-- pending nor given up, and is found in the store as wanted running and admitted when it is
-- started; and the runtimes that the pass destroys are exactly the live ones that have no session
-- after it, in their order.
pub reconcile-sessions :
    (w : World) (cams : List CameraRow) (live : List ℕ) (id : ℕ) (s : Supervisor)
    → w.cameras ≡ some cams
    → w.live ≡ some live
    → (has_session id (reconcile w s) ≡ (has_session id s || starts w.look cams id s))
      × ((reconcile w s).destroyed ≡ s.destroyed ++ orphans live (reconcile w s))
unfolding reconcile
reconcile-sessions w cams live id s p q =
    let t = reconcile_cameras w.look cams s in
    let kept = sessions-remove_orphans live t in
    (
      rw p (
          rw q (
            ap (λ (m : GoMap ℕ (Option String)). is_some (get id m)) kept
            ∙ session-reconcile_cameras w.look cams id s)),
      rw p (
          rw q (
            destroyed-remove_orphans live t
            ∙ ap (λ (m : GoMap ℕ (Option String)). t.destroyed ++ filter (lacking m) live)
                (sym kept)
            ∙ ap (λ (l : List ℕ). l ++ orphans live (remove_orphans live t))
                (destroyed-reconcile_cameras w.look cams s))),
    )
