-- ===== src/Worker/Steps/Restarting.antt =====
-- The invariant and the final rows through a restart: `New`, then `Recover`.
use mock_vision.Prelude.{
  ℕ, suc, if◌then◌else◌, ◌≡◌, refl, ◌∙◌, Bool, true, false, List, [], ◌∷◌, none, nat_beq, All,
  All-map,
}
use mock_vision.Prelude.Equality.{nat_eq}
use mock_vision.Prelude.GoMap.{get}
use mock_vision.Worker.Job.{
  Status, running, waiting, interrupted, status_event, status_payload, final, Job, Row, job_from,
}
use mock_vision.Worker.Table.{list_jobs_by_status}
use mock_vision.Worker.Table.Rows.{Ascending, Listed, listed}
use mock_vision.Worker.State.{Env, Runner, call_db, save, event}
use mock_vision.Worker.State.Frame.{jobs-event, running-event, running-save}
use mock_vision.Worker.Loop.{
  recover_rows, recover_status, recover_limit, recover, new_runner, restart,
}
use mock_vision.Worker.Steps.Sound.{IsSound, IsSound-same, IsSound-event, IsSound-save}
use mock_vision.Worker.Steps.Dispatching.{FinalRow, Listed-ne_final}
use mock_vision.Worker.Steps.Standing.{Stands, Stands-if, Stands-save}

-- A sound state without executions.
abbrev IsIdle : Runner → Type 0
IsIdle r = (r.running ≡ []) × IsSound r

abbrev interrupted_as : Env → Row → Job
interrupted_as env row = record (job_from env.json row) { status = interrupted; question = none }

IsIdle-if :
    (b : Bool) (x y : Bool × Runner) → IsIdle x.1 → IsIdle y.1 → IsIdle (if b then x else y).1
IsIdle-if true x y h k = h
IsIdle-if false x y h k = k

module _ (env : Env) (now : ℕ) where
  abbrev marked : Row → Runner → Runner
  marked row r =
      event env row.id status_event
        (status_payload interrupted "" "the node stopped while the job ran") now
        (save env (interrupted_as env row) r).1

  IsIdle-save : (j : Job) (r : Runner) → IsIdle r → IsIdle (save env j r).1
  IsIdle-save j r h = (
    running-save env j r ∙ h.0,
    IsSound-save env j r (λ run. absurd (unfold get in cc (run, h.0))) h.1,
  )

  IsIdle-marked : (row : Row) (r : Runner) → IsIdle r → IsIdle (marked row r)
  IsIdle-marked row r h =
      let s = IsIdle-save (interrupted_as env row) r h in
      (rw running-event s.0, IsSound-event env row.id status_event _ now _ s.1)

  IsIdle-recover_rows :
      (rows : List Row) (r : Runner) → IsIdle r → IsIdle (recover_rows env now rows r).1
  unfolding recover_rows job_from
  IsIdle-recover_rows [] r h = h
  IsIdle-recover_rows (row ∷ rows) r h =
      IsIdle-if (save env (interrupted_as env row) r).0 _ _
        (IsIdle-recover_rows rows (marked row r) (IsIdle-marked row r h))
        (IsIdle-save (interrupted_as env row) r h)

  IsIdle-recover_status :
      (st : Status) (r : Runner) → IsIdle r → IsIdle (recover_status env now st r).1
  unfolding recover_status call_db
  IsIdle-recover_status st r h =
      let c : Runner = record r { calls = suc r.calls } in
      let counted : IsIdle c = (h.0, IsSound-same r c refl refl h.1) in
      IsIdle-if (env.io_ok r.calls) _ _
        (IsIdle-recover_rows (list_jobs_by_status st recover_limit r.db.jobs) c counted) counted

  -- A restart leaves no executions, and so a sound state.
  pub IsSound-restart : (r : Runner) → IsSound r → IsSound (restart env now r).1
  unfolding restart recover new_runner
  IsSound-restart r h =
      let fresh : Runner = new_runner r in
      let idle : IsIdle fresh =
        (refl, record { ordered = h.ordered; live = λ id. unfold get in tt }) in
      let first = recover_status env now running fresh in
      let one = IsIdle-recover_status running fresh idle in
      (IsIdle-if first.0 _ _ (IsIdle-recover_status waiting first.1 one) one).1

  module _ (id : ℕ) (fin : Row) where
    Stands-recover_rows :
        (rows : List Row) (r : Runner)
        → All (λ (s : Row). nat_beq s.id id ≡ false) rows
        → Stands id fin r
        → Stands id fin (recover_rows env now rows r).1
    unfolding recover_rows job_from
    Stands-recover_rows [] r a h = h
    Stands-recover_rows (row ∷ rows) r a h =
        let s = Stands-save env now id fin (interrupted_as env row) r a.0 h in
        Stands-if env now id fin (save env (interrupted_as env row) r).0 _ _
          (Stands-recover_rows rows (marked row r) a.1 (rw jobs-event s)) s

    Stands-recover_status :
        (st : Status) (r : Runner)
        → final st ≡ false
        → Ascending r.db.jobs
        → FinalRow id fin r
        → Stands id fin (recover_status env now st r).1
    unfolding recover_status call_db
    Stands-recover_status st r f a h =
        let c : Runner = record r { calls = suc r.calls } in
        let rows = list_jobs_by_status st recover_limit r.db.jobs in
        let apart : All (λ (s : Row). nat_beq s.id id ≡ false) rows =
          All-map (Listed st r.db.jobs) (λ (s : Row). nat_beq s.id id ≡ false) rows
            (λ s l. Listed-ne_final st s id fin r f l h) (listed st recover_limit r.db.jobs a).0 in
        Stands-if env now id fin (env.io_ok r.calls) _ _ (Stands-recover_rows rows c apart h.0) h.0

    pub Stands-restart :
        (r : Runner) → IsSound r → FinalRow id fin r → Stands id fin (restart env now r).1
    unfolding restart recover new_runner
    Stands-restart r s h =
        let fresh : Runner = new_runner r in
        let idle : IsIdle fresh =
          (refl, record { ordered = s.ordered; live = λ id. unfold get in tt }) in
        let first = recover_status env now running fresh in
        let one = Stands-recover_status running fresh refl s.ordered h in
        Stands-if env now id fin first.0 _ _
          (Stands-recover_status waiting first.1 refl
            (IsIdle-recover_status running fresh idle).1.ordered (one, h.1))
          one
