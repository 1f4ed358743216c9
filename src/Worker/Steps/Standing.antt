-- ===== src/Worker/Steps/Standing.antt =====
-- A final row and what the runner does to other jobs.
use mock_vision.Prelude.{
  ℕ, ◌≡◌, sym, ap, ◌∙◌, String, Bool, true, false, List, Option, none, some, arith, nat_beq,
  nat_beq_iff, if◌then◌else◌, Bool-cases, Option-cases, inl, inr,
}
use mock_vision.Prelude.Time.{unix_milli}
use mock_vision.Prelude.Equality.{nat_eq, string_eq}
use mock_vision.Prelude.GoMap.{put, del}
use mock_vision.Worker.Job.{queued, final, status_event, status_payload, Job, Row}
use mock_vision.Worker.Table.{get_job, InsertJobParams, insert_job}
use mock_vision.Worker.Table.Rows.{get_job-insert_job, get_job-fresh}
use mock_vision.Worker.State.{
  Env, Execution, Runner, call_db, save, event, finish_locked, requeue_locked, wake,
}
use mock_vision.Worker.State.Frame.{jobs-event, jobs-finish_locked}
use mock_vision.Worker.Loop.{clean_up, end_run}
use mock_vision.Worker.Handle.{
  clamp, set_and_save, save_checkpoint, step, progress, logf, ask_begin, ask_settle, ask_end,
  answered, timed_out, context_done,
}
use mock_vision.Worker.Requests.{Spec, null_string, insert_new}
use mock_vision.Worker.Steps.{
  Report, checkpoint, begin_step, set_progress, log_line, ask, wake_up, report,
}
use mock_vision.Worker.Steps.Dispatching.{save_other, FinalRow}

-- The row of the job stands in the table.
abbrev pub Stands : ℕ → Row → Runner → Type 0
Stands id fin r = get_job id r.db.jobs ≡ some fin

-- A row that is not final is not the row.
pub open_ne_final :
    (k id : ℕ) (row fin : Row) (r : Runner)
    → get_job k r.db.jobs ≡ some row
    → final row.status ≡ false
    → FinalRow id fin r
    → nat_beq k id ≡ false
open_ne_final k id row fin r e o h = elim (Bool-cases (nat_beq k id)) [
  | inr ne ↦ ne
  | inl eq ↦ absurd (
      clash row fin (sym e ∙ ap (λ (i : ℕ). get_job i r.db.jobs) ((nat_beq_iff k id).0 eq) ∙ h.0) o
        h.1)
]
  where
    clash :
        (row fin : Row)
        → some row ≡ some fin
        → final row.status ≡ false
        → final fin.status ≡ true
        → ⊥
    clash row fin e o h = ground arith

module _ (env : Env) (now id : ℕ) (fin : Row) where
  pub Stands-if :
      {A : Type 0} (b : Bool) (x y : A × Runner)
      → Stands id fin x.1
      → Stands id fin y.1
      → Stands id fin (if b then x else y).1
  Stands-if true x y h k = h
  Stands-if false x y h k = k

  pub Stands-when :
      (b : Bool) (x y : Runner)
      → Stands id fin x
      → Stands id fin y
      → Stands id fin (if b then x else y)
  Stands-when true x y h k = h
  Stands-when false x y h k = k

  pub Stands-save :
      (j : Job) (r : Runner)
      → nat_beq j.id id ≡ false
      → Stands id fin r
      → Stands id fin (save env j r).1
  Stands-save j r ne h = save_other env j r id ne ∙ h

  pub Stands-finish_locked :
      (j : Job) (r : Runner) → Stands id fin r → Stands id fin (clean_up env j (finish_locked j r))
  unfolding clean_up
  Stands-finish_locked j r h =
      let done : Stands id fin (finish_locked j r) = rw (jobs-finish_locked j r) h in
      Stands-when _ _ _ done done

  pub Stands-end_run :
      (j : Job) (r : Runner)
      → nat_beq j.id id ≡ false
      → Stands id fin r
      → Stands id fin (end_run env now j r)
  unfolding end_run wake
  Stands-end_run j r ne h =
      let told =
        event env j.id status_event (status_payload j.status j.error "") now (save env j r).1 in
      Stands-finish_locked j (record told { running = del j.id told.running })
        (rw jobs-event (Stands-save j r ne h))

  pub Stands-requeue_locked :
      (j : Job) (r : Runner)
      → nat_beq j.id id ≡ false
      → Stands id fin r
      → Stands id fin (requeue_locked env now j r).1
  Stands-requeue_locked j r ne h =
      let queued_job = record j { status = queued; error = "" } in
      let s = Stands-save queued_job r ne h in
      elim (Bool-cases (save env queued_job r).0) [
        | inl e ↦ unfold requeue_locked wake in rw e (rw jobs-event s)
        | inr e ↦ unfold requeue_locked in rw e s
      ]

  Stands-set_and_save :
      (k : ℕ) (ex : Execution) (r : Runner)
      → nat_beq ex.job.id id ≡ false
      → Stands id fin r
      → Stands id fin (set_and_save env k ex r)
  unfolding set_and_save
  Stands-set_and_save k ex r ne h =
      Stands-save ex.job (record r { running = put k ex r.running }) ne h

  pub Stands-report :
      (k : ℕ) (rep : Report) (ex : Execution) (r : Runner)
      → nat_beq ex.job.id id ≡ false
      → Stands id fin r
      → Stands id fin (report env now k rep ex r)
  unfolding report logf save_checkpoint step ask_begin ask_end ask_settle progress wake
  Stands-report k (checkpoint raw) ex r ne h =
      Stands-save (record ex.job { checkpoint = raw }) (record r { running = put k _ r.running }) ne
        h
  Stands-report k (begin_step name p) ex r ne h = rw jobs-event (Stands-set_and_save k _ r ne h)
  Stands-report k (set_progress p) ex r ne h = ground (
    arith,
    h,
    Stands-set_and_save k
        (record ex { job = record ex.job { progress = clamp p }; last_save = now }) r ne h,
  )
  Stands-report k (log_line text) ex r ne h = rw jobs-event h
  Stands-report k (ask q) ex r ne h = rw jobs-event (Stands-set_and_save k _ r ne h)
  Stands-report k (wake_up q (answered text)) ex r ne h =
      rw jobs-event (Stands-set_and_save k _ r ne h)
  Stands-report k (wake_up q timed_out) ex r ne h = rw jobs-event (Stands-set_and_save k _ r ne h)
  Stands-report k (wake_up q (context_done cause)) ex r ne h = h

  stands-inserted :
      (p : InsertJobParams) (jobs : List Row) {jobs' : List Row}
      → insert_job p jobs ≡ some jobs'
      → get_job id jobs ≡ some fin
      → get_job id jobs' ≡ some fin
  stands-inserted p jobs {jobs'} e h =
      let missing = get_job-fresh p jobs {rows' = jobs'} e in
      elim (Bool-cases (nat_beq p.id id)) [
        | inl eq ↦ absurd (
            apart (get_job id jobs)
              (ap (λ (i : ℕ). get_job i jobs) (sym ((nat_beq_iff p.id id).0 eq)) ∙ missing) h)
        | inr ne ↦ get_job-insert_job id p jobs {rows' = jobs'} e ∙ (rw ne h)
      ]
    where
      apart : (o : Option Row) → o ≡ none → o ≡ some fin → ⊥
      apart o e h = cc

  pub Stands-insert_new :
      (k : ℕ) (spec : Spec) (params : String) (r : Runner)
      → Stands id fin r
      → Stands id fin (insert_new env now k spec params r).1
  Stands-insert_new k spec params r h =
      let p : InsertJobParams = record {
        id = k;
        type = spec.type;
        title = spec.title;
        params_json = params;
        dedupe_key = null_string spec.key;
        created_by = spec.created_by;
        created_at = unix_milli now;
      } in
      elim (Bool-cases (env.io_ok r.calls)) [
        | inr e ↦ unfold insert_new call_db in rw e h
        | inl e ↦ elim (Option-cases (insert_job p r.db.jobs)) [
          | inl f ↦ unfold insert_new call_db in rw e (rw f h)
          | inr (rows, f) ↦
              unfold insert_new call_db wake in
              rw e (rw f (rw jobs-event (stands-inserted p r.db.jobs f h)))
        ]
      ]
