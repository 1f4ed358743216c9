-- ===== src/Worker/Steps/Final.antt =====
-- A job that is Completed, Failed or Canceled stays as it is, until it is pruned.
use mock_vision.Prelude.{
  ℕ, Bool, not, All, ◌≡◌, refl, String, true, false, List, [], ◌∷◌, Option, none, some, arith,
  nat_beq, Option-cases, inl, inr,
}
use mock_vision.Prelude.Equality.{nat_eq, string_eq}
use mock_vision.Prelude.GoMap.{get}
use mock_vision.Worker.Job.{final, Row, null_millis}
use mock_vision.Worker.Table.{get_job, before_time}
use mock_vision.Worker.State.{Env, Execution, Runner}
use mock_vision.Worker.Loop.{RunError, ended_job, end_run, execute, stop}
use mock_vision.Worker.Steps.{
  Report, report_as, Operation, dispatching, stopping, returned, submitting, canceling, resuming,
  answering, reporting, pruning, restarting, apply, apply_all,
}
use mock_vision.Worker.Steps.Sound.{IsSound, live_row}
use mock_vision.Worker.Steps.Dispatching.{FinalRow, held_ne_final, final-dispatch}
use mock_vision.Worker.Steps.Invariant.{apply-IsSound}
use mock_vision.Worker.Steps.Refusing.{Stands-submit, Stands-cancel, Stands-resume, Stands-answer}
use mock_vision.Worker.Steps.Restarting.{Stands-restart}
use mock_vision.Worker.Steps.Pruning.{Stands-prune}
use mock_vision.Worker.Steps.Standing.{Stands, Stands-end_run, Stands-report}

-- A pruning that does not reach a job of this row: the row did not finish before its time.
abbrev pub spares : Row → Operation → Bool
spares fin (pruning before) = not (before_time (null_millis (some before)) fin.finished_at)
spares fin _ = true

module _ (env : Env) (now id : ℕ) (fin : Row) where
  -- An execution is not that of the row.
  live_ne_final :
      (k : ℕ) (r : Runner) (ex : Execution)
      → IsSound r
      → get k r.running ≡ some ex
      → FinalRow id fin r
      → nat_beq ex.job.id id ≡ false
  live_ne_final k r ex s g h = let l = live_row k r s g in rw l.0 (held_ne_final k id fin r l.2 h)

  Stands-execute :
      (k : ℕ) (result : Option String) (e : Option RunError) (r : Runner)
      → IsSound r
      → FinalRow id fin r
      → Stands id fin (execute env now k result e r)
  unfolding execute ended_job
  Stands-execute k result e r s h = ended (get k r.running) refl
    where
      ended :
          (o : Option Execution)
          → get k r.running ≡ o
          → Stands id fin
              (elim o [ none ↦ r | some ex ↦ end_run env now (ended_job now result e ex) r ])
      ended none g = h.0
      ended (some ex) g =
          Stands-end_run env now id fin (ended_job now result e ex) r (live_ne_final k r ex s g h)
            h.0

  Stands-report_as :
      (k : ℕ) (rep : Report) (r : Runner)
      → IsSound r
      → FinalRow id fin r
      → Stands id fin (report_as env now k rep (get k r.running) r)
  unfolding report_as
  Stands-report_as k rep r s h = elim (Option-cases (get k r.running)) [
    | inl g ↦ rw g h.0
    | inr (ex, g) ↦ rw g (Stands-report env now id fin k rep ex r (live_ne_final k r ex s g h) h.0)
  ]

  -- No operation of the runner changes a final row, but that a pruning may delete it.
  apply-FinalRow :
      (op : Operation) (r : Runner)
      → spares fin op ≡ true
      → IsSound r
      → FinalRow id fin r
      → Stands id fin (apply env now op r)
  unfolding apply
  apply-FinalRow (dispatching m) r p s h = final-dispatch env now m r id fin s h
  apply-FinalRow stopping r p s h = unfold stop in h.0
  apply-FinalRow (returned k result e) r p s h = Stands-execute k result e r s h
  apply-FinalRow (submitting k spec) r p s h = Stands-submit env now id fin k spec r s h
  apply-FinalRow (canceling k) r p s h = Stands-cancel env now id fin k r h
  apply-FinalRow (resuming k) r p s h = Stands-resume env now id fin k r h
  apply-FinalRow (answering k text) r p s h = Stands-answer env now id fin k text r h.0
  apply-FinalRow (reporting k rep) r p s h = Stands-report_as k rep r s h
  apply-FinalRow (pruning before) r p s h =
      Stands-prune env now before id fin r s h (unspared before p)
    where
      unspared :
          (before : ℕ)
          → spares fin (pruning before) ≡ true
          → before_time (null_millis (some before)) fin.finished_at ≡ false
      unspared before p = ground (arith, p)
  apply-FinalRow restarting r p s h = Stands-restart env now id fin r s h

-- From a sound state, the row of a job that is Completed, Failed or Canceled is the same after every
-- sequence of operations of the runner, restarts and prunings among them, in which each pruning is
-- of jobs that finished before a time at which this one had not: no dispatch, end of a run, request,
-- report, recovery or such pruning ever brings the job back, changes what it ended as or deletes it.
pub apply_all-FinalRow :
    (env : Env) (ops : List (ℕ × Operation)) (id : ℕ) (fin : Row) (r : Runner)
    → IsSound r
    → get_job id r.db.jobs ≡ some fin
    → final fin.status ≡ true
    → All (λ (o : ℕ × Operation). spares fin o.1 ≡ true) ops
    → get_job id (apply_all env ops r).db.jobs ≡ some fin
unfolding apply_all
apply_all-FinalRow env [] id fin r s h f a = h
apply_all-FinalRow env ((now, op) ∷ ops) id fin r s h f a =
    apply_all-FinalRow env ops id fin (apply env now op r) (apply-IsSound env now op r s)
      (apply-FinalRow env now id fin op r a.0 s (h, f)) f a.1
