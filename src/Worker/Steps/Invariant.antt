-- ===== src/Worker/Steps/Invariant.antt =====
-- The invariant of the runner, over every sequence of operations.
use mock_vision.Prelude.{ℕ, refl, String, List, [], ◌∷◌, Option, none, some}
use mock_vision.Prelude.Equality.{nat_eq}
use mock_vision.Prelude.GoMap.{get}
use mock_vision.Worker.State.{Env, Execution, Runner}
use mock_vision.Worker.Loop.{RunError, ended_job, end_run, execute}
use mock_vision.Worker.Steps.{
  Operation, dispatching, stopping, returned, submitting, canceling, resuming, answering, reporting,
  pruning, restarting, apply, apply_all,
}
use mock_vision.Worker.Steps.Sound.{IsSound}
use mock_vision.Worker.Steps.Dispatching.{IsSound-dispatch}
use mock_vision.Worker.Steps.Ending.{IsSound-end_run, IsSound-stop}
use mock_vision.Worker.Steps.Submitting.{IsSound-submit}
use mock_vision.Worker.Steps.Requesting.{IsSound-cancel, IsSound-resume, IsSound-answer}
use mock_vision.Worker.Steps.Restarting.{IsSound-restart}
use mock_vision.Worker.Steps.Pruning.{IsSound-prune}
use mock_vision.Worker.Steps.Reporting.{IsSound-report_as}

IsSound-execute :
    (env : Env) (now id : ℕ) (result : Option String) (e : Option RunError) (r : Runner)
    → IsSound r
    → IsSound (execute env now id result e r)
unfolding execute
IsSound-execute env now id result e r h = ended (get id r.running)
  where
    ended :
        (o : Option Execution)
        → IsSound (elim o [ none ↦ r | some ex ↦ end_run env now (ended_job now result e ex) r ])
    ended none = h
    ended (some ex) = IsSound-end_run env now (ended_job now result e ex) r h

-- Every operation keeps the invariant.
pub apply-IsSound :
    (env : Env) (now : ℕ) (op : Operation) (r : Runner) → IsSound r → IsSound (apply env now op r)
unfolding apply
apply-IsSound env now (dispatching m) r h = IsSound-dispatch env now m r h
apply-IsSound env now stopping r h = IsSound-stop r h
apply-IsSound env now (returned id result e) r h = IsSound-execute env now id result e r h
apply-IsSound env now (submitting id spec) r h = IsSound-submit env now id spec r h
apply-IsSound env now (canceling id) r h = IsSound-cancel env now id r h
apply-IsSound env now (resuming id) r h = IsSound-resume env now id r h
apply-IsSound env now (answering id text) r h = IsSound-answer env now id text r h
apply-IsSound env now (reporting id rep) r h =
    IsSound-report_as env now id rep (get id r.running) r refl h
apply-IsSound env now (pruning before) r h = IsSound-prune env now before r h
apply-IsSound env now restarting r h = IsSound-restart env now r h

-- Every sequence of operations of the runner (dispatch, stop, the end of a run, a request, a report
-- of a handler, a pruning, and a restart with its recovery), at any times and with any calls of the database failing, keeps the invariant: the
-- table of jobs stands in the order of its IDs, and every execution holds the job of its ID, which
-- is Running or Waiting in memory and has a row that is Running or Waiting in the table.
pub apply_all-IsSound :
    (env : Env) (ops : List (ℕ × Operation)) (r : Runner)
    → IsSound r
    → IsSound (apply_all env ops r)
unfolding apply_all
apply_all-IsSound env [] r h = h
apply_all-IsSound env ((now, op) ∷ ops) r h =
    apply_all-IsSound env ops (apply env now op r) (apply-IsSound env now op r h)
