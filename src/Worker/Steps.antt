-- ===== src/Worker/Steps.antt =====
-- The operations of the runner as the steps of one relation: the loop, the requests and what a
-- running handler calls, and the restart of the process. What a handler calls finds its execution under its job's ID.
pub mod Sound
pub mod Dispatching
pub mod Ending
pub mod Submitting
pub mod Requesting
pub mod Reporting
pub mod Deleting
pub mod Restarting
pub mod Pruning
pub mod Invariant
pub mod Standing
pub mod Refusing
pub mod Final
use mock_vision.Prelude.{ℕ, String, Option, none, some, List, [], ◌∷◌, Bool}
use mock_vision.Prelude.Equality.{nat_eq}
use mock_vision.Prelude.GoMap.{get}
use mock_vision.Prelude.Int.{ℤ}
use mock_vision.Worker.Job.{Question}
use mock_vision.Worker.State.{Env, Execution, Runner, event}
use mock_vision.Worker.Loop.{RunError, dispatch, stop, execute, restart}
use mock_vision.Worker.Requests.{Spec, submit, cancel, resume, answer, prune}
use mock_vision.Worker.Handle.{save_checkpoint, step, progress, logf, ask_begin, Wake, ask_end}

-- What a handler calls.
pub data Report : Type 0 where
  checkpoint : String → Report
  begin_step : String → ℤ → Report
  set_progress : ℤ → Report
  log_line : String → Report
  ask : Question → Report
  wake_up : Question → Wake → Report

-- Prune is one step, although it takes the lock only in each of its Cancels: no other operation
-- changes the rows that it lists to delete. A restart may come at any moment.
pub data Operation : Type 0 where
  dispatching : ℕ → Operation
  stopping : Operation
  returned : ℕ → Option String → Option RunError → Operation
  submitting : ℕ → Spec → Operation
  canceling : ℕ → Operation
  resuming : ℕ → Operation
  answering : ℕ → String → Operation
  reporting : ℕ → Report → Operation
  pruning : ℕ → Operation
  restarting : Operation

unfoldable pub report : Env → ℕ → ℕ → Report → Execution → Runner → Runner
report env now id (checkpoint raw) ex r = (save_checkpoint env id raw ex r).1
report env now id (begin_step name p) ex r = step env now id name p ex r
report env now id (set_progress p) ex r = progress env now id p ex r
report env now id (log_line text) ex r = logf env now id text r
report env now id (ask q) ex r = ask_begin env now id q ex r
report env now id (wake_up q w) ex r = (ask_end env now id q w ex r).1

unfoldable pub report_as : Env → ℕ → ℕ → Report → Option Execution → Runner → Runner
unfolding report
report_as env now id rep none r = r
report_as env now id rep (some ex) r = report env now id rep ex r

-- The runner after an operation at the time `now`.
unfoldable pub apply : Env → ℕ → Operation → Runner → Runner
apply env now (dispatching max_running) r = dispatch env now max_running r
apply env now stopping r = stop r
apply env now (returned id result err) r = execute env now id result err r
apply env now (submitting id spec) r = (submit env now id spec r).1
apply env now (canceling id) r = (cancel env now id r).1
apply env now (resuming id) r = (resume env now id r).1
apply env now (answering id text) r = (answer env id text r).1
apply env now (reporting id rep) r = report_as env now id rep (get id r.running) r
apply env now (pruning before) r = (prune env now before r).1
apply env now restarting r = (restart env now r).1

-- A run of the runner: operations with their times.
unfoldable pub apply_all : Env → List (ℕ × Operation) → Runner → Runner
apply_all env [] r = r
apply_all env ((now, op) ∷ ops) r = apply_all env ops (apply env now op r)
