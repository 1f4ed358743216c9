-- ===== src/Worker/Loop.antt =====
-- The loop of runner.go: `Recover`, `dispatch` and the end of `execute`.
use mock_vision.Prelude.{
  ℕ, ◌+◌, String, Bool, true, false, not, ◌&&◌, List, [], ◌∷◌, ◌++◌, Option, none, some,
  if◌then◌else◌,
}
use mock_vision.Prelude.Equality.{nat_eq, string_eq}
use mock_vision.Prelude.Int.{ℤ, pos, difference, leb_ℤ}
use mock_vision.Prelude.GoMap.{GoMap, get, put, del}
use mock_vision.Worker.Job.{
  Status, queued, running, waiting, completed, failed, canceled, interrupted, same_status, final,
  status_event, status_payload, Job, Row, job_from,
}
use mock_vision.Worker.Table.{list_jobs_by_status}
use mock_vision.Worker.State.{
  Env, Cause, canceled_by_user, node_stopped, Execution, Runner, call_db, wake, known, save, event,
  finish_locked,
}

-- The rows of one status, each marked Interrupted; a save that fails ends the recovery.
unfoldable pub recover_rows : Env → ℕ → List Row → Runner → Bool × Runner
unfolding save event
recover_rows env now [] r = (true, r)
recover_rows env now (row ∷ rows) r =
    let j = record (job_from env.json row) { status = interrupted; question = none } in
    let s = save env j r in
    let rest = recover_rows env now rows (
      event env j.id status_event
        (status_payload interrupted "" "the node stopped while the job ran") now s.1) in
    if s.0 then rest else (false, s.1)

abbrev pub recover_limit : ℤ
recover_limit = pos 100_000

unfoldable pub recover_status : Env → ℕ → Status → Runner → Bool × Runner
unfolding call_db recover_rows
recover_status env now st r =
    let c = call_db env r in
    if c.0
    then recover_rows env now (list_jobs_by_status st recover_limit r.db.jobs) c.1
    else (false, c.1)

unfoldable pub recover : Env → ℕ → Runner → Bool × Runner
unfolding recover_status
recover env now r =
    let first = recover_status env now running r in
    if first.0 then recover_status env now waiting first.1 else first

-- `New`: what a process that starts has in memory. What was sent and done before stays sent and done.
unfoldable pub new_runner : Runner → Runner
new_runner r = record r { running = []; waiters = []; seqs = []; stopping = false; kick = false }

-- A process that starts on the database of the last one, wherever that one ended.
unfoldable pub restart : Env → ℕ → Runner → Bool × Runner
unfolding new_runner recover
restart env now r = recover env now (new_runner r)

-- A job waiting for an answer holds no slot.
abbrev pub holds_slot : Execution → Bool
holds_slot ex = not (same_status ex.job.status waiting)

unfoldable pub busy_slots : GoMap ℕ Execution → ℕ
busy_slots [] = 0
busy_slots ((id, ex) ∷ rest) = (if holds_slot ex then 1 else 0) + busy_slots rest

abbrev pub start_time : Option ℕ → ℕ → Option ℕ
start_time none now = some now
start_time (some t) now = some t

-- A job of an unknown type fails.
unfoldable pub reject_job : Env → ℕ → Job → Runner → Runner
unfolding save event
reject_job env now j r =
    let lost = record j { status = failed; error = "unknown job type"; finished_at = some now } in
    event env j.id status_event (status_payload failed "unknown job type" "") now
      (save env lost r).1

-- Any other is saved as Running and started.
unfoldable pub start_job : Env → ℕ → Job → Runner → Runner
unfolding save event
start_job env now j r =
    let started = record j {
      status = running;
      error = "";
      started_at = start_time j.started_at now;
    } in
    let s = save env started r in
    let told = event env j.id status_event (status_payload running "" "") now s.1 in
    let ex : Execution = record { job = started; cancel = none; answer = none; last_save = 0 } in
    if s.0 then record told { running = put j.id ex told.running } else s.1

unfoldable pub dispatch_row : Env → ℕ → Row → Runner → Runner
unfolding reject_job start_job known
dispatch_row env now row r =
    let j = job_from env.json row in
    if known env j.type then start_job env now j r else reject_job env now j r

unfoldable pub dispatch_rows : Env → ℕ → List Row → Runner → Runner
dispatch_rows env now [] r = r
dispatch_rows env now (row ∷ rows) r = dispatch_rows env now rows (dispatch_row env now row r)

unfoldable pub dispatch : Env → ℕ → ℕ → Runner → Runner
unfolding call_db
dispatch env now max_running r =
    let free = difference max_running (busy_slots r.running) in
    let c = call_db env r in
    if r.stopping
    then r
    else if leb_ℤ free (pos 0)
    then r
    else if c.0
    then dispatch_rows env now (list_jobs_by_status queued free r.db.jobs) c.1
    else c.1

-- The loop ends: every run is told that the node stops.
abbrev pub tell : Cause → Execution → Execution
tell cause ex = record ex { cancel = elim ex.cancel [ none ↦ some cause | some c ↦ some c ] }

unfoldable pub tell_all : Cause → GoMap ℕ Execution → GoMap ℕ Execution
tell_all cause [] = []
tell_all cause ((id, ex) ∷ rest) = (id, tell cause ex) ∷ tell_all cause rest

unfoldable pub stop : Runner → Runner
unfolding tell_all
stop r = record r { stopping = true; running = tell_all node_stopped r.running }

-- How a handler returns: its error, if any. `other` is any error but the two of the package.
pub data RunError : Type 0 where
  unanswered stopped_by_user : RunError
  other : String → RunError

abbrev pub error_text : RunError → String
error_text unanswered = "nobody answered the job's question in time"
error_text stopped_by_user = "stopped at the user's request"
error_text (other text) = text

-- The `switch` of `execute`: the status and the error of a job whose handler returned.
unfoldable pub ending : Option RunError → Option Cause → Status × String
ending none cause = (completed, "")
ending (some e) (some node_stopped) = (interrupted, "")
ending (some e) (some canceled_by_user) = (canceled, "canceled by the user")
ending (some unanswered) none = (canceled, error_text unanswered)
ending (some stopped_by_user) none = (canceled, error_text stopped_by_user)
ending (some (other text)) none = (failed, text)

abbrev pub keep_result : Option String → String → String
keep_result none old = old
keep_result (some raw) old = raw

-- The job as the end of `execute` leaves it.
unfoldable pub ended_job : ℕ → Option String → Option RunError → Execution → Job
unfolding ending
ended_job now result err ex =
    let e = ending err ex.cancel in
    record ex.job {
      question = none;
      result = keep_result result ex.job.result;
      status = e.0;
      error = e.1;
      progress = elim err [ none ↦ 1_000_000 | some _ ↦ ex.job.progress ];
      finished_at = if final e.0 then some now else ex.job.finished_at;
    }

abbrev pub has_cleanup : Option Bool → Bool
has_cleanup none = false
has_cleanup (some b) = b

unfoldable pub clean_up : Env → Job → Runner → Runner
clean_up env j r =
    if final j.status && has_cleanup (get j.type env.kinds)
    then record r { cleaned = r.cleaned ++ j.id ∷ [] }
    else r

unfoldable pub end_run : Env → ℕ → Job → Runner → Runner
unfolding save event finish_locked clean_up wake
end_run env now j r =
    let told =
      event env j.id status_event (status_payload j.status j.error "") now (save env j r).1 in
    wake (clean_up env j (finish_locked j (record told { running = del j.id told.running })))

-- `execute` once the handler has returned; `result` is what it returned, if it could be encoded. The
-- code reads the cause of the cancellation just before it takes the lock; here both are one step.
unfoldable pub execute : Env → ℕ → ℕ → Option String → Option RunError → Runner → Runner
unfolding ended_job end_run
execute env now id result err r = elim (get id r.running) [
  | none ↦ r
  | some ex ↦ end_run env now (ended_job now result err ex) r
]
