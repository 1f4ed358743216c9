-- ===== src/Worker/Handle.antt =====
-- run.go: what a handler calls to report on its job. Each takes r.mu, and finds its execution in
-- the map `running` of the runner.
use mock_vision.Prelude.{
  ℕ, ◌+◌, String, Bool, Option, none, some, [], ◌∷◌, ◌++◌, ltb, if◌then◌else◌,
}
use mock_vision.Prelude.Equality.{◌==◌, nat_eq, string_eq}
use mock_vision.Prelude.GoMap.{put}
use mock_vision.Prelude.Int.{ℤ, pos, negsuc}
use mock_vision.Worker.Job.{
  running, waiting, step_event, log_event, question_event, answer_event, Question, Job,
  step_payload, message, question_payload, answer_payload,
}
use mock_vision.Worker.State.{Env, Cause, Execution, job_update, Runner, save, event, wake}
use mock_vision.Worker.Loop.{RunError, unanswered}

abbrev pub one : ℕ
one = 1_000_000

-- `clamp`, on millionths.
unfoldable pub clamp : ℤ → ℕ
clamp (negsuc n) = 0
clamp (pos p) = if ltb one p then one else p

-- `run.ex.job = j`, then `save`.
unfoldable pub set_and_save : Env → ℕ → Execution → Runner → Runner
unfolding save
set_and_save env id ex r = (save env ex.job (record r { running = put id ex r.running })).1

-- Run.Save: a checkpoint.
unfoldable pub save_checkpoint : Env → ℕ → String → Execution → Runner → Bool × Runner
unfolding save
save_checkpoint env id raw ex r =
    let ex' = record ex { job = record ex.job { checkpoint = raw } } in
    save env ex'.job (record r { running = put id ex' r.running })

-- Run.Checkpoint: the checkpoint to go on from, if there is one.
unfoldable pub read_checkpoint : Job → Option String
read_checkpoint j =
    if j.checkpoint == ""
    then none
    else if j.checkpoint == "{}"
    then none
    else if j.checkpoint == "null"
    then none
    else some j.checkpoint

-- Run.Step
unfoldable pub step : Env → ℕ → ℕ → String → ℤ → Execution → Runner → Runner
unfolding clamp set_and_save event
step env now id name progress ex r =
    let ex' = record ex {
      job = record ex.job { step = name; progress = clamp progress };
      last_save = now;
    } in
    event env id step_event (step_payload name (clamp progress)) now (set_and_save env id ex' r)

abbrev pub progress_every : ℕ
progress_every = 1_000_000_000

-- Run.Progress: it never goes back, and is written at most once a second.
unfoldable pub progress : Env → ℕ → ℕ → ℤ → Execution → Runner → Runner
unfolding clamp set_and_save
progress env now id p ex r =
    let j = record ex.job { progress = clamp p } in
    if ltb (clamp p) ex.job.progress
    then r
    else if ltb now (ex.last_save + progress_every)
    then record r {
      running = put id (record ex { job = j }) r.running;
      published = r.published ++ job_update j ∷ [];
    }
    else set_and_save env id (record ex { job = j; last_save = now }) r

-- Run.Logf
unfoldable pub logf : Env → ℕ → ℕ → String → Runner → Runner
logf env now id text r = event env id log_event (message text) now r

-- Run.Ask up to its wait: an answer left over from an earlier question does not count.
unfoldable pub ask_begin : Env → ℕ → ℕ → Question → Execution → Runner → Runner
unfolding set_and_save event wake
ask_begin env now id q ex r =
    let ex' = record ex {
      answer = none;
      job = record ex.job { status = waiting; question = some q };
    } in
    wake (event env id question_event (question_payload q) now (set_and_save env id ex' r))

-- What ends the wait of Run.Ask: an answer, the timer, or the end of the context.
pub data Wake : Type 0 where
  answered : String → Wake
  timed_out : Wake
  context_done : Cause → Wake

pub data AskResult : Type 0 where
  got : String → AskResult
  failed_with : RunError → AskResult
  interrupted_by : Cause → AskResult

abbrev pub answer_or_fail : String → AskResult
answer_or_fail text = if text == "" then failed_with unanswered else got text

unfoldable pub ask_settle :
    Env → ℕ → ℕ → Question → String → String → Execution → Runner → AskResult × Runner
unfolding set_and_save event
ask_settle env now id q text by ex r =
    let ex' = record ex { job = record ex.job { status = running; question = none } } in
    (
      answer_or_fail text,
      event env id answer_event (answer_payload q.id text by) now (set_and_save env id ex' r),
    )

-- Run.Ask after its wait. Receiving the answer empties the channel.
unfoldable pub ask_end : Env → ℕ → ℕ → Question → Wake → Execution → Runner → AskResult × Runner
unfolding ask_settle
ask_end env now id q (answered text) ex r =
    ask_settle env now id q text "user" (record ex { answer = none }) r
ask_end env now id q timed_out ex r = ask_settle env now id q q.default "timeout" ex r
ask_end env now id q (context_done cause) ex r = (interrupted_by cause, r)
