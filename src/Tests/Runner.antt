-- ===== src/Tests/Runner.antt =====
-- The runner: a table with a finished, a queued and a running job.
use mock_vision.Prelude.{
  ℕ, ◌≤◌, ◌≡◌, refl, true, false, List, [], ◌∷◌, none, some, arith, max, nat_beq,
}
use mock_vision.Prelude.Equality.{nat_eq}
use mock_vision.Prelude.GoMap.{get}
use mock_vision.Prelude.Int.{pos}
use mock_vision.Worker.Job.{
  Status, completed, queued, running, Question, Job, Row, Json, job_from, update, write_row,
  log_event, message, status_event, status_payload, null_millis,
}
use mock_vision.Worker.Job.RoundTrip.{IsSavable, IsRowOf, job_from-update}
use mock_vision.Worker.Table.{get_job}
use mock_vision.Worker.State.{Env, Execution, Runner, event}
use mock_vision.Worker.Loop.{busy_slots, dispatch}
use mock_vision.Worker.Requests.{Spec, absent}
use mock_vision.Worker.Steps.{
  Operation, submitting, dispatching, canceling, resuming, returned, reporting, set_progress,
  pruning, restarting, apply_all,
}
use mock_vision.Worker.Steps.Sound.{IsSound}
use mock_vision.Worker.Steps.Invariant.{apply_all-IsSound}
use mock_vision.Worker.Steps.Final.{apply_all-FinalRow}
use mock_vision.Worker.Limits.Slots.{busy_slots-dispatch}
use mock_vision.Worker.Limits.Sequence.{IsNumbered, event-IsNumbered}

abbrev which_color : Question
which_color = record { id = 9; text = "Go on?"; options = []; default = "yes"; expires_at = 60 }

abbrev one_question : Json
one_question = record {
  valid = λ text. true;
  marshal_question = λ q. "question";
  unmarshal_question = λ text. some which_color;
}

-- The third call of the database fails.
abbrev env : Env
env = record {
  json = one_question;
  io_ok = λ n. elim (nat_beq n 2) [ true ↦ false | false ↦ true ];
  kinds = ("import", true) ∷ [];
}

abbrev row : ℕ → Status → Row
row id st = record {
  id = id;
  type = "import";
  title = "Import";
  status = st;
  progress = 0;
  step = "";
  params_json = "{}";
  checkpoint_json = "{}";
  question_json = none;
  result_json = "{}";
  dedupe_key = none;
  created_by = "ada";
  created_at = 5;
  started_at = none;
  finished_at = none;
  error = "";
}

-- It finished 20 milliseconds after the zero time.
abbrev done : Row
done = record (row 1 completed) { finished_at = some 20 }

abbrev execution : Execution
execution = record {
  job = job_from one_question (row 3 running);
  cancel = none;
  answer = none;
  last_save = 0;
}

abbrev start : Runner
start = record {
  db = record {
    jobs = done ∷ row 2 queued ∷ row 3 running ∷ [];
    events =
        record {
          job_id = 3;
          seq = 1;
          at = 6;
          kind = status_event;
          payload = status_payload running "" "";
        }
        ∷ [];
  };
  calls = 0;
  running = (3, execution) ∷ [];
  waiters = [];
  closed = [];
  seqs = (3, 1) ∷ [];
  stopping = false;
  kick = false;
  published = [];
  cleaned = [];
}

start-IsSound : IsSound start
unfolding get get_job job_from
start-IsSound = record {
  ordered = ((omega arith, (omega arith, tt)), ((omega arith, tt), (tt, tt)));
  live = λ id. ground arith;
}

abbrev spec : Spec
spec = record { type = "import"; title = "More"; params = absent; key = ""; created_by = "ada" }

abbrev operations : List (ℕ × Operation)
operations =
    (10, dispatching 4)
    ∷ (11, submitting 4 spec)
    ∷ (12, canceling 1)
    ∷ (13, resuming 1)
    ∷ (14, reporting 3 (set_progress (pos 500_000)))
    ∷ (15, returned 3 none none)
    ∷ (16, pruning 12_000_000)
    ∷ (17, restarting)
    ∷ []

apply_all-FinalRow_example : get_job 1 (apply_all env operations start).db.jobs ≡ some done
apply_all-FinalRow_example =
    apply_all-FinalRow env operations 1 done start start-IsSound (unfold get_job in refl) refl
      (refl, (refl, (refl, (refl, (refl, (refl, (unfold null_millis in refl, (refl, tt))))))))

apply_all-IsSound_example : IsSound (apply_all env operations start)
apply_all-IsSound_example = apply_all-IsSound env operations start start-IsSound

busy_slots-dispatch_example :
    busy_slots (dispatch env 10 1 start).running ≤ max 1 (busy_slots start.running)
busy_slots-dispatch_example = busy_slots-dispatch env 10 1 start

start-IsNumbered : IsNumbered start
unfolding get
start-IsNumbered = record { memory = λ id. ground arith; growing = λ id. (λ same. tt, tt) }

event-IsNumbered_example : IsNumbered (event env 3 log_event (message "half done") 20 start)
event-IsNumbered_example =
    event-IsNumbered env 3 log_event (message "half done") 20 start start-IsNumbered

abbrev saved_job : Job
saved_job = record (job_from one_question (row 3 running)) {
  question = some which_color;
  started_at = some 7_654_321;
}

saved_job-IsSavable : IsSavable one_question saved_job
unfolding job_from
saved_job-IsSavable = record {
  result_valid = refl;
  result_there = refl;
  checkpoint_there = refl;
  started_set = omega arith;
  finished_set = tt;
}

row-IsRowOf : IsRowOf saved_job (row 3 running)
unfolding job_from
row-IsRowOf = record {
  id = refl;
  type = refl;
  title = refl;
  params = refl;
  created_by = refl;
  created_at = refl;
}

job_from-update_example :
    job_from one_question (write_row (update one_question saved_job) (row 3 running))
    ≡ record saved_job { started_at = some 7_000_000; finished_at = none }
unfolding job_from
job_from-update_example =
    job_from-update one_question saved_job (row 3 running) (λ q e. e) saved_job-IsSavable
      row-IsRowOf
