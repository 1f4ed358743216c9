-- ===== src/Worker/Requests.antt =====
-- The requests of runner.go: `Submit`, `Get`, `Cancel`, `Resume`, `Answer`, `Prune`.
use mock_vision.Prelude.{
  ℕ, String, Bool, true, false, ◌||◌, List, [], ◌∷◌, ◌++◌, Option, none, some, leb, ltb,
  if◌then◌else◌, length, any,
}
use mock_vision.Prelude.Time.{time_of, unix_milli}
use mock_vision.Prelude.Equality.{◌==◌, nat_eq, string_eq}
use mock_vision.Prelude.GoMap.{get, put}
use mock_vision.Prelude.Int.{pos}
use mock_vision.Worker.Job.{
  Status, queued, waiting, canceled, interrupted, same_status, status_event, status_payload,
  Question, Job, Row, job_from, null_millis,
}
use mock_vision.Worker.Table.{
  get_job, get_open_job_by_key, count_queued_jobs, InsertJobParams, insert_job, delete_job,
  list_jobs_by_status, list_finished_jobs_before,
}
use mock_vision.Worker.State.{
  Env, canceled_by_user, Execution, job_update, Runner, call_db, wake, known, save, event,
  finish_locked, requeue_locked,
}
use mock_vision.Worker.Loop.{tell, clean_up}

-- The errors of the requests: domain.ErrNotFound, domain.Invalid, domain.Conflict, and an error of
-- the database.
pub data Failure : Type 0 where
  not_found store_failure : Failure
  invalid : String → Failure
  conflict : String → Failure

pub data Result (A : Type 0) : Type 0 where
  ok : A → Result A
  err : Failure → Result A

abbrev pub max_queued : ℕ
max_queued = 500

-- `Spec`; `params` is the JSON of its parameters, which are absent or may fail to encode.
pub data Params : Type 0 where
  absent unencodable : Params
  encoded : String → Params

pub record Spec : Type 0 where
  pub type : String
  pub title : String
  pub params : Params
  pub key : String
  pub created_by : String

abbrev pub params_json : Params → Option String
params_json absent = some "{}"
params_json unencodable = none
params_json (encoded text) = some text

abbrev pub null_string : String → Option String
null_string s = if s == "" then none else some s

-- The end of `Submit`: the queue has room, and the row is inserted.
unfoldable pub insert_new : Env → ℕ → ℕ → Spec → String → Runner → Result (Job × Bool) × Runner
unfolding call_db event wake
insert_new env now id spec params r =
    let p : InsertJobParams = record {
      id = id;
      type = spec.type;
      title = spec.title;
      params_json = params;
      dedupe_key = null_string spec.key;
      created_by = spec.created_by;
      created_at = unix_milli now;
    } in
    let c = call_db env r in
    if c.0
    then (elim (insert_job p r.db.jobs) [
      | none ↦ (err store_failure, c.1)
      | some rows ↦
          let j : Job = record {
            id = id;
            type = spec.type;
            title = spec.title;
            status = queued;
            progress = 0;
            step = "";
            question = none;
            result = "{}";
            error = "";
            created_by = spec.created_by;
            created_at = time_of p.created_at;
            started_at = none;
            finished_at = none;
            params = params;
            checkpoint = "{}";
          } in
          let told =
            event env id status_event (status_payload queued "" "") now
              (record c.1 { db = record r.db { jobs = rows } }) in
          (ok (j, true), wake (record told { published = told.published ++ job_update j ∷ [] }))
    ])
    else (err store_failure, c.1)

unfoldable pub submit_new : Env → ℕ → ℕ → Spec → String → Runner → Result (Job × Bool) × Runner
unfolding call_db insert_new
submit_new env now id spec params r =
    let c = call_db env r in
    if c.0
    then (if leb max_queued (count_queued_jobs r.db.jobs)
        then (err (conflict "the job queue is full"), c.1)
        else insert_new env now id spec params c.1)
    else (err store_failure, c.1)

-- An open job with the same key is joined, and resumed if it was interrupted.
unfoldable pub join_open : Env → ℕ → Row → Runner → Result (Job × Bool) × Runner
unfolding requeue_locked
join_open env now row r =
    let j = job_from env.json row in
    let q = requeue_locked env now j r in
    if same_status j.status interrupted
    then (if q.0
        then (ok (record j { status = queued; error = "" }, false), q.1)
        else (err store_failure, q.1))
    else (ok (j, false), r)

unfoldable pub submit_found :
    Env → ℕ → ℕ → Spec → String → Option Row → Runner → Result (Job × Bool) × Runner
unfolding submit_new join_open
submit_found env now id spec params (some row) r = join_open env now row r
submit_found env now id spec params none r = submit_new env now id spec params r

unfoldable pub submit_encoded : Env → ℕ → ℕ → Spec → String → Runner → Result (Job × Bool) × Runner
unfolding call_db submit_found
submit_encoded env now id spec params r =
    let c = call_db env r in
    if spec.key == ""
    then submit_new env now id spec params r
    else if c.0
    then submit_found env now id spec params (get_open_job_by_key spec.key r.db.jobs) c.1
    else (err store_failure, c.1)

-- `Submit`; `id` is the ULID that it would give to a new job.
unfoldable pub submit : Env → ℕ → ℕ → Spec → Runner → Result (Job × Bool) × Runner
unfolding submit_encoded known
submit env now id spec r =
    if known env spec.type
    then (elim (params_json spec.params) [
      | none ↦ (err (invalid "params"), r)
      | some params ↦ submit_encoded env now id spec params r
    ])
    else (err (invalid "type"), r)

-- The row of a job, or the error of `GetJob`.
unfoldable pub read_job : Env → ℕ → Runner → Result Row × Runner
unfolding call_db
read_job env id r =
    let c = call_db env r in
    if c.0
    then (elim (get_job id r.db.jobs) [ none ↦ (err not_found, c.1) | some row ↦ (ok row, c.1) ])
    else (err store_failure, c.1)

-- What a request does with the row that it reads.
unfoldable pub with_row :
    {A : Type 0} → Result Row × Runner → (Row → Runner → Result A × Runner) → Result A × Runner
with_row (err e, r) f = (err e, r)
with_row (ok row, r) f = f row r

-- `Get`
unfoldable pub get_of : Env → ℕ → Option Execution → Runner → Result Job × Runner
unfolding read_job with_row
get_of env id (some ex) r = (ok ex.job, r)
get_of env id none r = with_row (read_job env id r) (λ row s. (ok (job_from env.json row), s))

unfoldable pub get_current : Env → ℕ → Runner → Result Job × Runner
unfolding get_of
get_current env id r = get_of env id (get id r.running) r

abbrev pub can_cancel : Status → Bool
can_cancel s = same_status s queued || same_status s interrupted

-- `Cancel` of a job that does not run.
unfoldable pub cancel_row : Env → ℕ → Row → Runner → Result Job × Runner
unfolding save event finish_locked clean_up
cancel_row env now row r =
    let j = job_from env.json row in
    let gone = record j {
      status = canceled;
      error = "canceled by the user";
      finished_at = some now;
      question = none;
    } in
    let s = save env gone r in
    let told = event env j.id status_event (status_payload canceled gone.error "") now s.1 in
    if can_cancel j.status
    then (if s.0
        then (ok gone, clean_up env gone (finish_locked gone told))
        else (err store_failure, s.1))
    else (err (conflict "the job cannot be canceled"), r)

unfoldable pub cancel_of : Env → ℕ → ℕ → Option Execution → Runner → Result Job × Runner
unfolding read_job cancel_row with_row
cancel_of env now id (some ex) r =
    (ok ex.job, record r { running = put id (tell canceled_by_user ex) r.running })
cancel_of env now id none r = with_row (read_job env id r) (cancel_row env now)

unfoldable pub cancel : Env → ℕ → ℕ → Runner → Result Job × Runner
unfolding cancel_of
cancel env now id r = cancel_of env now id (get id r.running) r

unfoldable pub resume_row : Env → ℕ → Row → Runner → Result Job × Runner
unfolding requeue_locked known
resume_row env now row r =
    let j = job_from env.json row in
    let q = requeue_locked env now j r in
    if same_status j.status interrupted
    then (if known env j.type
        then (if q.0
            then (ok (record j { status = queued; error = "" }), q.1)
            else (err store_failure, q.1))
        else (err (conflict "unknown job type"), r))
    else (err (conflict "only an interrupted job can be resumed"), r)

unfoldable pub resume : Env → ℕ → ℕ → Runner → Result Job × Runner
unfolding read_job resume_row with_row
resume env now id r = with_row (read_job env id r) (resume_row env now)

-- The question that a run waits on, if it waits on one.
abbrev pub open_question : Option Execution → Option (Execution × Question)
open_question none = none
open_question (some ex) = elim ex.job.question [
  | none ↦ none
  | some q ↦ if same_status ex.job.status waiting then some (ex, q) else none
]

abbrev pub offers : Question → String → Bool
offers q answer = any (λ c. c.id == answer) q.options

-- The channel `answer` holds one answer.
unfoldable pub give_answer : ℕ → String → Execution → Question → Runner → Result Job × Runner
give_answer id text ex q r =
    if offers q text
    then (elim ex.answer [
      | none ↦
          (ok ex.job, record r { running = put id (record ex { answer = some text }) r.running })
      | some _ ↦ (err (conflict "the question was already answered"), r)
    ])
    else (err (invalid "answer"), r)

unfoldable pub answer_of :
    Env → ℕ → String → Option (Execution × Question) → Runner → Result Job × Runner
unfolding read_job give_answer with_row
answer_of env id text (some (ex, question)) r = give_answer id text ex question r
answer_of env id text none r =
    with_row (read_job env id r)
      (λ row s. (err (conflict "the job is not waiting for an answer"), s))

unfoldable pub answer : Env → ℕ → String → Runner → Result Job × Runner
unfolding answer_of
answer env id text r = answer_of env id text (open_question (get id r.running)) r

-- `Prune`: old interrupted jobs are canceled, then finished ones are deleted. It takes r.mu only
-- in each `Cancel`.
unfoldable pub cancel_stale : Env → ℕ → ℕ → List Row → Runner → Runner
cancel_stale env now before [] r = r
cancel_stale env now before (row ∷ rows) r =
    cancel_stale env now before rows
      (if ltb (time_of row.created_at) before then (cancel env now row.id r).1 else r)

unfoldable pub delete_all : Env → List ℕ → Runner → Bool × Runner
unfolding call_db
delete_all env [] r = (true, r)
delete_all env (id ∷ ids) r =
    let c = call_db env r in
    let rest = delete_all env ids (record c.1 { db = delete_job id r.db }) in
    if c.0 then rest else (false, c.1)

unfoldable pub prune : Env → ℕ → ℕ → Runner → Result ℕ × Runner
unfolding call_db cancel_stale delete_all null_millis
prune env now before r =
    let c = call_db env r in
    let r2 =
      cancel_stale env now before (list_jobs_by_status interrupted (pos 10_000) r.db.jobs) c.1 in
    let d = call_db env r2 in
    let ids = list_finished_jobs_before (null_millis (some before)) r2.db.jobs in
    let e = delete_all env ids d.1 in
    if c.0
    then (if d.0
        then (if e.0 then (ok (length ids), e.1) else (err store_failure, e.1))
        else (err store_failure, d.1))
    else (err store_failure, c.1)
