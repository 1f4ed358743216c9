-- ===== src/Worker/Job.antt =====
-- job.go, and the row type of store/db/models.go: a job, its row, and the way from one to the other.
-- An ID is the 128-bit number that a ULID spells. A time of a job is its nanoseconds and one of a row
-- its milliseconds; 0 is the zero time. Progress is counted in millionths. JSON stays text; package encoding/json is a parameter.
pub mod RoundTrip
use mock_vision.Prelude.{
  ℕ, zero, suc, String, Bool, true, false, ◌||◌, List, Option, none, some, nat_beq, if◌then◌else◌,
}
use mock_vision.Prelude.Time.{time_of, unix_milli}
use mock_vision.Prelude.Equality.{◌==◌, string_eq}

pub data Status : Type 0 where
  queued running waiting completed failed canceled interrupted : Status

abbrev pub same_status : Status → Status → Bool
same_status queued queued = true
same_status running running = true
same_status waiting waiting = true
same_status completed completed = true
same_status failed failed = true
same_status canceled canceled = true
same_status interrupted interrupted = true
same_status _ _ = false

-- Status.Final and Status.Busy.
abbrev pub final : Status → Bool
final s = same_status s completed || same_status s failed || same_status s canceled

abbrev pub busy : Status → Bool
busy s = same_status s queued || same_status s running || same_status s waiting

-- `Option` of job.go.
pub record Choice : Type 0 where
  pub id : String
  pub label : String

pub record Question : Type 0 where
  pub id : ℕ
  pub text : String
  pub options : List Choice
  pub default : String
  pub expires_at : ℕ

pub record Job : Type 0 where
  pub id : ℕ
  pub type : String
  pub title : String
  pub status : Status
  pub progress : ℕ
  pub step : String
  pub question : Option Question
  pub result : String
  pub error : String
  pub created_by : String
  pub created_at : ℕ
  pub started_at : Option ℕ
  pub finished_at : Option ℕ
  pub params : String
  pub checkpoint : String

pub data EventKind : Type 0 where
  status_event step_event log_event question_event answer_event : EventKind

-- What an event tells, before its encoding as JSON: a status with its error and its reason, a step,
-- a line of the log, a question, or an answer with its question and who gave it.
pub data Payload : Type 0 where
  status_payload : Status → String → String → Payload
  step_payload : String → ℕ → Payload
  message : String → Payload
  question_payload : Question → Payload
  answer_payload : ℕ → String → String → Payload

-- `db.Job`, one row of the table.
pub record Row : Type 0 where
  pub id : ℕ
  pub type : String
  pub title : String
  pub status : Status
  pub progress : ℕ
  pub step : String
  pub params_json : String
  pub checkpoint_json : String
  pub question_json : Option String
  pub result_json : String
  pub dedupe_key : Option String
  pub created_by : String
  pub created_at : ℕ
  pub started_at : Option ℕ
  pub finished_at : Option ℕ
  pub error : String

-- `db.UpdateJobParams`.
pub record Update : Type 0 where
  pub id : ℕ
  pub status : Status
  pub progress : ℕ
  pub step : String
  pub checkpoint_json : String
  pub question_json : Option String
  pub result_json : String
  pub started_at : Option ℕ
  pub finished_at : Option ℕ
  pub error : String

-- What the code uses of encoding/json.
pub record Json : Type 0 where
  pub valid : String → Bool
  pub marshal_question : Question → String
  pub unmarshal_question : String → Option Question

-- store.NullTime and store.NullMillis, of a time that may be absent from the job or zero.
unfoldable pub null_time : Option ℕ → Option ℕ
null_time none = none
null_time (some zero) = none
null_time (some (suc ms)) = some (time_of (suc ms))

unfoldable pub null_millis : Option ℕ → Option ℕ
null_millis none = none
null_millis (some zero) = none
null_millis (some (suc t)) = some (unix_milli (suc t))

unfoldable pub read_question : Json → Option String → Option Question
read_question json none = none
read_question json (some text) = json.unmarshal_question text

unfoldable pub write_question : Json → Option Question → Option String
write_question json none = none
write_question json (some q) = some (json.marshal_question q)

unfoldable pub job_from : Json → Row → Job
unfolding null_time read_question
job_from json r = record {
  id = r.id;
  type = r.type;
  title = r.title;
  status = r.status;
  progress = r.progress;
  step = r.step;
  question = read_question json r.question_json;
  result = if json.valid r.result_json then r.result_json else "{}";
  error = r.error;
  created_by = r.created_by;
  created_at = time_of r.created_at;
  started_at = null_time r.started_at;
  finished_at = null_time r.finished_at;
  params = r.params_json;
  checkpoint = r.checkpoint_json;
}

abbrev or_empty_object : String → String
or_empty_object text = if text == "" then "{}" else text

unfoldable pub update : Json → Job → Update
unfolding null_millis write_question
update json j = record {
  id = j.id;
  status = j.status;
  progress = j.progress;
  step = j.step;
  checkpoint_json = or_empty_object j.checkpoint;
  question_json = write_question json j.question;
  result_json = or_empty_object j.result;
  started_at = null_millis j.started_at;
  finished_at = null_millis j.finished_at;
  error = j.error;
}

-- UPDATE jobs SET … on one row.
unfoldable pub write_row : Update → Row → Row
write_row u r = record r {
  status = u.status;
  progress = u.progress;
  step = u.step;
  checkpoint_json = u.checkpoint_json;
  question_json = u.question_json;
  result_json = u.result_json;
  started_at = u.started_at;
  finished_at = u.finished_at;
  error = u.error;
}
