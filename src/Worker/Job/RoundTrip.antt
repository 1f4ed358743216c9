-- ===== src/Worker/Job/RoundTrip.antt =====
-- A saved job reads back as it was, but for the nanoseconds of its times.
use mock_vision.Prelude.{ℕ, zero, suc, ◌≤◌, ◌≡◌, refl, true, false, Option, none, some, arith}
use mock_vision.Prelude.Time.{time_of, unix_milli}
use mock_vision.Prelude.Equality.{◌==◌, string_eq}
use mock_vision.Worker.Job.{
  Question, Job, Row, Json, null_time, null_millis, read_question, write_question, job_from, update,
  write_row,
}

-- A time that is there is a millisecond or more after the zero time.
abbrev pub TimeSet : Option ℕ → Type 0
TimeSet none = Unit
TimeSet (some t) = time_of 1 ≤ t

-- The last millisecond at a time or before it.
abbrev pub whole_millis : Option ℕ → Option ℕ
whole_millis none = none
whole_millis (some t) = some (time_of (unix_milli t))

null_time-some : (ms : ℕ) → 1 ≤ ms → null_time (some ms) ≡ some (time_of ms)
unfolding null_time
null_time-some zero h = absurd (omega arith)
null_time-some (suc ms) h = refl

null_time-null_millis : (t : Option ℕ) → TimeSet t → null_time (null_millis t) ≡ whole_millis t
null_time-null_millis none h = unfold null_time null_millis in refl
null_time-null_millis (some zero) h = absurd (omega arith)
null_time-null_millis (some (suc t)) h =
    unfold null_millis in null_time-some (unix_milli (suc t)) (omega arith)

read-write_question :
    (json : Json) (o : Option Question)
    → ((q : Question) → o ≡ some q → json.unmarshal_question (json.marshal_question q) ≡ some q)
    → read_question json (write_question json o) ≡ o
unfolding read_question write_question
read-write_question json none back = refl
read-write_question json (some q) back = back q refl

-- What the code keeps of a job in memory: valid JSON that is not empty, and times that are set.
pub record IsSavable (json : Json) (j : Job) : Type 0 where
  pub result_valid : json.valid j.result ≡ true
  pub result_there : (j.result == "") ≡ false
  pub checkpoint_there : (j.checkpoint == "") ≡ false
  pub started_set : TimeSet j.started_at
  pub finished_set : TimeSet j.finished_at

-- The fields that an UPDATE leaves alone are the job's own.
pub record IsRowOf (j : Job) (r : Row) : Type 0 where
  pub id : r.id ≡ j.id
  pub type : r.type ≡ j.type
  pub title : r.title ≡ j.title
  pub params : r.params_json ≡ j.params
  pub created_by : r.created_by ≡ j.created_by
  pub created_at : time_of r.created_at ≡ j.created_at

-- If JSON decodes the question that it encodes for the job, where the job has one, then a job whose
-- JSON is valid and not empty and whose times are set reads back from its row once `update` has
-- been written to the row: the same but for the times at which it started and finished, which are
-- cut to whole milliseconds.
pub job_from-update :
    (json : Json) (j : Job) (r : Row)
    → ((q : Question)
        → j.question ≡ some q
        → json.unmarshal_question (json.marshal_question q) ≡ some q)
    → IsSavable json j
    → IsRowOf j r
    → job_from json (write_row (update json j) r) ≡ record j {
      started_at = whole_millis j.started_at;
      finished_at = whole_millis j.finished_at;
    }
unfolding job_from update write_row
job_from-update json j r back s o = ground (
  arith,
  null_time-null_millis j.started_at s.started_set,
  null_time-null_millis j.finished_at s.finished_set,
  read-write_question json j.question back,
)
