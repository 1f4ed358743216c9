-- ===== src/Worker/Table.antt =====
-- store/db/jobs.sql.go: the queries on the tables `jobs` and `job_events`. The rows of `jobs` stand
-- in the order of their primary key. A query that SQLite refuses for a constraint is `none`.
pub mod Rows
use mock_vision.Prelude.{
  ℕ, ◌+◌, ◌<◌, String, Bool, true, false, not, ◌&&◌, ◌||◌, List, [], ◌∷◌, ◌++◌, map, Option, none,
  some, ltb, leb, nat_beq, if◌then◌else◌, length, take, filter, any, max,
}
use mock_vision.Prelude.Equality.{◌==◌, string_eq}
use mock_vision.Prelude.Int.{ℤ, pos, negsuc}
use mock_vision.Worker.Job.{
  Status, queued, running, waiting, completed, failed, canceled, interrupted, same_status, final,
  EventKind, Payload, Row, Update, write_row,
}

-- `db.JobEvent`.
pub record EventRow : Type 0 where
  pub job_id : ℕ
  pub seq : ℕ
  pub at : ℕ
  pub kind : EventKind
  pub payload : Payload

pub record Db : Type 0 where
  pub jobs : List Row
  pub events : List EventRow

-- GetJob; `none` is sql.ErrNoRows.
unfoldable pub get_job : ℕ → List Row → Option Row
get_job id [] = none
get_job id (r ∷ rs) = if nat_beq r.id id then some r else get_job id rs

-- CountQueuedJobs
unfoldable pub count_queued_jobs : List Row → ℕ
count_queued_jobs rows = length (filter (λ r. same_status r.status queued) rows)

-- status IN ('queued', 'running', 'waiting', 'interrupted')
abbrev pub open_status : Status → Bool
open_status s = not (final s)

abbrev pub has_key : String → Option String → Bool
has_key key none = false
has_key key (some k) = k == key

-- GetOpenJobByKey
unfoldable pub get_open_job_by_key : String → List Row → Option Row
get_open_job_by_key key [] = none
get_open_job_by_key key (r ∷ rs) =
    if has_key key r.dedupe_key && open_status r.status then some r else get_open_job_by_key key rs

-- `db.InsertJobParams`
pub record InsertJobParams : Type 0 where
  pub id : ℕ
  pub type : String
  pub title : String
  pub params_json : String
  pub dedupe_key : Option String
  pub created_by : String
  pub created_at : ℕ

-- The row that INSERT writes, with the defaults of the columns that it does not name.
unfoldable pub new_row : InsertJobParams → Row
new_row p = record {
  id = p.id;
  type = p.type;
  title = p.title;
  status = queued;
  progress = 0;
  step = "";
  params_json = p.params_json;
  checkpoint_json = "{}";
  question_json = none;
  result_json = "{}";
  dedupe_key = p.dedupe_key;
  created_by = p.created_by;
  created_at = p.created_at;
  started_at = none;
  finished_at = none;
  error = "";
}

unfoldable pub place_row : Row → List Row → List Row
place_row r [] = r ∷ []
place_row r (s ∷ rs) = let rest = place_row r rs in if ltb r.id s.id then r ∷ s ∷ rs else s ∷ rest

-- The unique index jobs_open_key.
abbrev pub key_taken : Option String → List Row → Bool
key_taken none rows = false
key_taken (some key) rows = any (λ r. has_key key r.dedupe_key && open_status r.status) rows

abbrev pub id_taken : ℕ → List Row → Bool
id_taken id rows = any (λ r. nat_beq r.id id) rows

-- InsertJob
unfoldable pub insert_job : InsertJobParams → List Row → Option (List Row)
unfolding new_row place_row
insert_job p rows =
    if id_taken p.id rows || key_taken p.dedupe_key rows
    then none
    else some (place_row (new_row p) rows)

-- UpdateJob; without such a row it changes nothing.
unfoldable pub update_job : Update → List Row → List Row
update_job u [] = []
update_job u (r ∷ rs) =
    let rest = update_job u rs in if nat_beq r.id u.id then write_row u r ∷ rs else r ∷ rest

-- DeleteJob; the events of the job go with it (ON DELETE CASCADE).
unfoldable pub delete_job : ℕ → Db → Db
delete_job id d = record {
  jobs = filter (λ r. not (nat_beq r.id id)) d.jobs;
  events = filter (λ e. not (nat_beq e.job_id id)) d.events;
}

-- LIMIT; SQLite takes a negative one for no limit.
abbrev pub limit_rows : ℤ → List Row → List Row
limit_rows (pos n) rows = take n rows
limit_rows (negsuc n) rows = rows

-- ListJobsByStatus, in the order of the IDs.
unfoldable pub list_jobs_by_status : Status → ℤ → List Row → List Row
list_jobs_by_status st limit rows = limit_rows limit (filter (λ r. same_status r.status st) rows)

-- finished_at < t; a comparison with NULL does not hold.
abbrev pub before_time : Option ℕ → Option ℕ → Bool
before_time (some t) (some f) = ltb f t
before_time _ _ = false

-- ListFinishedJobsBefore
unfoldable pub list_finished_jobs_before : Option ℕ → List Row → List ℕ
list_finished_jobs_before t rows =
    map (λ r. r.id) (filter (λ r. before_time t r.finished_at && final r.status) rows)

-- MaxJobEventSeq
unfoldable pub max_job_event_seq : ℕ → List EventRow → ℕ
max_job_event_seq id [] = 0
max_job_event_seq id (e ∷ es) =
    let rest = max_job_event_seq id es in if nat_beq e.job_id id then max e.seq rest else rest

-- InsertJobEvent, under its foreign key and its primary key (job_id, seq).
unfoldable pub insert_job_event : EventRow → Db → Option Db
insert_job_event e d =
    if id_taken e.job_id d.jobs
      && not (any (λ f. nat_beq f.job_id e.job_id && nat_beq f.seq e.seq) d.events)
    then some (record d { events = d.events ++ e ∷ [] })
    else none

-- ListJobEvents, for rows that stand in the order of their sequence numbers.
unfoldable pub list_job_events : ℕ → ℕ → ℕ → List EventRow → List EventRow
list_job_events id after limit es =
    take limit (filter (λ e. nat_beq e.job_id id && ltb after e.seq) es)
