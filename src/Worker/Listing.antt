-- ===== src/Worker/Listing.antt =====
-- What runner.go reads for the panel: `List` and `Events`, and the query ListJobs.
use mock_vision.Prelude.{
  ℕ, ◌+◌, String, Bool, true, false, ◌||◌, ◌&&◌, List, [], ◌∷◌, Option, none, some, ltb, leb, map,
  length, take, filter, if◌then◌else◌,
}
use mathlib.Core.List.{reverse}
use mock_vision.Prelude.Equality.{◌==◌, nat_eq, string_eq}
use mock_vision.Prelude.GoMap.{get}
use mock_vision.Worker.Job.{Status, same_status, final, Job, Row, job_from}
use mock_vision.Worker.Table.{EventRow, list_job_events, open_status}
use mock_vision.Worker.State.{Env, Execution, Runner, call_db}
use mock_vision.Worker.Requests.{Result, ok, err, invalid, store_failure}

-- The status of a filter, once it is known to be one.
pub data StatusFilter : Type 0 where
  any_status only_active only_finished unknown_status : StatusFilter
  one_status : Status → StatusFilter

-- `Filter`; a cursor is the ID that the page comes before.
pub record Filter : Type 0 where
  pub status : StatusFilter
  pub type : String
  pub cursor : Option ℕ
  pub limit : ℕ

abbrev before_cursor : Option ℕ → ℕ → Bool
before_cursor none id = true
before_cursor (some c) id = ltb id c

abbrev has_status : StatusFilter → Status → Bool
has_status any_status s = true
has_status only_active s = open_status s
has_status only_finished s = final s
has_status unknown_status s = false
has_status (one_status t) s = same_status s t

abbrev selects : Filter → Row → Bool
selects f r =
    before_cursor f.cursor r.id
    && (f.type == "" || r.type == f.type)
    && has_status f.status r.status

-- ListJobs: the newest first.
unfoldable pub list_jobs : Filter → ℕ → List Row → List Row
list_jobs f limit rows = take limit (filter (selects f) (reverse rows))

abbrev page_limit : ℕ → ℕ
page_limit n = if leb n 0 || ltb 200 n then 50 else n

-- A running job is fresher than its row.
abbrev fresh_job : Env → Option Execution → Row → Job
fresh_job env (some ex) row = ex.job
fresh_job env none row = job_from env.json row

abbrev last_id : List Row → Option ℕ
last_id [] = none
last_id (r ∷ rs) = elim rs [ [] ↦ some r.id | _ ∷ _ ↦ last_id rs ]

-- A page of jobs, and the cursor of the next page.
unfoldable pub page : Env → ℕ → List Row → Runner → List Job × Option ℕ
page env limit rows r =
    let kept = take limit rows in
    (
      map (λ row. fresh_job env (get row.id r.running) row) kept,
      if ltb limit (length rows) then last_id kept else none,
    )

abbrev list_known : Env → Filter → Runner → Result (List Job × Option ℕ) × Runner
list_known env f r =
    let limit = page_limit f.limit in
    let c = call_db env r in
    if c.0
    then (ok (page env limit (list_jobs f (limit + 1) r.db.jobs) r), c.1)
    else (err store_failure, c.1)

unfoldable pub list : Env → Filter → Runner → Result (List Job × Option ℕ) × Runner
unfolding call_db page list_jobs
list env f r = elim f.status [
  | unknown_status ↦ (err (invalid "status"), r)
  | any_status ↦ list_known env f r
  | only_active ↦ list_known env f r
  | only_finished ↦ list_known env f r
  | one_status s ↦ list_known env f r
]

abbrev events_limit : ℕ → ℕ
events_limit n = if leb n 0 || ltb 1000 n then 500 else n

unfoldable pub events : Env → ℕ → ℕ → ℕ → Runner → Result (List EventRow) × Runner
unfolding call_db
events env id after limit r =
    let c = call_db env r in
    if c.0
    then (ok (list_job_events id after (events_limit limit) r.db.events), c.1)
    else (err store_failure, c.1)
