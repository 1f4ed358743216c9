-- ===== src/Worker/State/Frame.antt =====
-- What `save`, `event`, `finishLocked` and `requeueLocked` leave alone, and what `save` writes.
use mock_vision.Prelude.{ℕ, ◌≡◌, some, arith, if◌then◌else◌}
use mock_vision.Worker.Job.{EventKind, Payload, Job, update}
use mock_vision.Worker.Table.{EventRow, Db, update_job, insert_job_event}
use mock_vision.Worker.State.{Env, Runner, save, write_event, event, finish_locked}

jobs-insert_job_event :
    (e : EventRow) (d : Db) {d' : Db} → insert_job_event e d ≡ some d' → d'.jobs ≡ d.jobs
unfolding insert_job_event
jobs-insert_job_event e d h = ground arith

module _ (env : Env) where
  jobs-write_event : (e : EventRow) (r : Runner) → (write_event env e r).db.jobs ≡ r.db.jobs
  unfolding write_event insert_job_event
  jobs-write_event e r = ground arith

  running-write_event : (e : EventRow) (r : Runner) → (write_event env e r).running ≡ r.running
  unfolding write_event insert_job_event
  running-write_event e r = ground arith

  pub jobs-event :
      (id : ℕ) (kind : EventKind) (payload : Payload) (now : ℕ) (r : Runner)
      → (event env id kind payload now r).db.jobs ≡ r.db.jobs
  unfolding event write_event insert_job_event
  jobs-event id kind payload now r = ground arith

  pub running-event :
      (id : ℕ) (kind : EventKind) (payload : Payload) (now : ℕ) (r : Runner)
      → (event env id kind payload now r).running ≡ r.running
  unfolding event write_event insert_job_event
  running-event id kind payload now r = ground arith

  pub running-save : (j : Job) (r : Runner) → (save env j r).1.running ≡ r.running
  unfolding save
  running-save j r = ground arith

  pub jobs-save :
      (j : Job) (r : Runner)
      → (save env j r).1.db.jobs
        ≡ (if (save env j r).0 then update_job (update env.json j) r.db.jobs else r.db.jobs)
  unfolding save
  jobs-save j r = ground arith

pub jobs-finish_locked : (j : Job) (r : Runner) → (finish_locked j r).db ≡ r.db
unfolding finish_locked
jobs-finish_locked j r = ground arith

pub running-finish_locked : (j : Job) (r : Runner) → (finish_locked j r).running ≡ r.running
unfolding finish_locked
running-finish_locked j r = ground arith
