-- ===== src/Worker/Steps/Sound.antt =====
-- The invariant of the runner, and what saving a job does to it.
use mock_vision.Prelude.{
  ℕ, ◌≡◌, refl, ap, ◌∙◌, Bool, true, false, ◌||◌, List, Option, none, some, arith, nat_beq,
  nat_beq_iff, if◌then◌else◌, Bool-cases, inl, inr,
}
use mock_vision.Prelude.Equality.{nat_eq}
use mock_vision.Prelude.GoMap.{get, put, del, is_some, get-put, get-del}
use mock_vision.Worker.Job.{
  Status, running, waiting, same_status, EventKind, Payload, Job, Row, update, write_row,
}
use mock_vision.Worker.Table.{Db, get_job, update_job}
use mock_vision.Worker.Table.Rows.{get_job-update_job, Ascending, Ascending-update_job}
use mock_vision.Worker.State.{Env, Execution, Runner, save, event, finish_locked}
use mock_vision.Worker.State.Frame.{
  jobs-event, running-event, running-save, jobs-save, jobs-finish_locked, running-finish_locked,
}

-- A job that an execution holds: Running or Waiting.
abbrev pub held : Status → Bool
held s = same_status s running || same_status s waiting

abbrev pub row_held : Option Row → Bool
row_held none = false
row_held (some row) = held row.status

abbrev pub RunHeld : ℕ → Option Execution → Option Row → Type 0
RunHeld id none row = Unit
RunHeld id (some ex) row = (ex.job.id ≡ id) × (held ex.job.status ≡ true) × (row_held row ≡ true)

-- The table stands in the order of its IDs, and every execution holds its own job, which is Running
-- or Waiting in memory and in the table.
pub record IsSound (r : Runner) : Type 0 where
  pub ordered : Ascending r.db.jobs
  pub live : (id : ℕ) → RunHeld id (get id r.running) (get_job id r.db.jobs)

-- Two states with the same executions and the same table of jobs.
pub IsSound-same :
    (r s : Runner) → s.running ≡ r.running → s.db.jobs ≡ r.db.jobs → IsSound r → IsSound s
IsSound-same r s p q h = record { ordered = rw q h.ordered; live = λ id. rw p (rw q (h.live id)) }

pub IsSound-event :
    (env : Env) (id : ℕ) (kind : EventKind) (payload : Payload) (now : ℕ) (r : Runner)
    → IsSound r
    → IsSound (event env id kind payload now r)
IsSound-event env id kind payload now r h =
    IsSound-same r (event env id kind payload now r) (running-event env id kind payload now r)
      (jobs-event env id kind payload now r) h

pub IsSound-finish_locked : (j : Job) (r : Runner) → IsSound r → IsSound (finish_locked j r)
IsSound-finish_locked j r h =
    IsSound-same r (finish_locked j r) (running-finish_locked j r)
      (ap (λ (d : Db). d.jobs) (jobs-finish_locked j r)) h

-- Writing a job to its row keeps what is held, if the job's own execution is none or it is held.
write_live :
    (id : ℕ) (env : Env) (j : Job) (run : Option Execution) (jobs : List Row)
    → (is_some run ≡ true → nat_beq j.id id ≡ true → held j.status ≡ true)
    → RunHeld id run (get_job id jobs)
    → RunHeld id run (get_job id (update_job (update env.json j) jobs))
unfolding update write_row
write_live id env j none jobs k h = tt
write_live id env j (some ex) jobs k h =
    ground (arith, get_job-update_job id (update env.json j) jobs, k refl)

pub IsSound-save :
    (env : Env) (j : Job) (r : Runner)
    → (is_some (get j.id r.running) ≡ true → held j.status ≡ true)
    → IsSound r
    → IsSound (save env j r).1
IsSound-save env j r k h = elim (Bool-cases (save env j r).0) [
  | inr lost ↦
      IsSound-same r (save env j r).1 (running-save env j r) (jobs-save env j r ∙ rw lost) h
  | inl kept ↦ record {
    ordered =
        rw (jobs-save env j r)
          (rw kept (Ascending-update_job (update env.json j) r.db.jobs h.ordered));
    live = λ id. rw (running-save env j r) (
        rw (jobs-save env j r) (
          rw kept (
            write_live id env j (get id r.running) r.db.jobs
              (λ some_run same. k (rw ((nat_beq_iff j.id id).0 same) some_run)) (h.live id))));
  }
]

-- A new execution of a job that the table holds.
put_live :
    (id k : ℕ) (ex : Execution) (run : Option Execution) (row : Option Row)
    → (nat_beq k id ≡ true → (ex.job.id ≡ id) × (held ex.job.status ≡ true) × (row_held row ≡ true))
    → RunHeld id run row
    → RunHeld id (if nat_beq k id then some ex else run) row
put_live id k ex run row new h = elim (Bool-cases (nat_beq k id)) [
  | inl e ↦ rw e (new e)
  | inr e ↦ rw e h
]

pub IsSound-put :
    (ex : Execution) (r : Runner)
    → held ex.job.status ≡ true
    → row_held (get_job ex.job.id r.db.jobs) ≡ true
    → IsSound r
    → IsSound (record r { running = put ex.job.id ex r.running })
IsSound-put ex r k row h = record {
  ordered = h.ordered;
  live = λ id. rw get-put (
      put_live id ex.job.id ex (get id r.running) (get_job id r.db.jobs)
        (λ same. let e = (nat_beq_iff ex.job.id id).0 same in (e, k, rw (← e) row)) (h.live id));
}

del_live :
    (id k : ℕ) (run : Option Execution) (row : Option Row)
    → RunHeld id run row
    → RunHeld id (if nat_beq k id then none else run) row
del_live id k run row h = elim (Bool-cases (nat_beq k id)) [ inl e ↦ rw e tt | inr e ↦ rw e h ]

pub IsSound-del :
    (k : ℕ) (r : Runner) → IsSound r → IsSound (record r { running = del k r.running })
IsSound-del k r h = record {
  ordered = h.ordered;
  live = λ id. rw get-del (del_live id k (get id r.running) (get_job id r.db.jobs) (h.live id));
}

-- The row of a job that an execution holds.
pub live_row :
    (id : ℕ) (r : Runner) {ex : Execution}
    → IsSound r
    → get id r.running ≡ some ex
    → (ex.job.id ≡ id) × (held ex.job.status ≡ true) × (row_held (get_job id r.db.jobs) ≡ true)
live_row id r {ex} h e = rw e at (h.live id)

-- A row that is not held has no execution.
pub not_running :
    (id : ℕ) (r : Runner)
    → IsSound r
    → row_held (get_job id r.db.jobs) ≡ false
    → is_some (get id r.running) ≡ false
not_running id r h f = unheld id (get id r.running) (get_job id r.db.jobs) (h.live id) f
  where
    unheld :
        (id : ℕ) (run : Option Execution) (row : Option Row)
        → RunHeld id run row
        → row_held row ≡ false
        → is_some run ≡ false
    unheld id none row l f = refl
    unheld id (some ex) row l f = cc
