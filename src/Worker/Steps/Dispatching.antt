-- ===== src/Worker/Steps/Dispatching.antt =====
-- What starting queued jobs does to the invariant, to the other rows and to rows that are final.
use mock_vision.Prelude.{
  ℕ, ◌<◌, ◌≡◌, refl, sym, ap, ◌∙◌, true, false, List, [], ◌∷◌, Option, none, some, arith, nat_beq,
  nat_beq_iff, if◌then◌else◌, Bool-cases, inl, inr, All,
}
use mock_vision.Prelude.Equality.{nat_eq}
use mock_vision.Prelude.Int.{difference}
use mock_vision.Worker.Job.{
  Status, running, queued, failed, same_status, final, status_event, status_payload, Job, Row,
  job_from, update, write_row,
}
use mock_vision.Worker.Table.{get_job, list_jobs_by_status}
use mock_vision.Worker.Table.Rows.{map_row, get_job-update_job, Ascending, Listed, listed}
use mock_vision.Worker.State.{Env, Runner, call_db, save, event, known}
use mock_vision.Worker.State.Frame.{jobs-event, jobs-save}
use mock_vision.Worker.Loop.{
  start_time, reject_job, start_job, dispatch_row, dispatch_rows, dispatch, busy_slots,
}
use mock_vision.Worker.Steps.Sound.{
  row_held, IsSound, IsSound-same, IsSound-event, IsSound-save, IsSound-put, not_running,
}

-- Saving a job leaves every other row as it is.
pub save_other :
    (env : Env) (j : Job) (r : Runner) (id : ℕ)
    → nat_beq j.id id ≡ false
    → get_job id (save env j r).1.db.jobs ≡ get_job id r.db.jobs
save_other env j r id h = elim (Bool-cases (save env j r).0) [
  | inr lost ↦ rw (jobs-save env j r) (rw lost)
  | inl kept ↦
      rw (jobs-save env j r) (rw kept (get_job-update_job id (update env.json j) r.db.jobs ∙ other))
]
  where
    other :
        (if nat_beq (update env.json j).id id
          then map_row (write_row (update env.json j)) (get_job id r.db.jobs)
          else get_job id r.db.jobs)
        ≡ get_job id r.db.jobs
    other = unfold update in rw h

-- A job that is saved has the row that was there, with the job's fields.
pub save_own :
    (env : Env) (j : Job) (r : Runner) (row : Row)
    → (save env j r).0 ≡ true
    → get_job j.id r.db.jobs ≡ some row
    → get_job j.id (save env j r).1.db.jobs ≡ some (write_row (update env.json j) row)
save_own env j r row kept h =
    rw (jobs-save env j r) (rw kept (get_job-update_job j.id (update env.json j) r.db.jobs ∙ own))
  where
    own :
        (if nat_beq (update env.json j).id j.id
          then map_row (write_row (update env.json j)) (get_job j.id r.db.jobs)
          else get_job j.id r.db.jobs)
        ≡ some (write_row (update env.json j) row)
    own =
        let e : nat_beq j.id j.id ≡ true = (nat_beq_iff j.id j.id).1 refl in
        unfold update in rw e (rw h)

-- The job of this ID has a row, and its status is final.
abbrev pub FinalRow : ℕ → Row → Runner → Type 0
FinalRow id row r = (get_job id r.db.jobs ≡ some row) × (final row.status ≡ true)

pub Listed-ne_final :
    (st : Status) (s : Row) (id : ℕ) (row : Row) (r : Runner)
    → final st ≡ false
    → Listed st r.db.jobs s
    → FinalRow id row r
    → nat_beq s.id id ≡ false
Listed-ne_final st s id row r f l h = elim (Bool-cases (nat_beq s.id id)) [
  | inr e ↦ e
  | inl e ↦ absurd (
      clash s row (sym l.0 ∙ ap (λ (k : ℕ). get_job k r.db.jobs) ((nat_beq_iff s.id id).0 e) ∙ h.0)
        l.1 h.1)
]
  where
    clash :
        (s row : Row)
        → some s ≡ some row
        → same_status s.status st ≡ true
        → final row.status ≡ true
        → ⊥
    clash s row e k g = ground arith

pub held_ne_final :
    (k : ℕ) (id : ℕ) (row : Row) (r : Runner)
    → row_held (get_job k r.db.jobs) ≡ true
    → FinalRow id row r
    → nat_beq k id ≡ false
held_ne_final k id row r l h = elim (Bool-cases (nat_beq k id)) [
  | inr e ↦ e
  | inl e ↦ absurd (
      clash (get_job k r.db.jobs) l
        (ap (λ (i : ℕ). get_job i r.db.jobs) ((nat_beq_iff k id).0 e) ∙ h.0) h.1)
]
  where
    clash : (o : Option Row) → row_held o ≡ true → o ≡ some row → final row.status ≡ true → ⊥
    clash o k e g = ground arith

abbrev started_as : ℕ → Job → Job
started_as now j = record j {
  status = running;
  error = "";
  started_at = start_time j.started_at now;
}

abbrev lost_as : ℕ → Job → Job
lost_as now j = record j { status = failed; error = "unknown job type"; finished_at = some now }

module _ (env : Env) (now : ℕ) (j : Job) (r : Runner) where
  rows-reject_job :
      (id : ℕ)
      → nat_beq j.id id ≡ false
      → get_job id (reject_job env now j r).db.jobs ≡ get_job id r.db.jobs
  unfolding reject_job
  rows-reject_job id h = rw jobs-event (save_other env (lost_as now j) r id h)

  rows-start_job :
      (id : ℕ)
      → nat_beq j.id id ≡ false
      → get_job id (start_job env now j r).db.jobs ≡ get_job id r.db.jobs
  rows-start_job id h = elim (Bool-cases (save env (started_as now j) r).0) [
    | inr l ↦ unfold start_job in rw l (save_other env (started_as now j) r id h)
    | inl l ↦ unfold start_job in rw l (rw jobs-event (save_other env (started_as now j) r id h))
  ]

  IsSound-reject_job :
      row_held (get_job j.id r.db.jobs) ≡ false → IsSound r → IsSound (reject_job env now j r)
  unfolding reject_job
  IsSound-reject_job q h =
      IsSound-event env j.id status_event (status_payload failed "unknown job type" "") now
        (save env (lost_as now j) r).1
        (IsSound-save env (lost_as now j) r (λ e. cc (e, not_running j.id r h q)) h)

  started_held :
      (row : Row)
      → (save env (started_as now j) r).0 ≡ true
      → get_job j.id r.db.jobs ≡ some row
      → row_held (get_job j.id (save env (started_as now j) r).1.db.jobs) ≡ true
  started_held row l q =
      rw (save_own env (started_as now j) r row l q) (unfold update write_row in refl)

  IsSound-start_job :
      (row : Row) → get_job j.id r.db.jobs ≡ some row → IsSound r → IsSound (start_job env now j r)
  IsSound-start_job row q h =
      let s = IsSound-save env (started_as now j) r (λ _. refl) h in
      let told =
        event env j.id status_event (status_payload running "" "") now
          (save env (started_as now j) r).1 in
      elim (Bool-cases (save env (started_as now j) r).0) [
        | inr l ↦ unfold start_job in rw l s
        | inl l ↦
            unfold start_job in
            rw l (
              IsSound-put
                (record { job = started_as now j; cancel = none; answer = none; last_save = 0 })
                told refl (rw jobs-event (started_held row l q))
                (IsSound-event env j.id status_event (status_payload running "" "") now
                  (save env (started_as now j) r).1 s))
      ]

module _ (env : Env) (now : ℕ) (row : Row) (r : Runner) where
  -- Of the rows, `dispatch_row` changes only its own.
  rows-dispatch_row :
      (id : ℕ)
      → nat_beq row.id id ≡ false
      → get_job id (dispatch_row env now row r).db.jobs ≡ get_job id r.db.jobs
  rows-dispatch_row id h = elim (Bool-cases (known env row.type)) [
    | inr k ↦
        unfold dispatch_row job_from in
        rw k (rows-reject_job env now (job_from env.json row) r id h)
    | inl k ↦
        unfold dispatch_row job_from in rw k (rows-start_job env now (job_from env.json row) r id h)
  ]

  queued_unheld : Listed queued r.db.jobs row → row_held (get_job row.id r.db.jobs) ≡ false
  queued_unheld l = rw l.0 (ground (arith, l.1))

  IsSound-dispatch_row :
      Listed queued r.db.jobs row → IsSound r → IsSound (dispatch_row env now row r)
  IsSound-dispatch_row l h = elim (Bool-cases (known env row.type)) [
    | inr k ↦
        unfold dispatch_row job_from in
        rw k (IsSound-reject_job env now (job_from env.json row) r (queued_unheld l) h)
    | inl k ↦
        unfold dispatch_row job_from in
        rw k (IsSound-start_job env now (job_from env.json row) r row l.0 h)
  ]

-- The rows that are still to be started are untouched by the ones before.
still-Listed :
    (env : Env) (now : ℕ) (row : Row) (r : Runner) (rows : List Row)
    → All (λ (s : Row). row.id < s.id) rows
    → All (Listed queued r.db.jobs) rows
    → All (Listed queued (dispatch_row env now row r).db.jobs) rows
still-Listed env now row r [] a l = tt
still-Listed env now row r (s ∷ rows) a l = (
  (rows-dispatch_row env now row r s.id (ground arith) ∙ l.0.0, l.0.1),
  still-Listed env now row r rows a.1 l.1,
)

pub IsSound-dispatch_rows :
    (env : Env) (now : ℕ) (rows : List Row) (r : Runner)
    → Ascending rows
    → All (Listed queued r.db.jobs) rows
    → IsSound r
    → IsSound (dispatch_rows env now rows r)
unfolding dispatch_rows
IsSound-dispatch_rows env now [] r a l h = h
IsSound-dispatch_rows env now (row ∷ rows) r a l h =
    IsSound-dispatch_rows env now rows (dispatch_row env now row r) a.1
      (still-Listed env now row r rows a.0 l.1) (IsSound-dispatch_row env now row r l.0 h)

final-dispatch_rows :
    (env : Env) (now : ℕ) (rows : List Row) (r : Runner) (id : ℕ) (fin : Row)
    → Ascending rows
    → All (Listed queued r.db.jobs) rows
    → FinalRow id fin r
    → get_job id (dispatch_rows env now rows r).db.jobs ≡ some fin
unfolding dispatch_rows
final-dispatch_rows env now [] r id fin a l h = h.0
final-dispatch_rows env now (row ∷ rows) r id fin a l h =
    final-dispatch_rows env now rows (dispatch_row env now row r) id fin a.1
      (still-Listed env now row r rows a.0 l.1)
      (
        rows-dispatch_row env now row r id (Listed-ne_final queued row id fin r refl l.0 h) ∙ h.0,
        h.1,
      )

pub IsSound-dispatch :
    (env : Env) (now max_running : ℕ) (r : Runner)
    → IsSound r
    → IsSound (dispatch env now max_running r)
unfolding dispatch
IsSound-dispatch env now max_running r h =
    let l = listed queued (difference max_running (busy_slots r.running)) r.db.jobs h.ordered in
    ground (
      arith,
      h,
      IsSound-same r (call_db env r).1 (unfold call_db in refl) (unfold call_db in refl) h,
      IsSound-dispatch_rows env now
          (list_jobs_by_status queued (difference max_running (busy_slots r.running)) r.db.jobs)
          (call_db env r).1 l.1 l.0
          (IsSound-same r (call_db env r).1 (unfold call_db in refl) (unfold call_db in refl) h),
    )

pub final-dispatch :
    (env : Env) (now max_running : ℕ) (r : Runner) (id : ℕ) (fin : Row)
    → IsSound r
    → FinalRow id fin r
    → get_job id (dispatch env now max_running r).db.jobs ≡ some fin
unfolding dispatch
final-dispatch env now max_running r id fin h f =
    let l = listed queued (difference max_running (busy_slots r.running)) r.db.jobs h.ordered in
    ground (
      arith,
      f,
      final-dispatch_rows env now
          (list_jobs_by_status queued (difference max_running (busy_slots r.running)) r.db.jobs)
          (call_db env r).1 id fin l.1 l.0 f,
    )
