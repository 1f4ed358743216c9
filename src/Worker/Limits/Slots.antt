-- ===== src/Worker/Limits/Slots.antt =====
-- How many jobs run at once.
use mock_vision.Prelude.{
  ℕ, ◌+◌, ◌-◌, ◌≤◌, ◌≡◌, List, [], ◌∷◌, none, some, arith, max, length, filter, length-take,
  Bool-cases, inl, inr,
}
use mock_vision.Prelude.Equality.{nat_eq}
use mock_vision.Prelude.GoMap.{GoMap, put}
use mock_vision.Prelude.Int.{pos, difference}
use mock_vision.Worker.Job.{
  Status, queued, running, same_status, status_event, status_payload, failed, Row, job_from,
}
use mock_vision.Worker.Table.{list_jobs_by_status}
use mock_vision.Worker.State.{Env, Execution, Runner, call_db, save, event, known}
use mock_vision.Worker.State.Frame.{running-event, running-save}
use mock_vision.Worker.Loop.{
  busy_slots, start_time, reject_job, start_job, dispatch_row, dispatch_rows, dispatch,
}

busy_slots-put :
    (id : ℕ) (ex : Execution) (m : GoMap ℕ Execution) → busy_slots (put id ex m) ≤ busy_slots m + 1
unfolding busy_slots put
busy_slots-put id ex [] = ground arith
busy_slots-put id ex ((k, e) ∷ m) = ground (arith, busy_slots-put id ex m)

busy_slots-dispatch_row :
    (env : Env) (now : ℕ) (row : Row) (r : Runner)
    → busy_slots (dispatch_row env now row r).running ≤ busy_slots r.running + 1
busy_slots-dispatch_row env now row r =
    let j = job_from env.json row in
    let lost = record j { status = failed; error = "unknown job type"; finished_at = some now } in
    let started = record j {
      status = running;
      error = "";
      started_at = start_time j.started_at now;
    } in
    let told =
      event env j.id status_event (status_payload running "" "") now (save env started r).1 in
    let ex : Execution = record { job = started; cancel = none; answer = none; last_save = 0 } in
    let kept : told.running ≡ r.running = rw running-event (running-save env started r) in
    elim (Bool-cases (known env row.type)) [
      | inr k ↦
          unfold dispatch_row reject_job job_from in
          rw k (rw running-event (rw (running-save env lost r) (omega arith)))
      | inl k ↦ elim (Bool-cases (save env started r).0) [
        | inr s ↦
            unfold dispatch_row start_job job_from in
            rw k (rw s (rw (running-save env started r) (omega arith)))
        | inl s ↦
            unfold dispatch_row start_job job_from in
            rw k (rw s (rw kept (busy_slots-put j.id ex r.running)))
      ]
    ]

busy_slots-dispatch_rows :
    (env : Env) (now : ℕ) (rows : List Row) (r : Runner)
    → busy_slots (dispatch_rows env now rows r).running ≤ busy_slots r.running + length rows
unfolding dispatch_rows
busy_slots-dispatch_rows env now [] r = omega arith
busy_slots-dispatch_rows env now (row ∷ rows) r = omega (
  arith,
  busy_slots-dispatch_rows env now rows (dispatch_row env now row r),
  busy_slots-dispatch_row env now row r,
)

length-listed :
    (st : Status) (n : ℕ) (rows : List Row) → length (list_jobs_by_status st (pos n) rows) ≤ n
unfolding list_jobs_by_status
length-listed st n rows =
    omega (arith, length-take n (filter (λ (r : Row). same_status r.status st) rows))

-- After a dispatch, the executions that hold a slot, which are those that are not waiting for an
-- answer, are at most `max_running`, or at most as many as before where answers had already brought
-- more of them back.
pub busy_slots-dispatch :
    (env : Env) (now max_running : ℕ) (r : Runner)
    → busy_slots (dispatch env now max_running r).running ≤ max max_running (busy_slots r.running)
unfolding dispatch call_db
busy_slots-dispatch env now max_running r =
    let rows =
      list_jobs_by_status queued (difference max_running (busy_slots r.running)) r.db.jobs in
    ground (
      arith,
      busy_slots-dispatch_rows env now rows (call_db env r).1,
      length-listed queued (max_running - busy_slots r.running) r.db.jobs,
    )
