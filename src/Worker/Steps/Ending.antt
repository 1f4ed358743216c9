-- ===== src/Worker/Steps/Ending.antt =====
-- The invariant through the end of a run, the requeueing of a job and the stop of the runner.
use mock_vision.Prelude.{
  ℕ, ◌≡◌, refl, sym, ap, ◌∙◌, true, false, List, [], ◌∷◌, Option, none, arith, nat_beq, nat_beq_iff,
  Bool-cases, inl, inr,
}
use mock_vision.Prelude.Equality.{nat_eq}
use mock_vision.Prelude.GoMap.{get, del, get-del}
use mock_vision.Worker.Job.{queued, status_event, status_payload, Job, Row}
use mock_vision.Worker.Table.{get_job}
use mock_vision.Worker.State.{
  Env, Cause, node_stopped, Execution, Runner, save, event, finish_locked, requeue_locked, wake,
}
use mock_vision.Worker.State.Frame.{jobs-event, running-event, running-save}
use mock_vision.Worker.Loop.{tell_all, stop, clean_up, end_run}
use mock_vision.Worker.Steps.Sound.{
  row_held, RunHeld, IsSound, IsSound-same, IsSound-event, IsSound-finish_locked, IsSound-save,
  IsSound-del, not_running,
}

pub IsSound-clean_up : (env : Env) (j : Job) (r : Runner) → IsSound r → IsSound (clean_up env j r)
IsSound-clean_up env j r h =
    IsSound-same r (clean_up env j r) (unfold clean_up in ground arith)
      (unfold clean_up in ground arith) h

pub IsSound-wake : (r : Runner) → IsSound r → IsSound (wake r)
IsSound-wake r h = IsSound-same r (wake r) (unfold wake in refl) (unfold wake in refl) h

-- Saving reads the executions nowhere.
jobs-save-running :
    (env : Env) (j : Job) (r s : Runner)
    → s.db ≡ r.db
    → s.calls ≡ r.calls
    → (save env j s).1.db.jobs ≡ (save env j r).1.db.jobs
unfolding save
jobs-save-running env j r s p q = ground arith

get-del_self : (k : ℕ) (r : Runner) → get k (del k r.running) ≡ none
get-del_self k r =
    let e : nat_beq k k ≡ true = (nat_beq_iff k k).1 refl in get-del k k r.running ∙ (rw e)

pub IsSound-end_run :
    (env : Env) (now : ℕ) (j : Job) (r : Runner) → IsSound r → IsSound (end_run env now j r)
unfolding end_run
IsSound-end_run env now j r h =
    let told =
      event env j.id status_event (status_payload j.status j.error "") now (save env j r).1 in
    let without = record r { running = del j.id r.running } in
    let saved =
      IsSound-save env j without (λ e. cc (e, get-del_self j.id r)) (IsSound-del j.id r h) in
    let ended = record told { running = del j.id told.running } in
    let sound =
      IsSound-same (save env j without).1 ended
        (ap (del j.id) (
            running-event env j.id status_event (status_payload j.status j.error "") now
              (save env j r).1
            ∙ running-save env j r)
          ∙ sym (running-save env j without))
        (jobs-event env j.id status_event (status_payload j.status j.error "") now (save env j r).1
          ∙ sym (jobs-save-running env j r without refl refl))
        saved in
    IsSound-wake (clean_up env j (finish_locked j ended))
      (IsSound-clean_up env j (finish_locked j ended) (IsSound-finish_locked j ended sound))

pub IsSound-requeue_locked :
    (env : Env) (now : ℕ) (j : Job) (r : Runner)
    → row_held (get_job j.id r.db.jobs) ≡ false
    → IsSound r
    → IsSound (requeue_locked env now j r).1
IsSound-requeue_locked env now j r q h =
    let queued_job = record j { status = queued; error = "" } in
    let s = IsSound-save env queued_job r (λ e. cc (e, not_running j.id r h q)) h in
    let told =
      IsSound-event env j.id status_event (status_payload queued "" "resumed") now
        (save env queued_job r).1 s in
    elim (Bool-cases (save env queued_job r).0) [
      | inl e ↦ unfold requeue_locked in rw e (IsSound-wake _ told)
      | inr e ↦ unfold requeue_locked in rw e s
    ]

tell_all-get :
    (cause : Cause) (id : ℕ) (m : List (ℕ × Execution)) (row : Option Row)
    → RunHeld id (get id m) row
    → RunHeld id (get id (tell_all cause m)) row
unfolding get tell_all
tell_all-get cause id [] row h = tt
tell_all-get cause id ((k, ex) ∷ m) row h = elim (Bool-cases (nat_beq k id)) [
  | inl e ↦ rw e (rw e at h)
  | inr e ↦ rw e (tell_all-get cause id m row (rw e at h))
]

pub IsSound-stop : (r : Runner) → IsSound r → IsSound (stop r)
unfolding stop
IsSound-stop r h = record {
  ordered = h.ordered;
  live = λ id. tell_all-get node_stopped id r.running (get_job id r.db.jobs) (h.live id);
}
