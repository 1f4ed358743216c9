-- ===== src/Worker/Steps/Requesting.antt =====
-- The invariant through `Cancel`, `Resume` and `Answer`.
use mock_vision.Prelude.{
  ℕ, ◌≡◌, refl, sym, subst, String, false, Option, none, some, arith, Bool-cases, inl, inr,
}
use mock_vision.Prelude.Equality.{nat_eq, string_eq}
use mock_vision.Prelude.GoMap.{get}
use mock_vision.Worker.Job.{
  interrupted, canceled, same_status, status_event, status_payload, Row, Question, job_from,
}
use mock_vision.Worker.Table.{get_job}
use mock_vision.Worker.Table.Rows.{get_job-id}
use mock_vision.Worker.State.{Env, canceled_by_user, Execution, Runner, save, requeue_locked, known}
use mock_vision.Worker.Loop.{tell}
use mock_vision.Worker.Requests.{
  Result, ok, err, with_row, cancel_of, answer_of, read_job, cancel_row, cancel, can_cancel,
  resume_row, resume, open_question, give_answer, answer,
}
use mock_vision.Worker.Steps.Sound.{
  row_held, IsSound, IsSound-same, IsSound-event, IsSound-finish_locked, IsSound-save, live_row,
  not_running,
}
use mock_vision.Worker.Steps.Ending.{IsSound-clean_up, IsSound-requeue_locked}
use mock_vision.Worker.Steps.Submitting.{IsSound-put_back, IsSound-if}

open_question-get :
    (o : Option Execution) {p : Execution × Question} → open_question o ≡ some p → o ≡ some p.0
open_question-get o h = ground arith

IsSound-with_row :
    {A : Type 0} (q : Result Row × Runner) (f : Row → Runner → Result A × Runner)
    → IsSound q.1
    → ((row : Row) → q.0 ≡ ok row → IsSound (f row q.1).1)
    → IsSound (with_row q f).1
unfolding with_row
IsSound-with_row (err e, r) f h k = h
IsSound-with_row (ok row, r) f h k = k row refl

module _ (env : Env) (now : ℕ) where
  IsSound-cancel_row :
      (row : Row) (r : Runner)
      → get_job row.id r.db.jobs ≡ some row
      → IsSound r
      → IsSound (cancel_row env now row r).1
  unfolding job_from
  IsSound-cancel_row row r f h =
      let j = job_from env.json row in
      let gone = record j {
        status = canceled;
        error = "canceled by the user";
        finished_at = some now;
        question = none;
      } in
      elim (Bool-cases (can_cancel row.status)) [
        | inr e ↦ unfold cancel_row job_from in rw e h
        | inl e ↦
            let unheld : row_held (get_job row.id r.db.jobs) ≡ false = rw f (ground arith) in
            let s = IsSound-save env gone r (λ run. cc (run, not_running row.id r h unheld)) h in
            let told =
              IsSound-event env row.id status_event (status_payload canceled gone.error "") now
                (save env gone r).1 s in
            elim (Bool-cases (save env gone r).0) [
              | inr g ↦ unfold cancel_row job_from in rw e (rw g s)
              | inl g ↦
                  unfold cancel_row job_from in
                  rw e (rw g (IsSound-clean_up env gone _ (IsSound-finish_locked gone _ told)))
            ]
      ]

  IsSound-read_job : (id : ℕ) (r : Runner) → IsSound r → IsSound (read_job env id r).1
  IsSound-read_job id r h =
      IsSound-same r (read_job env id r).1 (unfold read_job in ground arith)
        (unfold read_job in ground arith) h

  -- A row that is read is the row of its own ID, in the state that is left.
  read_own :
      (id : ℕ) (r : Runner) (row : Row)
      → (read_job env id r).0 ≡ ok row
      → get_job row.id (read_job env id r).1.db.jobs ≡ some row
  read_own id r row e =
      let f : get_job id r.db.jobs ≡ some row = unfold read_job in ground arith in
      let jobs : (read_job env id r).1.db.jobs ≡ r.db.jobs = unfold read_job in ground arith in
      rw jobs
        (subst (λ (n : ℕ). get_job n r.db.jobs ≡ some row) (sym (get_job-id id r.db.jobs f)) f)

  pub IsSound-cancel_of :
      (id : ℕ) (o : Option Execution) (r : Runner)
      → get id r.running ≡ o
      → IsSound r
      → IsSound (cancel_of env now id o r).1
  IsSound-cancel_of id (some ex) r g h =
      unfold cancel_of in
      IsSound-put_back id ex (tell canceled_by_user ex) r h g refl (live_row id r h g).1
  IsSound-cancel_of id none r g h =
      unfold cancel_of in
      IsSound-with_row (read_job env id r) (cancel_row env now) (IsSound-read_job id r h) (λ row e.
        IsSound-cancel_row row (read_job env id r).1 (read_own id r row e)
          (IsSound-read_job id r h))

  pub IsSound-cancel : (id : ℕ) (r : Runner) → IsSound r → IsSound (cancel env now id r).1
  IsSound-cancel id r h = unfold cancel in IsSound-cancel_of id (get id r.running) r refl h

  IsSound-resume_row :
      (row : Row) (r : Runner)
      → get_job row.id r.db.jobs ≡ some row
      → IsSound r
      → IsSound (resume_row env now row r).1
  IsSound-resume_row row r f h = elim (Bool-cases (same_status row.status interrupted)) [
    | inr e ↦ unfold resume_row job_from in rw e h
    | inl e ↦
        let q =
          IsSound-requeue_locked env now (job_from env.json row) r
            (unfold job_from in rw f (ground arith)) h in
        unfold resume_row job_from in
        rw e (
          IsSound-if (known env row.type) _ _
            (IsSound-if (requeue_locked env now (job_from env.json row) r).0 _ _ q q) h)
  ]

  pub IsSound-resume : (id : ℕ) (r : Runner) → IsSound r → IsSound (resume env now id r).1
  IsSound-resume id r h =
      unfold resume in
      IsSound-with_row (read_job env id r) (resume_row env now) (IsSound-read_job id r h) (λ row e.
        IsSound-resume_row row (read_job env id r).1 (read_own id r row e)
          (IsSound-read_job id r h))

  IsSound-give_answer :
      (id : ℕ) (text : String) (ex : Execution) (q : Question) (r : Runner)
      → get id r.running ≡ some ex
      → IsSound r
      → IsSound (give_answer id text ex q r).1
  unfolding give_answer
  IsSound-give_answer id text ex q r g h = ground (
    arith,
    h,
    IsSound-put_back id ex (record ex { answer = some text }) r h g refl (live_row id r h g).1,
  )

  IsSound-answer_of :
      (id : ℕ) (text : String) (o : Option (Execution × Question)) (r : Runner)
      → open_question (get id r.running) ≡ o
      → IsSound r
      → IsSound (answer_of env id text o r).1
  IsSound-answer_of id text (some (ex, q)) r g h =
      unfold answer_of in
      IsSound-give_answer id text ex q r (open_question-get (get id r.running) g) h
  IsSound-answer_of id text none r g h =
      unfold answer_of in
      IsSound-with_row (read_job env id r) _ (IsSound-read_job id r h)
        (λ row e. IsSound-read_job id r h)

  pub IsSound-answer :
      (id : ℕ) (text : String) (r : Runner) → IsSound r → IsSound (answer env id text r).1
  IsSound-answer id text r h =
      unfold answer in IsSound-answer_of id text (open_question (get id r.running)) r refl h
