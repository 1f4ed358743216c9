-- ===== src/Worker/Steps/Refusing.antt =====
-- The requests refuse to change a final row.
use mock_vision.Prelude.{
  ℕ, ◌≡◌, refl, sym, subst, String, false, Option, none, some, arith, nat_beq, Bool-cases,
  Option-cases, inl, inr,
}
use mock_vision.Prelude.Equality.{◌==◌, nat_eq, string_eq}
use mock_vision.Prelude.GoMap.{get}
use mock_vision.Worker.Job.{interrupted, canceled, same_status, final, Row, Question, job_from}
use mock_vision.Worker.Table.{get_job, get_open_job_by_key}
use mock_vision.Worker.Table.Rows.{get_job-id, get_open_job_by_key-get_job}
use mock_vision.Worker.State.{Env, Execution, Runner, call_db, save, requeue_locked, known}
use mock_vision.Worker.State.Frame.{jobs-event}
use mock_vision.Worker.Requests.{
  Spec, params_json, Result, ok, err, submit_new, join_open, submit_found, submit_encoded, submit,
  with_row, cancel_of, answer_of, read_job, cancel_row, cancel, can_cancel, resume_row, resume,
  open_question, give_answer, answer,
}
use mock_vision.Worker.Steps.Sound.{IsSound}
use mock_vision.Worker.Steps.Dispatching.{FinalRow}
use mock_vision.Worker.Steps.Standing.{
  Stands, open_ne_final, Stands-save, Stands-finish_locked, Stands-requeue_locked,
  Stands-insert_new, Stands-if,
}

module _ (env : Env) (now id : ℕ) (fin : Row) where
  Stands-submit_new :
      (k : ℕ) (spec : Spec) (params : String) (r : Runner)
      → Stands id fin r
      → Stands id fin (submit_new env now k spec params r).1
  unfolding submit_new call_db
  Stands-submit_new k spec params r h = ground (
    arith,
    h,
    Stands-insert_new env now id fin k spec params (call_db env r).1 (unfold call_db in h),
  )

  Stands-join_open :
      (row : Row) (r : Runner)
      → nat_beq row.id id ≡ false
      → Stands id fin r
      → Stands id fin (join_open env now row r).1
  unfolding join_open job_from
  Stands-join_open row r ne h =
      ground (arith, h, Stands-requeue_locked env now id fin (job_from env.json row) r ne h)

  Stands-submit_found :
      (k : ℕ) (spec : Spec) (params : String) (o : Option Row) (r : Runner)
      → ((row : Row) → o ≡ some row → nat_beq row.id id ≡ false)
      → Stands id fin r
      → Stands id fin (submit_found env now k spec params o r).1
  unfolding submit_found
  Stands-submit_found k spec params none r f h = Stands-submit_new k spec params r h
  Stands-submit_found k spec params (some row) r f h = Stands-join_open row r (f row refl) h

  -- The open job with a key is not the row.
  joined_ne_final :
      (key : String) (r : Runner) (row : Row)
      → IsSound r
      → FinalRow id fin r
      → get_open_job_by_key key r.db.jobs ≡ some row
      → nat_beq row.id id ≡ false
  joined_ne_final key r row s h e =
      let o = get_open_job_by_key-get_job key r.db.jobs e s.ordered in
      open_ne_final row.id id row fin r o.0 o.1 h

  Stands-submit_encoded :
      (k : ℕ) (spec : Spec) (params : String) (r : Runner)
      → IsSound r
      → FinalRow id fin r
      → Stands id fin (submit_encoded env now k spec params r).1
  unfolding submit_encoded
  Stands-submit_encoded k spec params r s h =
      Stands-if env now id fin (spec.key == "") _ _ (Stands-submit_new k spec params r h.0) (
        Stands-if env now id fin (env.io_ok r.calls) _ _
          (Stands-submit_found k spec params (get_open_job_by_key spec.key r.db.jobs)
            (call_db env r).1 (λ row e. joined_ne_final spec.key r row s h e)
            (unfold call_db in h.0))
          (unfold call_db in h.0))

  pub Stands-submit :
      (k : ℕ) (spec : Spec) (r : Runner)
      → IsSound r
      → FinalRow id fin r
      → Stands id fin (submit env now k spec r).1
  Stands-submit k spec r s h = elim (Bool-cases (known env spec.type)) [
    | inr e ↦ unfold submit in rw e h.0
    | inl e ↦ elim (Option-cases (params_json spec.params)) [
      | inl f ↦ unfold submit in rw e (rw f h.0)
      | inr (params, f) ↦ unfold submit in rw e (rw f (Stands-submit_encoded k spec params r s h))
    ]
  ]

  Stands-with_row :
      {A : Type 0} (q : Result Row × Runner) (f : Row → Runner → Result A × Runner)
      → Stands id fin q.1
      → ((row : Row) → q.0 ≡ ok row → Stands id fin (f row q.1).1)
      → Stands id fin (with_row q f).1
  unfolding with_row
  Stands-with_row (err e, r) f h k = h
  Stands-with_row (ok row, r) f h k = k row refl

  pub Stands-read_job : (k : ℕ) (r : Runner) → Stands id fin r → Stands id fin (read_job env k r).1
  unfolding read_job call_db
  Stands-read_job k r h = ground arith

  -- A row that is read and is open is not the row.
  read_ne_final :
      (k : ℕ) (r : Runner) (row : Row)
      → (read_job env k r).0 ≡ ok row
      → final row.status ≡ false
      → FinalRow id fin r
      → nat_beq row.id id ≡ false
  read_ne_final k r row e o h =
      let f : get_job k r.db.jobs ≡ some row = unfold read_job in ground arith in
      open_ne_final row.id id row fin r
        (subst (λ (n : ℕ). get_job n r.db.jobs ≡ some row) (sym (get_job-id k r.db.jobs f)) f) o h

  Stands-cancel_row :
      (row : Row) (r : Runner)
      → (final row.status ≡ false → nat_beq row.id id ≡ false)
      → Stands id fin r
      → Stands id fin (cancel_row env now row r).1
  Stands-cancel_row row r ne h =
      let gone = record (job_from env.json row) {
        status = canceled;
        error = "canceled by the user";
        finished_at = some now;
        question = none;
      } in
      elim (Bool-cases (can_cancel row.status)) [
        | inr e ↦ unfold cancel_row job_from in rw e h
        | inl e ↦
            let s = Stands-save env now id fin gone r (unfold job_from in ne (ground arith)) h in
            elim (Bool-cases (save env gone r).0) [
              | inr g ↦ unfold cancel_row job_from in rw e (rw g s)
              | inl g ↦
                  unfold cancel_row job_from in
                  rw e (rw g (Stands-finish_locked env now id fin gone _ (rw jobs-event s)))
            ]
      ]

  pub Stands-cancel :
      (k : ℕ) (r : Runner) → FinalRow id fin r → Stands id fin (cancel env now k r).1
  unfolding cancel cancel_of
  Stands-cancel k r h = canceled_of (get k r.running)
    where
      canceled_of : (o : Option Execution) → Stands id fin (cancel_of env now k o r).1
      canceled_of (some ex) = h.0
      canceled_of none =
          Stands-with_row (read_job env k r) (cancel_row env now) (Stands-read_job k r h.0)
            (λ row e.
              Stands-cancel_row row (read_job env k r).1 (λ o. read_ne_final k r row e o h)
                (Stands-read_job k r h.0))

  Stands-resume_row :
      (row : Row) (r : Runner)
      → (final row.status ≡ false → nat_beq row.id id ≡ false)
      → Stands id fin r
      → Stands id fin (resume_row env now row r).1
  Stands-resume_row row r ne h = elim (Bool-cases (same_status row.status interrupted)) [
    | inr e ↦ unfold resume_row job_from in rw e h
    | inl e ↦
        let q =
          Stands-requeue_locked env now id fin (job_from env.json row) r
            (unfold job_from in ne (ground arith)) h in
        unfold resume_row job_from in
        rw e (
          Stands-if env now id fin (known env row.type) _ _
            (Stands-if env now id fin (requeue_locked env now (job_from env.json row) r).0 _ _ q q)
            h)
  ]

  pub Stands-resume :
      (k : ℕ) (r : Runner) → FinalRow id fin r → Stands id fin (resume env now k r).1
  unfolding resume
  Stands-resume k r h =
      Stands-with_row (read_job env k r) (resume_row env now) (Stands-read_job k r h.0) (λ row e.
        Stands-resume_row row (read_job env k r).1 (λ o. read_ne_final k r row e o h)
          (Stands-read_job k r h.0))

  pub Stands-answer :
      (k : ℕ) (text : String) (r : Runner) → Stands id fin r → Stands id fin (answer env k text r).1
  unfolding answer answer_of give_answer
  Stands-answer k text r h = answered_of (open_question (get k r.running))
    where
      answered_of : (o : Option (Execution × Question)) → Stands id fin (answer_of env k text o r).1
      answered_of (some (ex, q)) = ground (arith, h)
      answered_of none =
          Stands-with_row (read_job env k r) _ (Stands-read_job k r h)
            (λ row e. Stands-read_job k r h)
