-- ===== src/Worker/Steps/Submitting.antt =====
-- The invariant through `Submit`.
use mock_vision.Prelude.{
  ℕ, ◌≡◌, refl, sym, ap, subst, ◌∙◌, String, Bool, true, false, List, Option, none, some, arith,
  nat_beq, nat_beq_iff, if◌then◌else◌, Bool-cases, Option-cases, inl, inr,
}
use mock_vision.Prelude.Time.{unix_milli}
use mock_vision.Prelude.Equality.{◌==◌, nat_eq, string_eq}
use mock_vision.Prelude.GoMap.{get, put}
use mock_vision.Worker.Job.{
  queued, interrupted, same_status, status_event, status_payload, Row, job_from,
}
use mock_vision.Worker.Table.{get_job, get_open_job_by_key, InsertJobParams, insert_job}
use mock_vision.Worker.Table.Rows.{
  Ascending-insert_job, get_job-insert_job, get_job-fresh, get_open_job_by_key-get_job,
}
use mock_vision.Worker.State.{Env, Execution, Runner, call_db, requeue_locked, known}
use mock_vision.Worker.Requests.{
  Spec, params_json, null_string, insert_new, submit_new, join_open, submit_found, submit_encoded,
  submit,
}
use mock_vision.Worker.Steps.Sound.{
  held, row_held, RunHeld, IsSound, IsSound-same, IsSound-event, IsSound-put, live_row,
}
use mock_vision.Worker.Steps.Ending.{IsSound-requeue_locked}

pub IsSound-call_db : (env : Env) (r : Runner) → IsSound r → IsSound (call_db env r).1
IsSound-call_db env r h =
    IsSound-same r (call_db env r).1 (unfold call_db in refl) (unfold call_db in refl) h

insert_live :
    (id : ℕ) (p : InsertJobParams) (jobs jobs' : List Row) (run : Option Execution)
    → insert_job p jobs ≡ some jobs'
    → RunHeld id run (get_job id jobs)
    → RunHeld id run (get_job id jobs')
insert_live id p jobs jobs' none e h = tt
insert_live id p jobs jobs' (some ex) e h = elim (Bool-cases (nat_beq p.id id)) [
  | inr ne ↦ ground (arith, get_job-insert_job id p jobs {rows' = jobs'} e)
  | inl eq ↦
      let gone : get_job id jobs ≡ none =
        ap (λ (k : ℕ). get_job k jobs) (sym ((nat_beq_iff p.id id).0 eq))
        ∙ get_job-fresh p jobs {rows' = jobs'} e in
      cc (h.2, ap row_held gone)
]

IsSound-inserted :
    (p : InsertJobParams) (r : Runner) (jobs' : List Row)
    → insert_job p r.db.jobs ≡ some jobs'
    → IsSound r
    → IsSound (record r { db = record r.db { jobs = jobs' } })
IsSound-inserted p r jobs' e h = record {
  ordered = Ascending-insert_job p r.db.jobs e h.ordered;
  live = λ id. insert_live id p r.db.jobs jobs' (get id r.running) e (h.live id);
}

-- Adding to what was published.
IsSound-same_parts :
    (r s : Runner) → IsSound r → s.running ≡ r.running → s.db.jobs ≡ r.db.jobs → IsSound s
IsSound-same_parts r s h p q = IsSound-same r s p q h

-- An execution put back under its ID, with its job's ID and a status that is held.
pub IsSound-put_back :
    (id : ℕ) (ex ex' : Execution) (r : Runner)
    → IsSound r
    → get id r.running ≡ some ex
    → ex'.job.id ≡ ex.job.id
    → held ex'.job.status ≡ true
    → IsSound (record r { running = put id ex' r.running })
IsSound-put_back id ex ex' r h g same k =
    let l = live_row id r h g in
    let e : ex'.job.id ≡ id = same ∙ l.0 in
    subst (λ (n : ℕ). IsSound (record r { running = put n ex' r.running })) e
      (IsSound-put ex' r k (subst (λ (n : ℕ). row_held (get_job n r.db.jobs) ≡ true) (sym e) l.2) h)

pub IsSound-if :
    {A : Type 0} (b : Bool) (x y : A × Runner)
    → IsSound x.1
    → IsSound y.1
    → IsSound (if b then x else y).1
IsSound-if true x y h k = h
IsSound-if false x y h k = k

module _ (env : Env) (now : ℕ) where
  IsSound-insert_new :
      (id : ℕ) (spec : Spec) (params : String) (r : Runner)
      → IsSound r
      → IsSound (insert_new env now id spec params r).1
  IsSound-insert_new id spec params r h =
      let p : InsertJobParams = record {
        id = id;
        type = spec.type;
        title = spec.title;
        params_json = params;
        dedupe_key = null_string spec.key;
        created_by = spec.created_by;
        created_at = unix_milli now;
      } in
      elim (Bool-cases (env.io_ok r.calls)) [
        | inr e ↦ unfold insert_new in rw e (IsSound-call_db env r h)
        | inl e ↦ elim (Option-cases (insert_job p r.db.jobs)) [
          | inl f ↦ unfold insert_new in rw e (rw f (IsSound-call_db env r h))
          | inr (rows, f) ↦
              let placed =
                IsSound-inserted p (call_db env r).1 rows (unfold call_db in f)
                  (IsSound-call_db env r h) in
              unfold insert_new in
              rw e (
                rw f (
                  IsSound-same_parts _ _
                    (IsSound-event env id status_event (status_payload queued "" "") now _ placed)
                    refl refl))
        ]
      ]

  IsSound-submit_new :
      (id : ℕ) (spec : Spec) (params : String) (r : Runner)
      → IsSound r
      → IsSound (submit_new env now id spec params r).1
  unfolding submit_new call_db
  IsSound-submit_new id spec params r h = ground (
    arith,
    IsSound-call_db env r h,
    IsSound-insert_new id spec params (call_db env r).1 (IsSound-call_db env r h),
  )

  IsSound-join_open :
      (row : Row) (r : Runner)
      → get_job row.id r.db.jobs ≡ some row
      → IsSound r
      → IsSound (join_open env now row r).1
  IsSound-join_open row r f h = elim (Bool-cases (same_status row.status interrupted)) [
    | inr e ↦ unfold join_open job_from in rw e h
    | inl e ↦
        let q =
          IsSound-requeue_locked env now (job_from env.json row) r
            (unfold job_from in rw f (ground arith)) h in
        elim (Bool-cases (requeue_locked env now (job_from env.json row) r).0) [
          | inl g ↦ unfold join_open job_from in rw e (rw g q)
          | inr g ↦ unfold join_open job_from in rw e (rw g q)
        ]
  ]

  IsSound-submit_found :
      (id : ℕ) (spec : Spec) (params : String) (o : Option Row) (r : Runner)
      → ((row : Row) → o ≡ some row → get_job row.id r.db.jobs ≡ some row)
      → IsSound r
      → IsSound (submit_found env now id spec params o r).1
  IsSound-submit_found id spec params none r f h =
      unfold submit_found in IsSound-submit_new id spec params r h
  IsSound-submit_found id spec params (some row) r f h =
      unfold submit_found in IsSound-join_open row r (f row refl) h

  IsSound-submit_encoded :
      (id : ℕ) (spec : Spec) (params : String) (r : Runner)
      → IsSound r
      → IsSound (submit_encoded env now id spec params r).1
  unfolding submit_encoded
  IsSound-submit_encoded id spec params r h =
      IsSound-if (spec.key == "") _ _ (IsSound-submit_new id spec params r h) (
        IsSound-if (env.io_ok r.calls) _ _
          (IsSound-submit_found id spec params (get_open_job_by_key spec.key r.db.jobs)
            (call_db env r).1
            (λ row f.
              unfold call_db in (get_open_job_by_key-get_job spec.key r.db.jobs f h.ordered).0)
            (IsSound-call_db env r h))
          (IsSound-call_db env r h))

  pub IsSound-submit :
      (id : ℕ) (spec : Spec) (r : Runner) → IsSound r → IsSound (submit env now id spec r).1
  IsSound-submit id spec r h = elim (Bool-cases (known env spec.type)) [
    | inr k ↦ unfold submit in rw k h
    | inl k ↦ elim (Option-cases (params_json spec.params)) [
      | inl f ↦ unfold submit in rw k (rw f h)
      | inr (params, f) ↦ unfold submit in rw k (rw f (IsSound-submit_encoded id spec params r h))
    ]
  ]
