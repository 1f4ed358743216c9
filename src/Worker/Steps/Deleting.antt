-- ===== src/Worker/Steps/Deleting.antt =====
-- What deleting finished jobs does to the invariant and to the other rows.
use mock_vision.Prelude.{
  ℕ, suc, ◌≡◌, refl, sym, ap, ◌∙◌, Bool, true, false, not, ◌&&◌, List, [], ◌∷◌, Option, none, some,
  arith, nat_beq, nat_beq_iff, if◌then◌else◌, Bool-cases, inl, inr, All, All-map, filter, map,
}
use mock_vision.Prelude.Equality.{nat_eq}
use mock_vision.Prelude.GoMap.{get, is_some}
use mock_vision.Worker.Job.{final, Row}
use mock_vision.Worker.Table.{get_job, delete_job, list_finished_jobs_before, before_time}
use mock_vision.Worker.Table.Rows.{Ascending, Ascending-filter, All-found, All-filter_pass}
use mock_vision.Worker.State.{Env, Execution, Runner, call_db}
use mock_vision.Worker.Requests.{delete_all}
use mock_vision.Worker.Steps.Sound.{row_held, RunHeld, IsSound, IsSound-same, not_running}
use mock_vision.Worker.Steps.Submitting.{IsSound-if}
use mock_vision.Worker.Steps.Standing.{Stands, Stands-if}

get_job-filter :
    (id k : ℕ) (rows : List Row)
    → get_job id (filter (λ (r : Row). not (nat_beq r.id k)) rows)
      ≡ (if nat_beq k id then none else get_job id rows)
unfolding get_job
get_job-filter id k [] = ground arith
get_job-filter id k (r ∷ rs) = ground (arith, get_job-filter id k rs)

-- Rows that no execution holds.
abbrev pub Unheld : Runner → List ℕ → Type 0
Unheld r ids = All (λ (k : ℕ). row_held (get_job k r.db.jobs) ≡ false) ids

abbrev without : ℕ → Runner → Runner
without k r = record r { db = delete_job k r.db }

delete_live :
    (id k : ℕ) (run : Option Execution) (row : Option Row)
    → (nat_beq k id ≡ true → is_some run ≡ false)
    → RunHeld id run row
    → RunHeld id run (if nat_beq k id then none else row)
delete_live id k none row f h = tt
delete_live id k (some ex) row f h = ground (arith, f, h)

jobs-without :
    (k : ℕ) (r : Runner)
    → (without k r).db.jobs ≡ filter (λ (s : Row). not (nat_beq s.id k)) r.db.jobs
unfolding delete_job
jobs-without k r = refl

IsSound-without :
    (k : ℕ) (r : Runner)
    → row_held (get_job k r.db.jobs) ≡ false
    → IsSound r
    → IsSound (without k r)
IsSound-without k r u h = record {
  ordered =
      rw jobs-without (Ascending-filter (λ (s : Row). not (nat_beq s.id k)) r.db.jobs h.ordered);
  live = λ id. rw jobs-without (
      rw (get_job-filter id k r.db.jobs) (
        delete_live id k (get id r.running) (get_job id r.db.jobs)
          (λ e.
            let same = (nat_beq_iff k id).0 e in
            ap (λ (i : ℕ). is_some (get i r.running)) (sym same) ∙ not_running k r h u)
          (h.live id)));
}

unheld : (b : Bool) (o : Option Row) → row_held o ≡ false → row_held (if b then none else o) ≡ false
unheld true o h = refl
unheld false o h = h

Unheld-without : (k : ℕ) (r : Runner) (ids : List ℕ) → Unheld r ids → Unheld (without k r) ids
Unheld-without k r ids u =
    All-map (λ (i : ℕ). row_held (get_job i r.db.jobs) ≡ false)
      (λ (i : ℕ). row_held (get_job i (without k r).db.jobs) ≡ false) ids
      (λ i e.
        rw jobs-without
          (rw (get_job-filter i k r.db.jobs) (unheld (nat_beq k i) (get_job i r.db.jobs) e)))
      u

pub IsSound-delete_all :
    (env : Env) (ids : List ℕ) (r : Runner)
    → Unheld r ids
    → IsSound r
    → IsSound (delete_all env ids r).1
unfolding delete_all call_db
IsSound-delete_all env [] r u h = h
IsSound-delete_all env (k ∷ ids) r u h =
    let c : Runner = record r { calls = suc r.calls } in
    let counted : IsSound c = IsSound-same r c refl refl h in
    IsSound-if (env.io_ok r.calls) _ _
      (IsSound-delete_all env ids (without k c) (Unheld-without k c ids u.1)
        (IsSound-without k c u.0 counted))
      counted

-- A deletion of other jobs leaves a row alone.
pub Stands-delete_all :
    (env : Env) (id : ℕ) (fin : Row) (ids : List ℕ) (r : Runner)
    → All (λ (k : ℕ). nat_beq k id ≡ false) ids
    → Stands id fin r
    → Stands id fin (delete_all env ids r).1
unfolding delete_all call_db
Stands-delete_all env id fin [] r u h = h
Stands-delete_all env id fin (k ∷ ids) r u h =
    let c : Runner = record r { calls = suc r.calls } in
    Stands-if env 0 id fin (env.io_ok r.calls) _ _
      (Stands-delete_all env id fin ids (without k c) u.1
        (rw jobs-without (get_job-filter id k r.db.jobs ∙ (rw u.0 h))))
      h

-- A job that is listed has a final row that finished before the time.
abbrev FinishedBefore : Option ℕ → Runner → ℕ → Type 0
FinishedBefore t r k =
    (s : Row) × (get_job k r.db.jobs ≡ some s)
    × (before_time t s.finished_at ≡ true)
    × (final s.status ≡ true)

All-ids :
    (P : ℕ → Type 0) (rows : List Row)
    → All (λ (s : Row). P s.id) rows
    → All P (map (λ (s : Row). s.id) rows)
All-ids P [] h = tt
All-ids P (s ∷ rows) h = (h.0, All-ids P rows h.1)

listed_finished :
    (t : Option ℕ) (r : Runner)
    → Ascending r.db.jobs
    → All (FinishedBefore t r) (list_finished_jobs_before t r.db.jobs)
unfolding list_finished_jobs_before
listed_finished t r a =
    let p = λ (s : Row). before_time t s.finished_at && final s.status in
    let found =
      All-filter_pass (λ (s : Row). get_job s.id r.db.jobs ≡ some s) p r.db.jobs
        (All-found r.db.jobs a) in
    All-ids (FinishedBefore t r) (filter p r.db.jobs) (
      All-map (λ (s : Row). (get_job s.id r.db.jobs ≡ some s) × (p s ≡ true))
        (λ (s : Row). FinishedBefore t r s.id) (filter p r.db.jobs)
        (λ s e. (s, e.0, ground (arith, e.1), ground (arith, e.1))) found)

pub listed-Unheld :
    (t : Option ℕ) (r : Runner)
    → Ascending r.db.jobs
    → Unheld r (list_finished_jobs_before t r.db.jobs)
listed-Unheld t r a =
    All-map (FinishedBefore t r) (λ (k : ℕ). row_held (get_job k r.db.jobs) ≡ false)
      (list_finished_jobs_before t r.db.jobs) (λ k f. rw f.1 (ground (arith, f.3)))
      (listed_finished t r a)

pub listed-apart :
    (t : Option ℕ) (r : Runner) (id : ℕ) (fin : Row)
    → Ascending r.db.jobs
    → Stands id fin r
    → before_time t fin.finished_at ≡ false
    → All (λ (k : ℕ). nat_beq k id ≡ false) (list_finished_jobs_before t r.db.jobs)
listed-apart t r id fin a h b =
    All-map (FinishedBefore t r) (λ (k : ℕ). nat_beq k id ≡ false)
      (list_finished_jobs_before t r.db.jobs) apart (listed_finished t r a)
  where
    clash : (s : Row) → some s ≡ some fin → before_time t s.finished_at ≡ true → ⊥
    clash s e l = ground (arith, b, l)

    apart : (k : ℕ) → FinishedBefore t r k → nat_beq k id ≡ false
    apart k f = elim (Bool-cases (nat_beq k id)) [
      | inr ne ↦ ne
      | inl eq ↦ absurd (
          clash f.0 (sym f.1 ∙ ap (λ (i : ℕ). get_job i r.db.jobs) ((nat_beq_iff k id).0 eq) ∙ h)
            f.2)
    ]
