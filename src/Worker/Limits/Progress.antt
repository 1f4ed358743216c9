-- ===== src/Worker/Limits/Progress.antt =====
-- The progress of a job that reports it.
use mock_vision.Prelude.{
  ℕ, ◌+◌, ◌≤◌, ◌≡◌, refl, true, Option, none, some, arith, ltb, nat_beq, nat_beq_iff, Bool-cases,
  inl, inr, ◌∙◌,
}
use mock_vision.Prelude.Equality.{nat_eq}
use mock_vision.Prelude.GoMap.{get, put, get-put}
use mock_vision.Prelude.Int.{ℤ, pos, negsuc}
use mock_vision.Worker.State.{Env, Execution, Runner}
use mock_vision.Worker.State.Frame.{running-save}
use mock_vision.Worker.Handle.{one, clamp, set_and_save, progress, progress_every}

-- What the job of an execution has come to.
abbrev pub reached : Option Execution → ℕ
reached none = 0
reached (some ex) = ex.job.progress

clamp-one : (p : ℤ) → clamp p ≤ one
unfolding clamp
clamp-one (negsuc n) = omega arith
clamp-one (pos p) = ground arith

running-set_and_save :
    (env : Env) (id : ℕ) (ex : Execution) (r : Runner)
    → (set_and_save env id ex r).running ≡ put id ex r.running
unfolding set_and_save
running-set_and_save env id ex r =
    running-save env ex.job (record r { running = put id ex r.running })

get-put_self : (id : ℕ) (ex : Execution) (r : Runner) → get id (put id ex r.running) ≡ some ex
get-put_self id ex r =
    let e : nat_beq id id ≡ true = (nat_beq_iff id id).1 refl in get-put id id ex r.running ∙ (rw e)

-- `Progress` never moves a job's progress back, whatever number the handler gives and whether it is
-- written now or later, and leaves it at most 1 where it was.
pub progress-reached :
    (env : Env) (now id : ℕ) (p : ℤ) (ex : Execution) (r : Runner)
    → get id r.running ≡ some ex
    → ex.job.progress ≤ one
    → (let after = reached (get id (progress env now id p ex r).running) in
        (ex.job.progress ≤ after) × (clamp p ≤ after) × (after ≤ one))
progress-reached env now id p ex r g h =
    let j = record ex.job { progress = clamp p } in
    let wait = record ex { job = j } in
    let write = record ex { job = j; last_save = now } in
    elim (Bool-cases (ltb (clamp p) ex.job.progress)) [
      | inl b ↦ unfold progress in rw b (rw g (ground (arith, b), ground (arith, b), h))
      | inr b ↦ elim (Bool-cases (ltb now (ex.last_save + progress_every))) [
        | inl c ↦
            unfold progress in
            rw b (rw c (rw (get-put_self id wait r) (ground (arith, b), omega arith, clamp-one p)))
        | inr c ↦
            unfold progress in
            rw b (
              rw c (
                rw (running-set_and_save env id write r)
                  (rw (get-put_self id write r) (ground (arith, b), omega arith, clamp-one p))))
      ]
    ]
