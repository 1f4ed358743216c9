-- ===== src/Domain/Backoff.antt =====
-- `RetryBackoff` of backend/internal/domain/camera.go. A duration is its nanoseconds, as the bit
-- pattern of an int64: a pattern from 2^63 on stands for a negative duration.
use mock_vision.Prelude.{
  ℕ, zero, suc, ◌-◌, ◌*◌, ◌%◌, ◌^◌, ◌≤◌, min, ◌≡◌, refl, Bool, true, ◌&&◌, arith, ltb, nat_beq,
  nat_beq_iff, if◌then◌else◌, Bool-cases, inl, inr, sym, subst,
}

abbrev pub second : ℕ
second = 1_000_000_000

abbrev pub minute : ℕ
minute = 60 * second

abbrev pub max_auto_retries : ℕ
max_auto_retries = 5

-- for i := 1; i < attempt; i++ { d *= 2 }
double_times : ℕ → ℕ → ℕ
double_times zero d = d
double_times (suc n) d = double_times n (d * 2 % 2 ^ 64)

unfoldable pub retry_backoff : ℕ → ℕ
unfolding double_times
retry_backoff attempt =
    let n = if ltb attempt 1 then 1 else attempt in
    let d = double_times (n - 1) (2 * second) in
    if ltb minute d && ltb d (2 ^ 63) then minute else d

-- A test that the numbers up to `last` pass.
passes_to : (ℕ → Bool) → ℕ → Bool
passes_to test zero = test zero
passes_to test (suc last) = passes_to test last && test (suc last)

passes_to_lem :
    (test : ℕ → Bool) (last k : ℕ) → k ≤ last → passes_to test last ≡ true → test k ≡ true
unfolding passes_to
passes_to_lem test zero k below h = ground (arith, subst (λ (i : ℕ). test i ≡ true) (z k below) h)
  where
    z : (k : ℕ) → k ≤ 0 → 0 ≡ k
    z k below = omega (arith, below)
passes_to_lem test (suc last) k below h = elim (Bool-cases (nat_beq k (suc last))) [
  | inl b ↦
      subst (λ (i : ℕ). test i ≡ true)
        (let e : suc last ≡ k = sym ((nat_beq_iff k (suc last)).0 b) in e) (ground (arith, h))
  | inr b ↦ passes_to_lem test last k (ground (arith, below, b)) (ground (arith, h))
]

-- The wait before attempt k + 1.
abbrev wait_is : ℕ → Bool
wait_is k = nat_beq (retry_backoff (suc k)) (min (2 ^ suc k * second) minute)

first_waits : passes_to wait_is 32 ≡ true
unfolding passes_to retry_backoff
first_waits = refl

-- Attempt n waits 2^n seconds, and one minute at most, for every attempt from 1 to 33; from 34 on
-- the doubling of the source passes 2^63.
pub retry_backoff-eq :
    (attempt : ℕ)
    → 1 ≤ attempt
    → attempt ≤ 33
    → retry_backoff attempt ≡ min (2 ^ attempt * second) minute
retry_backoff-eq zero h k = absurd (omega arith)
retry_backoff-eq (suc n) h k =
    (nat_beq_iff _ _).0 (passes_to_lem wait_is 32 n (omega arith) first_waits)
