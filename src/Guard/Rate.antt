-- ===== src/Guard/Rate.antt =====
-- How many of a sequence of attempts a bucket lets through.
use mock_vision.Prelude.{
  ℕ, ◌+◌, ◌-◌, ◌*◌, ◌≤◌, ◌≡◌, Bool, true, false, List, [], ◌∷◌, arith, if◌then◌else◌,
}
use mock_vision.Guard.Bucket.{Bucket, take_token}

-- Attempts at these times: how many are let through, and the bucket after them.
unfoldable pub take_all : ℕ → ℕ → List ℕ → Bucket → ℕ × Bucket
unfolding take_token
take_all burst per [] b = (0, b)
take_all burst per (t ∷ ts) b =
    let now = take_token burst per t b in
    let rest = take_all burst per ts now.1 in ((if now.0 then rest.0 + 1 else rest.0), rest.1)

-- Times that follow each other, the first at `t` or after it.
abbrev pub IsClock : ℕ → List ℕ → Type 0
IsClock t [] = Unit
IsClock t (u ∷ us) = (t ≤ u) × IsClock u us

credit-take_token :
    (burst per now : ℕ) (b : Bucket)
    → b.at ≤ now
    → (let r = take_token burst per now b in
        ((if r.0 then per else 0) + r.1.credit ≤ b.credit + (now - b.at))
        × (r.1.at ≡ now)
        × ((if r.0 then per else 0) + r.1.credit ≤ burst * per))
unfolding take_token
credit-take_token burst per now b h = ground arith

spent : (b : Bool) (n per : ℕ) → (if b then n + 1 else n) * per ≡ (if b then per else 0) + n * per
spent true n per = omega arith
spent false n per = omega arith

spent_all :
    (burst per : ℕ) (ts : List ℕ) (b : Bucket)
    → IsClock b.at ts
    → (let r = take_all burst per ts b in
        (r.0 * per + r.1.credit ≤ b.credit + (r.1.at - b.at)) × (b.at ≤ r.1.at))
unfolding take_all
spent_all burst per [] b h = omega arith
spent_all burst per (t ∷ ts) b h =
    let step = credit-take_token burst per t b h.0 in
    let b' = (take_token burst per t b).1 in
    let rest = spent_all burst per ts b' (rw step.1 h.1) in
    let again = take_all burst per ts b' in
    let e = spent (take_token burst per t b).0 again.0 per in
    let now : b'.at ≡ t = step.1 in
    (omega (arith, step.0, e, rest.0, rest.1, now, h.0), omega (arith, rest.1, now, h.0))

-- Over any attempts in the order of time, the first of them at `t`, the tokens that were let through
-- and what is left took no longer to fill than a full bucket and the time since `t`, however long
-- the bucket stood before `t`; nor longer than what was in the bucket and the time since it was
-- last used.
pub take_all-bound :
    (burst per t : ℕ) (ts : List ℕ) (b : Bucket)
    → IsClock b.at (t ∷ ts)
    → (let r = take_all burst per (t ∷ ts) b in
        (r.0 * per + r.1.credit ≤ burst * per + (r.1.at - t))
        × (r.0 * per + r.1.credit ≤ b.credit + (r.1.at - b.at))
        × (t ≤ r.1.at))
take_all-bound burst per t ts b h =
    let step = credit-take_token burst per t b h.0 in
    let b' = (take_token burst per t b).1 in
    let rest = spent_all burst per ts b' (rw step.1 h.1) in
    let again = take_all burst per ts b' in
    let e = spent (take_token burst per t b).0 again.0 per in
    let now : b'.at ≡ t = step.1 in
    (
      unfold take_all in omega (arith, step.2, e, rest.0, rest.1, now, h.0),
      (spent_all burst per (t ∷ ts) b h).0,
      unfold take_all in omega (arith, rest.1, now, h.0),
    )
