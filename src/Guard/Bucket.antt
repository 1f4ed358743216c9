-- ===== src/Guard/Bucket.antt =====
-- The token bucket of supervisor.go, which auth.go writes out again for addresses. The tokens, a
-- float64 in the code, are counted here without rounding: `credit` is the nanoseconds that the
-- tokens took to fill, and a token takes `per` of them (the inverse of the rate). Times are of a monotonic clock, which does not go
-- back.
use mock_vision.Prelude.{ℕ, ◌+◌, ◌-◌, ◌*◌, Bool, true, false, ltb, min, if◌then◌else◌}

pub record Bucket : Type 0 where
  pub credit : ℕ
  pub at : ℕ

-- The bucket at the time `now`, filled up.
abbrev pub filled : ℕ → ℕ → ℕ → Bucket → ℕ
filled burst per now b = min (burst * per) (b.credit + (now - b.at))

-- `take`
unfoldable pub take_token : ℕ → ℕ → ℕ → Bucket → Bool × Bucket
take_token burst per now b =
    let c = filled burst per now b in
    if ltb c per
    then (false, record { credit = c; at = now })
    else (true, record { credit = c - per; at = now })

-- `allowNotice`: bursts of 50, refilled at 10 a second.
unfoldable pub allow_notice : ℕ → Bucket → Bool × Bucket
unfolding take_token
allow_notice now b = take_token 50 100_000_000 now b
