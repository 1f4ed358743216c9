-- ===== src/Prelude/Time.antt =====
-- Times as store.go keeps them: `Time` and what Time.UnixMilli computes. A time is its nanoseconds
-- since 1970, and 0 is the zero time; a stored time is its milliseconds.
use Prim.Native.Nat.{ℕ, ◌*◌, ◌/◌}

-- `Time`
abbrev pub time_of : ℕ → ℕ
time_of ms = ms * 1_000_000

abbrev pub unix_milli : ℕ → ℕ
unix_milli t = t / 1_000_000
