-- ===== src/Tests/SignIn.antt =====
-- The login guard and the token bucket.
use mock_vision.Prelude.{ℕ, ◌+◌, ◌-◌, ◌*◌, ◌≤◌, ◌≡◌, refl, [], ◌∷◌, some, arith}
use mock_vision.Prelude.Equality.{string_eq}
use mock_vision.Prelude.GoMap.{get}
use mock_vision.Guard.Bucket.{Bucket}
use mock_vision.Guard.Rate.{take_all, take_all-bound}
use mock_vision.Guard.Login.{LoginEntry, LoginGuard, locked, fail}
use mock_vision.Guard.Locks.{fail-locked_other, fail-locked_own}
use mock_vision.Guard.Memory.{IsSmall, attempting, answer_request, answer_request-IsSmall}

abbrev bucket : Bucket
bucket = record { credit = 60; at = 0 }

take_all-bound_example :
    let r = take_all 10 6 (1 ∷ 2 ∷ 9 ∷ []) bucket in
    (r.0 * 6 + r.1.credit ≤ 10 * 6 + (r.1.at - 1))
    × (r.0 * 6 + r.1.credit ≤ bucket.credit + (r.1.at - bucket.at))
    × (1 ≤ r.1.at)
take_all-bound_example =
    take_all-bound 10 6 1 (2 ∷ 9 ∷ []) bucket (omega arith, (omega arith, (omega arith, tt)))

abbrev locked_entry : LoginEntry
locked_entry = record { failures = 5; until = 100; last = 40 }

abbrev free_entry : LoginEntry
free_entry = record { failures = 4; until = 0; last = 30 }

abbrev guard : LoginGuard
guard = record {
  entries = ("ada", locked_entry) ∷ ("bob", free_entry) ∷ [];
  ips = ("::1", bucket) ∷ [];
}

fail-locked_other_example : locked "ada" 90 (fail "eve" 50 guard) ≡ locked "ada" 90 guard
unfolding get
fail-locked_other_example =
    fail-locked_other "ada" "eve" 50 90 locked_entry guard (refl, (refl, tt)) refl (omega arith)
      refl (omega arith)

fail-locked_own_example :
    (until : ℕ) × (locked "bob" 60 (fail "bob" 50 guard) ≡ some until)
    × (50 + 30_000_000_000 ≤ until)
    × (until ≤ 50 + 900_000_000_000)
unfolding get
fail-locked_own_example = fail-locked_own "bob" 50 60 guard (omega arith) (omega arith)

guard-IsSmall : IsSmall guard
guard-IsSmall = record { few_entries = omega arith; few_ips = omega arith }

answer_request-IsSmall_example : IsSmall (answer_request (λ ip. ip) 50 (attempting "::2") guard)
answer_request-IsSmall_example =
    answer_request-IsSmall (λ ip. ip) 50 (attempting "::2") guard guard-IsSmall
