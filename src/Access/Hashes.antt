-- ===== src/Access/Hashes.antt =====
-- `hashLimiter` of auth.go. Each call of `do` is a goroutine; an interleaving is a list of steps of
-- calls, and what is kept is how many calls are at each place of the code.
use mock_vision.Prelude.{ℕ, ◌+◌, ◌-◌, ◌≡◌, ◌≤◌, List, [], ◌∷◌, arith, leb, ltb, if◌then◌else◌}

abbrev pub max_concurrent_hashes : ℕ
max_concurrent_hashes = 2

abbrev pub max_pending_hashes : ℕ
max_pending_hashes = 16

-- `slots` counts what is in the channel, `pending` is the counter. A call is over the limit until it
-- takes itself off the counter again, waits for a slot, hashes, or is about to leave.
pub record Hashes : Type 0 where
  pub slots : ℕ
  pub pending : ℕ
  pub over : ℕ
  pub waiting : ℕ
  pub hashing : ℕ
  pub leaving : ℕ

-- A call counts itself, is refused, gets a slot, gives up its wait, is done hashing, leaves.
pub data HashStep : Type 0 where
  calls refused gets_slot gives_up hashed leaves : HashStep

-- A step of a call that is not there changes nothing.
unfoldable pub hash_step : HashStep → Hashes → Hashes
hash_step calls h =
    let n = h.pending + 1 in
    if ltb max_pending_hashes n
    then record h { pending = n; over = h.over + 1 }
    else record h { pending = n; waiting = h.waiting + 1 }
hash_step refused h =
    if leb 1 h.over then record h { pending = h.pending - 1; over = h.over - 1 } else h
hash_step gets_slot h =
    if leb 1 h.waiting
    then (if ltb h.slots max_concurrent_hashes
        then record h { slots = h.slots + 1; waiting = h.waiting - 1; hashing = h.hashing + 1 }
        else h)
    else h
hash_step gives_up h =
    if leb 1 h.waiting then record h { waiting = h.waiting - 1; leaving = h.leaving + 1 } else h
hash_step hashed h =
    if leb 1 h.hashing
    then record h { slots = h.slots - 1; hashing = h.hashing - 1; leaving = h.leaving + 1 }
    else h
hash_step leaves h =
    if leb 1 h.leaving then record h { pending = h.pending - 1; leaving = h.leaving - 1 } else h

unfoldable pub hash_steps : List HashStep → Hashes → Hashes
unfolding hash_step
hash_steps [] h = h
hash_steps (s ∷ ss) h = hash_steps ss (hash_step s h)

-- `newHashLimiter`
abbrev pub new_hashes : Hashes
new_hashes = record { slots = 0; pending = 0; over = 0; waiting = 0; hashing = 0; leaving = 0 }

abbrev IsLimited : Hashes → Type 0
IsLimited h =
    (h.slots ≡ h.hashing)
    × (h.hashing ≤ max_concurrent_hashes)
    × (h.pending ≡ h.over + h.waiting + h.hashing + h.leaving)
    × (h.waiting + h.hashing + h.leaving ≤ max_pending_hashes)

hash_step-IsLimited : (s : HashStep) (h : Hashes) → IsLimited h → IsLimited (hash_step s h)
unfolding hash_step
hash_step-IsLimited calls h l = ground (arith, l)
hash_step-IsLimited refused h l = ground (arith, l)
hash_step-IsLimited gets_slot h l = ground (arith, l)
hash_step-IsLimited gives_up h l = ground (arith, l)
hash_step-IsLimited hashed h l = ground (arith, l)
hash_step-IsLimited leaves h l = ground (arith, l)

hash_steps-limit : (ss : List HashStep) (h : Hashes) → IsLimited h → IsLimited (hash_steps ss h)
unfolding hash_steps
hash_steps-limit [] h l = l
hash_steps-limit (s ∷ ss) h l = hash_steps-limit ss (hash_step s h) (hash_step-IsLimited s h l)

-- However the calls of `do` interleave, at most two of them hash at once, at most 16 wait, hash or
-- leave, and the counter counts them and the ones being refused.
pub new_hashes-limit :
    (ss : List HashStep)
    → (let h = hash_steps ss new_hashes in
        (h.hashing ≤ max_concurrent_hashes)
        × (h.waiting + h.hashing + h.leaving ≤ max_pending_hashes)
        × (h.pending ≡ h.over + h.waiting + h.hashing + h.leaving))
new_hashes-limit ss = let l = hash_steps-limit ss new_hashes (ground arith) in (l.1, l.3, l.2)
