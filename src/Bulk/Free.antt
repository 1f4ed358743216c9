-- ===== src/Bulk/Free.antt =====
-- The address that `nextHost` finds.
use mock_vision.Prelude.GoMap.{is_some}
use native.Mathlib.Nat.{mod-lt, mod-eq_of_lt, add-mod_right}
use mock_vision.Prelude.{
  ℕ, zero, suc, ◌+◌, ◌-◌, ◌%◌, ◌≡◌, ◌≤◌, ◌<◌, refl, sym, ap, ◌∙◌, Bool, true, false, List, Option,
  none, some, arith, ltb, nat_beq, Bool-cases, inl, inr, nat_beq_iff, if◌then◌else◌,
}
use mock_vision.Domain.Network.{size_of, first_addr, last_addr}
use mock_vision.Domain.Network.Accepted.{first_addr-le, last_addr-ge, pow2-pos}
use mock_vision.Bulk.{offset, is_free, is_used, next_host_loop, next_host}

differs : (i k : ℕ) (p : ℕ → Bool) → p i ≡ false → p k ≡ true → nat_beq i k ≡ false
differs i k p f t = elim (Bool-cases (nat_beq i k)) [
  | inl e ↦ let same : p i ≡ true = rw ((nat_beq_iff i k).0 e) t in absurd (ground (arith, f, same))
  | inr e ↦ e
]

module _ (size first cur : ℕ) (used : List ℕ) where
  -- Every free offset that the rounds left reach makes the loop find an address.
  next_host_loop-found :
      (n i k : ℕ)
      → i ≤ k
      → k < i + n
      → is_free size first used (offset size first cur k) ≡ true
      → is_some (next_host_loop size first cur used n i) ≡ true
  unfolding next_host_loop
  next_host_loop-found zero i k l m f = absurd (omega (arith, l, m))
  next_host_loop-found (suc n) i k l m f =
      elim (Bool-cases (is_free size first used (offset size first cur i))) [
        | inl b ↦ rw b refl
        | inr b ↦
            let ne : nat_beq i k ≡ false =
              differs i k (λ (j : ℕ). is_free size first used (offset size first cur j)) b f in
            rw b (next_host_loop-found n (i + 1) k (ground (arith, l, ne)) (omega (arith, m)) f)
      ]

  -- An address that the loop finds is a free one, some place after `cur`.
  next_host_loop-free :
      (n i a : ℕ)
      → next_host_loop size first cur used n i ≡ some a
      → (k : ℕ) × (i ≤ k)
        × (k < i + n)
        × (a ≡ first + offset size first cur k)
        × (is_free size first used (offset size first cur k) ≡ true)
  unfolding next_host_loop
  next_host_loop-free zero i a h = absurd (ground (arith, h))
  next_host_loop-free (suc n) i a h =
      elim (Bool-cases (is_free size first used (offset size first cur i))) [
        | inl b ↦
            let e : some (first + offset size first cur i) ≡ some a = rw b at h in
            (i, omega arith, omega arith, ground (arith, e), b)
        | inr b ↦
            let r = next_host_loop-free n (i + 1) a (rw b at h) in
            (r.0, omega (arith, r.1), omega (arith, r.2), r.3, r.4)
      ]

-- Where a number of a network stands after another, going around its end.
abbrev after : ℕ → ℕ → ℕ → ℕ
after size c d = if ltb c d then d - c else d + size - c

offset-after :
    (size c d : ℕ)
    → c < size
    → d < size
    → nat_beq c d ≡ false
    → ((c + after size c d) % size ≡ d) × (1 ≤ after size c d) × (after size c d < size)
offset-after size c d l m n = elim (Bool-cases (ltb c d)) [
  | inl b ↦
      let e : c + after size c d ≡ d = ground (arith, b) in
      (ap (λ (x : ℕ). x % size) e ∙ mod-eq_of_lt m, ground (arith, b), ground (arith, b, m))
  | inr b ↦
      let e : c + after size c d ≡ d + size = ground (arith, b, l) in
      (
        ap (λ (x : ℕ). x % size) e ∙ add-mod_right d size ∙ mod-eq_of_lt m,
        ground (arith, b, l),
        ground (arith, b, l, n),
      )
]

-- An address is less than the size after the first of its network.
in_network : (bits a : ℕ) → (first_addr bits a ≤ a) × (a - first_addr bits a < size_of bits)
in_network bits a =
    let low = first_addr-le bits a in
    let high = last_addr-ge bits a in
    let size = pow2-pos (32 - bits) in (low, unfold last_addr in omega (arith, low, high, size))

next_host-loop :
    (bits cur : ℕ) (used : List ℕ)
    → 4 ≤ size_of bits
    → next_host bits cur used
      ≡ next_host_loop (size_of bits) (first_addr bits cur) cur used (size_of bits - 1) 1
unfolding next_host
next_host-loop bits cur used s =
    let b : ltb (size_of bits) 4 ≡ false = ground (arith, s) in rw b refl

host-free :
    (size first : ℕ) (used : List ℕ) (a : ℕ)
    → first < a
    → a < first + (size - 1)
    → is_used used a ≡ false
    → is_free size first used (a - first) ≡ true
host-free size first used a l m u =
    let e : first + (a - first) ≡ a = omega (arith, l) in rw e (ground (arith, l, m, u))

-- An address that `nextHost` finds is a host of the network of `cur` and is not used.
next_host-free :
    (bits cur a : ℕ) (used : List ℕ)
    → next_host bits cur used ≡ some a
    → 4 ≤ size_of bits
    → (first_addr bits cur < a) × (a < last_addr bits cur) × (is_used used a ≡ false)
next_host-free bits cur a used h s =
    let size = size_of bits in
    let first = first_addr bits cur in
    let r =
      next_host_loop-free size first cur used (size - 1) 1 a
        (sym (next_host-loop bits cur used s) ∙ h) in
    let off = offset size first cur r.0 in
    let low : off < size = mod-lt (cur - first + r.0) (omega (arith, s)) in
    let free = r.4 in
    (
      ground (arith, r.3, free),
      unfold last_addr in ground (arith, r.3, free, low),
      rw r.3 (ground (arith, free)),
    )

next_host-is_some :
    (bits cur a : ℕ) (used : List ℕ)
    → 4 ≤ size_of bits
    → first_addr bits cur < a
    → a < last_addr bits cur
    → nat_beq cur a ≡ false
    → is_used used a ≡ false
    → is_some (next_host bits cur used) ≡ true
next_host-is_some bits cur a used s l m n u =
    let size = size_of bits in
    let first = first_addr bits cur in
    let own = in_network bits cur in
    let below : a < first + (size - 1) = unfold last_addr in m in
    let other : nat_beq (cur - first) (a - first) ≡ false = ground (arith, own.0, l, n) in
    let k = offset-after size (cur - first) (a - first) own.1 (omega (arith, below, l)) other in
    let free : is_free size first used
          (offset size first cur (after size (cur - first) (a - first)))
        ≡ true =
      rw k.0 (host-free size first used a l below u) in
    rw (next_host-loop bits cur used s) (
      next_host_loop-found size first cur used (size - 1) 1 (after size (cur - first) (a - first))
        k.1 (omega (arith, k.2, s)) free)

taken : (o : Option ℕ) → is_some o ≡ true → (b : ℕ) × (o ≡ some b)
taken none h = absurd (ground arith)
taken (some b) h = (b, refl)

-- Where the network of `cur`, of a prefix of 30 bits at most, has a host that is not used, apart
-- from `cur` itself, `nextHost` finds an address, and what it finds is a host of that network,
-- neither its first nor its last address, that is not used.
pub next_host-found :
    (bits cur a : ℕ) (used : List ℕ)
    → 4 ≤ size_of bits
    → first_addr bits cur < a
    → a < last_addr bits cur
    → nat_beq cur a ≡ false
    → is_used used a ≡ false
    → (b : ℕ) × (next_host bits cur used ≡ some b)
      × (first_addr bits cur < b)
      × (b < last_addr bits cur)
      × (is_used used b ≡ false)
next_host-found bits cur a used s l m n u =
    let found = taken (next_host bits cur used) (next_host-is_some bits cur a used s l m n u) in
    let free = next_host-free bits cur found.0 used found.1 s in
    (found.0, found.1, free.0, free.1, free.2)
