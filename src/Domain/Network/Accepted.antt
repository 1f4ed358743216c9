-- ===== src/Domain/Network/Accepted.antt =====
-- What network.go accepts and derives.
use mock_vision.Prelude.{
  ℕ, zero, suc, ◌-◌, ◌%◌, ◌^◌, ◌≡◌, ◌≤◌, ◌<◌, refl, Bool, true, false, not, List, [], ◌∷◌, ◌++◌,
  none, some, arith, nat_beq, length, take, length-take,
}
use native.Mathlib.Nat.{div-mul-le_self, lt-div-mul-add}
use mock_vision.Domain.Text.{Text}
use mock_vision.Domain.Network.{
  Addr, v4, v6, no_addr, NetIdentity, NetProblem, static, first_addr, last_addr, size_of,
  good_prefix, validate_identity, address_problems, ip_problems, bound_problems, gateway_problems,
  problem_if, is_mode, has_mac, bad_mode, bad_mac, dns_problems, bad_prefix, ip_is_bound,
  gateway_outside, gateway_is_ip, check_mac, derive_mac, local_unicast, on_first, mac_salt,
}

append-nil-left : (ps qs : List NetProblem) → ps ++ qs ≡ [] → ps ≡ []
append-nil-left [] qs h = refl
append-nil-left (p ∷ ps) qs h = absurd (ground (arith, h))

append-nil-right : (ps qs : List NetProblem) → ps ++ qs ≡ [] → qs ≡ []
append-nil-right [] qs h = h
append-nil-right (p ∷ ps) qs h = absurd (ground (arith, h))

problem_if-false : (b : Bool) (p : NetProblem) → problem_if b p ≡ [] → b ≡ false
problem_if-false true p h = absurd (ground (arith, h))
problem_if-false false p h = refl

pub first_addr-le : (bits a : ℕ) → first_addr bits a ≤ a
unfolding first_addr
first_addr-le bits a = div-mul-le_self a (size_of bits)

pub pow2-pos : (k : ℕ) → 1 ≤ 2 ^ k
pow2-pos zero = omega arith
pow2-pos (suc k) = omega (arith, pow2-pos k)

-- An address is in its network.
pub last_addr-ge : (bits a : ℕ) → a ≤ last_addr bits a
unfolding last_addr first_addr
last_addr-ge bits a =
    omega (arith, lt-div-mul-add {a = a} {b = size_of bits} (pow2-pos (32 - bits)))

append-four :
    (a b c d : List NetProblem) → a ++ b ++ c ++ d ≡ [] → (a ≡ []) × (b ≡ []) × (c ≡ []) × (d ≡ [])
append-four a b c d h =
    let abc = append-nil-left (a ++ b ++ c) d h in
    let ab = append-nil-left (a ++ b) c abc in
    (
      append-nil-left a b ab,
      append-nil-right a b ab,
      append-nil-right (a ++ b) c abc,
      append-nil-right (a ++ b ++ c) d h,
    )

validate-address : (n : NetIdentity) → validate_identity n ≡ [] → address_problems n ≡ []
unfolding validate_identity
validate-address n h =
    (append-four (problem_if (not (is_mode n.mode)) bad_mode)
      (problem_if (not (has_mac n.mac)) bad_mac) (address_problems n) (dns_problems n.dns) h).2

-- The parts of a validated identity that is static.
address-nil :
    (n : NetIdentity)
    → address_problems n ≡ []
    → n.ip_mode ≡ static
    → (ip_problems n.ip ≡ [])
      × (problem_if (not (good_prefix n.prefix)) bad_prefix ≡ [])
      × (gateway_problems n.prefix n.ip n.gateway ≡ [])
      × (bound_problems n.prefix n.ip ≡ [])
unfolding address_problems
address-nil n h s =
    append-four (ip_problems n.ip) (problem_if (not (good_prefix n.prefix)) bad_prefix)
      (gateway_problems n.prefix n.ip n.gateway) (bound_problems n.prefix n.ip) (rw s at h)

is_host :
    (bits : ℕ) (ip : Addr)
    → ip_problems ip ≡ []
    → good_prefix bits ≡ true
    → bound_problems bits ip ≡ []
    → (a : ℕ) × (ip ≡ v4 a) × (first_addr bits a < a) × (a < last_addr bits a)
unfolding ip_problems bound_problems
is_host bits no_addr i g b = absurd (ground (arith, i))
is_host bits v6 i g b = absurd (ground (arith, i))
is_host bits (v4 a) i g b =
    let c = problem_if-false _ ip_is_bound b in
    let below = first_addr-le bits a in
    let above = last_addr-ge bits a in
    (a, refl, ground (arith, c, g, below, above), ground (arith, c, g, below, above))

gateway_host :
    (bits : ℕ) (ip gateway : Addr) (a g : ℕ)
    → ip ≡ v4 a
    → gateway ≡ v4 g
    → good_prefix bits ≡ true
    → gateway_problems bits ip gateway ≡ []
    → (first_addr bits g ≡ first_addr bits a) × (nat_beq g a ≡ false)
unfolding gateway_problems
gateway_host bits ip gateway a g e f p h =
    let outside =
      problem_if (not (nat_beq (first_addr bits g) (first_addr bits a))) gateway_outside in
    let same = problem_if (nat_beq g a) gateway_is_ip in
    let both : outside ++ same ≡ [] = rw p at (rw e at (rw f at h)) in
    let x = problem_if-false _ gateway_outside (append-nil-left outside same both) in
    let y = problem_if-false _ gateway_is_ip (append-nil-right outside same both) in
    (ground (arith, x), y)

-- A static identity that is accepted has a prefix of 1 to 30 bits, and an IPv4 address strictly
-- between the first and the last of its network.
pub validate_identity-host :
    (n : NetIdentity)
    → validate_identity n ≡ []
    → n.ip_mode ≡ static
    → (good_prefix n.prefix ≡ true)
      × ((a : ℕ) × (n.ip ≡ v4 a) × (first_addr n.prefix a < a) × (a < last_addr n.prefix a))
validate_identity-host n h s =
    let parts = address-nil n (validate-address n h) s in
    let p = problem_if-false (not (good_prefix n.prefix)) bad_prefix parts.1 in
    let g : good_prefix n.prefix ≡ true = ground (arith, p) in
    (g, is_host n.prefix n.ip parts.0 g parts.3)

-- Its gateway, when it has an IPv4 one, is in the same network and is not the address itself.
pub validate_identity-gateway :
    (n : NetIdentity) (a g : ℕ)
    → validate_identity n ≡ []
    → n.ip_mode ≡ static
    → n.ip ≡ v4 a
    → n.gateway ≡ v4 g
    → (first_addr n.prefix g ≡ first_addr n.prefix a) × (nat_beq g a ≡ false)
validate_identity-gateway n a g h s i j =
    let parts = address-nil n (validate-address n h) s in
    let p = problem_if-false (not (good_prefix n.prefix)) bad_prefix parts.1 in
    gateway_host n.prefix n.ip n.gateway a g i j (ground (arith, p)) parts.2

local_unicast-odd : (b : ℕ) → local_unicast b % 2 ≡ 0
local_unicast-odd b = omega arith

local_six :
    (hw : List ℕ) → 6 ≤ length hw → check_mac (some (on_first local_unicast (take 6 hw))) ≡ none
unfolding check_mac
local_six [] h = absurd (omega (arith, h))
local_six (b ∷ bs) h =
    let odd = local_unicast-odd b in
    let n : length (take 6 (b ∷ bs)) ≡ 6 = omega (arith, length-take 6 (b ∷ bs), h) in
    ground (arith, odd, n)

-- A MAC address that is derived without a vendor's prefix, from hashes of six bytes at least, is
-- accepted by `ParseMAC`.
pub derive_mac-accepted :
    (sha256 : Text → List ℕ) (id : Text) (oui : List ℕ)
    → ((t : Text) → 6 ≤ length (sha256 t))
    → nat_beq (length oui) 3 ≡ false
    → check_mac (some (derive_mac sha256 id oui)) ≡ none
unfolding derive_mac
derive_mac-accepted sha256 id oui long h =
    rw h (local_six (sha256 (mac_salt ++ id)) (long (mac_salt ++ id)))
