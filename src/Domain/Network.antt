-- ===== src/Domain/Network.antt =====
-- domain/network.go: the network identity of a camera. An IPv4 address is a number below 2 ^ 32; the
-- hash of an ID and the reading of a MAC address by package net are parameters.
pub mod Accepted
use mock_vision.Prelude.{
  ℕ, zero, suc, ◌+◌, ◌-◌, ◌*◌, ◌/◌, ◌%◌, ◌^◌, ◌≡◌, ◌≤◌, ◌<◌, refl, Bool, true, false, not, ◌&&◌,
  ◌||◌, List, [], ◌∷◌, ◌++◌, Option, none, some, arith, ltb, leb, nat_beq, any, length, take,
  if◌then◌else◌,
}
use mock_vision.Prelude.Equality.{◌==◌}
use mock_vision.Domain.Text.{Text, text_eq}

-- netip.Addr: none, an IPv4 address, or an IPv6 address.
pub data Addr : Type 0 where
  no_addr v6 : Addr
  v4 : ℕ → Addr

pub data NetMode : Type 0 where
  macvlan ipvlan other_mode : NetMode

pub data IpMode : Type 0 where
  static dhcp other_ip_mode : IpMode

-- The MAC address is kept as `ParseMAC` read it, `none` for an error.
pub record NetIdentity : Type 0 where
  pub mode : NetMode
  pub mac : Option (List ℕ)
  pub ip_mode : IpMode
  pub ip : Addr
  pub prefix : ℕ
  pub gateway : Addr
  pub dns : List Addr

pub data NetProblem : Type 0 where
  bad_mode bad_mac ip_not_v4 ip_not_usable bad_prefix gateway_not_v4 : NetProblem
  gateway_outside gateway_is_ip ip_is_bound no_dhcp bad_ip_mode dns_not_v4 : NetProblem

abbrev pub is_v4 : Addr → Bool
is_v4 (v4 _) = true
is_v4 _ = false

-- The size of a network with this prefix length, and its first and last address.
abbrev pub size_of : ℕ → ℕ
size_of bits = 2 ^ (32 - bits)

unfoldable pub first_addr : ℕ → ℕ → ℕ
first_addr bits a = (a / size_of bits) * size_of bits

-- `LastAddr`: the bits it sets are 0 in the first address, so that they add to it.
unfoldable pub last_addr : ℕ → ℕ → ℕ
unfolding first_addr
last_addr bits a = first_addr bits a + (size_of bits - 1)

-- IsUnspecified, IsLoopback, IsMulticast and IsLinkLocalUnicast of an IPv4 address.
unfoldable pub is_unusable : ℕ → Bool
is_unusable a =
    nat_beq a 0 || nat_beq (a / 2 ^ 24) 127 || nat_beq (a / 2 ^ 28) 14 || nat_beq (a / 2 ^ 16) 43518

abbrev pub good_prefix : ℕ → Bool
good_prefix bits = leb 1 bits && leb bits 30

abbrev pub problem_if : Bool → NetProblem → List NetProblem
problem_if true p = p ∷ []
problem_if false p = []

unfoldable pub ip_problems : Addr → List NetProblem
unfolding is_unusable
ip_problems (v4 a) = problem_if (is_unusable a) ip_not_usable
ip_problems _ = ip_not_v4 ∷ []

-- A gateway is checked against the network when there is one.
unfoldable pub gateway_problems : ℕ → Addr → Addr → List NetProblem
unfolding first_addr
gateway_problems bits ip no_addr = []
gateway_problems bits ip v6 = gateway_not_v4 ∷ []
gateway_problems bits (v4 a) (v4 g) =
    if good_prefix bits
    then problem_if (not (nat_beq (first_addr bits g) (first_addr bits a))) gateway_outside
      ++ problem_if (nat_beq g a) gateway_is_ip
    else []
gateway_problems bits _ (v4 g) = []

unfoldable pub bound_problems : ℕ → Addr → List NetProblem
unfolding last_addr
bound_problems bits (v4 a) =
    problem_if (good_prefix bits && (nat_beq a (first_addr bits a) || nat_beq a (last_addr bits a)))
      ip_is_bound
bound_problems bits _ = []

unfoldable pub address_problems : NetIdentity → List NetProblem
unfolding ip_problems gateway_problems bound_problems
address_problems n = elim n.ip_mode [
  | static ↦
      ip_problems n.ip
      ++ problem_if (not (good_prefix n.prefix)) bad_prefix
      ++ gateway_problems n.prefix n.ip n.gateway
      ++ bound_problems n.prefix n.ip
  | dhcp ↦ no_dhcp ∷ []
  | other_ip_mode ↦ bad_ip_mode ∷ []
]

abbrev pub is_mode : NetMode → Bool
is_mode other_mode = false
is_mode _ = true

abbrev pub has_mac : Option (List ℕ) → Bool
has_mac none = false
has_mac (some _) = true

unfoldable pub dns_problems : List Addr → List NetProblem
dns_problems [] = []
dns_problems (d ∷ ds) = problem_if (not (is_v4 d)) dns_not_v4 ++ dns_problems ds

-- `Validate`
unfoldable pub validate_identity : NetIdentity → List NetProblem
unfolding address_problems dns_problems
validate_identity n =
    problem_if (not (is_mode n.mode)) bad_mode
    ++ problem_if (not (has_mac n.mac)) bad_mac
    ++ address_problems n
    ++ dns_problems n.dns

pub data MacError : Type 0 where
  invalid_mac mac_length multicast_mac zero_mac : MacError

abbrev is_odd_byte : List ℕ → Bool
is_odd_byte [] = false
is_odd_byte (b ∷ bs) = nat_beq (b % 2) 1

abbrev pub is_nonzero : ℕ → Bool
is_nonzero b = not (nat_beq b 0)

-- `ParseMAC`, from what net.ParseMAC read.
unfoldable pub check_mac : Option (List ℕ) → Option MacError
check_mac none = some invalid_mac
check_mac (some hw) =
    if not (nat_beq (length hw) 6)
    then some mac_length
    else if is_odd_byte hw
    then some multicast_mac
    else if any is_nonzero hw
    then none
    else some zero_mac

-- A byte with its lowest bit cleared, and with the next one set too.
abbrev pub unicast : ℕ → ℕ
unicast b = (b / 2) * 2

abbrev pub local_unicast : ℕ → ℕ
local_unicast b = (b / 4) * 4 + 2

abbrev pub on_first : (ℕ → ℕ) → List ℕ → List ℕ
on_first f [] = []
on_first f (b ∷ bs) = f b ∷ bs

abbrev after_three : List ℕ → List ℕ
after_three (a ∷ b ∷ c ∷ rest) = rest
after_three _ = []

-- "mockvision-mac:"
abbrev pub mac_salt : Text
mac_salt = 109 ∷ 111 ∷ 99 ∷ 107 ∷ 118 ∷ 105 ∷ 115 ∷ 105 ∷ 111 ∷ 110 ∷ 45 ∷ 109 ∷ 97 ∷ 99 ∷ 58 ∷ []

-- `DeriveMAC`
unfoldable pub derive_mac : (Text → List ℕ) → Text → List ℕ → List ℕ
derive_mac sha256 id oui =
    let mac = take 6 (sha256 (mac_salt ++ id)) in
    if nat_beq (length oui) 3
    then on_first unicast (oui ++ after_three mac)
    else on_first local_unicast mac
