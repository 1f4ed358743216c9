-- ===== src/Domain/Admission.antt =====
-- domain/admission.go: the policies that are checked before a camera is created or started. Percents
-- are counted in millionths and without rounding; sizes are uint64 and wrap around.
use mock_vision.Prelude.{
  ℕ, ◌+◌, ◌*◌, ◌/◌, ◌%◌, ◌^◌, ◌≡◌, ◌≤◌, ◌<◌, refl, Bool, false, ◌&&◌, Option, none, some, arith,
  ltb, leb, max, if◌then◌else◌, zero, suc,
}

-- A limit of 0 is none.
pub record AdmissionLimits : Type 0 where
  pub max_cameras : ℕ
  pub max_ram_percent : ℕ
  pub max_cpu_percent : ℕ

abbrev percent : ℕ
percent = 1_000_000

-- `DefaultAdmissionLimits`
abbrev pub default_admission_limits : AdmissionLimits
default_admission_limits = record {
  max_cameras = 100;
  max_ram_percent = 85 * percent;
  max_cpu_percent = 80 * percent;
}

pub record NodeUsage : Type 0 where
  pub cameras : ℕ
  pub mem_total : ℕ
  pub mem_used : ℕ
  pub cpu_percent : ℕ
  pub cpu_count : ℕ

-- `cpu_percent` is of one core.
pub record CameraCost : Type 0 where
  pub ram : ℕ
  pub cpu_percent : ℕ

pub data Rejection : Type 0 where
  reject_max_cameras reject_ram reject_cpu : Rejection

-- The memory that is used with one camera more.
abbrev pub projected_ram : NodeUsage → CameraCost → ℕ
projected_ram u c = (u.mem_used + c.ram) % 2 ^ 64

abbrev cores : NodeUsage → ℕ
cores u = max u.cpu_count 1

abbrev over_ram : AdmissionLimits → NodeUsage → CameraCost → Bool
over_ram l u c =
    ltb 0 u.mem_total
    && ltb 0 l.max_ram_percent
    && ltb (l.max_ram_percent * u.mem_total) (projected_ram u c * 100 * percent)

abbrev over_cpu : AdmissionLimits → NodeUsage → CameraCost → Bool
over_cpu l u c =
    ltb 0 l.max_cpu_percent
    && ltb (l.max_cpu_percent * cores u) (u.cpu_percent * cores u + c.cpu_percent)

unfoldable pub admit_start : AdmissionLimits → NodeUsage → CameraCost → Option Rejection
admit_start l u c =
    if over_ram l u c then some reject_ram else if over_cpu l u c then some reject_cpu else none

unfoldable pub admit_create : AdmissionLimits → NodeUsage → CameraCost → Option Rejection
unfolding admit_start
admit_create l u c =
    if ltb 0 l.max_cameras && leb l.max_cameras u.cameras
    then some reject_max_cameras
    else admit_start l u c

-- Where all three limits are set, a camera that may be created leaves at most `max_cameras` of them,
-- and the memory and the processors within their percents.
pub admit_create-within :
    (l : AdmissionLimits) (u : NodeUsage) (c : CameraCost)
    → admit_create l u c ≡ none
    → 1 ≤ l.max_cameras
    → 1 ≤ l.max_ram_percent
    → 1 ≤ l.max_cpu_percent
    → 1 ≤ u.mem_total
    → (u.cameras + 1 ≤ l.max_cameras)
      × (projected_ram u c * 100 * percent ≤ l.max_ram_percent * u.mem_total)
      × (u.cpu_percent * cores u + c.cpu_percent ≤ l.max_cpu_percent * cores u)
unfolding admit_create admit_start
admit_create-within l u c h m r p t = ground (arith, h, m, r, p, t)

abbrev unit : ℕ
unit = 1024

-- The loop of `HumanBytes`: the power of the unit, from `m` units of the power `n`. A uint64 has at
-- most six of them.
unfoldable pub unit_power : ℕ → ℕ → ℕ → ℕ
unit_power zero m n = n
unit_power (suc fuel) m n =
    let next = unit_power fuel (m / unit) (n + 1) in if leb unit m then next else n

-- `none` for bytes, else the power of the unit above 1024: 0 for KiB.
unfoldable pub human_unit : ℕ → Option ℕ
unfolding unit_power
human_unit n = if ltb n unit then none else some (unit_power 6 (n / unit) 0)

-- 1024 to the power after `j`.
abbrev cap : ℕ → ℕ
cap zero = unit
cap (suc j) = unit * cap j

unit_power-bound : (j fuel m n : ℕ) → m < cap j → unit_power fuel m n ≤ n + j
unfolding unit_power
unit_power-bound j zero m n h = omega arith
unit_power-bound zero (suc fuel) m n h =
    let b : leb unit m ≡ false = ground (arith, h) in rw b (omega arith)
unit_power-bound (suc j) (suc fuel) m n h =
    let rest = unit_power-bound j fuel (m / unit) (n + 1) (omega (arith, h)) in ground (arith, rest)

-- More rounds than the size has powers of the unit change nothing.
pub unit_power-enough :
    (j f g m n : ℕ) → m < cap j → j < f → j < g → unit_power f m n ≡ unit_power g m n
unfolding unit_power
unit_power-enough j zero g m n h k l = absurd (omega (arith, k))
unit_power-enough j (suc f) zero m n h k l = absurd (omega (arith, l))
unit_power-enough zero (suc f) (suc g) m n h k l =
    let b : leb unit m ≡ false = ground (arith, h) in rw b refl
unit_power-enough (suc j) (suc f) (suc g) m n h k l =
    let rest =
      unit_power-enough j f g (m / unit) (n + 1) (omega (arith, h)) (omega (arith, k))
        (omega (arith, l)) in
    rw rest refl

-- The letter of the unit of a uint64 is one of the six of "KMGTPE".
pub human_unit-letter : (n k : ℕ) → n < 2 ^ 64 → human_unit n ≡ some k → k < 6
unfolding human_unit
human_unit-letter n k l h =
    let b = unit_power-bound 5 6 (n / unit) 0 (omega (arith, l)) in ground (arith, h, b)
