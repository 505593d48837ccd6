-- ===== src/Util/Cores.antt =====
-- sigar_util.c: how many logical processors a socket has, and whether they are rolled up, as it is
-- built where there is the instruction CPUID.
pub mod Once
use re_co_mon_b.Base.{
  ℕ, ◌/◌, ◌%◌, ◌^◌, Bool, true, false, ◌&&◌, ◌||◌, not, Option, none, some, ltb, ◌==◌,
  if◌then◌else◌,
}
use re_co_mon_b.Base.Bits.{test_bit}

-- The registers that CPUID fills.
pub record Cpuid : Type 0 where
  pub ebx : ℕ
  pub edx : ℕ

-- The members of `sigar_t`: `lcpu`, none being -1, `cpu_list_cores`, and whether the log is at
-- SIGAR_LOG_DEBUG.
pub record Settings : Type 0 where
  pub lcpu : Option ℕ
  pub cpu_list_cores : Bool
  pub is_debug : Bool

abbrev pub intel_id : ℕ
intel_id = 1970169159

abbrev pub amd_id : ℕ
amd_id = 1752462657

abbrev pub cores_of : (ℕ → Cpuid) → ℕ
unfolding test_bit
cores_of cpuid =
    let vendor = (cpuid 0).ebx in
    if (vendor == intel_id || vendor == amd_id) && test_bit 28 (cpuid 1).edx
    then (cpuid 1).ebx / 2 ^ 16 % 2 ^ 8
    else 1

-- `sigar_cpu_core_count`: what `lcpu` is afterwards, which is returned.
unfoldable pub cpu_core_count : (ℕ → Cpuid) → Option ℕ → ℕ
unfolding cores_of
cpu_core_count cpuid none = cores_of cpuid
cpu_core_count cpuid (some lcpu) = lcpu

abbrev pub is_unset : Option ℕ → Bool
is_unset none = true
is_unset (some lcpu) = false

-- `sigar_cpu_core_rollup`: the settings afterwards, and the answer.
unfoldable pub cpu_core_rollup : (ℕ → Cpuid) → Settings → Settings × Bool
unfolding cpu_core_count
cpu_core_rollup cpuid s =
    let log_rollup = s.is_debug && is_unset s.lcpu in
    let lcpu = cpu_core_count cpuid s.lcpu in
    (record s { lcpu = some lcpu }, if s.cpu_list_cores then false else log_rollup && ltb 1 lcpu)
