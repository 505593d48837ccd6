-- ===== src/Util/Usage.antt =====
-- sigar_util.c: the shares of memory and of file systems that are in use.
pub mod Percent
use re_co_mon_b.Base.{ℕ, ◌+◌, ◌-◌, ◌*◌, ◌/◌, ◌%◌, ◌^◌, Option, none, some, ltb, ◌==◌, if◌then◌else◌}
use re_co_mon_b.Libc.Double.{Doubles}

abbrev pub u64 : ℕ
u64 = 2 ^ 64

-- The members of `sigar_mem_t` that `sigar_mem_calc_ram` reads, and those that it sets.
pub record Mem : Type 0 where
  pub total : ℕ
  pub actual_free : ℕ
  pub actual_used : ℕ

pub record MemCalc (D : Type 0) : Type 0 where
  pub ram : ℕ
  pub used_percent : D
  pub free_percent : D

-- The megabytes as an `int`, in two's complement, rounded up to a multiple of 8.
unfoldable pub round_ram : ℕ → ℕ
round_ram total =
    let ram = total / (1024 * 1024) % 2 ^ 32 in
    if ltb ram (2 ^ 31)
    then if ltb 0 (ram % 8) then (ram + (8 - ram % 8)) % 2 ^ 32 else ram
    else ram

-- A negative `int` stored in an unsigned 64-bit number.
abbrev pub extend : ℕ → ℕ
extend ram = if ltb ram (2 ^ 31) then ram else ram + (u64 - 2 ^ 32)

module _ (d : Doubles) where
  unfoldable pub percent_of : ℕ → ℕ → d.Double
  percent_of total part =
      d.div (d.of_i64 ((total + u64 - part / 1024) % u64 * 100 % u64)) (d.of_i64 total)

  -- `sigar_mem_calc_ram`: the result and the members set.
  unfoldable pub mem_calc_ram : Mem → ℕ × MemCalc d.Double
  unfolding round_ram percent_of
  mem_calc_ram mem = (
    round_ram mem.total,
    record {
      ram = extend (round_ram mem.total);
      used_percent = percent_of (mem.total / 1024) mem.actual_free;
      free_percent = percent_of (mem.total / 1024) mem.actual_used;
    },
  )

-- `sigar_file_system_usage_t`, as far as it is read.
pub record FileSystemUsage : Type 0 where
  pub total : ℕ
  pub free : ℕ
  pub avail : ℕ

-- `b_used`, in kilobytes.
abbrev pub used_kb : FileSystemUsage → ℕ
used_kb fs = (fs.total + u64 - fs.free) % u64 / 1024

-- `utotal`.
abbrev pub total_kb : FileSystemUsage → ℕ
total_kb fs = (used_kb fs + fs.avail / 1024) % u64

-- The percentage as a whole number.
unfoldable pub usage_percent : FileSystemUsage → Option ℕ
usage_percent fs =
    let utotal = total_kb fs in
    let u100 = used_kb fs * 100 % u64 in
    if utotal == 0 then none else some (u100 / utotal + (if u100 % utotal == 0 then 0 else 1))

-- `sigar_file_system_usage_calc_used`.
unfoldable pub file_system_usage_calc_used : (d : Doubles) → FileSystemUsage → d.Double
unfolding usage_percent
file_system_usage_calc_used d fs = elim (usage_percent fs) [
  | none ↦ d.zero_dbl
  | some pct ↦ d.div (d.of_u64 pct) (d.of_u64 100)
]
