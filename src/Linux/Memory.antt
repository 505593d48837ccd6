-- ===== src/Linux/Memory.antt =====
-- os/linux/linux_sigar.c: memory and swap, from the texts of /proc.
pub mod Ram
use re_co_mon_b.Base.{
  ℕ, ◌+◌, ◌-◌, ◌*◌, ◌/◌, ◌%◌, ◌^◌, ◌&&◌, List, [], ◌∷◌, Option, none, some, Bytes, codes, ltb, ◌==◌,
  if◌then◌else◌, length, drop,
}
use re_co_mon_b.Libc.Double.{Doubles}
use re_co_mon_b.Libc.Number.{atoi32}
use re_co_mon_b.Libc.Radix.{strtoull_base}
use re_co_mon_b.Libc.{contains}
use re_co_mon_b.Linux.{u32, u64, strtoull}
use re_co_mon_b.Ptql.Host.{Reply, got, failed}
use re_co_mon_b.Sigar.NetInfo.{find_text}
use re_co_mon_b.Util.Text.{skip_spaces, skip_token}
use re_co_mon_b.Util.Usage.{MemCalc, mem_calc_ram}

-- `while (*tok == ' ') ++tok`
unfoldable pub skip_blanks : Bytes → Bytes
skip_blanks [] = []
skip_blanks (c ∷ tok) = if c == b' ' then skip_blanks tok else c ∷ tok

abbrev pub in_unit : ℕ → Bytes → ℕ
in_unit val [] = val
in_unit val (c ∷ tok) =
    if c == b'k' then val * 1024 % u64 else if c == b'M' then val * (1024 * 1024) % u64 else val

abbrev pub amount_at : ℕ → Option Bytes → ℕ
unfolding strtoull_base skip_blanks
amount_at len none = 0
amount_at len (some ptr) =
    let (val, tok) = strtoull_base 0 (drop len ptr) in in_unit val (skip_blanks tok)

-- `sigar_meminfo`, for an attribute with its colon.
unfoldable pub meminfo : Bytes → Bytes → ℕ
unfolding find_text amount_at
meminfo buffer attr = amount_at (length attr) (find_text attr buffer)

-- A name at the start of a line.
abbrev pub on_line : Bytes → Bytes
on_line name = 10 ∷ name

abbrev pub size_at : ℕ → Option Bytes → ℕ
unfolding contains skip_spaces atoi32
size_at total none = total
size_at total (some ptr) =
    if contains ptr (codes "write-back") 10
    then (total + atoi32 (skip_spaces (drop 5 ptr))) % u32
    else total

-- `total`, an `int` in two's complement, behind the lines of /proc/mtrr.
unfoldable pub mtrr_total : ℕ → List Bytes → ℕ
unfolding find_text size_at
mtrr_total total [] = total
mtrr_total total (line ∷ lines) = mtrr_total (size_at total (find_text (codes "size=") line)) lines

-- An `int` as an unsigned 64-bit number.
abbrev pub extend : ℕ → ℕ
extend n = if ltb n (2 ^ 31) then n else n + (u64 - u32)

-- What `get_ram` does with the sum: `sigar->ram` and `mem->ram`, or a status.
abbrev pub accept : ℕ → Option ℕ → ℕ → ℕ → Option ℕ × Reply ℕ
accept enoent ram sys_total total =
    if ltb 256 ((extend total + u64 - sys_total) % u64)
    then (ram, failed enoent)
    else if total == 0
    then (ram, failed enoent)
    else (some total, got (extend total))

unfoldable pub read_ram : ℕ → Option ℕ → ℕ → Reply (List Bytes) → Option ℕ × Reply ℕ
unfolding mtrr_total
read_ram enoent ram sys_total (failed errno) = (ram, failed errno)
read_ram enoent ram sys_total (got lines) = accept enoent ram sys_total (mtrr_total 0 lines)

-- `get_ram` with `sigar->ram`, none being -1, and `mem->total`.
unfoldable pub get_ram : ℕ → Option ℕ → ℕ → Reply (List Bytes) → Option ℕ × Reply ℕ
unfolding read_ram
get_ram enoent none total mtrr = read_ram enoent none (total / (1024 * 1024)) mtrr
get_ram enoent (some ram) total mtrr =
    if ltb 0 ram && ltb ram (2 ^ 31)
    then (some ram, got ram)
    else if ram == 0
    then (some ram, failed enoent)
    else read_ram enoent (some ram) (total / (1024 * 1024)) mtrr

-- `sigar_mem_t`
pub record Memory (D : Type 0) : Type 0 where
  pub total : ℕ
  pub free : ℕ
  pub used : ℕ
  pub actual_free : ℕ
  pub actual_used : ℕ
  pub calc : MemCalc D

abbrev pub with_ram : {D : Type 0} → Reply ℕ → MemCalc D → MemCalc D
with_ram (failed status) calc = calc
with_ram (got ram) calc = record calc { ram = ram }

module _ (d : Doubles) where
  -- The members, from the text of /proc/meminfo, before `get_ram`.
  unfoldable pub read_mem : Bytes → Memory d.Double
  unfolding meminfo mem_calc_ram
  read_mem buffer =
      let total = meminfo buffer (codes "MemTotal:") in
      let free = meminfo buffer (codes "MemFree:") in
      let used = (total + u64 - free) % u64 in
      let kern = (meminfo buffer (codes "Buffers:") + meminfo buffer (codes "Cached:")) % u64 in
      let actual_free = (free + kern) % u64 in
      let actual_used = (used + u64 - kern) % u64 in
      record {
        total = total;
        free = free;
        used = used;
        actual_free = actual_free;
        actual_used = actual_used;
        calc =
            (mem_calc_ram d
              (record { total = total; actual_free = actual_free; actual_used = actual_used })).1;
      }

  -- `sigar_mem_get`, with `sigar->ram`, from the texts of /proc/meminfo and /proc/mtrr.
  unfoldable pub mem_get :
      ℕ → Option ℕ → Reply Bytes → Reply (List Bytes) → Option ℕ × Reply (Memory d.Double)
  unfolding read_mem get_ram
  mem_get enoent ram (failed status) mtrr = (ram, failed status)
  mem_get enoent ram (got buffer) mtrr =
      let mem = read_mem buffer in
      let (kept, found) = get_ram enoent ram mem.total mtrr in
      (kept, got (record mem { calc = with_ram found mem.calc }))

-- `sigar_swap_t`
pub record Swap : Type 0 where
  pub total : ℕ
  pub free : ℕ
  pub used : ℕ
  pub page_in : ℕ
  pub page_out : ℕ

abbrev pub read_vmstat : Swap → Option Bytes → Swap
unfolding strtoull skip_token
read_vmstat swap none = swap
read_vmstat swap (some ptr) =
    let (page_in, after) = strtoull (skip_token ptr) in
    record swap { page_in = page_in; page_out = (strtoull (skip_token after)).0 }

abbrev pub read_stat : Swap → Option Bytes → Swap
unfolding strtoull skip_token
read_stat swap none = swap
read_stat swap (some ptr) =
    let (page_in, after) = strtoull (skip_token ptr) in
    record swap { page_in = page_in; page_out = (strtoull after).0 }

-- The pages, from /proc/vmstat, or from /proc/stat where the former cannot be read.
unfoldable pub read_pages : Swap → Reply Bytes → Reply Bytes → Reply Swap
unfolding find_text read_vmstat read_stat
read_pages swap (got buffer) stat =
    got (read_vmstat swap (find_text (on_line (codes "pswpin")) buffer))
read_pages swap (failed status) (failed errno) = failed errno
read_pages swap (failed status) (got buffer) =
    got (read_stat swap (find_text (on_line (codes "swap")) buffer))

-- `sigar_swap_get`, from the texts of /proc/meminfo, /proc/vmstat and /proc/stat.
unfoldable pub swap_get : Reply Bytes → Reply Bytes → Reply Bytes → Reply Swap
unfolding meminfo read_pages
swap_get (failed status) vmstat stat = failed status
swap_get (got buffer) vmstat stat =
    let total = meminfo buffer (codes "SwapTotal:") in
    let free = meminfo buffer (codes "SwapFree:") in
    read_pages
      (record {
        total = total;
        free = free;
        used = (total + u64 - free) % u64;
        page_in = u64 - 1;
        page_out = u64 - 1;
      })
      vmstat stat
