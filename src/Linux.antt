-- ===== src/Linux.antt =====
-- os/linux/linux_sigar.c: the reading of /proc/<pid>/stat, with the record of the last process that
-- `sigar_t` keeps. The readers of a process are in Process.
pub mod Process
pub mod Cpu
pub mod FsType
pub mod Names
pub mod Run
pub mod Env
pub mod Modules
pub mod Vendor
pub mod Memory
pub mod Fields
pub mod Row
pub mod Counters
pub mod Net
pub mod Disk
pub mod CpuInfo
pub mod Stale
use re_co_mon_b.Base.{
  ℕ, ◌+◌, ◌-◌, ◌*◌, ◌/◌, ◌%◌, ◌^◌, Bool, ◌&&◌, [], ◌∷◌, Option, none, some, Bytes, ltb, leb, ◌==◌,
  if◌then◌else◌, length, take,
}
use re_co_mon_b.Libc.Number.{scan_number, wrap, range_unsigned}
use re_co_mon_b.Libc.{prepend, split_at}
use re_co_mon_b.Ptql.Host.{Reply, got, failed}
use re_co_mon_b.Util.Text.{skip_spaces, skip_token, skip_multiple_token}

abbrev pub u32 : ℕ
u32 = 2 ^ 32

abbrev pub u64 : ℕ
u64 = 2 ^ 64

-- Constants of headers and of the system: SIGAR_PROC_NAME_LEN, SIGAR_LAST_PROC_EXPIRE, EINVAL,
-- SIGAR_TICK2MSEC, and `ticks`, `boot_time` and `pagesize` of `sigar_t`.
pub record System : Type 0 where
  pub name_len : ℕ
  pub expire : ℕ
  pub einval : ℕ
  pub tick2msec : ℕ → ℕ
  pub ticks : ℕ
  pub boot_time : ℕ
  pub pagesize : ℕ

-- `linux_proc_stat_t`; an `int` is in two's complement.
pub record ProcStat : Type 0 where
  pub pid : ℕ
  pub mtime : ℕ
  pub vsize : ℕ
  pub rss : ℕ
  pub minor_faults : ℕ
  pub major_faults : ℕ
  pub ppid : ℕ
  pub tty : ℕ
  pub priority : ℕ
  pub nice : ℕ
  pub start_time : ℕ
  pub utime : ℕ
  pub stime : ℕ
  pub name : Bytes
  pub state : ℕ
  pub processor : ℕ

-- `sigar_strtoul(ptr)` and `sigar_strtoull(ptr)`, which move `ptr` behind the digits, if any.
unfoldable pub strtoull : Bytes → ℕ × Bytes
unfolding scan_number
strtoull ptr =
    let r = scan_number ptr in
    (
      if range_unsigned r then 2 ^ 64 - 1 else wrap 64 r.negative r.magnitude,
      if r.found then r.rest else ptr,
    )

abbrev pub or_here : Bool → Bytes → Option (Bytes × Bytes) → Option (Bytes × Bytes)
or_here here s (some found) = some found
or_here here s none = if here then some ([], s) else none

-- `strrchr(s, c)`: what stands before and after.
unfoldable pub split_last : ℕ → Bytes → Option (Bytes × Bytes)
split_last c [] = none
split_last c (x ∷ s) = or_here (x == c) s (prepend x (split_last c s))

-- `pageshift(x)`
abbrev pub pageshift : System → ℕ → ℕ
pageshift sys x = x * 2 ^ sys.pagesize % u64

-- `memcpy(pstat->name, ptr, len)` with the length cut.
abbrev pub cut_name : System → Bytes → Bytes
cut_name sys name =
    take (if leb sys.name_len (length name) then sys.name_len - 1 else length name) name

-- The fields (22) to (39), the ones behind (21).
unfoldable pub read_memory : System → ProcStat → Bytes → ProcStat
read_memory sys pstat ptr =
    let (start, ptr) = strtoull ptr in
    let (vsize, ptr) = strtoull ptr in
    let (rss, ptr) = strtoull ptr in
    let (processor, ptr) = strtoull (skip_multiple_token ptr 14) in
    record pstat {
      start_time = (start / sys.ticks + sys.boot_time) * 1000 % u64;
      vsize = vsize;
      rss = pageshift sys rss;
      processor = processor % u32;
    }

-- The fields (12) to (21).
unfoldable pub read_times : System → ProcStat → Bytes → ProcStat
read_times sys pstat ptr =
    let (major_faults, ptr) = strtoull ptr in
    let (utime, ptr) = strtoull (skip_token ptr) in
    let (stime, ptr) = strtoull ptr in
    let (priority, ptr) = strtoull (skip_multiple_token ptr 2) in
    let (nice, ptr) = strtoull ptr in
    read_memory sys
      (record pstat {
        major_faults = major_faults;
        utime = sys.tick2msec utime;
        stime = sys.tick2msec stime;
        priority = priority % u32;
        nice = nice % u32;
      })
      (skip_multiple_token ptr 2)

-- The fields (4) to (11).
unfoldable pub read_fields : System → ProcStat → Bytes → ProcStat
read_fields sys pstat ptr =
    let (ppid, ptr) = strtoull ptr in
    let (tty, ptr) = strtoull (skip_multiple_token ptr 2) in
    let (minor_faults, ptr) = strtoull (skip_multiple_token ptr 2) in
    read_times sys (record pstat { ppid = ppid; tty = tty % u32; minor_faults = minor_faults })
      (skip_token ptr)

-- What reading the text does: the record and the status, or none where `*ptr++` steps over the
-- text's terminating zero and the code goes on in the bytes behind it.
abbrev pub Outcome : Type 0
Outcome = Option (ProcStat × ℕ)

-- The field (3), and the rest.
unfoldable pub read_state : System → ProcStat → Bytes → Outcome
unfolding skip_spaces read_fields
read_state sys pstat [] = none
read_state sys pstat (c ∷ ptr) =
    some (read_fields sys (record pstat { state = c }) (skip_spaces ptr), 0)

abbrev pub read_named : System → ProcStat → Option (Bytes × Bytes) → Outcome
unfolding read_state skip_spaces
read_named sys pstat none = some (pstat, sys.einval)
read_named sys pstat (some (name, ptr)) =
    read_state sys (record pstat { name = cut_name sys name }) (skip_spaces ptr)

abbrev pub read_behind : System → ProcStat → Option (Bytes × Bytes) → Outcome
unfolding split_last read_named
read_behind sys pstat none = some (pstat, sys.einval)
read_behind sys pstat (some (before, ptr)) = read_named sys pstat (split_last b')' ptr)

-- The text of the file, or the status of reading it.
unfoldable pub read_text : System → ProcStat → Reply Bytes → Outcome
unfolding split_at read_behind
read_text sys pstat (failed status) = some (pstat, status)
read_text sys pstat (got buffer) = read_behind sys pstat (split_at b'(' buffer)

-- Whether the record is used as it is.
abbrev pub is_fresh : System → ProcStat → ℕ → ℕ → Bool
is_fresh sys last pid timenow = (last.pid == pid) && ltb timenow (last.mtime + sys.expire)

-- `proc_stat_read` at the time `timenow`, where `text` is what reading the file would give.
unfoldable pub proc_stat_read : System → ProcStat → ℕ → ℕ → Reply Bytes → Outcome
unfolding read_text read_fields read_times read_memory strtoull skip_token skip_multiple_token
proc_stat_read sys last pid timenow text =
    let read = read_text sys (record last { pid = pid; mtime = timenow }) text in
    if is_fresh sys last pid timenow then some (last, 0) else read
