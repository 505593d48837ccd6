-- ===== src/Linux/Process.antt =====
-- os/linux/linux_sigar.c: the times, the state, the memory and the owner of a process.
use re_co_mon_b.Base.{
  ℕ, ◌+◌, ◌-◌, ◌/◌, ◌%◌, ◌^◌, Bool, ◌∷◌, Option, none, some, Bytes, codes, ltb, ◌==◌, if◌then◌else◌,
}
use re_co_mon_b.Linux.{u32, u64, System, ProcStat, Outcome, strtoull, pageshift, proc_stat_read}
use re_co_mon_b.Ptql.Host.{Reply, got, failed}
use re_co_mon_b.Sigar.NetInfo.{find_text}
use re_co_mon_b.Sigar.ProcCpu.{ProcTime}
use re_co_mon_b.Util.Text.{skip_token}

-- What a reader gives for what `proc_stat_read` left, with the record of the last process.
abbrev pub answer : {A : Type 0} → Outcome → (ProcStat → A) → Option (ProcStat × Reply A)
answer none f = none
answer (some (pstat, status)) f = some (pstat, if status == 0 then got (f pstat) else failed status)

abbrev pub times_of : ProcStat → ProcTime
times_of pstat = record {
  start_time = pstat.start_time;
  user = pstat.utime;
  sys = pstat.stime;
  total = (pstat.utime + pstat.stime) % u64;
}

unfoldable pub proc_time_get :
    System → ProcStat → ℕ → ℕ → Reply Bytes → Option (ProcStat × Reply ProcTime)
unfolding proc_stat_read
proc_time_get sys last pid timenow text = answer (proc_stat_read sys last pid timenow text) times_of

-- `sigar_proc_state_t`
pub record ProcState : Type 0 where
  pub name : Bytes
  pub state : ℕ
  pub ppid : ℕ
  pub tty : ℕ
  pub priority : ℕ
  pub nice : ℕ
  pub processor : ℕ
  pub threads : ℕ

abbrev threads_at : ℕ → Option Bytes → ℕ
unfolding strtoull skip_token
threads_at notimpl none = notimpl
threads_at notimpl (some ptr) = (strtoull (skip_token ptr)).0

-- `proc_status_get`, from the text of /proc/<pid>/status; the caller drops its status, and the
-- number of threads that the caller passed stays where it fails.
unfoldable pub proc_status_get : ℕ → ℕ → Reply Bytes → ℕ
unfolding find_text threads_at
proc_status_get notimpl threads (failed status) = threads
proc_status_get notimpl threads (got buffer) =
    threads_at notimpl (find_text (10 ∷ codes "Threads:") buffer)

-- The quotient of an `int` and a positive one, towards zero.
abbrev pub int_div : ℕ → ℕ → ℕ
int_div x d = if ltb x (2 ^ 31) then x / d else (u32 - (u32 - x) / d) % u32

-- `sigar_cpu_core_rollup(sigar)` with `sigar->lcpu`, which is positive, and SIGAR_FIELD_NOTIMPL.
pub record Cores : Type 0 where
  pub core_rollup : Bool
  pub lcpu : ℕ
  pub notimpl : ℕ

abbrev pub state_of : Cores → Reply Bytes → ℕ → ProcStat → ProcState
unfolding proc_status_get
state_of cores status threads pstat = record {
  name = pstat.name;
  state = pstat.state;
  ppid = pstat.ppid;
  tty = pstat.tty;
  priority = pstat.priority;
  nice = pstat.nice;
  processor = if cores.core_rollup then int_div pstat.processor cores.lcpu else pstat.processor;
  threads = proc_status_get cores.notimpl threads status;
}

-- `sigar_proc_state_get`, where `status` is the text of /proc/<pid>/status, and `threads` stands in
-- the caller's structure.
unfoldable pub proc_state_get :
    System
    → Cores
    → ProcStat
    → ℕ
    → ℕ
    → Reply Bytes
    → Reply Bytes
    → ℕ
    → Option (ProcStat × Reply ProcState)
unfolding proc_stat_read
proc_state_get sys cores last pid timenow text status threads =
    answer (proc_stat_read sys last pid timenow text) (state_of cores status threads)

-- `sigar_proc_mem_t`
pub record ProcMem : Type 0 where
  pub size : ℕ
  pub resident : ℕ
  pub share : ℕ
  pub minor_faults : ℕ
  pub major_faults : ℕ
  pub page_faults : ℕ

unfoldable pub read_statm : System → ProcStat → Reply Bytes → Reply ProcMem
unfolding strtoull
read_statm sys pstat (failed status) = failed status
read_statm sys pstat (got ptr) =
    let (size, ptr) = strtoull ptr in
    let (resident, ptr) = strtoull ptr in
    let (share, ptr) = strtoull ptr in
    got (record {
      size = pageshift sys size;
      resident = pageshift sys resident;
      share = pageshift sys share;
      minor_faults = pstat.minor_faults;
      major_faults = pstat.major_faults;
      page_faults = (pstat.minor_faults + pstat.major_faults) % u64;
    })

-- `sigar_proc_mem_get`, which drops the status of `proc_stat_read`; where it fails, what it has
-- written of the caller's structure is left out.
unfoldable pub proc_mem_get :
    System → ProcStat → ℕ → ℕ → Reply Bytes → Reply Bytes → Option (ProcStat × Reply ProcMem)
unfolding proc_stat_read read_statm
proc_mem_get sys last pid timenow text statm = elim (proc_stat_read sys last pid timenow text) [
  | none ↦ none
  | some (pstat, status) ↦ some (pstat, read_statm sys pstat statm)
]

-- `sigar_proc_cred_t`; an id has 32 bits.
pub record ProcCred : Type 0 where
  pub uid : ℕ
  pub gid : ℕ
  pub euid : ℕ
  pub egid : ℕ

unfoldable pub read_gid : ℕ → ℕ → ℕ → Option Bytes → Reply ProcCred
unfolding strtoull skip_token
read_gid enoent uid euid none = failed enoent
read_gid enoent uid euid (some ptr) =
    let (gid, ptr) = strtoull (skip_token ptr) in
    let (egid, ptr) = strtoull ptr in
    got (record { uid = uid; gid = gid % u32; euid = euid; egid = egid % u32 })

unfoldable pub read_uid : ℕ → Option Bytes → Reply ProcCred
unfolding strtoull skip_token find_text read_gid
read_uid enoent none = failed enoent
read_uid enoent (some ptr) =
    let (uid, ptr) = strtoull (skip_token ptr) in
    let (euid, ptr) = strtoull ptr in
    read_gid enoent (uid % u32) (euid % u32) (find_text (10 ∷ codes "Gid:") ptr)

-- `sigar_proc_cred_get`, from the text of /proc/<pid>/status.
unfoldable pub proc_cred_get : ℕ → Reply Bytes → Reply ProcCred
unfolding find_text read_uid
proc_cred_get enoent (failed status) = failed status
proc_cred_get enoent (got buffer) = read_uid enoent (find_text (10 ∷ codes "Uid:") buffer)
