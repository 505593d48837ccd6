-- ===== src/Sigar/ProcCpu.antt =====
-- sigar.c: `sigar_proc_cpu_get`, the share of a CPU that a process has used since the last call
-- for it, which a cache remembers.
pub mod Samples
pub mod Rate
use re_co_mon_b.Base.{
  ℕ, ◌+◌, ◌-◌, ◌%◌, ◌^◌, Bool, List, [], ◌∷◌, Option, none, some, ltb, ◌==◌, if◌then◌else◌,
}
use re_co_mon_b.Cache.{Table, Entry, new, get, store}
use re_co_mon_b.Libc.Double.{Doubles}
use re_co_mon_b.Ptql.Host.{Reply, got, failed}

abbrev pub u64 : ℕ
u64 = 2 ^ 64

-- `sigar_proc_time_t`
pub record ProcTime : Type 0 where
  pub start_time : ℕ
  pub user : ℕ
  pub sys : ℕ
  pub total : ℕ

-- `sigar_proc_cpu_t`, which begins as a `sigar_proc_time_t` does.
pub record ProcCpu (D : Type 0) : Type 0 where
  pub start_time : ℕ
  pub user : ℕ
  pub sys : ℕ
  pub total : ℕ
  pub last_time : ℕ
  pub percent : D

-- What a call leaves: `sigar->proc_cpu`, the status, and the caller's structure.
pub record Answer (D : Type 0) : Type 0 where
  pub cache : Table (ProcCpu D)
  pub status : ℕ
  pub proccpu : ProcCpu D

-- `if (!sigar->proc_cpu) sigar->proc_cpu = sigar_cache_new(128)`.
abbrev pub opened {ℓ} : {V : Type ℓ} → Option (Table V) → Table V
opened none = new 128
opened (some t) = t

-- What a successful `sigar_proc_time_get` writes through the cast pointer.
abbrev pub filled : {D : Type 0} → ProcTime → ProcCpu D → ProcCpu D
filled t cpu = record cpu { start_time = t.start_time; user = t.user; sys = t.sys; total = t.total }

module _ (d : Doubles) where
  -- `prev`, zeroed where there was none.
  abbrev pub prev_of : Option (ProcCpu d.Double) → ProcCpu d.Double
  prev_of none = record {
    start_time = 0;
    user = 0;
    sys = 0;
    total = 0;
    last_time = 0;
    percent = d.zero_dbl;
  }
  prev_of (some prev) = prev

  -- The share, from the total before, the total now and the milliseconds between.
  unfoldable pub cpu_percent : ℕ → ℕ → ℕ → d.Double
  cpu_percent before total time_diff =
      let otime = if ltb total before then 0 else before in
      if otime == 0
      then d.zero_dbl
      else d.div (d.of_u64 ((total + u64 - otime) % u64)) (d.of_u64 time_diff)

  -- The rest of a call from `sigar_proc_time_get` on, which writes nothing where it fails.
  unfoldable pub sample :
      Table (ProcCpu d.Double) → ℕ → ℕ → ℕ → ProcCpu d.Double → Reply ProcTime → Answer d.Double
  unfolding store cpu_percent
  sample t pid otime time_diff cpu (failed status) = record {
    cache = t;
    status = status;
    proccpu = cpu;
  }
  sample t pid otime time_diff cpu (got times) =
      let now = filled times cpu in
      record {
        cache = store t pid now;
        status = 0;
        proccpu = record now { percent = cpu_percent otime times.total time_diff };
      }

  -- The call at the time `time_now`, where `times` is what `sigar_proc_time_get` would answer.
  unfoldable pub proc_cpu_get :
      Option (Table (ProcCpu d.Double))
      → ℕ
      → ℕ
      → Reply ProcTime
      → ProcCpu d.Double
      → Answer d.Double
  unfolding get store sample
  proc_cpu_get cache pid time_now times proccpu =
      let (t, entry) = get (opened cache) pid in
      let prev = prev_of entry.value in
      let time_diff = (time_now + u64 - prev.last_time) % u64 in
      let touched = store t pid (record prev { last_time = time_now }) in
      if time_diff == 0
      then record { cache = touched; status = 0; proccpu = record prev { last_time = time_now } }
      else sample touched pid prev.total time_diff (record proccpu { last_time = time_now }) times
