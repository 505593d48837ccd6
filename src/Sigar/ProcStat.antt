-- ===== src/Sigar/ProcStat.antt =====
-- sigar.c: `sigar_proc_stat_get`, the processes counted by their states.
pub mod Counts
use re_co_mon_b.Base.{ℕ, ◌+◌, ◌%◌, ◌^◌, List, [], ◌∷◌, ◌==◌, if◌then◌else◌, length}
use re_co_mon_b.Ptql.Host.{Reply, got, failed}

-- `sigar_proc_state_t`, as far as it is read.
pub record ProcState : Type 0 where
  pub state : ℕ
  pub threads : ℕ

-- The header's numbers: SIGAR_FIELD_NOTIMPL and SIGAR_PROC_STATE_*.
pub record StateCodes : Type 0 where
  pub notimpl : ℕ
  pub idle : ℕ
  pub run : ℕ
  pub sleep : ℕ
  pub stop : ℕ
  pub zombie : ℕ

-- `sigar_proc_stat_t`; the members have 64 bits.
pub record ProcStat : Type 0 where
  pub total : ℕ
  pub sleeping : ℕ
  pub running : ℕ
  pub zombie : ℕ
  pub stopped : ℕ
  pub idle : ℕ
  pub threads : ℕ

abbrev pub u64 : ℕ
u64 = 2 ^ 64

abbrev pub add_threads : StateCodes → ProcState → ProcStat → ProcStat
add_threads k p s =
    if p.threads == k.notimpl then s else record s { threads = (s.threads + p.threads) % u64 }

-- The `switch`.
abbrev pub add_state : StateCodes → ℕ → ProcStat → ProcStat
add_state k c s =
    if c == k.idle
    then record s { idle = (s.idle + 1) % u64 }
    else if c == k.run
    then record s { running = (s.running + 1) % u64 }
    else if c == k.sleep
    then record s { sleeping = (s.sleeping + 1) % u64 }
    else if c == k.stop
    then record s { stopped = (s.stopped + 1) % u64 }
    else if c == k.zombie
    then record s { zombie = (s.zombie + 1) % u64 }
    else s

-- A round of the loop, by what `sigar_proc_state_get` answers.
unfoldable pub add_process : StateCodes → Reply ProcState → ProcStat → ProcStat
add_process k (failed status) s = s
add_process k (got p) s = add_state k p.state (add_threads k p s)

unfoldable pub count_processes : StateCodes → (ℕ → Reply ProcState) → List ℕ → ProcStat → ProcStat
unfolding add_process
count_processes k state_get [] s = s
count_processes k state_get (pid ∷ pids) s =
    count_processes k state_get pids (add_process k (state_get pid) s)

-- The structure when the loop starts; `pids->number` is the length of the list.
abbrev pub started : StateCodes → ℕ → ProcStat
started k total = record {
  total = total;
  sleeping = 0;
  running = 0;
  zombie = 0;
  stopped = 0;
  idle = 0;
  threads = k.notimpl;
}

-- `sigar_proc_stat_get`, from the answers of `sigar_proc_list_get` and `sigar_proc_state_get`:
-- the status and the counts.
unfoldable pub proc_stat_get : StateCodes → Reply (List ℕ) → (ℕ → Reply ProcState) → ℕ × ProcStat
unfolding count_processes
proc_stat_get k (failed status) state_get = (status, started k 0)
proc_stat_get k (got pids) state_get =
    (0, count_processes k state_get pids (started k (length pids)))
