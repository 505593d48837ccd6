-- ===== src/Sigar/ProcStat/Counts.antt =====
-- sigar.c: what `sigar_proc_stat_get` counts.
use re_co_mon_b.Base.{
  ℕ, ◌+◌, ◌%◌, ◌<◌, ◌≡◌, ◌≢◌, ◌∙◌, refl, Bool, false, List, [], ◌∷◌, arith, ◌==◌, if◌then◌else◌,
  length, count_if,
}
use re_co_mon_b.Ptql.Host.{Reply, got, failed}
use re_co_mon_b.Sigar.ProcStat.{
  ProcState, StateCodes, ProcStat, u64, add_process, count_processes, started, proc_stat_get,
}

-- Whether a process can be asked and is in the state `c`.
abbrev pub in_state : ℕ → Reply ProcState → Bool
in_state c (failed status) = false
in_state c (got p) = p.state == c

-- The threads of a process, where they are known.
abbrev pub threads_of : StateCodes → Reply ProcState → ℕ
threads_of k (failed status) = 0
threads_of k (got p) = if p.threads == k.notimpl then 0 else p.threads

abbrev pub sum_of : (ℕ → ℕ) → List ℕ → ℕ
sum_of f [] = 0
sum_of f (pid ∷ pids) = f pid + sum_of f pids

-- The states of the header differ, as the labels of a `switch` do.
pub record AreLabels (k : StateCodes) : Type 0 where
  pub idle_run : k.idle ≢ k.run
  pub idle_sleep : k.idle ≢ k.sleep
  pub idle_stop : k.idle ≢ k.stop
  pub idle_zombie : k.idle ≢ k.zombie
  pub run_sleep : k.run ≢ k.sleep
  pub run_stop : k.run ≢ k.stop
  pub run_zombie : k.run ≢ k.zombie
  pub sleep_stop : k.sleep ≢ k.stop
  pub sleep_zombie : k.sleep ≢ k.zombie
  pub stop_zombie : k.stop ≢ k.zombie

-- Counts within 64 bits.
record Fits (s : ProcStat) : Type 0 where
  idle : s.idle < u64
  running : s.running < u64
  sleeping : s.sleeping < u64
  stopped : s.stopped < u64
  zombie : s.zombie < u64
  threads : s.threads < u64

-- The counts `r`, which are those of `s` with so many more.
pub record Adds (s r : ProcStat) (i u l t z n : ℕ) : Type 0 where
  pub total : r.total ≡ s.total
  pub idle : r.idle ≡ (s.idle + i) % u64
  pub running : r.running ≡ (s.running + u) % u64
  pub sleeping : r.sleeping ≡ (s.sleeping + l) % u64
  pub stopped : r.stopped ≡ (s.stopped + t) % u64
  pub zombie : r.zombie ≡ (s.zombie + z) % u64
  pub threads : r.threads ≡ (s.threads + n) % u64

abbrev one_if : Bool → ℕ
one_if b = if b then 1 else 0

add_process-Adds :
    (k : StateCodes) (p : Reply ProcState) (s : ProcStat)
    → AreLabels k
    → Fits s
    → Adds s
        (add_process k p s)
        (one_if (in_state k.idle p))
        (one_if (in_state k.run p))
        (one_if (in_state k.sleep p))
        (one_if (in_state k.stop p))
        (one_if (in_state k.zombie p))
        (threads_of k p)
unfolding add_process
add_process-Adds k (failed status) s labels fits = record {
  total = refl;
  idle = ground (arith, fits.idle);
  running = ground (arith, fits.running);
  sleeping = ground (arith, fits.sleeping);
  stopped = ground (arith, fits.stopped);
  zombie = ground (arith, fits.zombie);
  threads = ground (arith, fits.threads);
}
add_process-Adds k (got p) s labels fits = record {
  total = ground arith;
  idle = ground (arith, fits.idle, labels);
  running = ground (arith, fits.running, labels.idle_run);
  sleeping = ground (arith, fits.sleeping, labels.idle_sleep, labels.run_sleep);
  stopped = ground (arith, fits.stopped, labels.idle_stop, labels.run_stop, labels.sleep_stop);
  zombie = ground (
    arith, fits.zombie, labels.idle_zombie, labels.run_zombie, labels.sleep_zombie,
    labels.stop_zombie,
  );
  threads = ground (arith, fits.threads);
}

Adds-Fits : {s r : ProcStat} {i u l t z n : ℕ} → Adds s r i u l t z n → Fits r
Adds-Fits a = record {
  idle = omega (arith, a.idle);
  running = omega (arith, a.running);
  sleeping = omega (arith, a.sleeping);
  stopped = omega (arith, a.stopped);
  zombie = omega (arith, a.zombie);
  threads = omega (arith, a.threads);
}

-- How many processes of a list can be asked and are in the state `c`.
abbrev pub many_in : (ℕ → Reply ProcState) → ℕ → List ℕ → ℕ
many_in state_get c pids = count_if (λ pid. in_state c (state_get pid)) pids

count_processes-Adds :
    (k : StateCodes) (state_get : ℕ → Reply ProcState) (pids : List ℕ) (s : ProcStat)
    → AreLabels k
    → Fits s
    → Adds s
        (count_processes k state_get pids s)
        (many_in state_get k.idle pids)
        (many_in state_get k.run pids)
        (many_in state_get k.sleep pids)
        (many_in state_get k.stop pids)
        (many_in state_get k.zombie pids)
        (sum_of (λ pid. threads_of k (state_get pid)) pids)
unfolding count_processes
count_processes-Adds k state_get [] s labels fits = record {
  total = refl;
  idle = omega (arith, fits.idle);
  running = omega (arith, fits.running);
  sleeping = omega (arith, fits.sleeping);
  stopped = omega (arith, fits.stopped);
  zombie = omega (arith, fits.zombie);
  threads = omega (arith, fits.threads);
}
count_processes-Adds k state_get (pid ∷ pids) s labels fits =
    let one = add_process-Adds k (state_get pid) s labels fits in
    let rest =
      count_processes-Adds k state_get pids (add_process k (state_get pid) s) labels
        (Adds-Fits one) in
    record {
      total = rest.total ∙ one.total;
      idle = omega (arith, rest.idle, one.idle);
      running = omega (arith, rest.running, one.running);
      sleeping = omega (arith, rest.sleeping, one.sleeping);
      stopped = omega (arith, rest.stopped, one.stopped);
      zombie = omega (arith, rest.zombie, one.zombie);
      threads = omega (arith, rest.threads, one.threads);
    }

-- Where the processes can be listed, the total is their number, each count is in 64 bits the
-- number of those that can be asked and are in the state it is named for, and the threads are, in
-- 64 bits, SIGAR_FIELD_NOTIMPL and the known threads of those that can be asked, added up. The
-- states' numbers differ, and SIGAR_FIELD_NOTIMPL has 64 bits.
pub proc_stat_get-Counts :
    (k : StateCodes) (pids : List ℕ) (state_get : ℕ → Reply ProcState)
    → AreLabels k
    → k.notimpl < u64
    → let (status, s) = proc_stat_get k (got pids) state_get in
      (status ≡ 0)
      × (s.total ≡ length pids)
      × (s.idle ≡ many_in state_get k.idle pids % u64)
      × (s.running ≡ many_in state_get k.run pids % u64)
      × (s.sleeping ≡ many_in state_get k.sleep pids % u64)
      × (s.stopped ≡ many_in state_get k.stop pids % u64)
      × (s.zombie ≡ many_in state_get k.zombie pids % u64)
      × (s.threads ≡ (k.notimpl + sum_of (λ pid. threads_of k (state_get pid)) pids) % u64)
unfolding proc_stat_get
proc_stat_get-Counts k pids state_get labels h =
    let fits : Fits (started k (length pids)) = record {
      idle = omega arith;
      running = omega arith;
      sleeping = omega arith;
      stopped = omega arith;
      zombie = omega arith;
      threads = omega (arith, h);
    } in
    let a = count_processes-Adds k state_get pids (started k (length pids)) labels fits in
    (
      refl,
      a.total,
      omega (arith, a.idle),
      omega (arith, a.running),
      omega (arith, a.sleeping),
      omega (arith, a.stopped),
      omega (arith, a.zombie),
      a.threads,
    )
