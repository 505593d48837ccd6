-- ===== src/Sigar/ProcCpu/Rate.antt =====
-- What `sigar_proc_cpu_get` of sigar.c answers at a second call for a process, whatever was asked
-- of other processes in between.
use re_co_mon_b.Base.{
  ℕ, suc, ◌+◌, ◌-◌, ◌%◌, ◌<◌, ◌≤◌, ◌≡◌, refl, ap, ◌∙◌, Bool, true, false, ◌&&◌, not, List, [], ◌∷◌,
  Option, some, arith, ltb, ◌==◌, length,
}
use re_co_mon_b.Cache.{Table}
use re_co_mon_b.Cache.Room.{HasRoom, less}
use re_co_mon_b.Cache.Values.{value_self, value_other}
use re_co_mon_b.Libc.Double.{Doubles}
use re_co_mon_b.Ptql.Host.{Reply, got}
use re_co_mon_b.Sigar.ProcCpu.{
  u64, ProcTime, ProcCpu, Answer, opened, filled, prev_of, cpu_percent, proc_cpu_get,
}
use re_co_mon_b.Sigar.ProcCpu.Samples.{kept, given, remembered, proc_cpu_get-Keeps}

-- A call of `sigar_proc_cpu_get`: its arguments, its time, and what the process's times are then.
pub record Call (D : Type 0) : Type 0 where
  pub pid : ℕ
  pub time_now : ℕ
  pub times : Reply ProcTime
  pub proccpu : ProcCpu D

module _ (d : Doubles) where
  abbrev pub Cpus : Type 0
  Cpus = Option (Table (ProcCpu d.Double))

  abbrev pub answer : Cpus → Call d.Double → Answer d.Double
  answer cache c = proc_cpu_get d cache c.pid c.time_now c.times c.proccpu

  -- The cache after some calls.
  unfoldable pub run_calls : List (Call d.Double) → Cpus → Cpus
  run_calls [] cache = cache
  run_calls (c ∷ calls) cache = run_calls calls (some (answer cache c).cache)

  abbrev pub none_of : ℕ → List (Call d.Double) → Bool
  none_of pid [] = true
  none_of pid (c ∷ calls) = not (c.pid == pid) && none_of pid calls

  record Remembers (more pid : ℕ) (cpu : ProcCpu d.Double) (cache : Cpus) : Type 0 where
    room : HasRoom more (opened cache)
    reads : remembered d cache pid ≡ cpu

  answer-Remembers :
      {more : ℕ} (cache : Cpus) (c : Call d.Double)
      → HasRoom (suc more) (opened cache)
      → Remembers more c.pid
          (kept d (remembered d cache c.pid) c.time_now c.proccpu c.times)
          (some (answer cache c).cache)
  answer-Remembers cache c room =
      let k = proc_cpu_get-Keeps d cache c.pid c.time_now c.times c.proccpu room in
      record { room = k.holds.room; reads = ap (prev_of d) (value_self k.holds) }

  run_calls-Remembers :
      {more : ℕ} (calls : List (Call d.Double)) (cache : Cpus) (pid : ℕ)
      → HasRoom (length calls + more) (opened cache)
      → none_of pid calls ≡ true
      → Remembers more pid (remembered d cache pid) (run_calls calls cache)
  unfolding run_calls
  run_calls-Remembers [] cache pid room h = record { room = less (omega arith) room; reads = refl }
  run_calls-Remembers {more = more} (c ∷ calls) cache pid room h =
      let k =
        proc_cpu_get-Keeps d cache c.pid c.time_now c.times c.proccpu
          (less {m = suc (length calls + more)} (omega arith) room) in
      let rest =
        run_calls-Remembers calls (some (answer cache c).cache) pid k.holds.room
          (ground (arith, h)) in
      record {
        room = rest.room;
        reads = rest.reads ∙ ap (prev_of d) (value_other pid k.holds (ground (arith, h)));
      }

  -- The record of a first call at a new time, after which other processes were asked for.
  sampled :
      (cache : Cpus) (c : Call d.Double) (t : ProcTime) (between : List (Call d.Double))
      → HasRoom (suc (length between + 1)) (opened cache)
      → c.times ≡ got t
      → (remembered d cache c.pid).last_time < c.time_now
      → c.time_now < u64
      → none_of c.pid between ≡ true
      → Remembers 1 c.pid
          (filled t (record c.proccpu { last_time = c.time_now }))
          (run_calls between (some (answer cache c).cache))
  sampled cache c t between room e later fits others =
      let first = answer-Remembers cache c room in
      let rest =
        run_calls-Remembers between (some (answer cache c).cache) c.pid first.room others in
      let passed : ((c.time_now + u64 - (remembered d cache c.pid).last_time) % u64 == 0) ≡ false =
        ground (arith, later, fits) in
      record { room = rest.room; reads = rest.reads ∙ first.reads ∙ rw (passed, e) }

  cpu_percent-grown :
      (before total time_diff : ℕ)
      → 0 < before
      → before ≤ total
      → total < u64
      → cpu_percent d before total time_diff
        ≡ d.div (d.of_u64 (total - before)) (d.of_u64 time_diff)
  unfolding cpu_percent
  cpu_percent-grown before total time_diff h grown l =
      let growth : (total + u64 - before) % u64 ≡ total - before = omega (arith, grown, l) in
      let forward : ltb total before ≡ false = ground (arith, grown) in
      let used : (before == 0) ≡ false = ground (arith, h) in rw (forward, used, growth)

  given-later :
      (prev : ProcCpu d.Double) (time_now : ℕ) (proccpu : ProcCpu d.Double) (t : ProcTime)
      → (prev.last_time < time_now) × (time_now < u64)
      → (0 < prev.total) × (prev.total ≤ t.total) × (t.total < u64)
      → given d prev time_now proccpu (got t) ≡ record (filled t proccpu) {
        last_time = time_now;
        percent = d.div (d.of_u64 (t.total - prev.total)) (d.of_u64 (time_now - prev.last_time));
      }
  given-later prev time_now proccpu t (after, fits) (h, grown, l) =
      let gap : (time_now + u64 - prev.last_time) % u64 ≡ time_now - prev.last_time =
        omega (arith, after, fits) in
      let passed : (time_now - prev.last_time == 0) ≡ false = ground (arith, after) in
      rw (gap, passed, cpu_percent-grown prev.total t.total (time_now - prev.last_time) h grown l)

  -- After a successful call for a process at a new time, and any calls for other processes, a
  -- successful call for the process at a later time gives the process's times of then and, where
  -- the total has not gone back and was not 0, as share the total's growth over the milliseconds
  -- that passed. The cache has room for the calls, and the times are below 2 ^ 64.
  pub proc_cpu_get-rate :
      (cache : Cpus) (c later : Call d.Double) (t t' : ProcTime) (between : List (Call d.Double))
      → HasRoom (suc (length between + 1)) (opened cache)
      → c.times ≡ got t
      → (later.pid ≡ c.pid) × (later.times ≡ got t')
      → (remembered d cache c.pid).last_time < c.time_now
      → (c.time_now < later.time_now) × (later.time_now < u64)
      → none_of c.pid between ≡ true
      → (0 < t.total) × (t.total ≤ t'.total) × (t'.total < u64)
      → (answer (run_calls between (some (answer cache c).cache)) later).proccpu
        ≡ record (filled t' later.proccpu) {
          last_time = later.time_now;
          percent = d.div (d.of_u64 (t'.total - t.total)) (d.of_u64 (later.time_now - c.time_now));
        }
  proc_cpu_get-rate cache c later t t' between room e (same, e') new (after, fits) others
        (h, grown, l) =
      let s = sampled cache c t between room e new (omega (arith, after, fits)) others in
      let rest = run_calls between (some (answer cache c).cache) in
      let k = proc_cpu_get-Keeps d rest later.pid later.time_now later.times later.proccpu s.room in
      k.answers
      ∙ ap (λ p. given d (remembered d rest p) later.time_now later.proccpu later.times) same
      ∙ ap (λ prev. given d prev later.time_now later.proccpu later.times) s.reads
      ∙ ap
          (given d (filled t (record c.proccpu { last_time = c.time_now })) later.time_now
            later.proccpu)
          e'
      ∙ given-later (filled t (record c.proccpu { last_time = c.time_now })) later.time_now
          later.proccpu t' (after, fits) (h, grown, l)

  -- A call in the millisecond of a successful call for the same process at a new time, with any
  -- calls for other processes in between, returns SIGAR_OK, and its share is the number that stood
  -- in the first caller's structure before the first call; what it gives is otherwise what the
  -- first call gave. The cache has room for the calls, and the times are below 2 ^ 64.
  pub proc_cpu_get-repeat :
      (cache : Cpus) (c again : Call d.Double) (t : ProcTime) (between : List (Call d.Double))
      → HasRoom (suc (length between + 1)) (opened cache)
      → c.times ≡ got t
      → (again.pid ≡ c.pid) × (again.time_now ≡ c.time_now)
      → (remembered d cache c.pid).last_time < c.time_now
      → c.time_now < u64
      → none_of c.pid between ≡ true
      → let second = answer (run_calls between (some (answer cache c).cache)) again in
        (second.status ≡ 0)
        × (second.proccpu ≡ record (answer cache c).proccpu { percent = c.proccpu.percent })
  proc_cpu_get-repeat cache c again t between room e (same, now) new fits others =
      let s = sampled cache c t between room e new fits others in
      let k =
        proc_cpu_get-Keeps d (run_calls between (some (answer cache c).cache)) again.pid
          again.time_now again.times again.proccpu s.room in
      let first = proc_cpu_get-Keeps d cache c.pid c.time_now c.times c.proccpu room in
      let still : ((c.time_now + u64 - c.time_now) % u64 == 0) ≡ true = ground (arith, fits) in
      let passed : ((c.time_now + u64 - (remembered d cache c.pid).last_time) % u64 == 0) ≡ false =
        ground (arith, new, fits) in
      (
        k.returns ∙ rw (same, now, s.reads, still) refl,
        k.answers ∙ rw (same, now, s.reads, still, first.answers, passed, e),
      )
