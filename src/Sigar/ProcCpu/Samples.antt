-- ===== src/Sigar/ProcCpu/Samples.antt =====
-- What `sigar_proc_cpu_get` of sigar.c remembers of the process asked for, and of the others.
use re_co_mon_b.Base.{
  ℕ, suc, ◌+◌, ◌-◌, ◌%◌, ◌≡◌, ◌⊎◌, refl, ap, Option, ◌==◌, if◌then◌else◌, Bool-cases, inl, inr,
}
use re_co_mon_b.Cache.{Table, find, get}
use re_co_mon_b.Cache.Room.{HasRoom}
use re_co_mon_b.Cache.Values.{value_at, get-value, Holds, store-get-Holds, store-Holds}
use re_co_mon_b.Libc.Double.{Doubles}
use re_co_mon_b.Ptql.Host.{Reply, got, failed}
use re_co_mon_b.Sigar.ProcCpu.{
  u64, ProcTime, ProcCpu, Answer, opened, filled, prev_of, cpu_percent, sample, proc_cpu_get,
}

module _ (d : Doubles) where
  -- The record that a call keeps for its process.
  abbrev pub kept : ProcCpu d.Double → ℕ → ProcCpu d.Double → Reply ProcTime → ProcCpu d.Double
  kept prev time_now proccpu times =
      if (time_now + u64 - prev.last_time) % u64 == 0
      then record prev { last_time = time_now }
      else elim times [
        | failed status ↦ record prev { last_time = time_now }
        | got t ↦ filled t (record proccpu { last_time = time_now })
      ]

  -- The structure that a call gives back.
  abbrev pub given : ProcCpu d.Double → ℕ → ProcCpu d.Double → Reply ProcTime → ProcCpu d.Double
  given prev time_now proccpu times =
      let time_diff = (time_now + u64 - prev.last_time) % u64 in
      if time_diff == 0 then record prev { last_time = time_now } else elim times [
        | failed status ↦ record proccpu { last_time = time_now }
        | got t ↦ record (filled t proccpu) {
          last_time = time_now;
          percent = cpu_percent d prev.total t.total time_diff;
        }
      ]

  -- The status of a call.
  abbrev pub status_of : ProcCpu d.Double → ℕ → Reply ProcTime → ℕ
  status_of prev time_now times =
      if (time_now + u64 - prev.last_time) % u64 == 0
      then 0
      else elim times [ failed status ↦ status | got t ↦ 0 ]

  abbrev pub remembered : Option (Table (ProcCpu d.Double)) → ℕ → ProcCpu d.Double
  remembered cache pid = prev_of d (value_at (find (opened cache) pid))

  pub record Keeps (more : ℕ) (cache : Option (Table (ProcCpu d.Double))) (pid : ℕ)
      (proccpu cpu : ProcCpu d.Double) (status : ℕ) (r : Answer d.Double) : Type 0 where
    pub holds : Holds more (opened cache) pid cpu r.cache
    pub answers : r.proccpu ≡ proccpu
    pub returns : r.status ≡ status

  Reply-cases : (r : Reply ProcTime) → ((t : ProcTime) × (r ≡ got t)) ⊎ ((s : ℕ) × (r ≡ failed s))
  Reply-cases (got t) = inl (t, refl)
  Reply-cases (failed s) = inr (s, refl)

  pub proc_cpu_get-Keeps :
      {more : ℕ} (cache : Option (Table (ProcCpu d.Double))) (pid time_now : ℕ)
      (times : Reply ProcTime) (proccpu : ProcCpu d.Double)
      → HasRoom (suc more) (opened cache)
      → let prev = remembered cache pid in
        Keeps more cache pid
          (given prev time_now proccpu times)
          (kept prev time_now proccpu times)
          (status_of prev time_now times)
          (proc_cpu_get d cache pid time_now times proccpu)
  unfolding proc_cpu_get sample
  proc_cpu_get-Keeps cache pid time_now times proccpu room =
      let t = opened cache in
      let prev = remembered cache pid in
      let value : prev_of d (get t pid).1.value ≡ prev = ap (prev_of d) (get-value t pid room) in
      let touched = store-get-Holds t pid (record prev { last_time = time_now }) room in
      elim (Bool-cases ((time_now + u64 - prev.last_time) % u64 == 0)) [
        | inl again ↦ rw (value, again) (record { holds = touched; answers = refl; returns = refl })
        | inr later ↦ elim (Reply-cases times) [
          | inl (t, e) ↦
              rw (value, later, e)
                (record { holds = store-Holds pid _ _ touched; answers = refl; returns = refl })
          | inr (s, e) ↦
              rw (value, later, e) (record { holds = touched; answers = refl; returns = refl })
        ]
      ]
