-- ===== src/Linux/Stale.antt =====
-- os/linux/linux_sigar.c: what the record of the last process answers within its time.
use re_co_mon_b.Base.{
  ℕ, ◌+◌, ◌<◌, ◌≡◌, refl, sym, ap, ◌∙◌, true, false, [], ◌∷◌, Option, none, some, Bytes, arith, ltb,
  ◌==◌, ==_refl,
}
use re_co_mon_b.Libc.{split_at}
use re_co_mon_b.Linux.{
  System, ProcStat, Outcome, split_last, cut_name, read_fields, read_times, read_memory, read_state,
  read_named, read_behind, read_text, is_fresh, proc_stat_read,
}
use re_co_mon_b.Linux.Process.{Cores, times_of, state_of, answer, proc_time_get, proc_state_get}
use re_co_mon_b.Ptql.Host.{Reply, got, failed}
use re_co_mon_b.Util.Text.{skip_spaces}

-- Where there is an outcome, its record is of the process and the time.
abbrev IsOf : ℕ → ℕ → Outcome → Type 0
IsOf pid t none = Unit
IsOf pid t (some (pstat, status)) = (pstat.pid ≡ pid) × (pstat.mtime ≡ t)

read_state-IsOf :
    (sys : System) (p : ProcStat) (ptr : Bytes) → IsOf p.pid p.mtime (read_state sys p ptr)
unfolding read_state read_fields read_times read_memory
read_state-IsOf sys p [] = tt
read_state-IsOf sys p (c ∷ ptr) = (refl, refl)

read_named-IsOf :
    (sys : System) (p : ProcStat) (o : Option (Bytes × Bytes))
    → IsOf p.pid p.mtime (read_named sys p o)
unfolding read_named
read_named-IsOf sys p none = (refl, refl)
read_named-IsOf sys p (some (name, ptr)) =
    read_state-IsOf sys (record p { name = cut_name sys name }) (skip_spaces ptr)

read_behind-IsOf :
    (sys : System) (p : ProcStat) (o : Option (Bytes × Bytes))
    → IsOf p.pid p.mtime (read_behind sys p o)
unfolding read_behind
read_behind-IsOf sys p none = (refl, refl)
read_behind-IsOf sys p (some (before, ptr)) = read_named-IsOf sys p (split_last b')' ptr)

read_text-IsOf :
    (sys : System) (p : ProcStat) (r : Reply Bytes) → IsOf p.pid p.mtime (read_text sys p r)
unfolding read_text
read_text-IsOf sys p (failed status) = (refl, refl)
read_text-IsOf sys p (got buffer) = read_behind-IsOf sys p (split_at b'(' buffer)

is_fresh-same :
    (sys : System) (p : ProcStat) (later : ℕ)
    → later < p.mtime + sys.expire
    → is_fresh sys p p.pid later ≡ true
is_fresh-same sys p later soon =
    let e : ltb later (p.mtime + sys.expire) ≡ true = ground (arith, soon) in rw (==_refl p.pid, e)

-- A fresh record is left as it is.
proc_stat_read-fresh :
    (sys : System) (p : ProcStat) (pid later : ℕ) (text : Reply Bytes)
    → is_fresh sys p pid later ≡ true
    → proc_stat_read sys p pid later text ≡ some (p, 0)
unfolding proc_stat_read
proc_stat_read-fresh sys p pid later text h = rw h

-- What a call leaves, where the record was not fresh.
proc_stat_read-IsOf :
    (sys : System) (last : ProcStat) (pid timenow : ℕ) (text : Reply Bytes)
    → is_fresh sys last pid timenow ≡ false
    → IsOf pid timenow (proc_stat_read sys last pid timenow text)
unfolding proc_stat_read
proc_stat_read-IsOf sys last pid timenow text old =
    rw old (read_text-IsOf sys (record last { pid = pid; mtime = timenow }) text)

again :
    (sys : System) (p : ProcStat) (pid timenow later : ℕ) (text : Reply Bytes)
    → (p.pid ≡ pid) × (p.mtime ≡ timenow)
    → later < timenow + sys.expire
    → proc_stat_read sys p pid later text ≡ some (p, 0)
again sys p pid timenow later text (same, at) soon =
    ap (λ q. proc_stat_read sys p q later text) (sym same)
    ∙ proc_stat_read-fresh sys p p.pid later text
        (is_fresh-same sys p later (omega (arith, at, soon)))

-- Once a call has read the file of a process, every call for that process within
-- SIGAR_LAST_PROC_EXPIRE of it succeeds with the record that it left, whatever the file has by
-- then: the time and the state that are asked for in that time are of one reading.
pub proc_stat_read-once :
    (sys : System) (cores : Cores) (last p : ProcStat) (pid timenow later status threads : ℕ)
    (text later_text more : Reply Bytes)
    → is_fresh sys last pid timenow ≡ false
    → proc_stat_read sys last pid timenow text ≡ some (p, status)
    → later < timenow + sys.expire
    → (proc_time_get sys p pid later later_text ≡ some (p, got (times_of p)))
      × (proc_state_get sys cores p pid later later_text more threads
          ≡ some (p, got (state_of cores more threads p)))
unfolding proc_time_get proc_state_get
proc_stat_read-once sys cores last p pid timenow later status threads text later_text more old read
      soon =
    let is_of : IsOf pid timenow (some (p, status)) =
      rw read at (proc_stat_read-IsOf sys last pid timenow text old) in
    let e = again sys p pid timenow later later_text is_of soon in
    (ap (λ o. answer o times_of) e, ap (λ o. answer o (state_of cores more threads)) e)

-- Where the file of a process cannot be read, the first call for its times gives the status of
-- that, and the next within SIGAR_LAST_PROC_EXPIRE gives the times of the process asked for before
-- as its own, with SIGAR_OK; the record of the last process is not fresh, and the status not 0.
pub proc_time_get-stale :
    (sys : System) (last : ProcStat) (pid timenow later errno : ℕ) (text : Reply Bytes)
    → is_fresh sys last pid timenow ≡ false
    → (errno == 0) ≡ false
    → later < timenow + sys.expire
    → let left = record last { pid = pid; mtime = timenow } in
      (proc_time_get sys last pid timenow (failed errno) ≡ some (left, failed errno))
      × (proc_time_get sys left pid later text ≡ some (left, got (times_of last)))
unfolding proc_time_get proc_stat_read read_text
proc_time_get-stale sys last pid timenow later errno text old bad soon =
    let left = record last { pid = pid; mtime = timenow } in
    (
      rw (old, bad) refl,
      ap (λ o. answer o times_of) (again sys left pid timenow later text (refl, refl) soon),
    )
