-- ===== src/Linux/Cpu.antt =====
-- os/linux/linux_sigar.c: the times of the processors in /proc/stat.
pub mod Rollup
use re_co_mon_b.Base.{
  ℕ, suc, ◌+◌, ◌%◌, Bool, false, ◌&&◌, not, List, [], ◌∷◌, Bytes, codes, ◌==◌, if◌then◌else◌,
}
use re_co_mon_b.Libc.{strn_eq}
use re_co_mon_b.Linux.{u64, System, strtoull}
use re_co_mon_b.Ptql.Host.{Reply, got, failed}
use re_co_mon_b.Util.Text.{skip_token}

-- `sigar_cpu_t`
pub record Cpu : Type 0 where
  pub user : ℕ
  pub sys : ℕ
  pub nice : ℕ
  pub idle : ℕ
  pub wait : ℕ
  pub irq : ℕ
  pub soft_irq : ℕ
  pub stolen : ℕ
  pub total : ℕ

-- `SIGAR_ZERO(cpu)`
abbrev pub zero_cpu : Cpu
zero_cpu = record {
  user = 0;
  sys = 0;
  nice = 0;
  idle = 0;
  wait = 0;
  irq = 0;
  soft_irq = 0;
  stolen = 0;
  total = 0;
}

-- What a line adds to the counters; what an older kernel does not tell adds nothing.
pub record Added : Type 0 where
  pub user : ℕ
  pub nice : ℕ
  pub sys : ℕ
  pub idle : ℕ
  pub wait : ℕ
  pub irq : ℕ
  pub soft_irq : ℕ
  pub stolen : ℕ

abbrev pub on_blank : Bytes → Bool
on_blank [] = false
on_blank (c ∷ ptr) = c == b' '

-- The last number, behind a blank.
unfoldable pub read_stolen : System → Added → Bytes → Added
unfolding strtoull
read_stolen sys added ptr =
    if on_blank ptr then record added { stolen = sys.tick2msec (strtoull ptr).0 } else added

-- The three numbers behind the first four, behind a blank.
unfoldable pub read_waits : System → Added → Bytes → Added
unfolding strtoull read_stolen
read_waits sys added ptr =
    let (wait, after) = strtoull ptr in
    let (irq, after) = strtoull after in
    let (soft_irq, after) = strtoull after in
    if on_blank ptr
    then read_stolen sys
        (record added {
          wait = sys.tick2msec wait;
          irq = sys.tick2msec irq;
          soft_irq = sys.tick2msec soft_irq;
        })
        after
    else read_stolen sys added ptr

unfoldable pub read_line : System → Bytes → Added
unfolding strtoull skip_token read_waits
read_line sys line =
    let (user, ptr) = strtoull (skip_token line) in
    let (nice, ptr) = strtoull ptr in
    let (system, ptr) = strtoull ptr in
    let (idle, ptr) = strtoull ptr in
    read_waits sys
      (record {
        user = sys.tick2msec user;
        nice = sys.tick2msec nice;
        sys = sys.tick2msec system;
        idle = sys.tick2msec idle;
        wait = 0;
        irq = 0;
        soft_irq = 0;
        stolen = 0;
      })
      ptr

abbrev pub with_total : Cpu → Cpu
with_total cpu = record cpu {
  total =
      (cpu.user + cpu.nice + cpu.sys + cpu.idle + cpu.wait + cpu.irq + cpu.soft_irq + cpu.stolen)
      % u64;
}

abbrev pub add_times : Cpu → Added → Cpu
add_times cpu added = with_total (record cpu {
  user = (cpu.user + added.user) % u64;
  sys = (cpu.sys + added.sys) % u64;
  nice = (cpu.nice + added.nice) % u64;
  idle = (cpu.idle + added.idle) % u64;
  wait = (cpu.wait + added.wait) % u64;
  irq = (cpu.irq + added.irq) % u64;
  soft_irq = (cpu.soft_irq + added.soft_irq) % u64;
  stolen = (cpu.stolen + added.stolen) % u64;
})

unfoldable pub get_cpu_metrics : System → Cpu → Bytes → Cpu
unfolding read_line
get_cpu_metrics sys cpu line = add_times cpu (read_line sys line)

unfoldable pub cpu_get : System → Reply Bytes → Reply Cpu
unfolding get_cpu_metrics
cpu_get sys (failed status) = failed status
cpu_get sys (got buffer) = got (get_cpu_metrics sys zero_cpu buffer)

-- `cpulist->data[cpulist->number-1]` is the head of the list here. It is there, since a line that
-- is merged is not the first.
unfoldable pub merge : System → Bytes → List Cpu → List Cpu
unfolding get_cpu_metrics
merge sys line [] = []
merge sys line (cpu ∷ cpus) = get_cpu_metrics sys cpu line ∷ cpus

-- `core_rollup && (i % sigar->lcpu)`
abbrev pub is_merged : Bool → ℕ → ℕ → Bool
is_merged core_rollup lcpu i = core_rollup && not (i % lcpu == 0)

-- The loop over the lines, for a positive `lcpu`; the list holds the last processor first.
unfoldable pub cpu_loop : System → Bool → ℕ → ℕ → List Cpu → List Bytes → List Cpu
unfolding merge get_cpu_metrics strn_eq
cpu_loop sys core_rollup lcpu i cpus [] = cpus
cpu_loop sys core_rollup lcpu i cpus (ptr ∷ lines) =
    let next =
      if is_merged core_rollup lcpu i
      then merge sys ptr cpus
      else get_cpu_metrics sys zero_cpu ptr ∷ cpus in
    let rest = cpu_loop sys core_rollup lcpu (suc i) next lines in
    if strn_eq ptr (codes "cpu") 3 then rest else cpus

abbrev pub or_total : System → Bytes → List Cpu → List Cpu
unfolding get_cpu_metrics
or_total sys cpu_total [] = get_cpu_metrics sys zero_cpu cpu_total ∷ []
or_total sys cpu_total (cpu ∷ cpus) = cpu ∷ cpus

-- `sigar_cpu_list_get`, from the first line of the file and the others; the list holds the last
-- processor first.
unfoldable pub cpu_list_get : System → Bool → ℕ → Reply (Bytes × List Bytes) → Reply (List Cpu)
unfolding cpu_loop or_total
cpu_list_get sys core_rollup lcpu (failed errno) = failed errno
cpu_list_get sys core_rollup lcpu (got (cpu_total, lines)) =
    got (or_total sys cpu_total (cpu_loop sys core_rollup lcpu 0 [] lines))
