-- ===== src/Tests/Proc.antt =====
-- The theorems on Linux's /proc at concrete inputs, and runs: the line of a process "a) (b", three
-- processors, and two mounted file systems.
use re_co_mon_b.Base.{
  zero, suc, replicate, ℕ, ◌+◌, ◌*◌, ◌^◌, ◌<◌, true, false, List, ◌≡◌, refl, [], ◌∷◌, ◌++◌, none,
  some, Bytes, codes, arith, ◌==◌, if◌then◌else◌,
}
use re_co_mon_b.Libc.{is_space}
use re_co_mon_b.Linux.Cpu.Rollup.{sums, cpu_list_get-sums}
use re_co_mon_b.Linux.Cpu.{cpu_list_get}
use re_co_mon_b.Linux.FsType.{Sizes, Mount, file_system_list_get}
use re_co_mon_b.Linux.Fields.{fields, AreWords}
use re_co_mon_b.Linux.Row.{Row, IsRow, cells_5, from_row, proc_stat_read-row}
use re_co_mon_b.Libc.Split.{all_of-IsFree}
use re_co_mon_b.Libc.{is_digit}
use re_co_mon_b.Linux.Process.{Cores, times_of, state_of, proc_time_get, proc_state_get}
use re_co_mon_b.Linux.Stale.{proc_stat_read-once, proc_time_get-stale}
use re_co_mon_b.Linux.{System, ProcStat, proc_stat_read}
use re_co_mon_b.Util.Cores.{Cpuid, Settings, cpu_core_count, cpu_core_rollup}
use re_co_mon_b.Util.Cores.Once.{cpu_core_rollup-once}
use re_co_mon_b.Ptql.Host.{got, failed}

abbrev sys : System
sys = record {
  name_len = 128;
  expire = 2;
  einval = 22;
  tick2msec = λ ticks. ticks * 10;
  ticks = 100;
  boot_time = 1000;
  pagesize = 12;
}

-- The record of process 7, of time 50.
abbrev last : ProcStat
last = record {
  pid = 7;
  mtime = 50;
  vsize = 4096;
  rss = 8192;
  minor_faults = 1;
  major_faults = 2;
  ppid = 1;
  tty = 0;
  priority = 20;
  nice = 0;
  start_time = 1000000;
  utime = 30;
  stime = 40;
  name = codes "init";
  state = b'S';
  processor = 0;
}

abbrev tail : Bytes
tail =
    codes
      " 1 9 9 34816 9 4194304 100 0 3 0 55 66 0 0 20 0 1 0 500 8192 3 1 2 3 4 5 6 7 8 9 10 11 0 0 17 1 0"

abbrev line : Bytes
line = codes "9 " ++ b'(' ∷ (codes "a) (b" ++ b')' ∷ b' ' ∷ b'R' ∷ tail)

-- What is read of the line.
abbrev here : ProcStat
here = record {
  pid = 9;
  mtime = 50;
  vsize = 8192;
  rss = 12288;
  minor_faults = 100;
  major_faults = 3;
  ppid = 1;
  tty = 34816;
  priority = 20;
  nice = 0;
  start_time = 1005000;
  utime = 550;
  stime = 660;
  name = codes "a) (b";
  state = b'R';
  processor = 1;
}

proc_stat_read_test : proc_stat_read sys last 9 50 (got line) ≡ some (here, 0)
unfolding proc_stat_read
proc_stat_read_test = refl

abbrev row : Row
row = record {
  ppid_4 = codes "1";
  from_5_to_6 = codes "9" ∷ codes "9" ∷ [];
  tty_7 = codes "34816";
  from_8_to_9 = codes "-1" ∷ codes "4194304" ∷ [];
  minflt_10 = codes "100";
  cminflt_11 = codes "0";
  majflt_12 = codes "3";
  cmajflt_13 = codes "0";
  utime_14 = codes "55";
  stime_15 = codes "66";
  from_16_to_17 = codes "0" ∷ codes "0" ∷ [];
  priority_18 = codes "20";
  nice_19 = codes "0";
  from_20_to_21 = codes "1" ∷ codes "0" ∷ [];
  starttime_22 = codes "500";
  vsize_23 = codes "8192";
  rss_24 = codes "3";
  from_25_to_38 = replicate 14 (codes "7");
  processor_39 = codes "1";
  more = codes "0" ∷ [];
}

sevens : (n : ℕ) → AreWords (replicate n (codes "7"))
unfolding is_space
sevens zero = tt
sevens (suc n) = (refl, sevens n)

row-IsRow : IsRow row
unfolding is_digit is_space
row-IsRow = record {
  ppid = (refl, omega arith);
  ids = ((refl, (refl, tt)), refl);
  tty = (refl, omega arith);
  terminal = ((refl, (refl, tt)), refl);
  minflt = (refl, omega arith);
  cminflt = refl;
  majflt = (refl, omega arith);
  cmajflt = refl;
  utime = (refl, omega arith);
  stime = (refl, omega arith);
  children = ((refl, (refl, tt)), refl);
  priority = (refl, omega arith);
  nice = (refl, omega arith);
  timers = ((refl, (refl, tt)), refl);
  starttime = (refl, omega arith);
  vsize = (refl, omega arith);
  rss = (refl, omega arith);
  limits = (sevens 14, refl);
  processor = (refl, omega arith);
}

proc_stat_read-row_example :
    proc_stat_read sys last 9 50 (
      got (
        codes "9 "
        ++ b'('
          ∷ (codes "a) (b" ++ b')' ∷ b' ' ∷ b'R' ∷ b' ' ∷ (codes "1" ++ fields (cells_5 row)))))
    ≡ some (
      from_row sys row (record last { pid = 9; mtime = 50; name = codes "a) (b"; state = b'R' }),
      0,
    )
proc_stat_read-row_example =
    proc_stat_read-row sys last 9 50 (codes "9 ") (codes "a) (b") b'R' row refl (refl, (refl, tt))
      (all_of-IsFree b')' (b'R' ∷ b' ' ∷ (codes "1" ++ fields (cells_5 row))) refl)
      (unfold is_space in refl) (omega arith) row-IsRow

abbrev cores : Cores
cores = record { core_rollup = false; lcpu = 1; notimpl = 4294967295 }

proc_stat_read-once_example :
    (proc_time_get sys here 9 51 (failed 2) ≡ some (here, got (times_of here)))
    × (proc_state_get sys cores here 9 51 (failed 2) (failed 2) 3
        ≡ some (here, got (state_of cores (failed 2) 3 here)))
proc_stat_read-once_example =
    proc_stat_read-once sys cores last here 9 50 51 0 3 (got line) (failed 2) (failed 2) refl
      proc_stat_read_test (omega arith)

proc_time_get-stale_example :
    let left = record last { pid = 9; mtime = 60 } in
    (proc_time_get sys last 9 60 (failed 2) ≡ some (left, failed 2))
    × (proc_time_get sys left 9 61 (got line) ≡ some (left, got (times_of last)))
proc_time_get-stale_example =
    proc_time_get-stale sys last 9 60 61 2 (got line) refl refl (omega arith)

abbrev cpu_lines : Bytes × List Bytes
cpu_lines = (
  codes "cpu  40 4 8 100 3 2 1 0",
  codes "cpu0 10 1 2 30 1 1 0 0"
      ∷ codes "cpu1 30 3 6 70 2 1 1 0"
      ∷ codes "cpu2 5 0 1 60"
      ∷ codes "intr 1"
      ∷ [],
)

cpu_list_get_test :
    sums (cpu_list_get sys true 2 (got cpu_lines)) ≡ 450 ∷ 90 ∷ 40 ∷ 1600 ∷ 30 ∷ 20 ∷ 10 ∷ 0 ∷ []
unfolding cpu_list_get
cpu_list_get_test = refl

cpu_list_get-sums_example :
    sums (cpu_list_get sys true 2 (got cpu_lines)) ≡ sums (cpu_list_get sys false 2 (got cpu_lines))
cpu_list_get-sums_example = cpu_list_get-sums sys true 1 (got cpu_lines)

-- Four logical processors, by an Intel processor.
abbrev cpuid : ℕ → Cpuid
cpuid n =
    if n == 0
    then record { ebx = 1970169159; edx = 0 }
    else record { ebx = 4 * 2 ^ 16 + 2048; edx = 2 ^ 28 + 1 }

abbrev settings : Settings
settings = record { lcpu = none; cpu_list_cores = false; is_debug = true }

cpu_core_rollup_test : (cpu_core_rollup cpuid settings).1 ≡ true
unfolding cpu_core_rollup
cpu_core_rollup_test = refl

cpu_core_rollup-once_example :
    let (left, rollup) = cpu_core_rollup cpuid settings in
    (rollup ≡ true
      → (settings.lcpu ≡ none)
        × (settings.is_debug ≡ true)
        × (settings.cpu_list_cores ≡ false)
        × (1 < cpu_core_count cpuid settings.lcpu))
    × (cpu_core_rollup cpuid left ≡ (left, false))
cpu_core_rollup-once_example = cpu_core_rollup-once cpuid settings

abbrev sizes : Sizes
sizes = record { dir_name = 4096; dev_name = 4096; sys_type_name = 64; options = 255 }

abbrev mount : Mount
mount = record {
  mnt_dir = codes "/";
  mnt_fsname = codes "/dev/sda1";
  mnt_type = codes "ext4";
  mnt_opts = codes "rw";
}

file_system_list_get_test :
    file_system_list_get sizes (got (mount ∷ record mount { mnt_type = codes "nfs" } ∷ []))
    ≡ got (
        record {
          dir_name = codes "/";
          dev_name = codes "/dev/sda1";
          options = codes "rw";
          fs = record { type = 2; sys_type_name = codes "ext4"; type_name = codes "local" };
        }
        ∷ record {
          dir_name = codes "/";
          dev_name = codes "/dev/sda1";
          options = codes "rw";
          fs = record { type = 3; sys_type_name = codes "nfs"; type_name = codes "remote" };
        }
        ∷ [])
unfolding file_system_list_get
file_system_list_get_test = refl
