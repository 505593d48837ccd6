-- ===== src/Linux/Row.antt =====
-- os/linux/linux_sigar.c: the fields of /proc/<pid>/stat, each at its place.
use re_co_mon_b.Base.{
  ℕ, ◌+◌, ◌*◌, ◌/◌, ◌%◌, ◌≡◌, refl, ◌∙◌, ◌<◌, false, some, arith, List, [], ◌∷◌, ◌++◌, Bytes,
  length,
}
use re_co_mon_b.Linux.Fields.{
  fields, IsWord, IsNumber, value, AreWords, skip_token-fields, strtoull-fields, strtoull-number,
  skip-cells,
}
use re_co_mon_b.Linux.{
  u32, u64, System, ProcStat, is_fresh, proc_stat_read, read_state, pageshift, read_memory,
  read_times, read_fields,
}
use re_co_mon_b.Linux.Names.{proc_stat_read-line}
use re_co_mon_b.Libc.Split.{IsFree}
use re_co_mon_b.Libc.{is_space}
use re_co_mon_b.Ptql.Host.{got}
use re_co_mon_b.Util.CpuModel.Mhz.{digit-plain}
use re_co_mon_b.Util.Text.{skip_spaces}

-- The texts of the fields behind the state, with the numbers of the comment at the top of the file;
-- those that the code skips together are a list.
pub record Row : Type 0 where
  pub ppid_4 : Bytes
  pub from_5_to_6 : List Bytes
  pub tty_7 : Bytes
  pub from_8_to_9 : List Bytes
  pub minflt_10 : Bytes
  pub cminflt_11 : Bytes
  pub majflt_12 : Bytes
  pub cmajflt_13 : Bytes
  pub utime_14 : Bytes
  pub stime_15 : Bytes
  pub from_16_to_17 : List Bytes
  pub priority_18 : Bytes
  pub nice_19 : Bytes
  pub from_20_to_21 : List Bytes
  pub starttime_22 : Bytes
  pub vsize_23 : Bytes
  pub rss_24 : Bytes
  pub from_25_to_38 : List Bytes
  pub processor_39 : Bytes
  pub more : List Bytes

abbrev pub cells_22 : Row → List Bytes
cells_22 r = r.starttime_22 ∷ r.vsize_23 ∷ r.rss_24 ∷ (r.from_25_to_38 ++ r.processor_39 ∷ r.more)

abbrev pub cells_12 : Row → List Bytes
cells_12 r =
    r.majflt_12
    ∷ r.cmajflt_13
    ∷ r.utime_14
    ∷ r.stime_15
    ∷ (r.from_16_to_17 ++ r.priority_18 ∷ r.nice_19 ∷ (r.from_20_to_21 ++ cells_22 r))

abbrev pub cells_5 : Row → List Bytes
cells_5 r = r.from_5_to_6 ++ r.tty_7 ∷ (r.from_8_to_9 ++ r.minflt_10 ∷ r.cminflt_11 ∷ cells_12 r)

-- The fields that are read are numbers, and the others words, as many as their names say.
pub record IsRow (r : Row) : Type 0 where
  pub ppid : IsNumber r.ppid_4
  pub ids : AreWords r.from_5_to_6 × (length r.from_5_to_6 ≡ 2)
  pub tty : IsNumber r.tty_7
  pub terminal : AreWords r.from_8_to_9 × (length r.from_8_to_9 ≡ 2)
  pub minflt : IsNumber r.minflt_10
  pub cminflt : IsWord r.cminflt_11
  pub majflt : IsNumber r.majflt_12
  pub cmajflt : IsWord r.cmajflt_13
  pub utime : IsNumber r.utime_14
  pub stime : IsNumber r.stime_15
  pub children : AreWords r.from_16_to_17 × (length r.from_16_to_17 ≡ 2)
  pub priority : IsNumber r.priority_18
  pub nice : IsNumber r.nice_19
  pub timers : AreWords r.from_20_to_21 × (length r.from_20_to_21 ≡ 2)
  pub starttime : IsNumber r.starttime_22
  pub vsize : IsNumber r.vsize_23
  pub rss : IsNumber r.rss_24
  pub limits : AreWords r.from_25_to_38 × (length r.from_25_to_38 ≡ 14)
  pub processor : IsNumber r.processor_39

abbrev with_memory : System → Row → ProcStat → ProcStat
with_memory sys r p = record p {
  start_time = (value r.starttime_22 / sys.ticks + sys.boot_time) * 1000 % u64;
  vsize = value r.vsize_23;
  rss = pageshift sys (value r.rss_24);
  processor = value r.processor_39 % u32;
}

read_memory-cells :
    (sys : System) (p : ProcStat) (r : Row)
    → IsRow r
    → read_memory sys p (fields (cells_22 r)) ≡ with_memory sys r p
unfolding read_memory
read_memory-cells sys p r h =
    let rest = r.from_25_to_38 ++ r.processor_39 ∷ r.more in
    rw
      (
        strtoull-fields r.starttime_22 (r.vsize_23 ∷ r.rss_24 ∷ rest) h.starttime,
        strtoull-fields r.vsize_23 (r.rss_24 ∷ rest) h.vsize,
        strtoull-fields r.rss_24 rest h.rss,
        skip-cells 14 r.from_25_to_38 (r.processor_39 ∷ r.more) h.limits,
        strtoull-fields r.processor_39 r.more h.processor,
      )
      refl

abbrev with_times : System → Row → ProcStat → ProcStat
with_times sys r p = record p {
  major_faults = value r.majflt_12;
  utime = sys.tick2msec (value r.utime_14);
  stime = sys.tick2msec (value r.stime_15);
  priority = value r.priority_18 % u32;
  nice = value r.nice_19 % u32;
}

read_times-cells :
    (sys : System) (p : ProcStat) (r : Row)
    → IsRow r
    → read_times sys p (fields (cells_12 r)) ≡ with_memory sys r (with_times sys r p)
unfolding read_times
read_times-cells sys p r h =
    let timers = r.from_20_to_21 ++ cells_22 r in
    let rest = r.from_16_to_17 ++ r.priority_18 ∷ r.nice_19 ∷ timers in
    rw
      (
        strtoull-fields r.majflt_12 (r.cmajflt_13 ∷ r.utime_14 ∷ r.stime_15 ∷ rest) h.majflt,
        skip_token-fields r.cmajflt_13 (r.utime_14 ∷ r.stime_15 ∷ rest) h.cmajflt,
        strtoull-fields r.utime_14 (r.stime_15 ∷ rest) h.utime,
        strtoull-fields r.stime_15 rest h.stime,
        skip-cells 2 r.from_16_to_17 (r.priority_18 ∷ r.nice_19 ∷ timers) h.children,
        strtoull-fields r.priority_18 (r.nice_19 ∷ timers) h.priority,
        strtoull-fields r.nice_19 timers h.nice,
        skip-cells 2 r.from_20_to_21 (cells_22 r) h.timers,
      )
      (read_memory-cells sys (with_times sys r p) r h)

abbrev with_ids : Row → ProcStat → ProcStat
with_ids r p = record p {
  ppid = value r.ppid_4;
  tty = value r.tty_7 % u32;
  minor_faults = value r.minflt_10;
}

-- The record with each field from its place in the row.
abbrev pub from_row : System → Row → ProcStat → ProcStat
from_row sys r p = with_memory sys r (with_times sys r (with_ids r p))

read_fields-cells :
    (sys : System) (p : ProcStat) (r : Row)
    → IsRow r
    → read_fields sys p (r.ppid_4 ++ fields (cells_5 r)) ≡ from_row sys r p
unfolding read_fields
read_fields-cells sys p r h =
    let terminal = r.from_8_to_9 ++ r.minflt_10 ∷ r.cminflt_11 ∷ cells_12 r in
    rw
      (
        strtoull-number r.ppid_4 (cells_5 r) h.ppid,
        skip-cells 2 r.from_5_to_6 (r.tty_7 ∷ terminal) h.ids,
        strtoull-fields r.tty_7 terminal h.tty,
        skip-cells 2 r.from_8_to_9 (r.minflt_10 ∷ r.cminflt_11 ∷ cells_12 r) h.terminal,
        strtoull-fields r.minflt_10 (r.cminflt_11 ∷ cells_12 r) h.minflt,
        skip_token-fields r.cminflt_11 (cells_12 r) h.cminflt,
      )
      (read_times-cells sys (with_ids r p) r h)

skip_spaces-word : (c : ℕ) (s : Bytes) → is_space c ≡ false → skip_spaces (b' ' ∷ c ∷ s) ≡ c ∷ s
unfolding skip_spaces
skip_spaces-word c s word = rw word refl

skip_spaces-number : (w rest : Bytes) → IsNumber w → skip_spaces (b' ' ∷ (w ++ rest)) ≡ w ++ rest
skip_spaces-number [] rest h = absurd h
skip_spaces-number (c ∷ w) rest h =
    skip_spaces-word c (w ++ rest) (digit-plain c (ground (arith, h.0))).0

-- A line of /proc/<pid>/stat gives the name between its first opening and its last closing bracket,
-- whatever bytes the name has, the state behind it, and each of the other members of the record
-- from the field whose number the comment at the top of the file gives it. The name is shorter than
-- SIGAR_PROC_NAME_LEN, the numbers are digits of at most 64 bits, no field has a closing bracket, and the record of
-- the last process is not fresh.
pub proc_stat_read-row :
    (sys : System) (last : ProcStat) (pid timenow : ℕ) (before name : Bytes) (c : ℕ) (r : Row)
    → is_fresh sys last pid timenow ≡ false
    → IsFree b'(' before
    → IsFree b')' (c ∷ b' ' ∷ (r.ppid_4 ++ fields (cells_5 r)))
    → is_space c ≡ false
    → length name < sys.name_len
    → IsRow r
    → let line =
        before ++ b'(' ∷ (name ++ b')' ∷ b' ' ∷ c ∷ b' ' ∷ (r.ppid_4 ++ fields (cells_5 r))) in
      let p = record last { pid = pid; mtime = timenow; name = name; state = c } in
      proc_stat_read sys last pid timenow (got line) ≡ some (from_row sys r p, 0)
unfolding read_state
proc_stat_read-row sys last pid timenow before name c r old free free' word short h =
    let p = record last { pid = pid; mtime = timenow; name = name; state = c } in
    proc_stat_read-line sys last pid timenow before name c (b' ' ∷ (r.ppid_4 ++ fields (cells_5 r)))
      old free free' word short
    ∙ rw (skip_spaces-number r.ppid_4 (fields (cells_5 r)) h.ppid, read_fields-cells sys p r h) refl
