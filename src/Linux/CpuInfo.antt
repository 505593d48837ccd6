-- ===== src/Linux/CpuInfo.antt =====
-- os/linux/linux_sigar.c: the list of processors that /proc/cpuinfo has, as it is built for other
-- machines than PowerPC.
pub mod Blocks
use re_co_mon_b.Base.{
  ℕ, zero, suc, ◌-◌, ◌/◌, ◌%◌, ◌^◌, Bool, true, false, ◌&&◌, ◌||◌, not, List, [], ◌∷◌, Option, none,
  some, Bytes, codes, ◌==◌, ltb, if◌then◌else◌, length, take, str_eq,
}
use re_co_mon_b.Libc.Number.{atoi32}
use re_co_mon_b.Libc.{split_at, strn_eq}
use re_co_mon_b.Linux.Run.{Run, done, fault, smashed, unset, unfinished, ◌>>=◌}
use re_co_mon_b.Linux.{strtoull, u32}
use re_co_mon_b.Ptql.Host.{Reply, got, failed}
use re_co_mon_b.Util.CpuModel.{cpu_model_adjust}
use re_co_mon_b.Util.Text.{skip_spaces}

-- `sigar_cpu_info_t`; an `int` is in two's complement.
pub record Info : Type 0 where
  pub vendor : Bytes
  pub model : Bytes
  pub mhz : ℕ
  pub cache_size : ℕ
  pub total_sockets : ℕ
  pub total_cores : ℕ
  pub cores_per_socket : ℕ

-- The sizes of `vendor` and `model`, and what a zero does that is written into the byte before or
-- behind one of them, which other members may have.
pub record Layout : Type 0 where
  pub vendor_size : ℕ
  pub model_size : ℕ
  pub before_vendor : Info → Info
  pub behind_vendor : Info → Info
  pub before_model : Info → Info
  pub behind_model : Info → Info

-- `cpu_info_strval`
unfoldable pub cpu_info_strval : Bytes → Option Bytes
unfolding split_at skip_spaces
cpu_info_strval ptr = elim (split_at b':' ptr) as (λ r. Option Bytes) [
  | none ↦ none
  | some (label, val) ↦ some (skip_spaces val)
]

-- A text whose end does not fit is not ended in its member.
abbrev pub copy_text :
    ℕ → (Info → Info) → (Info → Info) → (Info → Bytes → Info) → Info → Bytes → Run Info
copy_text len before behind set info text =
    let copied = behind (set info (take (length text - 1) text)) in
    if ltb (length text) len
    then if length text == 0 then done (before copied) else done copied
    else fault smashed

-- `cpu_info_strcpy` for a member of `len` bytes: the zero at `buf[len]` is always behind it, and
-- where the text is empty, the one at `buf[slen - 1]` is before it.
abbrev pub cpu_info_strcpy :
    ℕ → (Info → Info) → (Info → Info) → (Info → Bytes → Info) → Info → Option Bytes → Run Info
cpu_info_strcpy len before behind set info none = done info
cpu_info_strcpy len before behind set info (some text) = copy_text len before behind set info text

abbrev pub short_vendor : Layout → Info → Info
short_vendor lay info =
    if str_eq info.vendor (codes "GenuineIntel")
    then record info { vendor = take (lay.vendor_size - 1) (codes "Intel") }
    else if str_eq info.vendor (codes "AuthenticAMD")
    then record info { vendor = take (lay.vendor_size - 1) (codes "AMD") }
    else info

abbrev pub read_vendor : Layout → Info → Bytes → Run Info
read_vendor lay info ptr =
    cpu_info_strcpy lay.vendor_size lay.before_vendor lay.behind_vendor
      (λ i text. record i { vendor = text }) info (cpu_info_strval ptr)
    >>= λ i. done (short_vendor lay i)

abbrev pub read_model : Layout → Info → Bytes → Run Info
read_model lay info ptr =
    cpu_info_strcpy lay.model_size lay.before_model lay.behind_model
      (λ i text. record i { model = text }) info (cpu_info_strval ptr)
    >>= λ i. done (record i { model = cpu_model_adjust i.vendor i.model })

abbrev pub set_mhz : Info → Option Bytes → Run Info
set_mhz info none = fault unset
set_mhz info (some ptr) = done (record info { mhz = atoi32 ptr })

abbrev pub set_cache_size : Info → Option Bytes → Run Info
set_cache_size info none = fault unset
set_cache_size info (some ptr) = done (record info { cache_size = (strtoull ptr).0 })

abbrev pub has_label : Bytes → Bytes → Bool
has_label label ptr = strn_eq ptr label (length label)

-- What a line sets.
unfoldable pub read_line : Layout → Info → Bytes → Run Info
unfolding strn_eq cpu_info_strval cpu_model_adjust atoi32 strtoull
read_line lay info ptr =
    if has_label (codes "vendor") ptr
    then read_vendor lay info ptr
    else if has_label (codes "family") ptr
    then read_model lay info ptr
    else if has_label (codes "model name") ptr
    then read_model lay info ptr
    else if has_label (codes "cpu MHz") ptr
    then set_mhz info (cpu_info_strval ptr)
    else if has_label (codes "cache size") ptr
    then set_cache_size info (cpu_info_strval ptr)
    else done info

unfoldable pub is_processor : Bytes → Bool
unfolding strn_eq
is_processor ptr = has_label (codes "processor") ptr

-- A line feed at its start ends the processor.
unfoldable pub is_end : Bytes → Bool
is_end [] = false
is_end (c ∷ ptr) = c == 10

-- `found`, the processor, and the lines that are left.
abbrev pub Found : Type 0
Found = Bool × Info × List Bytes

unfoldable pub info_loop : Layout → Bool → Info → List Bytes → Run Found
info_loop lay found info [] = done (found, info, [])
info_loop lay found info (ptr ∷ lines) =
    if is_end ptr
    then done (found, info, lines)
    else (read_line lay info ptr >>= λ next. info_loop lay (found || is_processor ptr) next lines)

unfoldable pub get_cpu_info : Layout → Info → List Bytes → Run Found
unfolding info_loop is_end is_processor read_line
get_cpu_info lay info lines = info_loop lay false (record info { mhz = 0; cache_size = 0 }) lines

-- What `sigar_t` and the system have: whether processors are rolled up, `lcpu`, `ncpu`, the number
-- of sockets, the text of cpuinfo_max_freq of a processor, and the memory of the list's cells.
pub record System : Type 0 where
  pub core_rollup : Bool
  pub lcpu : ℕ
  pub ncpu : ℕ
  pub sockets : ℕ
  pub max_freq : ℕ → Reply Bytes
  pub cell : ℕ → Info

-- An `int` divided by 1000.
abbrev pub thousandth : ℕ → ℕ
thousandth n = if ltb n (2 ^ 31) then n / 1000 else (u32 - (u32 - n) / 1000) % u32

abbrev pub get_cpuinfo_max_freq : Info → Reply Bytes → Info
unfolding atoi32
get_cpuinfo_max_freq info (failed status) = info
get_cpuinfo_max_freq info (got max_freq) = record info { mhz = thousandth (atoi32 max_freq) }

-- A processor that the list keeps, by its place.
abbrev pub complete : System → ℕ → Info → Info
complete sys number info = record (get_cpuinfo_max_freq info (sys.max_freq number)) {
  total_cores = sys.ncpu;
  cores_per_socket = sys.lcpu;
  total_sockets = sys.sockets;
}

-- `core_rollup && (i++ % sigar->lcpu)`
abbrev pub is_folded : System → ℕ → Bool
is_folded sys i = sys.core_rollup && not (i % sys.lcpu == 0)

-- The loop, with `i`, the number of the list and the cell that is filled next.
unfoldable pub list_loop : Layout → System → ℕ → ℕ → ℕ → Info → List Bytes → Run (List Info)
list_loop lay sys zero i number info lines = fault unfinished
list_loop lay sys (suc fuel) i number info lines = get_cpu_info lay info lines >>= λ r.
    let folded = is_folded sys i in
    let rest =
      list_loop lay sys fuel (suc i) (if folded then number else suc number)
        (if folded then r.1 else sys.cell (suc number)) r.2 in
    if r.0
    then (rest >>= λ infos. done (if folded then infos else complete sys number r.1 ∷ infos))
    else done []

-- `sigar_cpu_info_list_get`, from the lines of /proc/cpuinfo.
unfoldable pub cpu_info_list_get : Layout → System → Reply (List Bytes) → Reply (Run (List Info))
unfolding list_loop get_cpu_info
cpu_info_list_get lay sys (failed errno) = failed errno
cpu_info_list_get lay sys (got lines) =
    got (list_loop lay sys (suc (length lines)) 0 0 (sys.cell 0) lines)
