-- ===== src/Linux/Disk/OwnLine.antt =====
-- os/linux/linux_sigar.c: which lines of /proc/diskstats give the usage of a partition.
use re_co_mon_b.Base.{
  ℕ, ◌-◌, ◌%◌, ◌≡◌, refl, ◌∙◌, Bool, true, false, not, ◌&&◌, ◌||◌, List, [], ◌∷◌, ◌++◌, some, Bytes,
  map, length, ltb, drop, none, ◌^◌, arith, ◌==◌, if◌then◌else◌, all_of, Bool-cases, inl, inr,
}
use re_co_mon_b.Libc.Double.{Doubles}
use re_co_mon_b.Libc.{is_digit, is_space}
use re_co_mon_b.Linux.Disk.Get.{System, iostat_diskstats, disk_usage_get, timed}
use re_co_mon_b.Linux.Disk.Files.{sectors, read_dstat, dstat_loop, get_iostat_proc_dstat, on_dstat}
use re_co_mon_b.Linux.Disk.{Usage, Device, Constants, scan_lus}
use re_co_mon_b.Linux.Fields.{IsWord, IsNumber, value, scan_number-cell, strtoull-cell, value-fits}
use re_co_mon_b.Linux.Run.{done}
use re_co_mon_b.Ptql.Host.{got}
use re_co_mon_b.Util.CpuModel.Mhz.{stops}
use re_co_mon_b.Util.Text.{skip_spaces, skip_word, skip_token}

-- Cells that a blank stands before, and what stands behind them.
abbrev pub cells : List Bytes → Bytes → Bytes
cells [] rest = rest
cells (w ∷ ws) rest = b' ' ∷ (w ++ cells ws rest)

abbrev pub AreNumbers : List Bytes → Type 0
AreNumbers [] = Unit
AreNumbers (w ∷ ws) = IsNumber w × AreNumbers ws

cells-stops : (ws : List Bytes) (rest : Bytes) → stops rest ≡ true → stops (cells ws rest) ≡ true
unfolding is_digit
cells-stops [] rest e = e
cells-stops (w ∷ ws) rest e = refl

scan_lus-cells :
    (ws : List Bytes) (rest : Bytes)
    → AreNumbers ws
    → stops rest ≡ true
    → scan_lus (length ws) (cells ws rest) ≡ map value ws
unfolding scan_lus
scan_lus-cells [] rest h e = refl
scan_lus-cells (w ∷ ws) rest h e =
    let small = value-fits w h.0 in
    let fits : ltb (2 ^ 64 - 1) (value w) ≡ false = ground (arith, small) in
    let whole : value w % 2 ^ 64 ≡ value w = omega (arith, small) in
    rw
      (
        scan_number-cell w (cells ws rest) h.0 (cells-stops ws rest e),
        fits,
        whole,
        scan_lus-cells ws rest h.1 e,
      )
      refl

skip_word-blank :
    (w rest : Bytes)
    → all_of (λ c. not (is_space c)) w ≡ true
    → skip_word (w ++ b' ' ∷ rest) ≡ b' ' ∷ rest
unfolding skip_word
skip_word-blank [] rest h = unfold is_space in refl
skip_word-blank (c ∷ w) rest h =
    let word : is_space c ≡ false = ground (arith, h) in
    rw word (skip_word-blank w rest (ground (arith, h)))

skip_token-cell : (w rest : Bytes) → IsWord w → skip_token (b' ' ∷ (w ++ b' ' ∷ rest)) ≡ b' ' ∷ rest
unfolding skip_token skip_spaces
skip_token-cell [] rest h = absurd h
skip_token-cell (c ∷ w) rest h =
    let word : is_space c ≡ false = ground (arith, h) in rw word (skip_word-blank (c ∷ w) rest h)

-- A line of /proc/diskstats, with what newer kernels write behind the eleven numbers.
pub record Line : Type 0 where
  pub major : Bytes
  pub minor : Bytes
  pub name : Bytes
  pub rio : Bytes
  pub rmerge : Bytes
  pub rsect : Bytes
  pub ruse : Bytes
  pub wio : Bytes
  pub wmerge : Bytes
  pub wsect : Bytes
  pub wuse : Bytes
  pub running : Bytes
  pub use_time : Bytes
  pub aveq : Bytes
  pub more : Bytes

abbrev pub numbers : Line → List Bytes
numbers l =
    l.rio ∷ l.rmerge ∷ l.rsect ∷ l.ruse ∷ l.wio ∷ l.wmerge ∷ l.wsect ∷ l.wuse ∷ l.running
    ∷ l.use_time ∷ l.aveq ∷ []

abbrev pub text : Line → Bytes
text l = cells (l.major ∷ l.minor ∷ l.name ∷ numbers l) l.more

abbrev pub IsLine : Line → Type 0
IsLine l = AreNumbers (l.major ∷ l.minor ∷ numbers l) × IsWord l.name × (stops l.more ≡ true)

abbrev pub is_of : ℕ → ℕ → Line → Bool
is_of major minor l = value l.major == major && value l.minor == minor

-- Lines of others.
abbrev pub AreOthers : ℕ → ℕ → List Line → Type 0
AreOthers major minor [] = Unit
AreOthers major minor (l ∷ ls) = IsLine l × (is_of major minor l ≡ false) × AreOthers major minor ls

module _ (d : Doubles) (k : Constants d) where
  -- The usage that a line tells.
  abbrev pub usage : Line → Usage d.Double
  usage l = record k.init {
    reads = value l.rio;
    rtime = value l.ruse;
    read_bytes = sectors d k (value l.rsect);
    writes = value l.wio;
    wtime = value l.wuse;
    write_bytes = sectors d k (value l.wsect);
    time = value l.use_time;
    qtime = value l.aveq;
  }

  -- What the last line of the device with the minor number 0 tells.
  abbrev pub last_whole : ℕ → Usage d.Double → List Line → Usage d.Double
  last_whole major device [] = device
  last_whole major device (l ∷ ls) =
      last_whole major (if is_of major 0 l then usage l else device) ls

  -- Every field that a line sets is set anew by the next.
  abbrev pub IsFresh : Usage d.Double → Type 0
  IsFresh disk = (l : Line) → read_dstat d k disk (map value (numbers l)) ≡ done (usage l)

  usage-IsFresh : (l : Line) → IsFresh (usage l)
  unfolding read_dstat
  usage-IsFresh l m = refl

  init-IsFresh : IsFresh k.init
  unfolding read_dstat
  init-IsFresh m = refl

  -- A round of the loop.
  dstat_loop-text :
      (id : ℕ × ℕ) (disk device : Usage d.Double) (l : Line) (lines : List Bytes)
      → IsLine l
      → IsFresh disk
      → dstat_loop d k id disk device (text l ∷ lines) ≡ (
          if value l.major == id.0 && (value l.minor == id.1 || value l.minor == 0)
          then on_dstat d k id.1
              (value l.minor)
              device
              (done (usage l))
              (λ disk device. dstat_loop d k id disk device lines)
          else dstat_loop d k id disk device lines)
  unfolding dstat_loop is_digit
  dstat_loop-text id disk device l lines ((major, (minor, ns)), word, e) fresh =
      rw
        (
          strtoull-cell l.major (cells (l.minor ∷ l.name ∷ numbers l) l.more) major refl,
          strtoull-cell l.minor (cells (l.name ∷ numbers l) l.more) minor refl,
          skip_token-cell l.name (l.rio ++ cells (drop 1 (numbers l)) l.more) word,
          scan_lus-cells (numbers l) l.more ns e,
          fresh l,
        )
        refl

  dstat_loop-own :
      (major minor : ℕ) (disk device : Usage d.Double) (pre : List Line) (own : Line)
      (post : List Bytes)
      → AreOthers major minor pre
      → IsLine own
      → is_of major minor own ≡ true
      → IsFresh disk
      → dstat_loop d k (major, minor) disk device (map text pre ++ text own ∷ post)
        ≡ done (record {
          device = none;
          disk = usage own;
          device_usage = last_whole major device pre;
          status = 0;
        })
  dstat_loop-own major minor disk device [] own post others line same fresh =
      let major_same : (value own.major == major) ≡ true = ground (arith, same) in
      let minor_same : (value own.minor == minor) ≡ true = ground (arith, same) in
      dstat_loop-text (major, minor) disk device own post line fresh
      ∙ rw (major_same, minor_same) refl
  dstat_loop-own major minor disk device (l ∷ pre) own post (first, other, others) line same fresh =
      let lines = map text pre ++ text own ∷ post in
      dstat_loop-text (major, minor) disk device l lines first fresh
      ∙ elim (Bool-cases (value l.major == major)) [
        | inl m ↦
            let not_own : (value l.minor == minor) ≡ false = ground (arith, other, m) in
            elim (Bool-cases (value l.minor == 0)) [
              | inl zeroth ↦
                  rw (m, not_own, zeroth)
                    (dstat_loop-own major minor (usage l) (usage l) pre own post others line same
                      (usage-IsFresh l))
              | inr nonzero ↦
                  rw (m, not_own, nonzero)
                    (dstat_loop-own major minor disk device pre own post others line same fresh)
            ]
        | inr m ↦ rw m (dstat_loop-own major minor disk device pre own post others line same fresh)
      ]

  -- A partition is found by its own numbers in /proc/diskstats, whatever lines stand around its
  -- line, if none before it has its numbers: the answer has the counts of that line, while its
  -- quotients, and all that is kept for the next call, are of the last line before it that has its
  -- major number and the minor number 0, also where that is another disk's, or what
  -- SIGAR_DISK_STATS_INIT sets if there is none.
  pub disk_usage_get-partition :
      (sys : System) (dev : Device d.Double) (pre : List Line) (own : Line) (post : List Bytes)
      (uptime : ℕ)
      → dev.is_partition ≡ true
      → sys.stat dev.name ≡ got (value own.major, value own.minor)
      → sys.diskstats ≡ got (map text pre ++ text own ∷ post)
      → sys.uptime ≡ some uptime
      → AreOthers (value own.major) (value own.minor) pre
      → IsLine own
      → let kept = timed d k uptime dev.disk (last_whole (value own.major) k.init pre) in
        disk_usage_get d k iostat_diskstats sys (some dev)
        ≡ done (
          some (record dev { disk = kept }),
          record (usage own) { service_time = kept.service_time; queue = kept.queue },
          0,
        )
  unfolding disk_usage_get get_iostat_proc_dstat
  disk_usage_get-partition sys dev pre own post uptime part id lines up others line =
      let same : is_of (value own.major) (value own.minor) own ≡ true = ground arith in
      rw
        (
          id,
          lines,
          dstat_loop-own (value own.major) (value own.minor) k.init k.init pre own post others line
              same init-IsFresh,
          part,
          up,
        )
        refl
