-- ===== src/Linux/Disk.antt =====
-- os/linux/linux_sigar.c: the usage of disks, of which kernels tell in one of three places, and its
-- reading in /sys.
pub mod Files
pub mod Twice
pub mod Get
pub mod OwnLine
use re_co_mon_b.Base.{
  ℕ, zero, suc, ◌+◌, ◌-◌, ◌*◌, ◌%◌, ◌^◌, Bool, not, List, [], ◌∷◌, ◌++◌, Option, none, some, Bytes,
  codes, if◌then◌else◌, length, take, drop,
}
use re_co_mon_b.Libc.Double.{Doubles}
use re_co_mon_b.Libc.Number.{scan_number, wrap, range_unsigned}
use re_co_mon_b.Libc.Radix.{strtoull_base}
use re_co_mon_b.Libc.{is_digit, strn_eq}
use re_co_mon_b.Linux.Run.{Run, done, fault, overrun, ◌>>=◌}
use re_co_mon_b.Linux.{u32, strtoull}
use re_co_mon_b.Ptql.Host.{Reply, got, failed}
use re_co_mon_b.Util.Text.{skip_token}

-- `sigar_disk_usage_t`
pub record Usage (D : Type 0) : Type 0 where
  pub reads : ℕ
  pub writes : ℕ
  pub read_bytes : ℕ
  pub write_bytes : ℕ
  pub rtime : ℕ
  pub wtime : ℕ
  pub qtime : ℕ
  pub time : ℕ
  pub snaptime : ℕ
  pub service_time : D
  pub queue : D

-- `sigar_iodev_t`, which `sigar_iodev_get` gives a pointer to; what is written through it stays.
pub record Device (D : Type 0) : Type 0 where
  pub name : Bytes
  pub is_partition : Bool
  pub disk : Usage D

-- What a reader leaves: `*iodev`, `disk`, `device_usage` and the status.
pub record Reading (D : Type 0) : Type 0 where
  pub device : Option (Device D)
  pub disk : Usage D
  pub device_usage : Usage D
  pub status : ℕ

-- ENXIO, ENOENT, SIGAR_DEV_PREFIX, which has no digit, SIGAR_FIELD_NOTIMPL as a counter and as a
-- number with fraction, HZ, what SIGAR_DISK_STATS_INIT sets, 1000.0, and the text of an `int`.
pub record Constants (d : Doubles) : Type 0 where
  pub enxio : ℕ
  pub enoent : ℕ
  pub dev_prefix : Bytes
  pub notimpl : ℕ
  pub notimpl_dbl : d.Double
  pub hz : d.Double
  pub init : Usage d.Double
  pub thousand : d.Double
  pub decimal : ℕ → Bytes

-- `while (!sigar_isdigit(*fsdev)) fsdev++`: what stands before the digit, and from it on.
unfoldable pub to_digit : Bytes → Run (Bytes × Bytes)
unfolding is_digit
to_digit [] = fault overrun
to_digit (c ∷ fsdev) =
    let rest = to_digit fsdev >>= λ p. done (c ∷ p.0, p.1) in
    if is_digit c then done ([], c ∷ fsdev) else rest

-- `sscanf` with as many `%lu`: the numbers up to the first that is not there.
unfoldable pub scan_lus : ℕ → Bytes → List ℕ
unfolding scan_number
scan_lus zero ptr = []
scan_lus (suc count) ptr =
    let r = scan_number ptr in
    let number = if range_unsigned r then 2 ^ 64 - 1 else wrap 64 r.negative r.magnitude in
    let rest = number ∷ scan_lus count r.rest in if r.found then rest else []

module _ (d : Doubles) (k : Constants d) where
  -- A name without SIGAR_DEV_PREFIX.
  abbrev pub strip_dev : Bytes → Bytes
  unfolding strn_eq
  strip_dev name =
      if strn_eq name k.dev_prefix (length k.dev_prefix)
      then drop (length k.dev_prefix) name
      else name

  -- "/sys/block/%s/%s%d/stat", in a buffer of 1025 bytes.
  abbrev pub sys_path : Bytes → ℕ → Bytes
  sys_path name partition =
      take 1024
        (codes "/sys/block/" ++ name ++ b'/' ∷ (name ++ (k.decimal partition ++ codes "/stat")))

  -- No device, ENXIO.
  abbrev pub no_device : Usage d.Double → Reading d.Double
  no_device disk = record { device = none; disk = disk; device_usage = k.init; status = k.enxio }

  unfoldable pub read_sys : Usage d.Double → Bytes → Usage d.Double
  unfolding skip_token strtoull
  read_sys disk dev =
      let (reads, after) = strtoull (skip_token dev) in
      record disk {
        reads = reads;
        writes = (strtoull (skip_token after)).0;
        read_bytes = k.notimpl;
        write_bytes = k.notimpl;
        queue = k.notimpl_dbl;
      }

  abbrev pub on_sys : Usage d.Double → Reply Bytes → Usage d.Double × ℕ
  unfolding read_sys
  on_sys disk (failed status) = (disk, status)
  on_sys disk (got dev) = (read_sys disk dev, 0)

  -- `get_iostat_sys` for a device, whose name it cuts at its first digit, in the cache's record;
  -- `file` is `sigar_file2str`.
  unfoldable pub get_iostat_sys :
      (Bytes → Reply Bytes) → Usage d.Double → Option (Device d.Double) → Run (Reading d.Double)
  unfolding to_digit strtoull_base on_sys strip_dev
  get_iostat_sys file disk none = done (no_device disk)
  get_iostat_sys file disk (some dev) = to_digit dev.name >>= λ p.
      let partition = (strtoull_base 0 p.1).0 % u32 in
      let (filled, status) = on_sys disk (file (sys_path (strip_dev p.0) partition)) in
      done (record {
        device = some (record dev { name = p.0 });
        disk = filled;
        device_usage = k.init;
        status = status;
      })
