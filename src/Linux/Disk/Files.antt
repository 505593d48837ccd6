-- ===== src/Linux/Disk/Files.antt =====
-- os/linux/linux_sigar.c: the usage of a disk in /proc/diskstats and in /proc/partitions.
use re_co_mon_b.Base.{
  ℕ, ◌*◌, ◌%◌, ◌&&◌, ◌||◌, List, [], ◌∷◌, Option, none, some, Bytes, ◌==◌, if◌then◌else◌,
}
use re_co_mon_b.Libc.Double.{Doubles}
use re_co_mon_b.Linux.Disk.{Usage, Device, Reading, Constants, scan_lus, no_device}
use re_co_mon_b.Linux.Run.{Run, done, fault, unset, ◌>>=◌}
use re_co_mon_b.Linux.{u64, strtoull}
use re_co_mon_b.Ptql.Host.{Reply, got, failed}
use re_co_mon_b.Util.Text.{skip_token}

module _ (d : Doubles) (k : Constants d) where
  abbrev pub sectors : ℕ → ℕ
  sectors n = n * 512 % u64

  -- What the numbers of a line of /proc/diskstats set, of which 4 or 11 are expected.
  unfoldable pub read_dstat : Usage d.Double → List ℕ → Run (Usage d.Double)
  read_dstat disk
        (rio ∷ rmerge ∷ rsect ∷ ruse ∷ wio ∷ wmerge ∷ wsect ∷ wuse ∷ running ∷ use_time ∷ aveq
          ∷ []) =
      done (record disk {
        rtime = ruse;
        wtime = wuse;
        time = use_time;
        qtime = aveq;
        reads = rio;
        writes = wio;
        read_bytes = sectors rsect;
        write_bytes = sectors wsect;
      })
  read_dstat disk (rio ∷ rsect ∷ wio ∷ wsect ∷ []) = done (record disk {
    time = k.notimpl;
    qtime = k.notimpl;
    reads = rio;
    writes = wio;
    read_bytes = sectors rsect;
    write_bytes = sectors wsect;
  })
  read_dstat disk (rio ∷ rmerge ∷ rsect ∷ ruse ∷ wio ∷ wmerge ∷ wsect ∷ more) = done (record disk {
    reads = rio;
    writes = wio;
    read_bytes = sectors rsect;
    write_bytes = sectors wsect;
  })
  read_dstat disk few = fault unset

  -- What a line's numbers do: `next` is given `disk` and `device_usage` for the lines that follow.
  abbrev pub on_dstat :
      ℕ
      → ℕ
      → Usage d.Double
      → Run (Usage d.Double)
      → (Usage d.Double → Usage d.Double → Run (Reading d.Double))
      → Run (Reading d.Double)
  on_dstat own_minor minor device_usage read next = read >>= λ disk.
      if minor == own_minor
      then done (record { device = none; disk = disk; device_usage = device_usage; status = 0 })
      else if minor == 0
      then next disk disk
      else next disk device_usage

  -- The loop, for the numbers of the device.
  unfoldable pub dstat_loop :
      ℕ × ℕ → Usage d.Double → Usage d.Double → List Bytes → Run (Reading d.Double)
  dstat_loop id disk device_usage [] =
      done (record { device = none; disk = disk; device_usage = device_usage; status = k.enoent })
  dstat_loop id disk device_usage (line ∷ lines) =
      let (major, ptr) = strtoull line in
      let (minor, ptr) = strtoull ptr in
      if major == id.0 && (minor == id.1 || minor == 0)
      then on_dstat id.1 minor device_usage (read_dstat disk (scan_lus 11 (skip_token ptr)))
          (λ disk device_usage. dstat_loop id disk device_usage lines)
      else dstat_loop id disk device_usage lines

  -- The part behind `stat`, or behind `fopen`, of a reader that goes through a file.
  abbrev pub on_lines :
      Usage d.Double
      → Device d.Double
      → (ℕ × ℕ → List Bytes → Run (Reading d.Double))
      → Reply (ℕ × ℕ)
      → Reply (List Bytes)
      → Run (Reading d.Double)
  on_lines disk dev loop (failed errno) lines =
      done (record { device = some dev; disk = disk; device_usage = k.init; status = errno })
  on_lines disk dev loop (got id) (failed errno) =
      done (record { device = some dev; disk = disk; device_usage = k.init; status = errno })
  on_lines disk dev loop (got id) (got lines) =
      loop id lines >>= λ r. done (record r { device = some dev })

  -- `get_iostat_proc_dstat`, from what `stat` gives for a name and the lines of /proc/diskstats.
  unfoldable pub get_iostat_proc_dstat :
      (Bytes → Reply (ℕ × ℕ))
      → Reply (List Bytes)
      → Usage d.Double
      → Option (Device d.Double)
      → Run (Reading d.Double)
  unfolding dstat_loop strtoull skip_token scan_lus read_dstat
  get_iostat_proc_dstat stat lines disk none = done (no_device d k disk)
  get_iostat_proc_dstat stat lines disk (some dev) =
      on_lines disk dev (λ id ls. dstat_loop id disk k.init ls) (stat dev.name) lines

  -- A line of /proc/partitions from its blocks on.
  unfoldable pub read_partition : Usage d.Double → Bytes → Usage d.Double
  unfolding strtoull skip_token
  read_partition disk ptr =
      let (reads, ptr) = strtoull (skip_token (skip_token ptr)) in
      let (read_bytes, ptr) = strtoull (skip_token ptr) in
      let (rtime, ptr) = strtoull ptr in
      let (writes, ptr) = strtoull ptr in
      let (write_bytes, ptr) = strtoull (skip_token ptr) in
      let (wtime, ptr) = strtoull ptr in
      let (time, ptr) = strtoull (skip_token ptr) in
      let (qtime, ptr) = strtoull ptr in
      record disk {
        reads = reads;
        read_bytes = sectors read_bytes;
        rtime = rtime;
        writes = writes;
        write_bytes = sectors write_bytes;
        wtime = wtime;
        time = time;
        qtime = qtime;
      }

  unfoldable pub procp_loop : ℕ × ℕ → Usage d.Double → List Bytes → Reading d.Double
  unfolding strtoull read_partition
  procp_loop id disk [] = record {
    device = none;
    disk = disk;
    device_usage = k.init;
    status = k.enoent;
  }
  procp_loop id disk (line ∷ lines) =
      let (major, ptr) = strtoull line in
      let (minor, ptr) = strtoull ptr in
      let rest = procp_loop id disk lines in
      if major == id.0 && minor == id.1
      then record {
        device = none;
        disk = read_partition disk ptr;
        device_usage = k.init;
        status = 0;
      }
      else rest

  abbrev pub behind_header : List Bytes → List Bytes
  behind_header [] = []
  behind_header (header ∷ lines) = lines

  -- `get_iostat_procp`, from what `stat` gives for a name and the lines of /proc/partitions.
  unfoldable pub get_iostat_procp :
      (Bytes → Reply (ℕ × ℕ))
      → Reply (List Bytes)
      → Usage d.Double
      → Option (Device d.Double)
      → Run (Reading d.Double)
  unfolding procp_loop
  get_iostat_procp stat lines disk none = done (no_device d k disk)
  get_iostat_procp stat lines disk (some dev) =
      on_lines disk dev (λ id ls. done (procp_loop id disk (behind_header ls))) (stat dev.name)
        lines
