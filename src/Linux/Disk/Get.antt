-- ===== src/Linux/Disk/Get.antt =====
-- os/linux/linux_sigar.c: `sigar_disk_usage_get`, which sets what a reader found against what the
-- last call for the same device left.
use re_co_mon_b.Base.{
  ℕ, ◌+◌, ◌-◌, ◌%◌, Bool, true, false, ◌&&◌, List, Option, none, some, Bytes, ◌==◌, if◌then◌else◌,
}
use re_co_mon_b.Libc.Double.{Doubles}
use re_co_mon_b.Linux.Disk.Files.{get_iostat_proc_dstat, get_iostat_procp}
use re_co_mon_b.Linux.Disk.{Usage, Device, Reading, Constants, get_iostat_sys}
use re_co_mon_b.Linux.Run.{Run, done, fault, unset, ◌>>=◌}
use re_co_mon_b.Linux.{u64}
use re_co_mon_b.Ptql.Host.{Reply}

pub data Iostat : Type 0 where
  iostat_none iostat_partitions iostat_diskstats iostat_sys : Iostat

-- What `sigar_os_open` chooses by the files that are there.
abbrev pub choose_iostat : Bool → Bool → Bool → Iostat
choose_iostat diskstats sys_block partitions =
    if diskstats
    then iostat_diskstats
    else if sys_block
    then iostat_sys
    else if partitions
    then iostat_partitions
    else iostat_none

abbrev pub is_diskstats : Iostat → Bool
is_diskstats iostat_none = false
is_diskstats iostat_partitions = false
is_diskstats iostat_diskstats = true
is_diskstats iostat_sys = false

-- What the function asks of others: `sigar_file2str`, `stat`, the lines of two files, and the
-- uptime in whole seconds, none if `sigar_uptime_get` fails.
pub record System : Type 0 where
  pub file : Bytes → Reply Bytes
  pub stat : Bytes → Reply (ℕ × ℕ)
  pub diskstats : Reply (List Bytes)
  pub partitions : Reply (List Bytes)
  pub uptime : Option ℕ

-- The difference of two `sigar_uint64_t`.
abbrev pub minus : ℕ → ℕ → ℕ
minus a b = (a + u64 - b) % u64

abbrev pub interval_of : ℕ → ℕ → ℕ
interval_of snaptime last = if last == 0 then snaptime else minus snaptime last

module _ (d : Doubles) (k : Constants d) where
  -- Two numbers of seconds or of operations, as a quotient.
  abbrev pub service_time_of : Usage d.Double → Usage d.Double → ℕ → d.Double
  service_time_of disk last interval =
      let ios = (minus disk.reads last.reads + minus disk.writes last.writes) % u64 in
      let tput = d.div (d.mul (d.of_u64 ios) k.hz) (d.of_u64 interval) in
      let util = d.mul (d.div (d.of_u64 (minus disk.time last.time)) (d.of_u64 interval)) k.hz in
      if disk.time == k.notimpl
      then k.notimpl_dbl
      else if d.is_zero tput
      then d.zero_dbl
      else d.div util tput

  abbrev pub queue_of : Usage d.Double → Usage d.Double → ℕ → d.Double
  queue_of disk last interval =
      if disk.qtime == k.notimpl
      then k.notimpl_dbl
      else d.div (d.div (d.of_u64 (minus disk.qtime last.qtime)) (d.of_u64 interval)) k.thousand

  -- `disk` with the uptime and the two quotients, against `iodev->disk`.
  abbrev pub timed : ℕ → Usage d.Double → Usage d.Double → Usage d.Double
  timed uptime last disk =
      let interval = interval_of uptime last.snaptime in
      record disk {
        snaptime = uptime;
        service_time = service_time_of disk last interval;
        queue = queue_of disk last interval;
      }

  -- The last part: the device, in which the usage is kept, and the caller's `disk`.
  abbrev pub keep :
      Bool
      → ℕ
      → Device d.Double
      → Usage d.Double
      → Usage d.Double
      → Device d.Double × Usage d.Double
  keep of_partition uptime dev disk device_usage =
      let kept = timed uptime dev.disk (if of_partition then device_usage else disk) in
      let own : Usage d.Double = record disk {
        service_time = kept.service_time;
        queue = kept.queue;
      } in
      (record dev { disk = kept }, if of_partition then own else kept)

  -- The result: the device as the cache has it, `disk` and the status.
  abbrev pub Result : Type 0
  Result = Option (Device d.Double) × Usage d.Double × ℕ

  abbrev pub with_uptime : Iostat → Option ℕ → Device d.Double → Reading d.Double → Run Result
  with_uptime iostat none dev r = fault unset
  with_uptime iostat (some uptime) dev r =
      let (kept, own) =
        keep (dev.is_partition && is_diskstats iostat) uptime dev r.disk r.device_usage in
      done (some kept, own, r.status)

  -- The part behind the `switch`.
  abbrev pub on_device :
      Iostat → Option ℕ → Option (Device d.Double) → Reading d.Double → Run Result
  on_device iostat uptime none r = done (none, r.disk, r.status)
  on_device iostat uptime (some dev) r =
      if r.status == 0 then with_uptime iostat uptime dev r else done (some dev, r.disk, r.status)

  -- The `switch`, for what `sigar_iodev_get` answers.
  abbrev pub get_iostat : Iostat → System → Option (Device d.Double) → Run (Reading d.Double)
  unfolding get_iostat_sys get_iostat_proc_dstat get_iostat_procp
  get_iostat iostat_sys sys iodev = get_iostat_sys d k sys.file k.init iodev
  get_iostat iostat_diskstats sys iodev =
      get_iostat_proc_dstat d k sys.stat sys.diskstats k.init iodev
  get_iostat iostat_partitions sys iodev = get_iostat_procp d k sys.stat sys.partitions k.init iodev
  get_iostat iostat_none sys iodev =
      done (record { device = none; disk = k.init; device_usage = k.init; status = k.enoent })

  unfoldable pub disk_usage_get : Iostat → System → Option (Device d.Double) → Run Result
  unfolding get_iostat
  disk_usage_get iostat sys iodev =
      get_iostat iostat sys iodev >>= λ r. on_device iostat sys.uptime r.device r
