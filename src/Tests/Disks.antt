-- ===== src/Tests/Disks.antt =====
-- The theorems on the usage of disks at concrete inputs.
use re_co_mon_b.Base.{
  ℕ, ◌≡◌, refl, false, true, List, [], ◌∷◌, ◌++◌, map, some, Bytes, codes, arith, ◌-◌, ◌^◌, Bool,
  ◌&&◌, ltb, all_of,
}
use re_co_mon_b.Libc.{is_digit, is_space}
use re_co_mon_b.Linux.Disk.Get.{System, iostat_sys, iostat_diskstats, disk_usage_get, timed}
use re_co_mon_b.Linux.Disk.OwnLine.{
  Line, text, usage, IsLine, AreNumbers, numbers, disk_usage_get-partition,
}
use re_co_mon_b.Linux.Disk.Twice.{kept_name, disk_usage_get-twice}
use re_co_mon_b.Linux.Disk.{Usage, Device, Constants}
use re_co_mon_b.Linux.Fields.{IsNumber, IsWord, value}
use re_co_mon_b.Util.CpuModel.Mhz.{are_digits}
use re_co_mon_b.Linux.Run.{done, fault, overrun, ◌>>=◌}
use re_co_mon_b.Ptql.Host.{got, failed}
use re_co_mon_b.Tests.Machine.{whole}

abbrev nothing : Usage ℕ
nothing = record {
  reads = 0;
  writes = 0;
  read_bytes = 0;
  write_bytes = 0;
  rtime = 0;
  wtime = 0;
  qtime = 0;
  time = 0;
  snaptime = 0;
  service_time = 0;
  queue = 0;
}

abbrev constants : Constants whole
constants = record {
  enxio = 6;
  enoent = 2;
  dev_prefix = codes "/dev/";
  notimpl = 2 ^ 64 - 1;
  notimpl_dbl = 2 ^ 64 - 1;
  hz = 100;
  init = nothing;
  thousand = 1000;
  decimal = λ n. b'1' ∷ [];
}

abbrev sdb1 : Device ℕ
sdb1 = record { name = codes "/dev/sdb1"; is_partition = true; disk = nothing }

abbrev line : Bytes → Bytes → Bytes → Line
line minor name count = record {
  major = codes "8";
  minor = minor;
  name = name;
  rio = count;
  rmerge = codes "0";
  rsect = codes "8";
  ruse = codes "1";
  wio = count;
  wmerge = codes "0";
  wsect = codes "8";
  wuse = codes "1";
  running = codes "0";
  use_time = codes "500";
  aveq = codes "9000";
  more = 10 ∷ [];
}

abbrev sda_line : Line
sda_line = line (codes "0") (codes "sda") (codes "70")

abbrev sdb_line : Line
sdb_line = line (codes "16") (codes "sdb") (codes "3")

abbrev sdb1_line : Line
sdb1_line = line (codes "17") (codes "sdb1") (codes "2")

abbrev system : System
system = record {
  file = λ path. got (codes "7 0 8 1 9");
  stat = λ name. got (8, 17);
  diskstats = got (map text (sda_line ∷ sdb_line ∷ []) ++ text sdb1_line ∷ []);
  partitions = failed 2;
  uptime = some 30;
}

abbrev is_number : Bytes → Bool
is_number [] = false
is_number (c ∷ w) = are_digits (c ∷ w) && ltb (value (c ∷ w)) (2 ^ 64)

is_number-IsNumber : (w : Bytes) → is_number w ≡ true → IsNumber w
is_number-IsNumber [] h = cc h
is_number-IsNumber (c ∷ w) h = (ground (arith, h), ground (arith, h))

all_of-AreNumbers : (ws : List Bytes) → all_of is_number ws ≡ true → AreNumbers ws
all_of-AreNumbers [] h = tt
all_of-AreNumbers (w ∷ ws) h =
    (is_number-IsNumber w (ground (arith, h)), all_of-AreNumbers ws (ground (arith, h)))

line-IsLine :
    (minor name count : Bytes)
    → is_number minor ≡ true
    → IsWord name
    → is_number count ≡ true
    → IsLine (line minor name count)
unfolding is_digit
line-IsLine minor name count m n c =
    let l = line minor name count in
    (all_of-AreNumbers (l.major ∷ l.minor ∷ numbers l) (rw (m, c) refl), n, refl)

-- /dev/sdb1 is on the second disk, but what is kept for it is of the first.
disk_usage_get-partition_example :
    let kept = timed whole constants 30 nothing (usage whole constants sda_line) in
    disk_usage_get whole constants iostat_diskstats system (some sdb1)
    ≡ done (
      some (record sdb1 { disk = kept }),
      record (usage whole constants sdb1_line) {
        service_time = kept.service_time;
        queue = kept.queue;
      },
      0,
    )
unfolding is_digit is_space
disk_usage_get-partition_example =
    disk_usage_get-partition whole constants system sdb1 (sda_line ∷ sdb_line ∷ []) sdb1_line [] 30
      refl refl refl refl
      (
        line-IsLine (codes "0") (codes "sda") (codes "70") refl refl refl,
        refl,
        (line-IsLine (codes "16") (codes "sdb") (codes "3") refl refl refl, refl, tt),
      )
      (line-IsLine (codes "17") (codes "sdb1") (codes "2") refl refl refl)

disk_usage_get-twice_example :
    let first = disk_usage_get whole constants iostat_sys system (some sdb1) in
    (kept_name whole constants first ≡ some (codes "/dev/sdb"))
    × ((first >>= λ r. disk_usage_get whole constants iostat_sys system r.0) ≡ fault overrun)
disk_usage_get-twice_example =
    disk_usage_get-twice whole constants system system sdb1 (codes "/dev/sdb") [] b'1' 30 refl
      (unfold is_digit in refl) (unfold is_digit in refl)
