-- ===== src/Tests/Helpers.antt =====
-- The theorems on devices, arguments, clock rates, interfaces and signals at concrete inputs.
use re_co_mon_b.Base.{
  true, ◌≡◌, refl, List, [], ◌∷◌, none, some, codes, arith, or_else, if◌then◌else◌, str_eq,
}
use re_co_mon_b.Cache.{find}
use re_co_mon_b.Cache.Values.{value_at}
use re_co_mon_b.Libc.{is_digit}
use re_co_mon_b.Ptql.Host.{got, failed}
use re_co_mon_b.Sigar.Interfaces.{Config, Network}
use re_co_mon_b.Signal.{Defined}
use re_co_mon_b.Tests.Machine.{room_for}
use re_co_mon_b.Util.CpuModel.{cpu_mhz_from_model}
use re_co_mon_b.Util.CpuModel.Mhz.{cpu_mhz_from_model-units}
use re_co_mon_b.Util.Iodev.{Iodev, FileSystem, Disks, fsdev_cache, is_dev, named, iodev_get}
use re_co_mon_b.Util.Iodev.First.{first_device, iodev_get-first}
use re_co_mon_b.Util.Procfs.{Errnos}

-- The root is on a memory disk and on /dev/sda1, in this order.
abbrev fslist : List FileSystem
fslist =
    record { dir_name = codes "/"; dev_name = codes "rootfs"; is_local = true }
    ∷ record { dir_name = codes "/"; dev_name = codes "/dev/sda1"; is_local = true }
    ∷ []

abbrev disks : Disks
disks = record {
  stat = λ path. if str_eq path (codes "/") then some 2049 else none;
  file_systems = got fslist;
  dev_prefix = codes "/dev/";
  name_len = 64;
}

iodev_get-first_example :
    let (t, answer) = iodev_get disks none (codes "/") in
    (answer
      ≡ or_else (value_at (find (fsdev_cache none) 2049)) (named (first_device disks 2049 fslist)))
    × ((v : Iodev)
        → answer ≡ some v
        → (iodev_get (record disks { file_systems = failed 5 }) (some t) (codes "/")).1 ≡ some v)
iodev_get-first_example =
    iodev_get-first disks none (codes "/") 2049 fslist (failed 5)
      (room_for 15 (omega arith) (omega arith) (omega arith)) (unfold str_eq in refl)
      (unfold is_dev in refl) refl

abbrev errnos : Errnos
errnos = record { enoent = 2; esrch = 3 }

-- A clock rate of one digit behind the dot, or of none, is misread.
cpu_mhz_from_model-units_example :
    (cpu_mhz_from_model (codes "Xeon 2MHz") ≡ 2)
    × (cpu_mhz_from_model (codes "Xeon 2GHz") ≡ 20)
    × (cpu_mhz_from_model (codes "Xeon 2.4GHz") ≡ 2040)
cpu_mhz_from_model-units_example =
    cpu_mhz_from_model-units (codes "Xeon") b'2' [] b'4' [] [] refl (unfold is_digit in refl)
      (unfold is_digit in refl) (omega arith, omega arith)

abbrev lo : Config
lo = record { flags = 73; hwaddr = 1; address = 1 }

abbrev eth : Config
eth = record { flags = 67; hwaddr = 99; address = 7 }

abbrev network : Network
network = record {
  interfaces = got (codes "lo" ∷ codes "eth0" ∷ []);
  config = λ name. if str_eq name (codes "lo") then got lo else got eth;
  iff_loopback = 8;
  enxio = 6;
}

abbrev linux : Defined
linux name = if str_eq name (codes "HUP") then some 1 else none
