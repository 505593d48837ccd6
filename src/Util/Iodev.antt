-- ===== src/Util/Iodev.antt =====
-- sigar_util.c: `sigar_iodev_get`, the device that a directory or a device name stands for, which
-- a cache remembers by the device's id.
pub mod First
use re_co_mon_b.Base.{
  ℕ, ◌-◌, Bool, true, false, List, [], ◌∷◌, ◌++◌, Option, none, some, Bytes, ◌==◌, if◌then◌else◌,
  length, take,
}
use re_co_mon_b.Cache.{Table, new, get, find, store}
use re_co_mon_b.Cache.Values.{value_at}
use re_co_mon_b.Libc.{strn_eq}
use re_co_mon_b.Ptql.Host.{Reply, got, failed}

-- `sigar_iodev_t`, as far as it is set.
pub record Iodev : Type 0 where
  pub name : Bytes
  pub is_partition : Bool

-- `sigar_file_system_t`, as far as it is read; `is_local` says that its type is
-- SIGAR_FSTYPE_LOCAL_DISK.
pub record FileSystem : Type 0 where
  pub dir_name : Bytes
  pub dev_name : Bytes
  pub is_local : Bool

-- What the function asks of others: SIGAR_FSDEV_ID of what `stat` answers, the file systems that
-- are listed, SIGAR_DEV_PREFIX, and the size of the buffers for names.
pub record Disks : Type 0 where
  pub stat : Bytes → Option ℕ
  pub file_systems : Reply (List FileSystem)
  pub dev_prefix : Bytes
  pub name_len : ℕ

-- SIGAR_NAME_IS_DEV
abbrev pub name_is_dev : Disks → Bytes → Bool
name_is_dev d name = strn_eq name d.dev_prefix (length d.dev_prefix)

-- SIGAR_SSTRCPY into a name.
abbrev pub bounded : Disks → Bytes → Bytes
bounded d name = take (d.name_len - 1) name

abbrev pub is_absolute : Bytes → Bool
is_absolute [] = false
is_absolute (c ∷ dirname) = c == b'/'

-- `dirname` and `is_dev` after the first test.
abbrev pub full_name : Disks → Bytes → Bytes
full_name d dirname = if is_absolute dirname then dirname else bounded d (d.dev_prefix ++ dirname)

unfoldable pub is_dev : Disks → Bytes → Bool
unfolding strn_eq
is_dev d dirname = if is_absolute dirname then name_is_dev d dirname else true

-- The rest of a round of the loop, by the value that the entry of `id` has.
abbrev pub fill_device : Disks → FileSystem → ℕ → Table Iodev → Option Iodev → Table Iodev
fill_device d fs id t (some old) = t
fill_device d fs id t none =
    if name_is_dev d fs.dev_name
    then store t id (record { name = bounded d fs.dev_name; is_partition = true })
    else t

-- A round where `stat` answered.
abbrev pub with_id : Disks → FileSystem → Table Iodev → Option ℕ → Table Iodev
with_id d fs t none = t
with_id d fs t (some id) = let (found, ent) = get t id in fill_device d fs id found ent.value

unfoldable pub map_device : Disks → FileSystem → Table Iodev → Table Iodev
unfolding get store strn_eq
map_device d fs t = if fs.is_local then with_id d fs t (d.stat fs.dir_name) else t

unfoldable pub map_devices : Disks → List FileSystem → Table Iodev → Table Iodev
unfolding map_device
map_devices d [] t = t
map_devices d (fs ∷ fslist) t = map_devices d fslist (map_device d fs t)

abbrev pub has_name : Bytes → Bool
has_name [] = false
has_name (c ∷ name) = true

-- The last test: a device with a name.
abbrev pub named : Option Iodev → Option Iodev
named none = none
named (some iodev) = if has_name iodev.name then some iodev else none

-- The part behind `is_dev`, which goes through the file systems.
unfoldable pub from_list :
    Disks → Table Iodev → ℕ → Reply (List FileSystem) → Table Iodev × Option Iodev
unfolding map_devices find
from_list d t id (failed status) = (t, none)
from_list d t id (got fslist) =
    let mapped = map_devices d fslist t in (mapped, named (value_at (find mapped id)))

-- The part behind `sigar_cache_get`, by the value of the entry.
unfoldable pub from_entry :
    Disks → Bytes → Table Iodev → ℕ → Option Iodev → Table Iodev × Option Iodev
unfolding from_list store is_dev
from_entry d dirname t id (some iodev) = (t, some iodev)
from_entry d dirname t id none =
    let iodev : Iodev = record { name = bounded d (full_name d dirname); is_partition = false } in
    if is_dev d dirname then (store t id iodev, some iodev) else from_list d t id d.file_systems

abbrev pub fsdev_cache : Option (Table Iodev) → Table Iodev
fsdev_cache none = new 15
fsdev_cache (some t) = t

abbrev pub by_id : Disks → Bytes → Table Iodev → Option ℕ → Table Iodev × Option Iodev
by_id d dirname t none = (t, none)
by_id d dirname t (some id) =
    let (found, entry) = get t id in from_entry d dirname found id entry.value

-- `sigar_iodev_get`: the cache `sigar->fsdev` after it, and the device or NULL.
unfoldable pub iodev_get : Disks → Option (Table Iodev) → Bytes → Table Iodev × Option Iodev
unfolding get from_entry new
iodev_get d fsdev dirname = by_id d dirname (fsdev_cache fsdev) (d.stat (full_name d dirname))
