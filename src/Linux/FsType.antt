-- ===== src/Linux/FsType.antt =====
-- os/linux/linux_sigar.c: the types of file systems that Linux knows, and the list of what is
-- mounted.
use re_co_mon_b.Base.{
  ℕ, ◌-◌, Bool, List, [], ◌∷◌, Bytes, codes, ◌==◌, if◌then◌else◌, length, map, str_eq, take,
}
use re_co_mon_b.Libc.{strn_eq}
use re_co_mon_b.Ptql.Host.{Reply, got, failed}
use re_co_mon_b.Sigar.FsType.{fstype_local_disk, FileSystem, fs_type_get}

-- A test of a case: `strnEQ(type, name, n)` for the name's length, or `strEQ(type, name)`.
pub data Test : Type 0 where
  prefix exact : Bytes → Test

-- A case of the `switch` on the first letter; what it finds is on a local disk.
pub record Case : Type 0 where
  pub label : ℕ
  pub tests : List Test

abbrev pub linux_cases : List Case
linux_cases =
    record { label = b'e'; tests = prefix (codes "ext") ∷ [] }
    ∷ record { label = b'g'; tests = exact (codes "gfs") ∷ [] }
    ∷ record { label = b'h'; tests = exact (codes "hpfs") ∷ [] }
    ∷ record { label = b'j'; tests = prefix (codes "jfs") ∷ [] }
    ∷ record { label = b'o'; tests = prefix (codes "ocfs") ∷ [] }
    ∷ record { label = b'p'; tests = prefix (codes "psfs") ∷ [] }
    ∷ record { label = b'r'; tests = exact (codes "reiserfs") ∷ [] }
    ∷ record { label = b'v'; tests = exact (codes "vzfs") ∷ [] }
    ∷ record { label = b'x'; tests = exact (codes "xfs") ∷ exact (codes "xiafs") ∷ [] }
    ∷ []

unfoldable pub passes : Bytes → Test → Bool
unfolding strn_eq str_eq
passes type (prefix name) = strn_eq type name (length name)
passes type (exact name) = str_eq type name

unfoldable pub try_tests : ℕ → Bytes → List Test → ℕ
unfolding passes
try_tests old type [] = old
try_tests old type (t ∷ ts) = if passes type t then fstype_local_disk else try_tests old type ts

abbrev first : Bytes → ℕ
first [] = 0
first (c ∷ s) = c

unfoldable pub linux_switch : ℕ → Bytes → List Case → ℕ
unfolding try_tests
linux_switch old type [] = old
linux_switch old type (k ∷ ks) =
    if first type == k.label then try_tests old type k.tests else linux_switch old type ks

-- `sigar_os_fs_type_get`, from the type and the name.
unfoldable pub os_fs_type_get : ℕ → Bytes → ℕ
unfolding linux_switch
os_fs_type_get old type = linux_switch old type linux_cases

-- `struct mntent`
pub record Mount : Type 0 where
  pub mnt_dir : Bytes
  pub mnt_fsname : Bytes
  pub mnt_type : Bytes
  pub mnt_opts : Bytes

-- `sigar_file_system_t`
pub record Mounted : Type 0 where
  pub dir_name : Bytes
  pub dev_name : Bytes
  pub options : Bytes
  pub fs : FileSystem

-- `SIGAR_SSTRCPY` to a buffer of the size.
abbrev pub copied : ℕ → Bytes → Bytes
copied size s = take (size - 1) s

-- The sizes of the buffers, which a header gives.
pub record Sizes : Type 0 where
  pub dir_name : ℕ
  pub dev_name : ℕ
  pub sys_type_name : ℕ
  pub options : ℕ

-- A round of the loop.
unfoldable pub mounted : Sizes → Mount → Mounted
unfolding fs_type_get os_fs_type_get
mounted sizes ent = record {
  dir_name = copied sizes.dir_name ent.mnt_dir;
  dev_name = copied sizes.dev_name ent.mnt_fsname;
  options = copied sizes.options ent.mnt_opts;
  fs = fs_type_get os_fs_type_get (record {
    type = 0;
    sys_type_name = copied sizes.sys_type_name ent.mnt_type;
    type_name = [];
  });
}

-- `sigar_file_system_list_get`, from the entries that `getmntent_r` gives, or why they cannot be
-- read.
unfoldable pub file_system_list_get : Sizes → Reply (List Mount) → Reply (List Mounted)
unfolding mounted
file_system_list_get sizes (failed errno) = failed errno
file_system_list_get sizes (got entries) = got (map (mounted sizes) entries)
