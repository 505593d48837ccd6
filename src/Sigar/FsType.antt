-- ===== src/Sigar/FsType.antt =====
-- sigar.c: the types of file systems.
use re_co_mon_b.Base.{ℕ, List, [], ◌∷◌, Bytes, codes, leb, ◌==◌, if◌then◌else◌, get_or, str_eq}

-- The numbers of `sigar_file_system_type_e`, which index the table of names.
abbrev pub fstype_names : List Bytes
fstype_names =
    codes "unknown"
    ∷ codes "none"
    ∷ codes "local"
    ∷ codes "remote"
    ∷ codes "ram"
    ∷ codes "cdrom"
    ∷ codes "swap"
    ∷ []

abbrev pub fstype_none : ℕ
fstype_none = 1

abbrev pub fstype_local_disk : ℕ
fstype_local_disk = 2

abbrev pub fstype_network : ℕ
fstype_network = 3

abbrev pub fstype_cdrom : ℕ
fstype_cdrom = 5

abbrev pub fstype_swap : ℕ
fstype_swap = 6

abbrev pub fstype_max : ℕ
fstype_max = 7

-- A name and the type that it is set to.
pub record Named : Type 0 where
  pub name : Bytes
  pub type : ℕ

-- A case of the `switch` on the first letter.
pub record Case : Type 0 where
  pub label : ℕ
  pub names : List Named

abbrev known : Bytes → ℕ → Named
known name type = record { name = name; type = type }

abbrev pub cases : List Case
cases =
    record { label = b'n'; names = known (codes "nfs") fstype_network ∷ [] }
    ∷ record {
      label = b's';
      names = known (codes "smbfs") fstype_network ∷ known (codes "swap") fstype_swap ∷ [];
    }
    ∷ record { label = b'a'; names = known (codes "afs") fstype_network ∷ [] }
    ∷ record { label = b'i'; names = known (codes "iso9660") fstype_cdrom ∷ [] }
    ∷ record {
      label = b'c';
      names = known (codes "cvfs") fstype_local_disk ∷ known (codes "cifs") fstype_network ∷ [];
    }
    ∷ record {
      label = b'm';
      names =
          known (codes "msdos") fstype_local_disk ∷ known (codes "minix") fstype_local_disk ∷ [];
    }
    ∷ record { label = b'h'; names = known (codes "hpfs") fstype_local_disk ∷ [] }
    ∷ record {
      label = b'v';
      names = known (codes "vxfs") fstype_local_disk ∷ known (codes "vfat") fstype_local_disk ∷ [];
    }
    ∷ record { label = b'z'; names = known (codes "zfs") fstype_local_disk ∷ [] }
    ∷ []

unfoldable pub try_names : ℕ → Bytes → List Named → ℕ
unfolding str_eq
try_names type name [] = type
try_names type name (k ∷ ks) = if str_eq name k.name then k.type else try_names type name ks

abbrev first : Bytes → ℕ
first [] = 0
first (c ∷ s) = c

unfoldable pub switch : ℕ → Bytes → List Case → ℕ
unfolding try_names
switch type name [] = type
switch type name (k ∷ ks) =
    if first name == k.label then try_names type name k.names else switch type name ks

-- `sigar_common_fs_type_get`: the type of a name, or the type that stood there.
unfoldable pub common_fs_type_get : ℕ → Bytes → ℕ
unfolding switch
common_fs_type_get type name = switch type name cases

-- `sigar_file_system_t`, as far as it is read.
pub record FileSystem : Type 0 where
  pub type : ℕ
  pub sys_type_name : Bytes
  pub type_name : Bytes

abbrev or_none : ℕ → ℕ
or_none type = if leb fstype_max type then fstype_none else type

-- `sigar_fs_type_get`; `os_type` is `sigar_os_fs_type_get` of the platform, from the type and the
-- name to the type that it sets and returns.
unfoldable pub fs_type_get : (ℕ → Bytes → ℕ) → FileSystem → FileSystem
unfolding common_fs_type_get
fs_type_get os_type fsp =
    let by_os = os_type fsp.type fsp.sys_type_name in
    let by_name = common_fs_type_get by_os fsp.sys_type_name in
    let type =
      if fsp.type == 0
      then if by_os == 0 then if by_name == 0 then fstype_none else by_name else by_os
      else fsp.type in
    record fsp { type = or_none type; type_name = get_or fstype_names (or_none type) [] }
