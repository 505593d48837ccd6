-- ===== src/FileInfo/Stat.antt =====
-- sigar_fileinfo.c: the type and the attributes of a file from its `struct stat`, and the usage of
-- a file system.
use Prim.Native.Nat.{bit_and}
use re_co_mon_b.Base.{
  ℕ, ◌+◌, ◌-◌, ◌*◌, ◌/◌, ◌%◌, ◌^◌, Bool, List, [], ◌∷◌, Bytes, codes, ltb, ◌==◌, if◌then◌else◌,
  get_or,
}
use re_co_mon_b.FileInfo.FileType
use re_co_mon_b.FileInfo.Perms.{PermBits, unix_mode2perms}
use re_co_mon_b.Ptql.Host.{Reply, got, failed}

abbrev pub u64 : ℕ
u64 = 2 ^ 64

-- `types`
abbrev pub types : List Bytes
types =
    codes "none"
    ∷ codes "regular"
    ∷ codes "directory"
    ∷ codes "character device"
    ∷ codes "block device"
    ∷ codes "pipe"
    ∷ codes "symbolic link"
    ∷ codes "socket"
    ∷ codes "unknown"
    ∷ []

-- `sigar_file_attrs_type_string_get`; a type below SIGAR_FILETYPE_NOFILE is a large number.
unfoldable pub file_attrs_type_string_get : ℕ → Bytes
file_attrs_type_string_get type =
    get_or types (if ltb FileType.unkfile type then FileType.unkfile else type) []

-- `struct stat`, as far as it is read, with times of at least 0.
pub record Stat : Type 0 where
  pub st_mode : ℕ
  pub st_size : ℕ
  pub st_uid : ℕ
  pub st_gid : ℕ
  pub st_ino : ℕ
  pub st_dev : ℕ
  pub st_nlink : ℕ
  pub st_atime : ℕ
  pub st_mtime : ℕ
  pub st_ctime : ℕ

-- The C library's S_IFMT and S_IF*, and S_ISFIFO, which the code uses as S_IFFIFO is not defined.
pub record ModeBits : Type 0 where
  pub s_ifmt : ℕ
  pub s_ifreg : ℕ
  pub s_ifdir : ℕ
  pub s_iflnk : ℕ
  pub s_ifchr : ℕ
  pub s_ifblk : ℕ
  pub s_ifsock : ℕ
  pub s_isfifo : ℕ → Bool

unfoldable pub filetype_from_mode : ModeBits → ℕ → ℕ
filetype_from_mode k mode =
    let format = bit_and mode k.s_ifmt in
    if format == k.s_ifreg
    then FileType.reg
    else if format == k.s_ifdir
    then FileType.dir
    else if format == k.s_iflnk
    then FileType.lnk
    else if format == k.s_ifchr
    then FileType.chr
    else if format == k.s_ifblk
    then FileType.blk
    else if format == k.s_ifsock
    then FileType.sock
    else if k.s_isfifo mode
    then FileType.pipe
    else FileType.unkfile

-- `sigar_file_attrs_t`
pub record FileAttrs : Type 0 where
  pub permissions : ℕ
  pub type : ℕ
  pub uid : ℕ
  pub gid : ℕ
  pub inode : ℕ
  pub device : ℕ
  pub nlink : ℕ
  pub size : ℕ
  pub atime : ℕ
  pub ctime : ℕ
  pub mtime : ℕ

-- `copy_stat_info`, with the times in milliseconds.
unfoldable pub copy_stat_info : ModeBits → PermBits → Stat → FileAttrs
unfolding filetype_from_mode unix_mode2perms
copy_stat_info k m info = record {
  permissions = unix_mode2perms m info.st_mode;
  type = filetype_from_mode k info.st_mode;
  uid = info.st_uid;
  gid = info.st_gid;
  inode = info.st_ino;
  device = info.st_dev;
  nlink = info.st_nlink;
  size = info.st_size;
  atime = info.st_atime * 1000 % u64;
  ctime = info.st_ctime * 1000 % u64;
  mtime = info.st_mtime * 1000 % u64;
}

-- `sigar_file_attrs_get` where the reply is that of `stat`, `sigar_link_attrs_get` where it is that
-- of `lstat`: the structure or `errno`.
unfoldable pub file_attrs_get : ModeBits → PermBits → Reply Stat → Reply FileAttrs
unfolding copy_stat_info
file_attrs_get k m (failed errno) = failed errno
file_attrs_get k m (got info) = got (copy_stat_info k m info)

-- `struct statvfs`, as far as it is read.
pub record StatVfs : Type 0 where
  pub f_frsize : ℕ
  pub f_blocks : ℕ
  pub f_bfree : ℕ
  pub f_bavail : ℕ
  pub f_files : ℕ
  pub f_ffree : ℕ

-- The members of `sigar_file_system_usage_t` that are set.
pub record FsUsage : Type 0 where
  pub total : ℕ
  pub free : ℕ
  pub used : ℕ
  pub avail : ℕ
  pub files : ℕ
  pub free_files : ℕ

-- SIGAR_FS_BLOCKS_TO_BYTES, of blocks of 512 bytes; the result is in kilobytes.
abbrev pub blocks_to_bytes : ℕ → ℕ → ℕ
blocks_to_bytes val bsize = val * bsize % u64 / 2

unfoldable pub statvfs : Reply StatVfs → Reply FsUsage
statvfs (failed errno) = failed errno
statvfs (got buf) =
    let bsize = buf.f_frsize / 512 in
    let total = blocks_to_bytes buf.f_blocks bsize in
    let free = blocks_to_bytes buf.f_bfree bsize in
    got (record {
      total = total;
      free = free;
      used = (total + u64 - free) % u64;
      avail = blocks_to_bytes buf.f_bavail bsize;
      files = buf.f_files;
      free_files = buf.f_ffree;
    })
