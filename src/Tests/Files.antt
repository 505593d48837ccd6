-- ===== src/Tests/Files.antt =====
-- The theorems on the attributes of files at concrete inputs.
use re_co_mon_b.Base.{
  ℕ, ◌≡◌, refl, true, false, List, [], ◌∷◌, Bytes, codes, arith, ltb, ltb→lt, if◌then◌else◌, length,
  str_eq, Bool-cases, inl, inr,
}
use re_co_mon_b.FileInfo.Dir.{Files, sigar_dir_stat_get, sigar_dir_usage_get}
use re_co_mon_b.FileInfo.Dir.Counts.{RefusesLong, Counted, sigar_dir_usage_get-Counted}
use re_co_mon_b.FileInfo.Dir.Visited.{visited}
use re_co_mon_b.FileInfo.Perms.{
  PermBits, unix_mode2perms, file_attrs_mode_get, file_attrs_permissions_string_get,
}
use re_co_mon_b.FileInfo.Perms.Digits.{symbolic, file_attrs_mode_get-octal}
use re_co_mon_b.FileInfo.Stat.{Stat, ModeBits}
use re_co_mon_b.Ptql.Host.{Reply, got, failed}

-- Permissions in groups of four bits.
abbrev bits : PermBits
bits = record {
  uread = 10;
  uwrite = 9;
  uexecute = 8;
  gread = 6;
  gwrite = 5;
  gexecute = 4;
  wread = 2;
  wwrite = 1;
  wexecute = 0;
}

-- The mode 0644.
file_attrs_mode_get-octal_example :
    let permissions = unix_mode2perms bits 420 in
    (file_attrs_mode_get bits permissions ≡ 644)
    × (file_attrs_permissions_string_get bits permissions ≡ symbolic 420)
file_attrs_mode_get-octal_example = file_attrs_mode_get-octal bits 420 refl

abbrev linux : ModeBits
linux = record {
  s_ifmt = 61440;
  s_ifreg = 32768;
  s_ifdir = 16384;
  s_iflnk = 40960;
  s_ifchr = 8192;
  s_ifblk = 24576;
  s_ifsock = 49152;
  s_isfifo = λ mode. false;
}

abbrev file : ℕ → ℕ → Stat
file mode size = record {
  st_mode = mode;
  st_size = size;
  st_uid = 0;
  st_gid = 0;
  st_ino = 0;
  st_dev = 0;
  st_nlink = 1;
  st_atime = 0;
  st_mtime = 0;
  st_ctime = 0;
}

-- The directory "d" has a file and the directory "e", which has another file.
abbrev names_at : Bytes → Reply (List Bytes)
names_at path =
    if str_eq path (codes "d")
    then got (codes "." ∷ codes ".." ∷ codes "a" ∷ codes "e" ∷ [])
    else if str_eq path (codes "d/e")
    then got (codes "b" ∷ [])
    else failed 2

abbrev disk : Files
disk = record {
  modes = linux;
  lstat = λ path. if str_eq path (codes "d/e") then got (file 16877 10) else got (file 33188 100);
  readdir = λ path. if ltb (length path) 20 then names_at path else failed 36;
  path_max = 20;
}

disk-RefusesLong : RefusesLong disk
disk-RefusesLong path h = elim (Bool-cases (ltb (length path) 20)) [
  | inl short ↦ absurd (ground (arith, h, ltb→lt (length path) 20 short))
  | inr long ↦ (36, rw long)
]

sigar_dir_usage_get-Counted_example :
    Counted (sigar_dir_stat_get disk (codes "d")) (visited disk false 21 (codes "d"))
    × Counted (sigar_dir_usage_get disk (codes "d")) (visited disk true 21 (codes "d"))
sigar_dir_usage_get-Counted_example =
    sigar_dir_usage_get-Counted disk (codes "d")
      (codes "." ∷ codes ".." ∷ codes "a" ∷ codes "e" ∷ []) disk-RefusesLong (unfold str_eq in refl)
