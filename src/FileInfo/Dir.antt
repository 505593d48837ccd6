-- ===== src/FileInfo/Dir.antt =====
-- sigar_fileinfo.c: the counting of the entries of a directory, and of those below it.
pub mod Visited
pub mod Counts
use re_co_mon_b.Base.{
  ℕ, zero, suc, ◌+◌, ◌-◌, ◌%◌, ◌^◌, Bool, true, false, List, [], ◌∷◌, ◌++◌, Option, none, some,
  Bytes, ◌==◌, if◌then◌else◌, length, take,
}
use re_co_mon_b.FileInfo.FileType
use re_co_mon_b.FileInfo.Stat.{Stat, ModeBits, filetype_from_mode, u64}
use re_co_mon_b.Ptql.Host.{Reply, got, failed}

-- The system's files: what `lstat` answers, the names that `opendir` and `readdir` give, and
-- SIGAR_PATH_MAX.
pub record Files : Type 0 where
  pub modes : ModeBits
  pub lstat : Bytes → Reply Stat
  pub readdir : Bytes → Reply (List Bytes)
  pub path_max : ℕ

-- `sigar_dir_stat_t`; the members have 64 bits.
pub record DirStat : Type 0 where
  pub total : ℕ
  pub files : ℕ
  pub subdirs : ℕ
  pub symlinks : ℕ
  pub chrdevs : ℕ
  pub blkdevs : ℕ
  pub sockets : ℕ
  pub disk_usage : ℕ

-- IS_DOTDIR
abbrev pub is_dotdir : Bytes → Bool
is_dotdir (c ∷ []) = c == b'.'
is_dotdir (c ∷ d ∷ []) = if c == b'.' then d == b'.' else false
is_dotdir _ = false

-- The path of an entry. The code appends a slash in any case, since it looks for one where the
-- directory's name has ended, and cuts the path at SIGAR_PATH_MAX bytes. Directories of that
-- length or more, which overrun the buffer, are not modelled.
abbrev pub entry_path : Files → Bytes → Bytes → Bytes
entry_path f dir name = dir ++ b'/' ∷ take (f.path_max - (length dir + 1)) name

abbrev pub next : ℕ → ℕ
next n = (n + 1) % u64

-- The `switch` on the type, without the recursion.
abbrev pub tally : ℕ → DirStat → DirStat
tally type s =
    if type == FileType.reg
    then record s { files = next s.files }
    else if type == FileType.dir
    then record s { subdirs = next s.subdirs }
    else if type == FileType.lnk
    then record s { symlinks = next s.symlinks }
    else if type == FileType.chr
    then record s { chrdevs = next s.chrdevs }
    else if type == FileType.blk
    then record s { blkdevs = next s.blkdevs }
    else if type == FileType.sock
    then record s { sockets = next s.sockets }
    else record s { total = next s.total }

abbrev pub on_some {ℓ κ} : {A : Type ℓ} {B : Type κ} → Option A → (A → Option B) → Option B
on_some none f = none
on_some (some a) f = f a

-- `if (recurse)` in the case of a directory.
abbrev pub descend_if : Bool → Bool → (DirStat → Option DirStat) → DirStat → Option DirStat
descend_if true true descend s = descend s
descend_if _ _ descend s = some s

-- A round from `lstat` on; `descend` is the recursive call, whose status is only logged.
unfoldable pub add_entry :
    Files
    → Bool
    → (Bytes → DirStat → Option DirStat)
    → Bytes
    → DirStat
    → Reply Stat
    → Option DirStat
unfolding filetype_from_mode
add_entry f recurse descend path s (failed errno) = some s
add_entry f recurse descend path s (got info) =
    let type = filetype_from_mode f.modes info.st_mode in
    let counted = tally type (record s { disk_usage = (s.disk_usage + info.st_size) % u64 }) in
    descend_if (type == FileType.dir) recurse (descend path) counted

-- The loop over the names.
unfoldable pub dir_loop :
    Files
    → Bool
    → (Bytes → DirStat → Option DirStat)
    → Bytes
    → List Bytes
    → DirStat
    → Option DirStat
unfolding add_entry
dir_loop f recurse descend dir [] s = some s
dir_loop f recurse descend dir (name ∷ names) s =
    let path = entry_path f dir name in
    let round =
      if is_dotdir name then some s else add_entry f recurse descend path s (f.lstat path) in
    on_some round (dir_loop f recurse descend dir names)

-- The assignment behind the loop.
abbrev pub sum_up : DirStat → DirStat
sum_up s = record s {
  total = (s.files + s.subdirs + s.symlinks + s.chrdevs + s.blkdevs + s.sockets) % u64;
}

abbrev pub stats_of : Option (ℕ × DirStat) → Option DirStat
stats_of none = none
stats_of (some (status, s)) = some s

abbrev pub finished : Option DirStat → Option (ℕ × DirStat)
finished none = none
finished (some s) = some (0, sum_up s)

-- The body from `opendir` on, where `loop` is the loop over the names.
abbrev pub opened :
    (List Bytes → Option DirStat) → DirStat → Reply (List Bytes) → Option (ℕ × DirStat)
opened loop s (failed errno) = some (errno, s)
opened loop s (got names) = finished (loop names)

-- `dir_stat_get` on fuel: the status and the counts.
unfoldable pub dir_stat_get : Files → Bool → ℕ → Bytes → DirStat → Option (ℕ × DirStat)
unfolding dir_loop
dir_stat_get f recurse zero dir s = none
dir_stat_get f recurse (suc fuel) dir s =
    let descend : Bytes → DirStat → Option DirStat =
      λ path st. stats_of (dir_stat_get f recurse fuel path st) in
    opened (λ names. dir_loop f recurse descend dir names s) s (f.readdir dir)

-- `SIGAR_ZERO(dirstats)`.
abbrev pub zeroed : DirStat
zeroed = record {
  total = 0;
  files = 0;
  subdirs = 0;
  symlinks = 0;
  chrdevs = 0;
  blkdevs = 0;
  sockets = 0;
  disk_usage = 0;
}

-- `sigar_dir_stat_get` and `sigar_dir_usage_get`. Every directory that is entered has a longer
-- path than the one before, so one round more than the longest path is enough fuel.
unfoldable pub sigar_dir_stat_get : Files → Bytes → Option (ℕ × DirStat)
unfolding dir_stat_get
sigar_dir_stat_get f dir = dir_stat_get f false (suc f.path_max) dir zeroed

unfoldable pub sigar_dir_usage_get : Files → Bytes → Option (ℕ × DirStat)
unfolding dir_stat_get
sigar_dir_usage_get f dir = dir_stat_get f true (suc f.path_max) dir zeroed
