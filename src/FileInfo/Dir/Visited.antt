-- ===== src/FileInfo/Dir/Visited.antt =====
-- sigar_fileinfo.c: the entries that the counting of a directory visits.
use re_co_mon_b.Base.{
  ℕ, zero, suc, ◌+◌, ◌%◌, ◌<◌, ◌≡◌, Bool, true, List, [], ◌∷◌, ◌++◌, Bytes, arith, ◌==◌,
  if◌then◌else◌, count_if,
}
use re_co_mon_b.FileInfo.Dir.{Files, DirStat, is_dotdir, entry_path, tally, sum_up}
use re_co_mon_b.FileInfo.FileType
use re_co_mon_b.FileInfo.Stat.{Stat, filetype_from_mode, u64}
use re_co_mon_b.Ptql.Host.{Reply, got, failed}

-- The type and the size of an entry.
pub record Visit : Type 0 where
  pub type : ℕ
  pub size : ℕ

abbrev pub names_of : Reply (List Bytes) → List Bytes
names_of (failed errno) = []
names_of (got names) = names

abbrev pub below_if : Bool → Bool → List Visit → List Visit
below_if true true visits = visits
below_if _ _ visits = []

-- An entry that `lstat` knows and, under a directory, what is below it where that counts.
unfoldable pub visit_entry : Files → Bool → (Bytes → List Visit) → Bytes → Reply Stat → List Visit
visit_entry f recurse below path (failed errno) = []
visit_entry f recurse below path (got info) =
    let type = filetype_from_mode f.modes info.st_mode in
    record { type = type; size = info.st_size }
    ∷ below_if (type == FileType.dir) recurse (below path)

unfoldable pub visit_names : Files → Bool → (Bytes → List Visit) → Bytes → List Bytes → List Visit
unfolding visit_entry
visit_names f recurse below dir [] = []
visit_names f recurse below dir (name ∷ names) =
    let path = entry_path f dir name in
    (if is_dotdir name then [] else visit_entry f recurse below path (f.lstat path))
    ++ visit_names f recurse below dir names

-- The entries of a directory, down to so many levels; one that cannot be opened has none.
unfoldable pub visited : Files → Bool → ℕ → Bytes → List Visit
unfolding visit_names
visited f recurse zero dir = []
visited f recurse (suc levels) dir =
    visit_names f recurse (visited f recurse levels) dir (names_of (f.readdir dir))

abbrev pub many_of : ℕ → List Visit → ℕ
many_of type visits = count_if (λ v. v.type == type) visits

abbrev pub size_of : List Visit → ℕ
size_of [] = 0
size_of (v ∷ visits) = v.size + size_of visits

-- Counts within 64 bits.
pub record Fits (s : DirStat) : Type 0 where
  pub files : s.files < u64
  pub subdirs : s.subdirs < u64
  pub symlinks : s.symlinks < u64
  pub chrdevs : s.chrdevs < u64
  pub blkdevs : s.blkdevs < u64
  pub sockets : s.sockets < u64
  pub disk_usage : s.disk_usage < u64

-- The counts `r`, which are those of `s` with the visits added, all but the total.
pub record Adds (s r : DirStat) (visits : List Visit) : Type 0 where
  pub files : r.files ≡ (s.files + many_of FileType.reg visits) % u64
  pub subdirs : r.subdirs ≡ (s.subdirs + many_of FileType.dir visits) % u64
  pub symlinks : r.symlinks ≡ (s.symlinks + many_of FileType.lnk visits) % u64
  pub chrdevs : r.chrdevs ≡ (s.chrdevs + many_of FileType.chr visits) % u64
  pub blkdevs : r.blkdevs ≡ (s.blkdevs + many_of FileType.blk visits) % u64
  pub sockets : r.sockets ≡ (s.sockets + many_of FileType.sock visits) % u64
  pub disk_usage : r.disk_usage ≡ (s.disk_usage + size_of visits) % u64

pub Adds-Fits : {s r : DirStat} {visits : List Visit} → Adds s r visits → Fits r
Adds-Fits a = record {
  files = omega (arith, a.files);
  subdirs = omega (arith, a.subdirs);
  symlinks = omega (arith, a.symlinks);
  chrdevs = omega (arith, a.chrdevs);
  blkdevs = omega (arith, a.blkdevs);
  sockets = omega (arith, a.sockets);
  disk_usage = omega (arith, a.disk_usage);
}

pub nothing-Adds : (s : DirStat) → Fits s → Adds s s []
nothing-Adds s h = record {
  files = omega (arith, h.files);
  subdirs = omega (arith, h.subdirs);
  symlinks = omega (arith, h.symlinks);
  chrdevs = omega (arith, h.chrdevs);
  blkdevs = omega (arith, h.blkdevs);
  sockets = omega (arith, h.sockets);
  disk_usage = omega (arith, h.disk_usage);
}

many_of-append :
    (type : ℕ) (visits more : List Visit)
    → many_of type (visits ++ more) ≡ many_of type visits + many_of type more
many_of-append type [] more = omega arith
many_of-append type (v ∷ visits) more = omega (arith, many_of-append type visits more)

size_of-append :
    (visits more : List Visit) → size_of (visits ++ more) ≡ size_of visits + size_of more
size_of-append [] more = omega arith
size_of-append (v ∷ visits) more = omega (arith, size_of-append visits more)

pub append-Adds :
    {s m r : DirStat} {visits more : List Visit}
    → Adds s m visits
    → Adds m r more
    → Adds s r (visits ++ more)
append-Adds {visits = v} {more = w} a b = record {
  files = omega (arith, a.files, b.files, many_of-append FileType.reg v w);
  subdirs = omega (arith, a.subdirs, b.subdirs, many_of-append FileType.dir v w);
  symlinks = omega (arith, a.symlinks, b.symlinks, many_of-append FileType.lnk v w);
  chrdevs = omega (arith, a.chrdevs, b.chrdevs, many_of-append FileType.chr v w);
  blkdevs = omega (arith, a.blkdevs, b.blkdevs, many_of-append FileType.blk v w);
  sockets = omega (arith, a.sockets, b.sockets, many_of-append FileType.sock v w);
  disk_usage = omega (arith, a.disk_usage, b.disk_usage, size_of-append v w);
}

pub sum_up-Adds : {s r : DirStat} {visits : List Visit} → Adds s r visits → Adds s (sum_up r) visits
sum_up-Adds a = record {
  files = a.files;
  subdirs = a.subdirs;
  symlinks = a.symlinks;
  chrdevs = a.chrdevs;
  blkdevs = a.blkdevs;
  sockets = a.sockets;
  disk_usage = a.disk_usage;
}

pub tally-Adds :
    (type size : ℕ) (s : DirStat)
    → Fits s
    → Adds s
        (tally type (record s { disk_usage = (s.disk_usage + size) % u64 }))
        (record { type = type; size = size } ∷ [])
tally-Adds type size s h = record {
  files = ground (arith, h.files);
  subdirs = ground (arith, h.subdirs);
  symlinks = ground (arith, h.symlinks);
  chrdevs = ground (arith, h.chrdevs);
  blkdevs = ground (arith, h.blkdevs);
  sockets = ground (arith, h.sockets);
  disk_usage = ground (arith, h.disk_usage);
}
