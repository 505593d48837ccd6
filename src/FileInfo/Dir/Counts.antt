-- ===== src/FileInfo/Dir/Counts.antt =====
-- sigar_fileinfo.c: the counting of a directory ends, and counts what can be visited.
use re_co_mon_b.Base.{
  ℕ, zero, suc, ◌+◌, ◌-◌, ◌%◌, ◌<◌, ◌≤◌, ◌≡◌, refl, ap, Bool, true, false, List, [], ◌∷◌, ◌++◌,
  Option, some, Bytes, arith, ◌==◌, Bool-cases, ltb, ltb→lt, inl, inr, length, length-append, take,
}
use re_co_mon_b.FileInfo.Dir.{
  Files, DirStat, is_dotdir, entry_path, on_some, descend_if, add_entry, dir_loop, sum_up, stats_of,
  finished, opened, dir_stat_get, zeroed, sigar_dir_stat_get, sigar_dir_usage_get,
}
use re_co_mon_b.FileInfo.Dir.Visited.{
  Visit, names_of, below_if, visit_entry, visit_names, visited, many_of, size_of, Fits, Adds,
  Adds-Fits, nothing-Adds, append-Adds, sum_up-Adds, tally-Adds,
}
use re_co_mon_b.FileInfo.FileType
use re_co_mon_b.FileInfo.Stat.{Stat, filetype_from_mode, u64}
use re_co_mon_b.Ptql.Host.{Reply, got, failed}

-- A run that ends, and has counted the visits.
record Done (s : DirStat) (o : Option DirStat) (visits : List Visit) : Type 0 where
  stats : DirStat
  ends : o ≡ some stats
  adds : Adds s stats visits

-- A recursive call below `dir`, which has a longer path.
abbrev Descends : Bytes → (Bytes → DirStat → Option DirStat) → (Bytes → List Visit) → Type 0
Descends dir descend below =
    (path : Bytes) (s : DirStat)
    → length dir < length path
    → Fits s
    → Done s (descend path s) (below path)

descend_if-Done :
    (is_dir recurse : Bool) (descend : DirStat → Option DirStat) (below : List Visit)
    {s m : DirStat} {v : Visit}
    → Adds s m (v ∷ [])
    → Done m (descend m) below
    → Done s (descend_if is_dir recurse descend m) (v ∷ below_if is_dir recurse below)
descend_if-Done true true descend below one d = record {
  stats = d.stats;
  ends = d.ends;
  adds = append-Adds one d.adds;
}
descend_if-Done true false descend below one d = record { stats = _; ends = refl; adds = one }
descend_if-Done false recurse descend below one d = record { stats = _; ends = refl; adds = one }

module _ (f : Files) (recurse : Bool) (descend : Bytes → DirStat → Option DirStat)
    (below : Bytes → List Visit) (dir : Bytes) (descends : Descends dir descend below) where
  add_entry-Done :
      (path : Bytes) (s : DirStat) (reply : Reply Stat)
      → length dir < length path
      → Fits s
      → Done s (add_entry f recurse descend path s reply) (visit_entry f recurse below path reply)
  unfolding add_entry visit_entry
  add_entry-Done path s (failed errno) longer h = record {
    stats = s;
    ends = refl;
    adds = nothing-Adds s h;
  }
  add_entry-Done path s (got info) longer h =
      let type = filetype_from_mode f.modes info.st_mode in
      let one = tally-Adds type info.st_size s h in
      let d = descends path _ longer (Adds-Fits one) in
      descend_if-Done (type == FileType.dir) recurse (descend path) (below path) one d

  longer : (name : Bytes) → length dir < length (entry_path f dir name)
  longer name = omega (arith, length-append dir (b'/' ∷ take (f.path_max - (length dir + 1)) name))

  on_some-Done :
      {s : DirStat} {o : Option DirStat} {visits more : List Visit} (k : DirStat → Option DirStat)
      → Done s o visits
      → ((m : DirStat) → Fits m → Done m (k m) more)
      → Done s (on_some o k) (visits ++ more)
  on_some-Done k d rest =
      let r = rest d.stats (Adds-Fits d.adds) in
      record { stats = r.stats; ends = rw d.ends r.ends; adds = append-Adds d.adds r.adds }

  dir_loop-Done :
      (names : List Bytes) (s : DirStat)
      → Fits s
      → Done s (dir_loop f recurse descend dir names s) (visit_names f recurse below dir names)
  unfolding dir_loop visit_names
  dir_loop-Done [] s h = record { stats = s; ends = refl; adds = nothing-Adds s h }
  dir_loop-Done (name ∷ names) s h =
      let path = entry_path f dir name in
      elim (Bool-cases (is_dotdir name)) [
        | inl dot ↦ rw dot (dir_loop-Done names s h)
        | inr entry ↦ rw entry (
            on_some-Done (dir_loop f recurse descend dir names)
              (add_entry-Done path s (f.lstat path) (longer name) h) (dir_loop-Done names))
      ]

-- The system opens no directory whose path has SIGAR_PATH_MAX bytes or more.
abbrev pub RefusesLong : Files → Type 0
RefusesLong f =
    (path : Bytes) → f.path_max ≤ length path → (errno : ℕ) × (f.readdir path ≡ failed errno)

short :
    (f : Files) (dir : Bytes) {names : List Bytes}
    → RefusesLong f
    → f.readdir dir ≡ got names
    → length dir < f.path_max
short f dir refuses e = elim (Bool-cases (ltb (length dir) f.path_max)) [
  | inl less ↦ ltb→lt (length dir) f.path_max less
  | inr more ↦
      let (errno, refused) = refuses dir (ground (arith, more)) in ground (arith, e, refused)
]

opened-Done :
    (f : Files) (recurse : Bool) (loop : List Bytes → Option DirStat) (below : Bytes → List Visit)
    (dir : Bytes) (s : DirStat) (reply : Reply (List Bytes))
    → Fits s
    → ((names : List Bytes)
        → reply ≡ got names
        → Done s (loop names) (visit_names f recurse below dir names))
    → Done s (stats_of (opened loop s reply)) (visit_names f recurse below dir (names_of reply))
opened-Done f recurse loop below dir s (failed errno) h done =
    unfold visit_names in record { stats = s; ends = refl; adds = nothing-Adds s h }
opened-Done f recurse loop below dir s (got names) h done =
    let d = done names refl in
    record {
      stats = sum_up d.stats;
      ends = ap (λ o. stats_of (finished o)) d.ends;
      adds = sum_up-Adds d.adds;
    }

-- Every call has a path longer than its caller's, so there is fuel until `opendir` refuses.
dir_stat_get-Done :
    (f : Files) (recurse : Bool) (fuel : ℕ) (dir : Bytes) (s : DirStat)
    → RefusesLong f
    → 0 < fuel
    → f.path_max < fuel + length dir
    → Fits s
    → Done s (stats_of (dir_stat_get f recurse fuel dir s)) (visited f recurse fuel dir)
unfolding dir_stat_get visited
dir_stat_get-Done f recurse zero dir s refuses more enough h = absurd (omega (arith, more))
dir_stat_get-Done f recurse (suc fuel) dir s refuses more enough h =
    opened-Done f recurse _ (visited f recurse fuel) dir s (f.readdir dir) h (λ names e.
      let fits = short f dir refuses e in
      dir_loop-Done f recurse (λ path st. stats_of (dir_stat_get f recurse fuel path st))
        (visited f recurse fuel) dir
        (λ path st behind k.
          dir_stat_get-Done f recurse fuel path st refuses (omega (arith, fits, enough))
            (omega (arith, behind, enough)) k)
        names s h)

-- A run that succeeds with these counts; the total leaves out what is none of the six kinds.
pub record Counted (o : Option (ℕ × DirStat)) (visits : List Visit) : Type 0 where
  pub stats : DirStat
  pub ends : o ≡ some (0, stats)
  pub files : stats.files ≡ many_of FileType.reg visits % u64
  pub subdirs : stats.subdirs ≡ many_of FileType.dir visits % u64
  pub symlinks : stats.symlinks ≡ many_of FileType.lnk visits % u64
  pub chrdevs : stats.chrdevs ≡ many_of FileType.chr visits % u64
  pub blkdevs : stats.blkdevs ≡ many_of FileType.blk visits % u64
  pub sockets : stats.sockets ≡ many_of FileType.sock visits % u64
  pub disk_usage : stats.disk_usage ≡ size_of visits % u64
  pub total :
      stats.total
      ≡ (many_of FileType.reg visits
          + many_of FileType.dir visits
          + many_of FileType.lnk visits
          + many_of FileType.chr visits
          + many_of FileType.blk visits
          + many_of FileType.sock visits)
        % u64

zeroed-Fits : Fits zeroed
zeroed-Fits = record {
  files = omega arith;
  subdirs = omega arith;
  symlinks = omega arith;
  chrdevs = omega arith;
  blkdevs = omega arith;
  sockets = omega arith;
  disk_usage = omega arith;
}

dir_stat_get-Counted :
    (f : Files) (recurse : Bool) (dir : Bytes) (names : List Bytes)
    → RefusesLong f
    → f.readdir dir ≡ got names
    → Counted
        (dir_stat_get f recurse (suc f.path_max) dir zeroed)
        (visited f recurse (suc f.path_max) dir)
unfolding dir_stat_get visited
dir_stat_get-Counted f recurse dir names refuses e =
    let fits = short f dir refuses e in
    let d =
      dir_loop-Done f recurse (λ path st. stats_of (dir_stat_get f recurse f.path_max path st))
        (visited f recurse f.path_max) dir
        (λ path st behind k.
          dir_stat_get-Done f recurse f.path_max path st refuses (omega (arith, fits))
            (omega (arith, behind)) k)
        names zeroed zeroed-Fits in
    let a = d.adds in
    rw e (record {
      stats = sum_up d.stats;
      ends = ap finished d.ends;
      files = omega (arith, a.files);
      subdirs = omega (arith, a.subdirs);
      symlinks = omega (arith, a.symlinks);
      chrdevs = omega (arith, a.chrdevs);
      blkdevs = omega (arith, a.blkdevs);
      sockets = omega (arith, a.sockets);
      disk_usage = omega (arith, a.disk_usage);
      total = omega (arith, a.files, a.subdirs, a.symlinks, a.chrdevs, a.blkdevs, a.sockets);
    })

-- Where a directory can be opened, and the system opens none whose path has SIGAR_PATH_MAX bytes
-- or more, both `sigar_dir_stat_get` and `sigar_dir_usage_get` end with success; they count under
-- each of six kinds, in 64 bits, the entries of that kind and add up the sizes of all entries, the
-- former those of the directory, the latter also those below it, where a directory that cannot be
-- opened has none; the total is that of the six kinds.
pub sigar_dir_usage_get-Counted :
    (f : Files) (dir : Bytes) (names : List Bytes)
    → RefusesLong f
    → f.readdir dir ≡ got names
    → Counted (sigar_dir_stat_get f dir) (visited f false (suc f.path_max) dir)
      × Counted (sigar_dir_usage_get f dir) (visited f true (suc f.path_max) dir)
unfolding sigar_dir_stat_get sigar_dir_usage_get
sigar_dir_usage_get-Counted f dir names refuses e = (
  dir_stat_get-Counted f false dir names refuses e,
  dir_stat_get-Counted f true dir names refuses e,
)
