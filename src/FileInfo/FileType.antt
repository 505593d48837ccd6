-- ===== src/FileInfo/FileType.antt =====
-- sigar_fileinfo.c: the types of files, SIGAR_FILETYPE_*, in the order of the table of names.
use re_co_mon_b.Base.{ℕ}

abbrev pub nofile : ℕ
nofile = 0

abbrev pub reg : ℕ
reg = 1

abbrev pub dir : ℕ
dir = 2

abbrev pub chr : ℕ
chr = 3

abbrev pub blk : ℕ
blk = 4

abbrev pub pipe : ℕ
pipe = 5

abbrev pub lnk : ℕ
lnk = 6

abbrev pub sock : ℕ
sock = 7

abbrev pub unkfile : ℕ
unkfile = 8
