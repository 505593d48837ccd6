-- ===== src/Util/Procfs.antt =====
-- sigar_util.c: the reading of /proc, from what the system's calls answer.
pub mod Args
use re_co_mon_b.Base.{
  ℕ, zero, suc, ◌+◌, ◌-◌, ◌%◌, ◌^◌, Bool, false, List, [], ◌∷◌, Option, none, some, Bytes, ◌==◌,
  if◌then◌else◌, length,
}
use re_co_mon_b.Libc.Number.{scan_number, wrap, range_unsigned}
use re_co_mon_b.Libc.{is_digit}
use re_co_mon_b.Ptql.Host.{Reply, got, failed}

-- The statuses ENOENT and ESRCH.
pub record Errnos : Type 0 where
  pub enoent : ℕ
  pub esrch : ℕ

abbrev pub no_process : Errnos → ℕ → ℕ
no_process e status = if status == e.enoent then e.esrch else status

-- `sigar_proc_file2str`, from what `sigar_file2str` answers for the name of the file.
unfoldable pub proc_file2str : Errnos → Reply Bytes → Reply Bytes
proc_file2str e (failed status) = failed (no_process e status)
proc_file2str e (got buffer) = got buffer

abbrev pub starts_digit : Bytes → Bool
unfolding is_digit
starts_digit [] = false
starts_digit (c ∷ name) = is_digit c

-- `strtoul(s, NULL, 10)`; out of range it answers the greatest number.
abbrev pub strtoul : Bytes → ℕ
unfolding scan_number
strtoul s =
    let r = scan_number s in if range_unsigned r then 2 ^ 64 - 1 else wrap 64 r.negative r.magnitude

-- The loop of `sigar_proc_list_procfs_get` over the names in /proc.
unfoldable pub pids_of : List Bytes → List ℕ
unfolding starts_digit strtoul
pids_of [] = []
pids_of (name ∷ names) =
    let rest = pids_of names in if starts_digit name then strtoul name ∷ rest else rest

unfoldable pub proc_list_procfs_get : Reply (List Bytes) → Reply (List ℕ)
unfolding pids_of
proc_list_procfs_get (failed errno) = failed errno
proc_list_procfs_get (got names) = got (pids_of names)

-- The loop of `sigar_proc_fd_count` over the names in /proc/<pid>/fd.
unfoldable pub count_fds : List Bytes → ℕ
unfolding starts_digit
count_fds [] = 0
count_fds (name ∷ names) =
    let rest = count_fds names in if starts_digit name then rest + 1 else rest

unfoldable pub proc_fd_count : Reply (List Bytes) → Reply ℕ
unfolding count_fds
proc_fd_count (failed errno) = failed errno
proc_fd_count (got names) = got (count_fds names % 2 ^ 64)

-- The argument at `ptr` and what stands behind its zero byte, or behind the end of the buffer.
unfoldable pub cut_arg : Bytes → Bytes × Bytes
cut_arg [] = ([], [])
cut_arg (c ∷ buf) = let (arg, rest) = cut_arg buf in if c == 0 then ([], buf) else (c ∷ arg, rest)

abbrev pub add_arg : Bytes → Option (List Bytes) → Option (List Bytes)
add_arg arg none = none
add_arg arg (some args) = some (arg ∷ args)

-- `while (total > 0)` of `sigar_procfs_args_get`, on fuel.
unfoldable pub args_loop : ℕ → Bytes → Option (List Bytes)
unfolding cut_arg
args_loop fuel [] = some []
args_loop zero (c ∷ buf) = none
args_loop (suc fuel) (c ∷ buf) =
    let (arg, rest) = cut_arg (c ∷ buf) in add_arg arg (args_loop fuel rest)

-- `sigar_procfs_args_get`, from what reading /proc/<pid>/cmdline gives. Every round takes a byte.
unfoldable pub procfs_args_get : Errnos → Reply Bytes → Reply (Option (List Bytes))
unfolding args_loop
procfs_args_get e (failed errno) = failed (no_process e errno)
procfs_args_get e (got buf) = got (args_loop (length buf) buf)
