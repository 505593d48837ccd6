-- ===== src/Linux/Net/Owner.antt =====
-- os/linux/linux_sigar.c: the process that has a port.
use re_co_mon_b.Base.{
  ℕ, Bool, true, false, ◌&&◌, ◌||◌, List, [], ◌∷◌, Option, none, some, Bytes, ◌==◌, if◌then◌else◌,
}
use re_co_mon_b.Libc.Number.{scan_number}
use re_co_mon_b.Libc.{is_digit}
use re_co_mon_b.Linux.Net.{Connection, Flags, NetFiles, net_connection_get}
use re_co_mon_b.Linux.Run.{Run, done, ◌>>=◌}
use re_co_mon_b.Ptql.Host.{Reply, got, failed}
use re_co_mon_b.Util.Procfs.{starts_digit, strtoul}

-- A process of /proc: the name of its directory, its user if `stat` finds it, and, if its directory
-- of files can be opened, their names with their inodes, if `stat` finds them.
pub record Process : Type 0 where
  pub name : Bytes
  pub uid : Option ℕ
  pub fds : Option (List (Bytes × Option ℕ))

abbrev pub is_inode : ℕ → Option ℕ → Bool
is_inode inode none = false
is_inode inode (some ino) = ino == inode

-- The loop over the files of a process.
unfoldable pub has_inode : ℕ → List (Bytes × Option ℕ) → Bool
unfolding is_digit
has_inode inode [] = false
has_inode inode ((name, ino) ∷ fds) =
    (starts_digit name && is_inode inode ino) || has_inode inode fds

abbrev pub has_fd : ℕ → Option (List (Bytes × Option ℕ)) → Bool
unfolding has_inode
has_fd inode none = false
has_fd inode (some fds) = has_inode inode fds

abbrev pub is_user : ℕ → Option ℕ → Bool
is_user uid none = false
is_user uid (some owner) = owner == uid

-- The loop over the processes: the pid, or 0.
unfoldable pub find_owner : ℕ → ℕ → List Process → ℕ
unfolding is_digit scan_number has_fd
find_owner uid inode [] = 0
find_owner uid inode (p ∷ procs) =
    let rest = find_owner uid inode procs in
    if starts_digit p.name && (is_user uid p.uid && has_fd inode p.fds)
    then strtoul p.name
    else rest

abbrev pub owner_in : ℕ → ℕ → Reply (List Process) → Reply ℕ
unfolding find_owner
owner_in uid inode (failed errno) = failed errno
owner_in uid inode (got procs) = got (find_owner uid inode procs)

-- What follows a walk that succeeds; the zeroed structure has port, user and inode 0.
abbrev pub owner_of : ℕ → Reply (List Process) → Option Connection → Reply ℕ
unfolding owner_in
owner_of port procs none = if port == 0 then owner_in 0 0 procs else got 0
owner_of port procs (some conn) =
    if conn.local_port == port then owner_in conn.uid conn.inode procs else got 0

abbrev pub owner_if : ℕ → Reply (List Process) → Option Connection × ℕ → Reply ℕ
unfolding owner_of
owner_if port procs (conn, status) = if status == 0 then owner_of port procs conn else failed status

-- `sigar_proc_port_get`: the pid, for the flags of a protocol with SIGAR_NETCONN_SERVER.
unfoldable pub proc_port_get : ℕ → ℕ → Flags → NetFiles → Reply (List Process) → Run (Reply ℕ)
unfolding net_connection_get owner_if
proc_port_get enoent port protocol files procs =
    net_connection_get enoent port (record protocol { client = false; server = true }) files
    >>= λ r. done (owner_if port procs r)
