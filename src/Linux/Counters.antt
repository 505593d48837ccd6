-- ===== src/Linux/Counters.antt =====
-- os/linux/linux_sigar.c: lines of counters in /proc/net: TCP, NFS and the network interfaces.
pub mod Lines
use re_co_mon_b.Base.{
  ℕ, zero, suc, ◌-◌, Bool, List, [], ◌∷◌, ◌++◌, Option, none, some, Bytes, codes, if◌then◌else◌,
  length, str_eq,
}
use re_co_mon_b.Libc.{split_at, strn_eq}
use re_co_mon_b.Linux.{strtoull}
use re_co_mon_b.Ptql.Host.{Reply, got, failed}
use re_co_mon_b.Util.Text.{skip_spaces, skip_multiple_token}

-- The members of a structure with what each is set to, in the order in which the code sets them.
abbrev pub Members : Type 0
Members = List (Bytes × ℕ)

-- One `sigar_strtoull(ptr)` for each member: the members, and where `ptr` is left.
unfoldable pub read_members : List Bytes → Bytes → Members × Bytes
read_members [] ptr = ([], ptr)
read_members (name ∷ names) ptr =
    let (number, after) = strtoull ptr in
    let (rest, end) = read_members names after in ((name, number) ∷ rest, end)

-- `sigar_tcp_t`
abbrev pub tcp_members : List Bytes
tcp_members =
    codes "active_opens"
    ∷ codes "passive_opens"
    ∷ codes "attempt_fails"
    ∷ codes "estab_resets"
    ∷ codes "curr_estab"
    ∷ codes "in_segs"
    ∷ codes "out_segs"
    ∷ codes "retrans_segs"
    ∷ codes "in_errs"
    ∷ codes "out_rsts"
    ∷ []

abbrev pub has_prefix : Bytes → Bytes → Bool
unfolding strn_eq
has_prefix line prefix = strn_eq line prefix (length prefix)

abbrev pub first : List Bytes → Option Bytes
first [] = none
first (line ∷ lines) = some line

-- The line behind the first that begins with "Tcp: ".
unfoldable pub tcp_line : List Bytes → Option Bytes
unfolding has_prefix
tcp_line [] = none
tcp_line (line ∷ lines) =
    let rest = tcp_line lines in if has_prefix line (codes "Tcp: ") then first lines else rest

abbrev pub read_tcp : ℕ → Option Bytes → Reply Members
unfolding skip_multiple_token
read_tcp enoent none = failed enoent
read_tcp enoent (some ptr) = got (read_members tcp_members (skip_multiple_token ptr 5)).0

-- `sigar_tcp_get`, from the lines of /proc/net/snmp, with SIGAR_ENOENT.
unfoldable pub tcp_get : ℕ → Reply (List Bytes) → Reply Members
unfolding tcp_line read_tcp read_members strtoull skip_multiple_token
tcp_get enoent (failed errno) = failed errno
tcp_get enoent (got lines) = read_tcp enoent (tcp_line lines)

-- `sigar_nfs_v2_t`
abbrev pub nfs_v2_members : List Bytes
nfs_v2_members =
    codes "null"
    ∷ codes "getattr"
    ∷ codes "setattr"
    ∷ codes "root"
    ∷ codes "lookup"
    ∷ codes "readlink"
    ∷ codes "read"
    ∷ codes "writecache"
    ∷ codes "write"
    ∷ codes "create"
    ∷ codes "remove"
    ∷ codes "rename"
    ∷ codes "link"
    ∷ codes "symlink"
    ∷ codes "mkdir"
    ∷ codes "rmdir"
    ∷ codes "readdir"
    ∷ codes "fsstat"
    ∷ []

-- `sigar_nfs_v3_t`
abbrev pub nfs_v3_members : List Bytes
nfs_v3_members =
    codes "null"
    ∷ codes "getattr"
    ∷ codes "setattr"
    ∷ codes "lookup"
    ∷ codes "access"
    ∷ codes "readlink"
    ∷ codes "read"
    ∷ codes "write"
    ∷ codes "create"
    ∷ codes "mkdir"
    ∷ codes "symlink"
    ∷ codes "mknod"
    ∷ codes "remove"
    ∷ codes "rmdir"
    ∷ codes "rename"
    ∷ codes "link"
    ∷ codes "readdir"
    ∷ codes "readdirplus"
    ∷ codes "fsstat"
    ∷ codes "fsinfo"
    ∷ codes "pathconf"
    ∷ codes "commit"
    ∷ []

-- The statuses ENOENT, ENXIO and SIGAR_ENOTIMPL.
pub record Statuses : Type 0 where
  pub enoent : ℕ
  pub enxio : ℕ
  pub enotimpl : ℕ

-- The loop of `sigar_proc_nfs_gets`.
unfoldable pub find_line : Bytes → List Bytes → Option Bytes
unfolding has_prefix
find_line tok [] = none
find_line tok (line ∷ lines) =
    let rest = find_line tok lines in if has_prefix line tok then some line else rest

abbrev pub line_or : ℕ → Option Bytes → Reply Bytes
line_or enoent none = failed enoent
line_or enoent (some line) = got line

unfoldable pub proc_nfs_gets : Statuses → Bytes → Reply (List Bytes) → Reply Bytes
unfolding find_line
proc_nfs_gets e tok (failed errno) = failed e.enotimpl
proc_nfs_gets e tok (got lines) = line_or e.enoent (find_line tok lines)

abbrev pub read_nfs : List Bytes → Reply Bytes → Reply Members
unfolding skip_multiple_token
read_nfs members (failed status) = failed status
read_nfs members (got ptr) = got (read_members members (skip_multiple_token ptr 2)).0

-- `sigar_nfs_v2_get` and `sigar_nfs_v3_get`, from the lines of the client's or the server's file.
unfoldable pub nfs_v2_get : Statuses → Reply (List Bytes) → Reply Members
unfolding proc_nfs_gets read_nfs read_members strtoull skip_multiple_token
nfs_v2_get e file = read_nfs nfs_v2_members (proc_nfs_gets e (codes "proc2") file)

unfoldable pub nfs_v3_get : Statuses → Reply (List Bytes) → Reply Members
unfolding proc_nfs_gets read_nfs read_members strtoull skip_multiple_token
nfs_v3_get e file = read_nfs nfs_v3_members (proc_nfs_gets e (codes "proc3") file)

-- The members of `sigar_net_interface_stat_t`, up to the fields that are skipped, and behind them.
abbrev pub rx_members : List Bytes
rx_members =
    codes "rx_bytes"
    ∷ codes "rx_packets"
    ∷ codes "rx_errors"
    ∷ codes "rx_dropped"
    ∷ codes "rx_overruns"
    ∷ codes "rx_frame"
    ∷ []

abbrev pub tx_members : List Bytes
tx_members =
    codes "tx_bytes"
    ∷ codes "tx_packets"
    ∷ codes "tx_errors"
    ∷ codes "tx_dropped"
    ∷ codes "tx_overruns"
    ∷ codes "tx_collisions"
    ∷ codes "tx_carrier"
    ∷ []

abbrev pub read_interface : Bytes → Members
read_interface ptr =
    let (rx, after) = read_members rx_members ptr in
    rx ++ (read_members tx_members (skip_multiple_token after 2)).0

-- The members but for `speed`, which is set to SIGAR_FIELD_NOTIMPL, of the first line of the name.
abbrev pub of_interface : Bytes → Option (Bytes × Bytes) → Option Members → Option Members
unfolding str_eq
of_interface name none rest = rest
of_interface name (some (dev, ptr)) rest =
    if str_eq dev name then some (read_interface ptr) else rest

unfoldable pub find_interface : Bytes → List Bytes → Option Members
unfolding of_interface split_at skip_spaces
find_interface name [] = none
find_interface name (line ∷ lines) =
    of_interface name (split_at b':' (skip_spaces line)) (find_interface name lines)

abbrev pub interface_or : ℕ → Option Members → Reply Members
interface_or enxio none = failed enxio
interface_or enxio (some ifstat) = got ifstat

-- `sigar_net_interface_stat_get`, from the lines of /proc/net/dev behind its two headings.
unfoldable pub net_interface_stat_get : Statuses → Bytes → Reply (List Bytes) → Reply Members
unfolding find_interface read_members strtoull skip_multiple_token
net_interface_stat_get e name (failed errno) = failed errno
net_interface_stat_get e name (got lines) = interface_or e.enxio (find_interface name lines)
