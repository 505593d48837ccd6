-- ===== src/Linux/Net.antt =====
-- os/linux/linux_sigar.c: the network connections in /proc/net, and the walk over them.
pub mod Owner
pub mod Walk
use Prim.Native.Nat.{bit_or}
use re_co_mon_b.Base.{
  ℕ, zero, suc, ◌+◌, ◌-◌, ◌*◌, ◌%◌, ◌^◌, Bool, true, false, ◌&&◌, ◌||◌, not, List, [], ◌∷◌, ◌++◌,
  Option, none, some, Bytes, ltb, ◌==◌, if◌then◌else◌, length, drop,
}
use re_co_mon_b.Format.Address.{NetAddress, inet, inet6, memory}
use re_co_mon_b.Format.Names.{ConnectionType, tcp, udp, raw}
use re_co_mon_b.Libc.Radix.{strtoull_base}
use re_co_mon_b.Libc.{is_digit, is_upper}
use re_co_mon_b.Linux.Run.{Run, done, fault, overrun, ◌>>=◌}
use re_co_mon_b.Linux.{u32, strtoull}
use re_co_mon_b.Ptql.Host.{Reply, got, failed}
use re_co_mon_b.Util.Text.{getword, skip_stops}

-- What is joined to `j` for a byte below 128, as an unsigned number of 32 bits.
abbrev pub hex_part : ℕ → ℕ
unfolding is_digit is_upper
hex_part c = if is_digit c then c - b'0' else if is_upper c then c - 55 else (c + u32 - 87) % u32

-- The loop of `hex2int` with the rounds left and `j`; a short text is read past its end.
unfoldable pub hex_loop : ℕ → ℕ → Bytes → Run ℕ
unfolding hex_part
hex_loop zero j x = done j
hex_loop (suc len) j [] = fault overrun
hex_loop (suc len) j (c ∷ x) = hex_loop len (bit_or (j * 16 % u32) (hex_part c)) x

abbrev pub hex2int : Bytes → ℕ → Run ℕ
hex2int x len = hex_loop len 0 x

abbrev pub hex_ent_len : ℕ
hex_ent_len = 8

-- The four numbers of an IPv6 address, in memory one behind the other.
abbrev pub read_inet6 : Bytes → Run NetAddress
unfolding hex_loop
read_inet6 ptr = do
  a ← hex2int ptr hex_ent_len
  b ← hex2int (drop 8 ptr) hex_ent_len
  c ← hex2int (drop 16 ptr) hex_ent_len
  d ← hex2int (drop 24 ptr) hex_ent_len
  done (inet6 (memory a ++ memory b ++ memory c ++ memory d))

unfoldable pub convert_hex_address : Bytes → ℕ → Run NetAddress
unfolding hex_loop read_inet6
convert_hex_address ptr len =
    if ltb hex_ent_len len
    then read_inet6 ptr
    else if len == hex_ent_len
    then (hex2int ptr hex_ent_len >>= λ n. done (inet n))
    else done (inet 0)

-- `sigar_net_connection_t`
pub record Connection : Type 0 where
  pub local_port : ℕ
  pub local_address : NetAddress
  pub remote_port : ℕ
  pub remote_address : NetAddress
  pub type : ConnectionType
  pub state : ℕ
  pub send_queue : ℕ
  pub receive_queue : ℕ
  pub uid : ℕ
  pub inode : ℕ

-- The bits of SIGAR_NETCONN_*.
pub record Flags : Type 0 where
  pub client : Bool
  pub server : Bool
  pub tcp : Bool
  pub udp : Bool
  pub raw : Bool

-- `SKIP_WHILE(p, c)` is `skip_stops c p`; this is `SKIP_PAST(p, c)`.
unfoldable pub skip_past : ℕ → Bytes → Bytes
unfolding getword
skip_past c p = (getword p c).1

-- An address and a port: the text from the address on, its length, the port, and the rest.
pub record EndPoint : Type 0 where
  pub addr : Bytes
  pub addr_len : ℕ
  pub port : ℕ
  pub rest : Bytes

unfoldable pub read_end_point : Bytes → EndPoint
unfolding getword strtoull_base skip_stops
read_end_point ptr =
    let (word, after) = getword ptr b':' in
    let (port, rest) = strtoull_base 16 after in
    record { addr = ptr; addr_len = length word; port = port % 2 ^ 16; rest = skip_stops b' ' rest }

-- The members behind the addresses.
unfoldable pub read_tail : Connection → Bytes → Run Connection
unfolding hex_loop skip_stops skip_past strtoull
read_tail conn ptr = do
  state ← hex2int ptr 2
  let queues = skip_stops b' ' (drop 2 ptr)
  send_queue ← hex2int queues hex_ent_len
  let second = drop 9 queues
  receive_queue ← hex2int second hex_ent_len
  let when = skip_stops b' ' (drop 8 second)
  let owner = strtoull (skip_past b' ' (skip_past b' ' when))
  let after = skip_past b' ' (skip_stops b' ' owner.1)
  done (record conn {
    state = state;
    send_queue = send_queue;
    receive_queue = receive_queue;
    uid = owner.0 % u32;
    inode = (strtoull after).0;
  })

unfoldable pub read_connection : ConnectionType → EndPoint → EndPoint → Run Connection
unfolding convert_hex_address read_tail
read_connection type local remote = do
  local_address ← convert_hex_address local.addr local.addr_len
  remote_address ← convert_hex_address remote.addr remote.addr_len
  read_tail
      (record {
        local_port = local.port;
        local_address = local_address;
        remote_port = remote.port;
        remote_address = remote_address;
        type = type;
        state = 0;
        send_queue = 0;
        receive_queue = 0;
        uid = 0;
        inode = 0;
      })
      remote.rest

-- Whether the connection is of a kind that is asked for.
abbrev pub is_wanted : Flags → ℕ → Bool
is_wanted flags remote_port = if remote_port == 0 then flags.server else flags.client

abbrev pub some_of : Run Connection → Run (Option Connection)
some_of (done conn) = done (some conn)
some_of (fault e) = fault e

-- A line: none if it is passed over.
unfoldable pub read_line : Flags → ConnectionType → Bytes → Run (Option Connection)
unfolding skip_stops skip_past read_end_point read_connection
read_line flags type line =
    let local = read_end_point (skip_past b' ' (skip_stops b' ' line)) in
    let remote = read_end_point local.rest in
    if is_wanted flags remote.port then some_of (read_connection type local remote) else done none

-- `walker->data` and `walker->add_connection`, which gives a status.
pub record Walker {ℓ} (S : Type ℓ) : Type ℓ where
  pub add_connection : S → Connection → S × ℕ

-- The lines of a file behind its heading, or why it cannot be opened.
abbrev pub File : Type 0
File = Reply (List Bytes)

pub record NetFiles : Type 0 where
  pub tcp : File
  pub tcp6 : File
  pub udp : File
  pub udp6 : File
  pub raw : File
  pub raw6 : File

module _ {ℓ} {S : Type ℓ} (walker : Walker S) (flags : Flags) where
  abbrev pub go_on : S × ℕ → (S → Run S) → Run S
  go_on (s, more) next = if more == 0 then next s else done s

  abbrev pub on_line : S → Option Connection → (S → Run S) → Run S
  on_line s none next = next s
  on_line s (some conn) next = go_on (walker.add_connection s conn) next

  -- The loop of `proc_net_read` over the lines.
  unfoldable pub read_lines : ConnectionType → S → List Bytes → Run S
  unfolding read_line
  read_lines type s [] = done s
  read_lines type s (line ∷ lines) =
      read_line flags type line >>= λ o. on_line s o (λ t. read_lines type t lines)

  -- `proc_net_read`: what the walker has, and the status.
  unfoldable pub proc_net_read : ConnectionType → S → File → Run (S × ℕ)
  unfolding read_lines
  proc_net_read type s (failed errno) = done (s, errno)
  proc_net_read type s (got lines) = read_lines type s lines >>= λ t. done (t, 0)

  abbrev pub unless_failed : S × ℕ → (S → Run (S × ℕ)) → Run (S × ℕ)
  unless_failed (s, status) next = if status == 0 then next s else done (s, status)

  -- The status of the file for IPv6, which need not be there.
  abbrev pub unless_missing : ℕ → S × ℕ → S × ℕ
  unless_missing enoent (s, status) =
      if status == 0 || status == enoent then (s, 0) else (s, status)

  -- A block of `sigar_net_connection_walk`, for a flag.
  unfoldable pub walk_files : ℕ → Bool → ConnectionType → File → File → S → Run (S × ℕ)
  unfolding proc_net_read
  walk_files enoent false type file file6 s = done (s, 0)
  walk_files enoent true type file file6 s = proc_net_read type s file >>= λ r.
      unless_failed r (λ t. proc_net_read type t file6 >>= λ r'. done (unless_missing enoent r'))

  -- `sigar_net_connection_walk`.
  unfoldable pub net_connection_walk : ℕ → NetFiles → S → Run (S × ℕ)
  unfolding walk_files
  net_connection_walk enoent files s =
      walk_files enoent flags.tcp tcp files.tcp files.tcp6 s >>= λ r. unless_failed r (λ t.
        walk_files enoent flags.udp udp files.udp files.udp6 t >>= λ r'.
        unless_failed r' (λ u. walk_files enoent flags.raw raw files.raw files.raw6 u))

-- `proc_net_walker` with a list.
abbrev pub add_to_list : Walker (List Connection)
add_to_list = record { add_connection = λ conns conn. (conns ++ conn ∷ [], 0) }

-- The list of `sigar_net_connection_list_get`, which is destroyed where the walk fails.
abbrev pub list_of : List Connection × ℕ → Reply (List Connection)
list_of (conns, status) = if status == 0 then got conns else failed status

unfoldable pub net_connection_list_get : ℕ → Flags → NetFiles → Run (Reply (List Connection))
unfolding net_connection_walk
net_connection_list_get enoent flags files =
    net_connection_walk add_to_list flags enoent files [] >>= λ r. done (list_of r)

abbrev pub has_port : ℕ → Connection → Bool
has_port port conn = port == conn.local_port && conn.remote_port == 0

-- `proc_net_walker` with one connection: SIGAR_OK or another status that ends the loop.
abbrev pub keep_port : ℕ → Walker (Option Connection)
keep_port port = record {
  add_connection = λ kept conn. if has_port port conn then (some conn, 1) else (kept, 0);
}

-- `sigar_net_connection_get`; none stands for the structure as the caller zeroed it.
unfoldable pub net_connection_get : ℕ → ℕ → Flags → NetFiles → Run (Option Connection × ℕ)
unfolding net_connection_walk
net_connection_get enoent port flags files =
    net_connection_walk (keep_port port) flags enoent files none
