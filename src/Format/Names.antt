-- ===== src/Format/Names.antt =====
-- sigar_format.c: the names of errors, connections and interface flags.
pub mod Laws
use Prim.Native.Nat.{bit_and}
use re_co_mon_b.Base.{
  ℕ, Bool, true, false, not, List, [], ◌∷◌, ◌++◌, Option, none, some, Bytes, codes, ltb, ◌==◌,
  if◌then◌else◌,
}

-- SIGAR_NETCONN_*, with any other number.
pub data ConnectionType : Type 0 where
  tcp udp raw unix : ConnectionType
  other_type : ℕ → ConnectionType

unfoldable pub net_connection_type_get : ConnectionType → Bytes
net_connection_type_get tcp = codes "tcp"
net_connection_type_get udp = codes "udp"
net_connection_type_get raw = codes "raw"
net_connection_type_get unix = codes "unix"
net_connection_type_get (other_type n) = codes "unknown"

-- SIGAR_TCP_*, with any other number.
pub data TcpState : Type 0 where
  established syn_sent syn_recv fin_wait1 fin_wait2 time_wait close close_wait : TcpState
  last_ack listen closing idle bound unknown : TcpState
  other_state : ℕ → TcpState

unfoldable pub net_connection_state_get : TcpState → Bytes
net_connection_state_get established = codes "ESTABLISHED"
net_connection_state_get syn_sent = codes "SYN_SENT"
net_connection_state_get syn_recv = codes "SYN_RECV"
net_connection_state_get fin_wait1 = codes "FIN_WAIT1"
net_connection_state_get fin_wait2 = codes "FIN_WAIT2"
net_connection_state_get time_wait = codes "TIME_WAIT"
net_connection_state_get close = codes "CLOSE"
net_connection_state_get close_wait = codes "CLOSE_WAIT"
net_connection_state_get last_ack = codes "LAST_ACK"
net_connection_state_get listen = codes "LISTEN"
net_connection_state_get closing = codes "CLOSING"
net_connection_state_get idle = codes "IDLE"
net_connection_state_get bound = codes "BOUND"
net_connection_state_get unknown = codes "UNKNOWN"
net_connection_state_get (other_state n) = codes "UNKNOWN"

-- The masks SIGAR_IFF_*.
pub record Iff : Type 0 where
  pub up : ℕ
  pub broadcast : ℕ
  pub debug : ℕ
  pub loopback : ℕ
  pub pointopoint : ℕ
  pub notrailers : ℕ
  pub running : ℕ
  pub noarp : ℕ
  pub promisc : ℕ
  pub allmulti : ℕ
  pub multicast : ℕ

-- `if (flags & mask) strcat(buf, name)`.
unfoldable pub flag_name : ℕ → ℕ → Bytes → Bytes
flag_name flags mask name = if bit_and flags mask == 0 then [] else name

unfoldable pub net_interface_flags_to_string : Iff → ℕ → Bytes
unfolding flag_name
net_interface_flags_to_string iff flags =
    (if flags == 0 then codes "[NO FLAGS] " else [])
    ++ flag_name flags iff.up (codes "UP ")
    ++ flag_name flags iff.broadcast (codes "BROADCAST ")
    ++ flag_name flags iff.debug (codes "DEBUG ")
    ++ flag_name flags iff.loopback (codes "LOOPBACK ")
    ++ flag_name flags iff.pointopoint (codes "POINTOPOINT ")
    ++ flag_name flags iff.notrailers (codes "NOTRAILERS ")
    ++ flag_name flags iff.running (codes "RUNNING ")
    ++ flag_name flags iff.noarp (codes "NOARP ")
    ++ flag_name flags iff.promisc (codes "PROMISC ")
    ++ flag_name flags iff.allmulti (codes "ALLMULTI ")
    ++ flag_name flags iff.multicast (codes "MULTICAST ")

-- An `int` by its sign.
pub data Status : Type 0 where
  negative : ℕ → Status
  natural : ℕ → Status

-- The header's numbers, `sigar_os_error_string` and `sigar_strerror_get` outside this file.
pub record Errors : Type 0 where
  pub start_error : ℕ
  pub os_start_error : ℕ
  pub enotimpl : ℕ
  pub os_error_string : ℕ → Option Bytes
  pub strerror_get : ℕ → Bytes

unfoldable pub error_string : Errors → ℕ → Bytes
error_string e err =
    if err == e.enotimpl
    then codes "This function has not been implemented on this platform"
    else codes "Error string not specified yet"

abbrev or_unknown : Option Bytes → Bytes
or_unknown none = codes "Unknown OS Error"
or_unknown (some buf) = buf

-- `sigar_strerror`; the second argument is `sigar->errbuf`.
unfoldable pub strerror : Errors → Bytes → Status → Bytes
unfolding error_string
strerror e errbuf (negative n) = errbuf
strerror e errbuf (natural err) =
    if ltb e.os_start_error err
    then or_unknown (e.os_error_string err)
    else if ltb e.start_error err
    then error_string e err
    else e.strerror_get err
