-- ===== src/Sigar/NetStat.antt =====
-- sigar.c: the counting of network connections and the cache of listening addresses.
pub mod Listeners
pub mod Counts
pub mod Chosen
use re_co_mon_b.Base.{
  ℕ, ◌+◌, ◌%◌, ◌^◌, Bool, true, false, ◌||◌, List, [], ◌∷◌, Option, none, some, ◌==◌, if◌then◌else◌,
  get_or, set, replicate,
}
use re_co_mon_b.Cache.{Table, Entry, new, get, find, store}
use re_co_mon_b.Format.Address.{NetAddress, inet6, Comparison, equal, net_address_equals}
use re_co_mon_b.Format.Names.{ConnectionType, tcp}

-- `sigar_net_connection_t`, as far as it is read. A state is a number of the header.
pub record Connection : Type 0 where
  pub type : ConnectionType
  pub state : ℕ
  pub local_port : ℕ
  pub local_address : NetAddress
  pub remote_port : ℕ
  pub remote_address : NetAddress

-- `sigar_net_stat_t`; every member has 32 bits.
pub record NetStat : Type 0 where
  pub tcp_states : List ℕ
  pub tcp_inbound_total : ℕ
  pub tcp_outbound_total : ℕ
  pub all_inbound_total : ℕ
  pub all_outbound_total : ℕ

-- The header's numbers: SIGAR_TCP_LISTEN, SIGAR_TCP_ESTABLISHED, SIGAR_TCP_CLOSE_WAIT, and how
-- many states the array has.
pub record TcpStates : Type 0 where
  pub listen : ℕ
  pub established : ℕ
  pub close_wait : ℕ
  pub width : ℕ

-- What `sigar_net_connection_walk` hands to the walker, in order, and the status it returns. A
-- walker always returns SIGAR_OK.
pub record Walk : Type 0 where
  pub connections : List Connection
  pub status : ℕ

abbrev pub u32 : ℕ
u32 = 2 ^ 32

abbrev pub next : ℕ → ℕ
next n = (n + 1) % u32

-- A state that the array does not have, for which the code writes past its end, is not counted.
abbrev pub bump : List ℕ → ℕ → List ℕ
bump states state = set states state (next (get_or states state 0))

abbrev pub is_tcp : ConnectionType → Bool
is_tcp tcp = true
is_tcp _ = false

abbrev pub is_inet6 : NetAddress → Bool
is_inet6 (inet6 a) = true
is_inet6 _ = false

abbrev pub is_found : Option (Entry NetAddress) → Bool
is_found none = false
is_found (some e) = true

-- What is done with the value of the entry: IPv4 is preferred.
abbrev pub keep_or_store : Connection → Table NetAddress → Option NetAddress → Table NetAddress
keep_or_store conn t (some old) =
    if is_inet6 conn.local_address then t else store t conn.local_port conn.local_address
keep_or_store conn t none = store t conn.local_port conn.local_address

unfoldable pub net_listen_address_add : Table NetAddress → Connection → Table NetAddress
unfolding get store
net_listen_address_add net_listen conn =
    let (t, entry) = get net_listen conn.local_port in keep_or_store conn t entry.value

-- The body of the `else` of `net_stat_walker`: a connection to a port that listens is inbound.
abbrev pub count_direction : Bool → NetStat → NetStat
count_direction true s = record s { tcp_inbound_total = next s.tcp_inbound_total }
count_direction false s = record s { tcp_outbound_total = next s.tcp_outbound_total }

-- The last two assignments.
abbrev pub copy_totals : NetStat → NetStat
copy_totals s = record s {
  all_inbound_total = s.tcp_inbound_total;
  all_outbound_total = s.tcp_outbound_total;
}

-- `net_stat_walker` on the cache `sigar->net_listen` and the counts.
unfoldable pub net_stat_walker :
    TcpStates → Connection → Table NetAddress × NetStat → Table NetAddress × NetStat
unfolding net_listen_address_add find
net_stat_walker k conn (ports, s) =
    let counted = record s { tcp_states = bump s.tcp_states conn.state } in
    if is_tcp conn.type
    then if conn.state == k.listen
      then (net_listen_address_add ports conn, copy_totals counted)
      else (ports, copy_totals (count_direction (is_found (find ports conn.local_port)) counted))
    else (ports, copy_totals s)

unfoldable pub walk_all :
    TcpStates → List Connection → Table NetAddress × NetStat → Table NetAddress × NetStat
unfolding net_stat_walker
walk_all k [] s = s
walk_all k (conn ∷ conns) s = walk_all k conns (net_stat_walker k conn s)

-- `SIGAR_ZERO(netstat)`.
abbrev pub zeroed : TcpStates → NetStat
zeroed k = record {
  tcp_states = replicate k.width 0;
  tcp_inbound_total = 0;
  tcp_outbound_total = 0;
  all_inbound_total = 0;
  all_outbound_total = 0;
}

-- `if (!sigar->net_listen) sigar->net_listen = sigar_cache_new(32)`.
abbrev pub listen_cache : Option (Table NetAddress) → Table NetAddress
listen_cache none = new 32
listen_cache (some t) = t

-- `sigar_net_stat_get`: the cache after it, the counts and the status.
unfoldable pub net_stat_get :
    TcpStates → Walk → Option (Table NetAddress) → (Table NetAddress × NetStat) × ℕ
unfolding walk_all
net_stat_get k w net_listen =
    (walk_all k w.connections (listen_cache net_listen, zeroed k), w.status)

-- The answer of `sigar_net_listen_address_get`; `null` stands for a copy from a null pointer.
pub data ListenAnswer : Type 0 where
  found : NetAddress → ListenAnswer
  failed : ℕ → ListenAnswer
  null : ListenAnswer

-- The second half of the function.
abbrev pub answer_of : ℕ → Option (Entry NetAddress) → ListenAnswer
answer_of enoent none = failed enoent
answer_of enoent (some e) = elim e.value [ some a ↦ found a | none ↦ null ]

abbrev is_cached : Option (Table NetAddress) → ℕ → Bool
is_cached none port = false
is_cached (some t) port = is_found (find t port)

-- `sigar_net_listen_address_get`, where `w` is what the walk over servers would hand on, and
-- `enoent` the number ENOENT.
unfoldable pub net_listen_address_get :
    TcpStates → ℕ → Walk → Option (Table NetAddress) → ℕ → Table NetAddress × ListenAnswer
unfolding net_stat_get find
net_listen_address_get k enoent w net_listen port =
    let ((walked, netstat), status) = net_stat_get k w net_listen in
    if is_cached net_listen port
    then (listen_cache net_listen, answer_of enoent (find (listen_cache net_listen) port))
    else if status == 0
    then (walked, answer_of enoent (find walked port))
    else (walked, failed status)

abbrev is_equal : Comparison → Bool
is_equal equal = true
is_equal _ = false

-- `net_stat_port_walker`; on a connection that is not of the port it returns early.
unfoldable pub net_stat_port_walker : NetAddress → ℕ → Connection → NetStat → NetStat
unfolding net_address_equals
net_stat_port_walker address port conn s =
    let counted = record s { tcp_states = bump s.tcp_states conn.state } in
    let inbound = record counted { all_inbound_total = next s.all_inbound_total } in
    let outbound = record counted { all_outbound_total = next s.all_outbound_total } in
    if is_tcp conn.type
    then if conn.local_port == port
      then if is_equal (net_address_equals address conn.local_address)
        then record inbound { tcp_inbound_total = next s.tcp_inbound_total }
        else inbound
      else if conn.remote_port == port
      then if is_equal (net_address_equals address conn.remote_address)
        then record outbound { tcp_outbound_total = next s.tcp_outbound_total }
        else outbound
      else s
    else s

unfoldable pub walk_port : NetAddress → ℕ → List Connection → NetStat → NetStat
unfolding net_stat_port_walker
walk_port address port [] s = s
walk_port address port (conn ∷ conns) s =
    walk_port address port conns (net_stat_port_walker address port conn s)

-- `sigar_net_stat_port_get` without its debugging output.
unfoldable pub net_stat_port_get : TcpStates → Walk → NetAddress → ℕ → NetStat × ℕ
unfolding walk_port
net_stat_port_get k w address port = (walk_port address port w.connections (zeroed k), w.status)

-- `tcp_curr_estab_count`.
unfoldable pub tcp_curr_estab_count : TcpStates → Connection → ℕ → ℕ
tcp_curr_estab_count k conn curr_estab =
    if conn.state == k.established || conn.state == k.close_wait
    then next curr_estab
    else curr_estab

unfoldable pub walk_estab : TcpStates → List Connection → ℕ → ℕ
unfolding tcp_curr_estab_count
walk_estab k [] curr_estab = curr_estab
walk_estab k (conn ∷ conns) curr_estab = walk_estab k conns (tcp_curr_estab_count k conn curr_estab)

-- `sigar_tcp_curr_estab`.
unfoldable pub tcp_curr_estab : TcpStates → Walk → ℕ × ℕ
unfolding walk_estab
tcp_curr_estab k w = (walk_estab k w.connections 0, w.status)
