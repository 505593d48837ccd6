-- ===== src/Sigar/NetStat/Listeners.antt =====
-- sigar.c: what `sigar_net_listen_address_add` does to the cache of listening addresses.
use re_co_mon_b.Base.{
  ℕ, suc, ◌≡◌, true, ◌||◌, Option, none, some, ◌==◌, if◌then◌else◌, Bool-cases, Option-cases, inl,
  inr,
}
use re_co_mon_b.Cache.{Table, find, get}
use re_co_mon_b.Cache.Methods.{get-Gets}
use re_co_mon_b.Cache.Room.{HasRoom, fits, get-HasRoom}
use re_co_mon_b.Cache.Values.{value_at, get-value, Holds, store-get-Holds}
use re_co_mon_b.Format.Address.{NetAddress}
use re_co_mon_b.Sigar.NetStat.{Connection, is_inet6, is_found, net_listen_address_add}

-- The address of a port after one more listener: the last that is not of IPv6, or the first.
abbrev pub prefer : Option NetAddress → NetAddress → NetAddress
prefer none a = a
prefer (some b) a = if is_inet6 a then b else a

pub record Listens (more : ℕ) (t : Table NetAddress) (port : ℕ) (a : NetAddress)
    (r : Table NetAddress) : Type 0 where
  pub room : HasRoom more r
  pub reads :
      (q : ℕ)
      → value_at (find r q)
        ≡ (if port == q then some (prefer (value_at (find t port)) a) else value_at (find t q))
  pub knows : (q : ℕ) → is_found (find r q) ≡ (port == q || is_found (find t q))

stored-Listens :
    {more : ℕ} (t r : Table NetAddress) (port : ℕ) (a : NetAddress)
    → Holds more t port a r
    → prefer (value_at (find t port)) a ≡ a
    → Listens more t port a r
stored-Listens t r port a h e = record {
  room = h.room;
  reads = λ q. elim (Bool-cases (port == q)) [
    | inl same ↦ rw (h.found q, same, e)
    | inr other ↦ rw (h.found q, other)
  ];
  knows = λ q. elim (Bool-cases (port == q)) [
    | inl same ↦ rw (h.found q, same)
    | inr other ↦ rw (h.found q, other)
  ];
}

kept-Listens :
    {more : ℕ} (t : Table NetAddress) (port : ℕ) (a b : NetAddress)
    → HasRoom (suc more) t
    → value_at (find t port) ≡ some b
    → is_inet6 a ≡ true
    → Listens more t port a (get t port).0
kept-Listens t port a b r e six =
    let g = get-Gets port r.valid (fits r) in
    let v = get-value t port r in
    record {
      room = get-HasRoom t port r;
      reads = λ q. elim (Bool-cases (port == q)) [
        | inl same ↦ rw (g.reads q, same, e, six, v) e
        | inr other ↦ rw (g.reads q, other)
      ];
      knows = λ q. elim (Bool-cases (port == q)) [
        | inl same ↦ rw (g.reads q, same)
        | inr other ↦ rw (g.reads q, other)
      ];
    }

pub net_listen_address_add-Listens :
    {more : ℕ} (t : Table NetAddress) (conn : Connection)
    → HasRoom (suc more) t
    → Listens more t conn.local_port conn.local_address (net_listen_address_add t conn)
unfolding net_listen_address_add
net_listen_address_add-Listens t conn r =
    let port = conn.local_port in
    let a = conn.local_address in
    let v = get-value t port r in
    let written = store-get-Holds t port a r in
    elim (Option-cases (value_at (find t port))) [
      | inl e ↦ rw (v, e) (stored-Listens t _ port a written (rw e))
      | inr (b, e) ↦ elim (Bool-cases (is_inet6 a)) [
        | inl six ↦ rw (v, e, six) (kept-Listens t port a b r e six)
        | inr four ↦ rw (v, e, four) (stored-Listens t _ port a written (rw (e, four)))
      ]
    ]
