-- ===== src/Sigar/NetStat/Chosen.antt =====
-- sigar.c: the address that `sigar_net_listen_address_get` answers.
use re_co_mon_b.Base.{
  ℕ, suc, ◌^◌, ◌<◌, ◌≡◌, refl, ap, ◌∙◌, Bool, true, false, ◌&&◌, List, [], ◌∷◌, Option, none, some,
  arith, ◌==◌, ==_iff, if◌then◌else◌, Bool-cases, Option-cases, inl, inr, length,
}
use re_co_mon_b.Cache.{Table, Entry, find, new}
use re_co_mon_b.Cache.Methods.{new-IsValid}
use re_co_mon_b.Cache.Room.{HasRoom, weaken}
use re_co_mon_b.Cache.Values.{value_at}
use re_co_mon_b.Format.Address.{NetAddress}
use re_co_mon_b.Sigar.NetStat.{
  Connection, TcpStates, NetStat, Walk, is_tcp, is_inet6, is_found, net_stat_walker, walk_all,
  zeroed, net_stat_get, ListenAnswer, found, failed, answer_of, net_listen_address_get,
}
use re_co_mon_b.Sigar.NetStat.Counts.{is_listening}
use re_co_mon_b.Sigar.NetStat.Listeners.{prefer, net_listen_address_add-Listens}

-- The addresses at which the connections listen on a port, in order.
abbrev pub listeners : TcpStates → ℕ → List Connection → List NetAddress
listeners k port [] = []
listeners k port (c ∷ cs) =
    if is_listening k c && (c.local_port == port)
    then c.local_address ∷ listeners k port cs
    else listeners k port cs

-- The last address that is not of IPv6.
abbrev pub last_ipv4 : List NetAddress → Option NetAddress
last_ipv4 [] = none
last_ipv4 (a ∷ addrs) = elim (last_ipv4 addrs) [
  | some b ↦ some b
  | none ↦ if is_inet6 a then none else some a
]

abbrev pub first_or_last : List NetAddress → Option NetAddress → Option NetAddress
first_or_last addrs (some a) = some a
first_or_last [] none = none
first_or_last (a ∷ addrs) none = some a

-- The last address that is not of IPv6 or, if there is none, the first.
abbrev pub preferred : List NetAddress → Option NetAddress
preferred addrs = first_or_last addrs (last_ipv4 addrs)

abbrev pub answered : ℕ → Option NetAddress → ListenAnswer
answered enoent none = failed enoent
answered enoent (some a) = found a

abbrev choose : Option NetAddress → List NetAddress → Option NetAddress
choose old [] = old
choose old (a ∷ addrs) = choose (some (prefer old a)) addrs

abbrev or_this : NetAddress → Option NetAddress → NetAddress
or_this b none = b
or_this b (some a) = a

choose-some :
    (b : NetAddress) (addrs : List NetAddress)
    → choose (some b) addrs ≡ some (or_this b (last_ipv4 addrs))
choose-some b [] = refl
choose-some b (a ∷ addrs) =
    let rest = choose-some (prefer (some b) a) addrs in
    elim (Option-cases (last_ipv4 addrs)) [
      | inr (c, e) ↦ rw (rest, e)
      | inl e ↦ elim (Bool-cases (is_inet6 a)) [
        | inl six ↦ rw (rest, e, six)
        | inr four ↦ rw (rest, e, four)
      ]
    ]

choose-none : (addrs : List NetAddress) → choose none addrs ≡ preferred addrs
choose-none [] = refl
choose-none (a ∷ addrs) = elim (Option-cases (last_ipv4 addrs)) [
  | inr (c, e) ↦ rw (choose-some a addrs, e)
  | inl e ↦ elim (Bool-cases (is_inet6 a)) [
    | inl six ↦ rw (choose-some a addrs, e, six)
    | inr four ↦ rw (choose-some a addrs, e, four)
  ]
]

abbrev is_some : Option NetAddress → Bool
is_some none = false
is_some (some a) = true

-- Every entry has a value.
abbrev HasValues : Table NetAddress → Type 0
HasValues t = (q : ℕ) → is_found (find t q) ≡ is_some (value_at (find t q))

record Walked (k : TcpStates) (conns : List Connection) (t r : Table NetAddress) : Type 0 where
  reads : (q : ℕ) → value_at (find r q) ≡ choose (value_at (find t q)) (listeners k q conns)
  has_values : HasValues r

record Step (k : TcpStates) (more : ℕ) (c : Connection) (t r : Table NetAddress) : Type 0 where
  room : HasRoom more r
  reads :
      (q : ℕ)
      → value_at (find r q) ≡ (
          if is_listening k c && (c.local_port == q)
          then some (prefer (value_at (find t q)) c.local_address)
          else value_at (find t q))
  has_values : HasValues r

net_stat_walker-Step :
    (k : TcpStates) {more : ℕ} (c : Connection) (t : Table NetAddress) (s : NetStat)
    → HasRoom (suc more) t
    → HasValues t
    → Step k more c t (net_stat_walker k c (t, s)).0
unfolding net_stat_walker
net_stat_walker-Step k c t s room values = elim (Bool-cases (is_tcp c.type)) [
  | inr not_tcp ↦
      rw not_tcp (record { room = weaken room; reads = λ q. rw not_tcp; has_values = values })
  | inl tcp ↦ elim (Bool-cases (c.state == k.listen)) [
    | inr connected ↦
        rw (tcp, connected)
          (record { room = weaken room; reads = λ q. rw (tcp, connected); has_values = values })
    | inl listens ↦
        let adds = net_listen_address_add-Listens t c room in
        rw (tcp, listens)
          (record {
            room = adds.room;
            reads = λ q. elim (Bool-cases (c.local_port == q)) [
              | inl same ↦ rw (tcp, listens, adds.reads q, same, (==_iff c.local_port q).0 same)
              | inr other ↦ rw (tcp, listens, adds.reads q, other)
            ];
            has_values = λ q. elim (Bool-cases (c.local_port == q)) [
              | inl same ↦ rw (adds.knows q, adds.reads q, same)
              | inr other ↦ rw (adds.knows q, adds.reads q, other) (values q)
            ];
          })
  ]
]

walk_all-Walked :
    (k : TcpStates) (conns : List Connection) (t : Table NetAddress) (s : NetStat)
    → HasRoom (length conns) t
    → HasValues t
    → Walked k conns t (walk_all k conns (t, s)).0
unfolding walk_all
walk_all-Walked k [] t s room values = record { reads = λ q. refl; has_values = values }
walk_all-Walked k (c ∷ conns) t s room values =
    let step = net_stat_walker-Step k c t s room values in
    let r = net_stat_walker k c (t, s) in
    let rest = walk_all-Walked k conns r.0 r.1 step.room step.has_values in
    record {
      reads = λ q. elim (Bool-cases (is_listening k c && (c.local_port == q))) [
        | inl here ↦ rw (rest.reads q, step.reads q, here)
        | inr away ↦ rw (rest.reads q, step.reads q, away)
      ];
      has_values = rest.has_values;
    }

answer_of-answered :
    (enoent : ℕ) (o : Option (Entry NetAddress))
    → is_found o ≡ is_some (value_at o)
    → answer_of enoent o ≡ answered enoent (value_at o)
answer_of-answered enoent none h = refl
answer_of-answered enoent (some e) h = elim (Option-cases e.value) [
  | inr (a, v) ↦ rw v
  | inl v ↦ ground (arith, h, v)
]

-- Without a cache, a search for the address of a port that listens answers, where the walk over
-- fewer than 2 ^ 28 connections succeeds, the last address at which one of its TCP connections
-- listens on the port that is not of IPv6, the first such address if all are of IPv6, and ENOENT
-- if none listens there. No null pointer is copied from.
pub net_listen_address_get-preferred :
    (k : TcpStates) (enoent : ℕ) (w : Walk) (port : ℕ)
    → w.status ≡ 0
    → length w.connections < 2 ^ 28
    → (net_listen_address_get k enoent w none port).1
      ≡ answered enoent (preferred (listeners k port w.connections))
unfolding net_listen_address_get net_stat_get
net_listen_address_get-preferred k enoent w port ok few =
    let fresh = new-IsValid {V = NetAddress} 32 (omega arith) in
    let walked =
      walk_all-Walked k w.connections (new 32) (zeroed k)
        (record {
          valid = fresh.0;
          size = unfold new in omega arith;
          count = unfold new in omega (arith, few);
        })
        (λ q. rw (fresh.2 q)) in
    rw ok (
      answer_of-answered enoent _ (walked.has_values port)
      ∙ ap (answered enoent)
          (walked.reads port ∙ rw (fresh.2 port) (choose-none (listeners k port w.connections))))
