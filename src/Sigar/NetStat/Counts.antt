-- ===== src/Sigar/NetStat/Counts.antt =====
-- sigar.c: what `sigar_net_stat_get` counts.
use re_co_mon_b.Base.{
  ℕ, suc, ◌+◌, ◌%◌, ◌<◌, ◌≡◌, refl, ◌∙◌, Bool, true, false, ◌&&◌, ◌||◌, List, [], ◌∷◌, Option,
  arith, ◌==◌, ==_iff, if◌then◌else◌, Bool-cases, inl, inr, length, get_or, count_if, length-set,
  get_or-set_self, get_or-set_ne, length-replicate, get_or-replicate,
}
use re_co_mon_b.Cache.{Table, find}
use re_co_mon_b.Cache.Room.{HasRoom, weaken}
use re_co_mon_b.Format.Address.{NetAddress}
use re_co_mon_b.Sigar.NetStat.{
  Connection, NetStat, TcpStates, Walk, u32, next, bump, is_tcp, is_found, net_stat_walker,
  walk_all, zeroed, listen_cache, net_stat_get,
}
use re_co_mon_b.Sigar.NetStat.Listeners.{net_listen_address_add-Listens}

-- What a connection is counted as.
pub data Direction : Type 0 where
  listening inbound outbound uncounted : Direction

abbrev pub is_inbound : Direction → Bool
is_inbound inbound = true
is_inbound _ = false

abbrev pub is_outbound : Direction → Bool
is_outbound outbound = true
is_outbound _ = false

abbrev pub is_listening : TcpStates → Connection → Bool
is_listening k c = is_tcp c.type && (c.state == k.listen)

-- By the ports that have been seen to listen.
abbrev pub direction_of : TcpStates → (ℕ → Bool) → Connection → Direction
direction_of k known c =
    if is_tcp c.type
    then if c.state == k.listen then listening else if known c.local_port then inbound else outbound
    else uncounted

abbrev pub known_after : TcpStates → (ℕ → Bool) → Connection → ℕ → Bool
known_after k known c q = (is_listening k c && (c.local_port == q)) || known q

-- The connections of a list, where the ports that `known` tells listen from the start.
abbrev pub directions : TcpStates → (ℕ → Bool) → List Connection → List Direction
directions k known [] = []
directions k known (c ∷ cs) = direction_of k known c ∷ directions k (known_after k known c) cs

abbrev pub in_state : ℕ → Connection → Bool
in_state i c = is_tcp c.type && (c.state == i)

-- Counts within their types, in an array of `width` states.
pub record IsCounting (width : ℕ) (s : NetStat) : Type 0 where
  states : length s.tcp_states ≡ width
  fit : (i : ℕ) → i < width → get_or s.tcp_states i 0 < u32
  inbound_fits : s.tcp_inbound_total < u32
  outbound_fits : s.tcp_outbound_total < u32
  all_inbound : s.all_inbound_total ≡ s.tcp_inbound_total
  all_outbound : s.all_outbound_total ≡ s.tcp_outbound_total

-- The counts `r`, which are those of `s` with so many more.
pub record Adds (width : ℕ) (s r : NetStat) (ins outs : ℕ) (in_states : ℕ → ℕ) : Type 0 where
  pub inbound_total : r.tcp_inbound_total ≡ (s.tcp_inbound_total + ins) % u32
  pub outbound_total : r.tcp_outbound_total ≡ (s.tcp_outbound_total + outs) % u32
  pub states :
      (i : ℕ) → i < width → get_or r.tcp_states i 0 ≡ (get_or s.tcp_states i 0 + in_states i) % u32
  pub all_inbound : r.all_inbound_total ≡ r.tcp_inbound_total
  pub all_outbound : r.all_outbound_total ≡ r.tcp_outbound_total

abbrev one_if : Bool → ℕ
one_if b = if b then 1 else 0

get_or-bump :
    (states : List ℕ) (state i : ℕ)
    → i < length states
    → get_or states i 0 < u32
    → get_or (bump states state) i 0 ≡ (get_or states i 0 + one_if (state == i)) % u32
get_or-bump states state i h fit = elim (Bool-cases (state == i)) [
  | inl same ↦ let e = (==_iff state i).0 same in rw (same, e) (get_or-set_self states i _ 0 h)
  | inr other ↦
      rw other
        (get_or-set_ne states state i _ 0 (λ e. ground (arith, other, e)) ∙ omega (arith, fit))
]

-- The counts that a round leaves, from those of its two totals and of its states.
record Written (width : ℕ) (s r : NetStat) (ins outs : ℕ) (in_states : ℕ → ℕ) : Type 0 where
  counting : IsCounting width r
  adds : Adds width s r ins outs in_states

written :
    (width : ℕ) (s : NetStat) (states : List ℕ) (ins outs ins' outs' : ℕ) (in_states : ℕ → ℕ)
    → length states ≡ width
    → ((i : ℕ) → i < width → get_or states i 0 ≡ (get_or s.tcp_states i 0 + in_states i) % u32)
    → ins' ≡ (s.tcp_inbound_total + ins) % u32
    → outs' ≡ (s.tcp_outbound_total + outs) % u32
    → Written width s
        (record {
          tcp_states = states;
          tcp_inbound_total = ins';
          tcp_outbound_total = outs';
          all_inbound_total = ins';
          all_outbound_total = outs';
        })
        ins
        outs
        in_states
written width s states ins outs ins' outs' in_states l f e e' = record {
  counting = record {
    states = l;
    fit = λ i h. omega (arith, f i h);
    inbound_fits = omega (arith, e);
    outbound_fits = omega (arith, e');
    all_inbound = refl;
    all_outbound = refl;
  };
  adds = record {
    inbound_total = e;
    outbound_total = e';
    states = f;
    all_inbound = refl;
    all_outbound = refl;
  };
}

-- One connection.
record Step (k : TcpStates) (more : ℕ) (conn : Connection) (known : ℕ → Bool) (s : NetStat)
    (r : Table NetAddress × NetStat) : Type 0 where
  room : HasRoom more r.0
  agrees : (q : ℕ) → is_found (find r.0 q) ≡ known_after k known conn q
  written :
      Written k.width s r.1
        (one_if (is_inbound (direction_of k known conn)))
        (one_if (is_outbound (direction_of k known conn)))
        (λ i. one_if (in_state i conn))

net_stat_walker-Step :
    (k : TcpStates) {more : ℕ} (conn : Connection) (known : ℕ → Bool) (t : Table NetAddress)
    (s : NetStat)
    → HasRoom (suc more) t
    → ((q : ℕ) → is_found (find t q) ≡ known q)
    → IsCounting k.width s
    → Step k more conn known s (net_stat_walker k conn (t, s))
unfolding net_stat_walker
net_stat_walker-Step k conn known t s room agrees c =
    let width =
      length-set s.tcp_states conn.state (next (get_or s.tcp_states conn.state 0)) ∙ c.states in
    let bumped : (i : ℕ)
        → i < k.width
        → get_or (bump s.tcp_states conn.state) i 0
          ≡ (get_or s.tcp_states i 0 + one_if (conn.state == i)) % u32 =
      λ i h. get_or-bump s.tcp_states conn.state i (omega (arith, h, c.states)) (c.fit i h) in
    let same_in : s.tcp_inbound_total ≡ (s.tcp_inbound_total + 0) % u32 =
      omega (arith, c.inbound_fits) in
    let same_out : s.tcp_outbound_total ≡ (s.tcp_outbound_total + 0) % u32 =
      omega (arith, c.outbound_fits) in
    elim (Bool-cases (is_tcp conn.type)) [
      | inr not_tcp ↦ rw not_tcp (record {
        room = weaken room;
        agrees = λ q. rw not_tcp (agrees q);
        written = rw not_tcp (
            written k.width s s.tcp_states 0 0 _ _ (λ i. 0) c.states
              (λ i h. omega (arith, c.fit i h)) same_in same_out);
      })
      | inl tcp ↦ elim (Bool-cases (conn.state == k.listen)) [
        | inl listens ↦
            let adds = net_listen_address_add-Listens t conn room in
            rw (tcp, listens)
              (record {
                room = adds.room;
                agrees = λ q. rw (tcp, listens) (adds.knows q ∙ rw (agrees q));
                written =
                    rw (tcp, listens) (written k.width s _ 0 0 _ _ _ width bumped same_in same_out);
              })
        | inr connected ↦ elim (Bool-cases (known conn.local_port)) [
          | inl inward ↦
              rw (tcp, connected, agrees conn.local_port, inward)
                (record {
                  room = weaken room;
                  agrees = λ q. rw (tcp, connected) (agrees q);
                  written =
                      rw (tcp, connected, inward)
                        (written k.width s _ 1 0 _ _ _ width bumped refl same_out);
                })
          | inr outward ↦
              rw (tcp, connected, agrees conn.local_port, outward)
                (record {
                  room = weaken room;
                  agrees = λ q. rw (tcp, connected) (agrees q);
                  written =
                      rw (tcp, connected, outward)
                        (written k.width s _ 0 1 _ _ _ width bumped same_in refl);
                })
        ]
      ]
    ]

-- A walk, from a cache in which the ports of `known` are found.
pub walk_all-Adds :
    (k : TcpStates) (conns : List Connection) (known : ℕ → Bool) (t : Table NetAddress)
    (s : NetStat)
    → HasRoom (length conns) t
    → ((q : ℕ) → is_found (find t q) ≡ known q)
    → IsCounting k.width s
    → Adds k.width s
        (walk_all k conns (t, s)).1
        (count_if is_inbound (directions k known conns))
        (count_if is_outbound (directions k known conns))
        (λ i. count_if (in_state i) conns)
unfolding walk_all
walk_all-Adds k [] known t s room agrees c = record {
  inbound_total = omega (arith, c.inbound_fits);
  outbound_total = omega (arith, c.outbound_fits);
  states = λ i h. omega (arith, c.fit i h);
  all_inbound = c.all_inbound;
  all_outbound = c.all_outbound;
}
walk_all-Adds k (conn ∷ conns) known t s room agrees c =
    let step = net_stat_walker-Step k conn known t s room agrees c in
    let w = step.written in
    let r = net_stat_walker k conn (t, s) in
    let rest =
      walk_all-Adds k conns (known_after k known conn) r.0 r.1 step.room step.agrees w.counting in
    record {
      inbound_total = omega (arith, rest.inbound_total, w.adds.inbound_total);
      outbound_total = omega (arith, rest.outbound_total, w.adds.outbound_total);
      states = λ i h. omega (arith, rest.states i h, w.adds.states i h);
      all_inbound = rest.all_inbound;
      all_outbound = rest.all_outbound;
    }

zeroed-IsCounting : (k : TcpStates) → IsCounting k.width (zeroed k)
zeroed-IsCounting k = record {
  states = length-replicate k.width 0;
  fit = λ i h. rw (get_or-replicate {A = ℕ} k.width i 0) (omega arith);
  inbound_fits = omega arith;
  outbound_fits = omega arith;
  all_inbound = refl;
  all_outbound = refl;
}

-- `sigar_net_stat_get`, on a valid cache with room for the connections, counts as inbound the TCP
-- connections that do not listen and whose local port was found in the cache before the call or is
-- that of a listening connection earlier in the walk, as outbound the other TCP connections that
-- do not listen, and under each state of the array the TCP connections in that state, all in 32
-- bits; the totals over all protocols are those of TCP.
pub net_stat_get-Counts :
    (k : TcpStates) (w : Walk) (cache : Option (Table NetAddress))
    → HasRoom (length w.connections) (listen_cache cache)
    → let s = (net_stat_get k w cache).0.1 in
      let seen = directions k (λ q. is_found (find (listen_cache cache) q)) w.connections in
      (s.tcp_inbound_total ≡ count_if is_inbound seen % u32)
      × (s.tcp_outbound_total ≡ count_if is_outbound seen % u32)
      × ((i : ℕ)
          → i < k.width
          → get_or s.tcp_states i 0 ≡ count_if (in_state i) w.connections % u32)
      × (s.all_inbound_total ≡ s.tcp_inbound_total)
      × (s.all_outbound_total ≡ s.tcp_outbound_total)
unfolding net_stat_get
net_stat_get-Counts k w cache room =
    let adds =
      walk_all-Adds k w.connections (λ q. is_found (find (listen_cache cache) q))
        (listen_cache cache) (zeroed k) room (λ q. refl) (zeroed-IsCounting k) in
    (
      omega (arith, adds.inbound_total),
      omega (arith, adds.outbound_total),
      λ i h. omega (arith, adds.states i h, get_or-replicate {A = ℕ} k.width i 0),
      adds.all_inbound,
      adds.all_outbound,
    )
