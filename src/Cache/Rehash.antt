-- ===== src/Cache/Rehash.antt =====
-- `sigar_cache_rehash` of sigar_cache.c: what moving every node to a new array does.
use re_co_mon_b.Base.{
  ℕ, ◌+◌, ◌*◌, ◌%◌, ◌<◌, ◌≡◌, refl, ap, ◌∙◌, List, [], ◌∷◌, some, if◌then◌else◌, ◌==◌, ==_iff,
  arith, length, replicate, length-set, length-replicate, get_or-replicate, Bool-cases, inl, inr,
}
use re_co_mon_b.Cache.Buckets.{
  mod-lt, differ, chain_at, total, IsPlaced, last_all, count_all, total-set, total-replicate,
  only_in, get_or-set_cases,
}
use re_co_mon_b.Cache.Chain.{count, last, last-scan}
use re_co_mon_b.Cache.{Table, Entry, Bucket, scan, find, move, move_chain, move_all, rehash, u32}

module _ {ℓ} {V : Type ℓ} (n : ℕ) (pos : 0 < n) where
  length-move : (e : Entry V) (bs : List (Bucket V)) → length (move n e bs) ≡ length bs
  unfolding move
  length-move e bs = length-set bs _ _

  -- One moved node is the first of its bucket, and is counted once more there.
  scan-move :
      (e : Entry V) (bs : List (Bucket V)) (q : ℕ)
      → length bs ≡ n
      → scan q (chain_at (move n e bs) (q % n))
        ≡ (if e.id == q then some e else scan q (chain_at bs (q % n)))
  unfolding move scan
  scan-move e bs q w =
      let slot : e.id % n < length bs = omega (arith, mod-lt e.id n pos) in
      let written = get_or-set_cases bs (e.id % n) (q % n) (e ∷ chain_at bs (e.id % n)) slot in
      elim (Bool-cases (e.id % n == q % n)) [
        | inl here ↦ rw (written, here, (==_iff _ _).0 here)
        | inr away ↦ rw (written, away, differ n e.id q away)
      ]

  count-move :
      (e : Entry V) (bs : List (Bucket V)) (q i : ℕ)
      → length bs ≡ n
      → count q (chain_at (move n e bs) i)
        ≡ (if e.id == q then (if q % n == i then 1 else 0) else 0) + count q (chain_at bs i)
  unfolding move
  count-move e bs q i w =
      let slot : e.id % n < length bs = omega (arith, mod-lt e.id n pos) in
      let written = get_or-set_cases bs (e.id % n) i (e ∷ chain_at bs (e.id % n)) slot in
      elim (Bool-cases (e.id == q)) [
        | inl same ↦ ground (arith, written, (==_iff e.id q).0 same)
        | inr other ↦ ground (arith, written)
      ]

  total-move :
      (e : Entry V) (bs : List (Bucket V)) → length bs ≡ n → total (move n e bs) ≡ total bs + 1
  unfolding move
  total-move e bs w =
      omega (arith, mod-lt e.id n pos, total-set bs (e.id % n) (e ∷ chain_at bs (e.id % n)))

  -- The inner loop.
  record Moved (q : ℕ) (c : Bucket V) (before after : List (Bucket V)) : Type ℓ where
    width : length after ≡ length before
    reads : scan q (chain_at after (q % n)) ≡ last q c (scan q (chain_at before (q % n)))
    counts :
        (i : ℕ)
        → count q (chain_at after i)
          ≡ (if q % n == i then count q c else 0) + count q (chain_at before i)
    entries : total after ≡ total before + length c

  move_chain-Moved :
      (q : ℕ) (c : Bucket V) (bs : List (Bucket V))
      → length bs ≡ n
      → Moved q c bs (move_chain n c bs)
  unfolding move_chain
  move_chain-Moved q [] bs w = record {
    width = refl;
    reads = refl;
    counts = λ i. ground arith;
    entries = omega arith;
  }
  move_chain-Moved q (e ∷ c) bs w =
      let rest = move_chain-Moved q c (move n e bs) (length-move e bs ∙ w) in
      record {
        width = rest.width ∙ length-move e bs;
        reads = rest.reads ∙ ap (last q c) (scan-move e bs q w);
        counts = λ i. ground (arith, rest.counts i, count-move e bs q i w);
        entries = omega (arith, rest.entries, total-move e bs w);
      }

  -- Both loops.
  record MovedAll (q : ℕ) (cs before after : List (Bucket V)) : Type ℓ where
    width : length after ≡ length before
    reads : scan q (chain_at after (q % n)) ≡ last_all q cs (scan q (chain_at before (q % n)))
    counts :
        (i : ℕ)
        → count q (chain_at after i)
          ≡ (if q % n == i then count_all q cs else 0) + count q (chain_at before i)
    entries : total after ≡ total before + total cs

  move_all-MovedAll :
      (q : ℕ) (cs bs : List (Bucket V)) → length bs ≡ n → MovedAll q cs bs (move_all n cs bs)
  unfolding move_all
  move_all-MovedAll q [] bs w = record {
    width = refl;
    reads = refl;
    counts = λ i. ground arith;
    entries = omega arith;
  }
  move_all-MovedAll q (c ∷ cs) bs w =
      let first = move_chain-Moved q c bs w in
      let rest = move_all-MovedAll q cs (move_chain n c bs) (first.width ∙ w) in
      record {
        width = rest.width ∙ first.width;
        reads = rest.reads ∙ ap (last_all q cs) first.reads;
        counts = λ i. ground (arith, rest.counts i, first.counts i);
        entries = omega (arith, rest.entries, first.entries);
      }

module _ {ℓ} {V : Type ℓ} where
  -- The array has `size` buckets, and each entry stands in its own.
  pub record IsShaped (t : Table V) : Type 0 where
    pub positive : 0 < t.size
    pub width : length t.entries ≡ t.size
    pub placed : IsPlaced t.size t.entries

  -- What a rehash keeps.
  pub record Rehashed (t r : Table V) : Type ℓ where
    pub shaped : IsShaped r
    pub size : r.size ≡ t.size * 2 + 1
    pub counted : r.count ≡ t.count
    pub entries : total r.entries ≡ total t.entries
    pub reads : (q : ℕ) → find r q ≡ find t q

  -- Rehashing a well-shaped table whose new size fits 32 bits keeps every lookup, the number of
  -- entries and the shape, and gives it twice as many buckets and one more.
  pub rehash-Rehashed : {t : Table V} → IsShaped t → t.size * 2 + 1 < u32 → Rehashed t (rehash t)
  unfolding rehash find scan
  rehash-Rehashed {t} s fits =
      let n = t.size * 2 + 1 in
      let same : n % u32 ≡ n = omega arith in
      let start = length-replicate {A = Bucket V} n [] in
      let old = λ (q : ℕ). only_in q t.entries (q % t.size) (λ i. (s.placed q i).1) in
      let all = λ (q : ℕ). move_all-MovedAll n (omega arith) q t.entries (replicate n []) start in
      rw same (record {
        shaped = record {
          positive = omega arith;
          width = (all 0).width ∙ start;
          placed = λ q i.
              let empty = ap (count q) (get_or-replicate {A = Bucket V} n i []) in
              ground (arith, empty, (all q).counts i, (old q).0, (s.placed q (q % t.size)).0);
        };
        size = refl;
        counted = refl;
        entries = omega (arith, (all 0).entries, total-replicate V n);
        reads = λ q.
            (all q).reads
            ∙ ap (λ c. last_all q t.entries (scan q c)) (get_or-replicate n (q % n) [])
            ∙ (old q).1
            ∙ last-scan q (chain_at t.entries (q % t.size)) (s.placed q (q % t.size)).0;
      })
