-- ===== src/Cache/Methods.antt =====
-- `sigar_cache_new`, `sigar_cache_find` and `sigar_cache_get` of sigar_cache.c, and a caller's
-- write through the entry that `sigar_cache_get` returned.
use re_co_mon_b.Base.{
  ℕ, ◌+◌, ◌*◌, ◌%◌, ◌≤◌, ◌<◌, ◌≡◌, ◌⊎◌, refl, ◌∙◌, [], ◌∷◌, ◌++◌, Option, none, some, if◌then◌else◌,
  ltb, ltb→lt, ◌==◌, ==_iff, arith, length, set, length-set, length-replicate, get_or-replicate,
  length-append, Bool-cases, Option-cases, inl, inr,
}
use re_co_mon_b.Cache.Buckets.{
  mod-lt, differ, chain_at, total, total-set, total-replicate, replicate-IsPlaced, get_or-set_cases,
  Belongs, set-IsPlaced,
}
use re_co_mon_b.Cache.Chain.{count-eq-zero, count-concat, scan-concat}
use re_co_mon_b.Cache.Rehash.{IsShaped, rehash-Rehashed}
use re_co_mon_b.Cache.{Table, Entry, Bucket, new, scan, find, attach, get, u32}

module _ {ℓ} {V : Type ℓ} where
  -- A table between calls: the shape, `count` is the number of entries, and at most one entry
  -- more than there are buckets.
  pub record IsValid (t : Table V) : Type 0 where
    pub shaped : IsShaped t
    pub counted : total t.entries ≡ t.count
    pub load : t.count ≤ t.size + 1

  abbrev pub fresh : ℕ → Entry V
  fresh key = record { id = key; value = none }

  -- The entry of a lookup, or a new one.
  abbrev pub or_fresh : ℕ → Option (Entry V) → Entry V
  or_fresh key none = fresh key
  or_fresh key (some e) = e

  abbrev pub added : Option (Entry V) → ℕ
  added none = 1
  added (some e) = 0

  record Attached (t : Table V) (key : ℕ) (r : Table V × Entry V) : Type ℓ where
    shaped : IsShaped r.0
    size : r.0.size ≡ t.size
    count_kept : r.0.count ≡ t.count
    entries : total r.0.entries ≡ total t.entries + 1
    returns : r.1 ≡ fresh key
    reads : (q : ℕ) → find r.0 q ≡ (if key == q then some (fresh key) else find t q)

  -- A lookup after the chain of `key` was replaced by `c`.
  pub find_after :
      (t : Table V) (key q : ℕ) (c : Bucket V)
      → IsShaped t
      → find (record t { entries = set t.entries (key % t.size) c }) q
        ≡ (if key % t.size == q % t.size then scan q c else find t q)
  unfolding find
  find_after t key q c s =
      let written =
        get_or-set_cases t.entries (key % t.size) (q % t.size) c
          (omega (arith, s.width, mod-lt key t.size s.positive)) in
      elim (Bool-cases (key % t.size == q % t.size)) [
        | inl here ↦ rw (written, here)
        | inr away ↦ rw (written, away)
      ]

  concat-Belongs :
      (n key : ℕ) (c : Bucket V)
      → scan key c ≡ none
      → Belongs n (key % n) c
      → Belongs n (key % n) (c ++ fresh key ∷ [])
  concat-Belongs n key c absent old q = elim (Bool-cases (key == q)) [
    | inl same ↦
        let e = (==_iff key q).0 same in
        rw (count-concat q c (fresh key), same, ← e) (omega (arith, count-eq-zero key c absent))
    | inr other ↦ rw (count-concat q c (fresh key), other) (ground (arith, old q))
  ]

  attach-Attached :
      {t : Table V} (key : ℕ) → IsShaped t → find t key ≡ none → Attached t key (attach t key)
  unfolding attach find
  attach-Attached {t} key s absent =
      let slot : key % t.size < length t.entries =
        omega (arith, s.width, mod-lt key t.size s.positive) in
      let chain = chain_at t.entries (key % t.size) in
      let longer = chain ++ fresh key ∷ [] in
      record {
        shaped = record {
          positive = s.positive;
          width = length-set t.entries _ _ ∙ s.width;
          placed =
              set-IsPlaced t.size t.entries (key % t.size) longer slot s.placed
                (concat-Belongs t.size key chain absent (λ q. s.placed q (key % t.size)));
        };
        size = refl;
        count_kept = refl;
        entries = omega (
          arith,
          length-append chain (fresh key ∷ []),
          total-set t.entries (key % t.size) longer slot,
        );
        returns = refl;
        reads = λ q. elim (Bool-cases (key % t.size == q % t.size)) [
          | inl here ↦
              rw (find_after t key q longer s, here, scan-concat q chain (fresh key) absent)
                (rw ((==_iff _ _).0 here))
          | inr away ↦ rw (find_after t key q longer s, away, differ t.size key q away)
        ];
      }

  -- What a call of `get` does to a table, by whether the key was there.
  pub record Gets (t : Table V) (key : ℕ) (r : Table V × Entry V) : Type ℓ where
    pub valid : IsValid r.0
    pub returns : r.1 ≡ or_fresh key (find t key)
    pub counted : r.0.count ≡ t.count + added (find t key)
    pub size : (r.0.size ≡ t.size) ⊎ ((r.0.size ≡ t.size * 2 + 1) × (t.size < t.count))
    pub reads : (q : ℕ) → find r.0 q ≡ (if key == q then some r.1 else find t q)

  present :
      (t : Table V) (key : ℕ) {e : Entry V} → IsValid t → find t key ≡ some e → Gets t key (t, e)
  present t key v h = record {
    valid = v;
    returns = rw h;
    counted = rw h (omega arith);
    size = inl refl;
    reads = λ q. elim (Bool-cases (key == q)) [
      | inl same ↦ rw (same, ← (==_iff key q).0 same) h
      | inr other ↦ rw other
    ];
  }

  -- The table to which a new entry is attached: `t` itself, or `t` rehashed.
  record Counted (t t' : Table V) : Type ℓ where
    shaped : IsShaped t'
    counted : t'.count ≡ t.count + 1
    entries : total t'.entries ≡ total t.entries
    load : t'.count ≤ t'.size + 1
    size : (t'.size ≡ t.size) ⊎ ((t'.size ≡ t.size * 2 + 1) × (t.size < t.count))
    reads : (q : ℕ) → find t' q ≡ find t q

  absent-Gets :
      {t t' : Table V} (key : ℕ)
      → IsValid t
      → find t key ≡ none
      → Counted t t'
      → Gets t key (attach t' key)
  absent-Gets {t} {t'} key v h c =
      let a = attach-Attached key c.shaped (c.reads key ∙ h) in
      record {
        valid = record {
          shaped = a.shaped;
          counted = omega (arith, a.entries, a.count_kept, v.counted, c.entries, c.counted);
          load = omega (arith, a.count_kept, a.size, c.load);
        };
        returns = a.returns ∙ rw h;
        counted = a.count_kept ∙ c.counted ∙ rw h;
        size = rw a.size c.size;
        reads = λ q. rw (a.reads q, a.returns, c.reads q);
      }

  -- `sigar_cache_get` returns the entry of the key, or a new one with no value, which every later
  -- lookup of the key finds; it loses and changes no other lookup, keeps the table valid, counts
  -- a new entry, and enlarges the table only when there were more entries than buckets. The
  -- enlarged table's size has to fit 32 bits.
  pub get-Gets : {t : Table V} (key : ℕ) → IsValid t → t.size * 2 + 1 < u32 → Gets t key (get t key)
  unfolding get
  get-Gets {t} key v fits =
      let wraps : (t.count + 1) % u32 ≡ t.count + 1 = omega (arith, v.load) in
      let shaped : IsShaped (record t { count = t.count + 1 }) = record {
        positive = v.shaped.positive;
        width = v.shaped.width;
        placed = v.shaped.placed;
      } in
      elim (Option-cases (find t key)) [
        | inr (e, h) ↦ rw (h, get) (present t key v h)
        | inl h ↦ elim (Bool-cases (ltb t.size t.count)) [
          | inl full ↦
              let r = rehash-Rehashed shaped fits in
              rw (h, full, wraps, get)
                (absent-Gets key v h (record {
                  shaped = r.shaped;
                  counted = r.counted;
                  entries = r.entries;
                  load = omega (arith, r.counted, r.size, v.load, v.shaped.positive);
                  size = inr (r.size, ltb→lt t.size t.count full);
                  reads = λ q. r.reads q ∙ unfold find in refl;
                }))
          | inr roomy ↦
              rw (h, roomy, wraps, get)
                (absent-Gets key v h (record {
                  shaped = shaped;
                  counted = refl;
                  entries = refl;
                  load = ground arith;
                  size = inl refl;
                  reads = λ q. unfold find in refl;
                }))
        ]
      ]

  -- `sigar_cache_new` with a positive size gives a valid table in which no key is found.
  pub new-IsValid :
      (size : ℕ)
      → 0 < size
      → let t : Table V = new size in IsValid t × (t.size ≡ size) × ((key : ℕ) → find t key ≡ none)
  unfolding new find scan
  new-IsValid size pos = (
    record {
      shaped = record {
        positive = pos;
        width = length-replicate {A = Bucket V} size [];
        placed = replicate-IsPlaced V size size;
      };
      counted = total-replicate V size;
      load = omega arith;
    },
    refl,
    λ key. rw (get_or-replicate {A = Bucket V} size (key % size) []),
  )
