-- ===== src/Cache/Store.antt =====
-- A caller's write through the entry that `sigar_cache_get` of sigar_cache.c returned.
use re_co_mon_b.Base.{
  ℕ, ◌+◌, ◌*◌, ◌%◌, ◌<◌, ◌≡◌, ◌∙◌, some, if◌then◌else◌, ◌==◌, ==_iff, arith, length, length-set,
  Bool-cases, Option-cases, ==_refl, inl, inr,
}
use re_co_mon_b.Cache.Buckets.{mod-lt, differ, chain_at, total-set, set-IsPlaced}
use re_co_mon_b.Cache.Chain.{
  count-store_chain, with_value, scan-id, length-store_chain, scan-store_chain_self,
  scan-store_chain_ne,
}
use re_co_mon_b.Cache.Methods.{IsValid, find_after, or_fresh, get-Gets}
use re_co_mon_b.Cache.{Table, bucket, find, get, store, store_chain, u32}

module _ {ℓ} {V : Type ℓ} where
  -- A write through the entry of `key` in a valid table keeps it valid and changes only the value
  -- that a lookup of `key` finds.
  pub store-IsValid :
      {t : Table V} (key : ℕ) (v : V)
      → IsValid t
      → IsValid (store t key v)
        × ((q : ℕ)
            → find (store t key v) q ≡ (if key == q then with_value v (find t key) else find t q))
  unfolding store find
  store-IsValid {t} key v ok =
      let s = ok.shaped in
      let slot : key % t.size < length t.entries =
        omega (arith, s.width, mod-lt key t.size s.positive) in
      let chain = chain_at t.entries (key % t.size) in
      let written = store_chain key v chain in
      (
        record {
          shaped = record {
            positive = s.positive;
            width = length-set t.entries _ _ ∙ s.width;
            placed =
                set-IsPlaced t.size t.entries (key % t.size) written slot s.placed
                  (λ q. rw (count-store_chain q key v chain) (s.placed q (key % t.size)));
          };
          counted = omega (
            arith,
            ok.counted,
            length-store_chain key v chain,
            total-set t.entries (key % t.size) written slot,
          );
          load = ok.load;
        },
        λ q. elim (Bool-cases (key % t.size == q % t.size)) [
          | inl here ↦ elim (Bool-cases (key == q)) [
            | inl same ↦
                rw (find_after t key q written s, here, same, ← (==_iff key q).0 same)
                  (scan-store_chain_self key v chain)
            | inr other ↦
                rw (find_after t key q written s, here, other)
                  (scan-store_chain_ne q key v chain other ∙ rw ((==_iff _ _).0 here))
          ]
          | inr away ↦ rw (find_after t key q written s, away, differ t.size key q away)
        ],
      )

  or_fresh-id : (t : Table V) (key : ℕ) → (or_fresh key (find t key)).id ≡ key
  or_fresh-id t key = elim (Option-cases (find t key)) [
    | inl h ↦ rw h
    | inr (e, h) ↦ rw h (scan-id key (bucket t key) e (unfold find in h))
  ]

  -- After `get` on a valid table, of which twice the size fits 32 bits, and a write through the
  -- result, as callers use the cache, the key is found with the new value, and every other key as
  -- before.
  pub find-store-get :
      {t : Table V} (key : ℕ) (v : V)
      → IsValid t
      → t.size * 2 + 1 < u32
      → (q : ℕ)
      → find (store (get t key).0 key v) q
        ≡ (if key == q then some (record { id = key; value = some v }) else find t q)
  find-store-get {t} key v ok fits q =
      let g = get-Gets key ok fits in
      let written = (store-IsValid key v g.valid).1 q in
      let there : find (get t key).0 key ≡ some (get t key).1 = g.reads key ∙ rw (==_refl key) in
      elim (Bool-cases (key == q)) [
        | inl same ↦ rw (written, same, there, g.returns, or_fresh-id t key)
        | inr other ↦ rw (written, other, g.reads q, other)
      ]
