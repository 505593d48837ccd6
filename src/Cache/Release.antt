-- ===== src/Cache/Release.antt =====
-- `sigar_cache_destroy` of sigar_cache.c: what is freed, and how often.
use re_co_mon_b.Base.{
  ℕ, ◌+◌, ◌%◌, ◌≡◌, refl, ap, ◌∙◌, List, [], ◌∷◌, ◌++◌, none, some, if◌then◌else◌, ◌==◌, arith, ◌≤◌,
  Option-cases, inl, inr,
}
use re_co_mon_b.Cache.Buckets.{chain_at, count_all, only_in}
use re_co_mon_b.Cache.Chain.{count, count-eq-zero, scan-eq-none}
use re_co_mon_b.Cache.Methods.{IsValid, added}
use re_co_mon_b.Cache.{Table, Bucket, Freed, value, node, scan, find, free_chain, free_all, destroy}

module _ {ℓ} {V : Type ℓ} where
  -- How often the node of an id is freed.
  abbrev pub node_frees : ℕ → List (Freed V) → ℕ
  node_frees q [] = 0
  node_frees q (node k ∷ fs) = (if k == q then 1 else 0) + node_frees q fs
  node_frees q (_ ∷ fs) = node_frees q fs

  -- The values freed, in order.
  abbrev pub freed_values : List (Freed V) → List V
  freed_values [] = []
  freed_values (value v ∷ fs) = v ∷ freed_values fs
  freed_values (_ ∷ fs) = freed_values fs

  -- The values stored in a chain and in the array.
  abbrev pub values : Bucket V → List V
  values [] = []
  values (e ∷ c) = elim e.value [ none ↦ values c | some v ↦ v ∷ values c ]

  abbrev pub values_all : List (Bucket V) → List V
  values_all [] = []
  values_all (c ∷ cs) = values c ++ values_all cs

  node_frees-free_chain :
      (q : ℕ) (c : Bucket V) (rest : List (Freed V))
      → node_frees q (free_chain c rest) ≡ count q c + node_frees q rest
  unfolding free_chain
  node_frees-free_chain q [] rest = omega arith
  node_frees-free_chain q (e ∷ c) rest = ground (arith, node_frees-free_chain q c rest)

  node_frees-free_all : (q : ℕ) (cs : List (Bucket V)) → node_frees q (free_all cs) ≡ count_all q cs
  unfolding free_all
  node_frees-free_all q [] = refl
  node_frees-free_all q (c ∷ cs) =
      node_frees-free_chain q c (free_all cs) ∙ ap (◌+◌ (count q c)) (node_frees-free_all q cs)

  freed_values-free_chain :
      (c : Bucket V) (rest : List (Freed V))
      → freed_values (free_chain c rest) ≡ values c ++ freed_values rest
  unfolding free_chain
  freed_values-free_chain [] rest = refl
  freed_values-free_chain (e ∷ c) rest = ground (arith, freed_values-free_chain c rest)

  freed_values-free_all : (cs : List (Bucket V)) → freed_values (free_all cs) ≡ values_all cs
  unfolding free_all
  freed_values-free_all [] = refl
  freed_values-free_all (c ∷ cs) =
      freed_values-free_chain c (free_all cs) ∙ ap (◌++◌ (values c)) (freed_values-free_all cs)

  count-add-added : (q : ℕ) (c : Bucket V) → count q c ≤ 1 → count q c + added (scan q c) ≡ 1
  count-add-added q c h = elim (Option-cases (scan q c)) [
    | inl e ↦ rw e (omega (arith, count-eq-zero q c e))
    | inr (e, h') ↦ rw h' (ground (arith, scan-eq-none q c))
  ]

  -- `sigar_cache_destroy` of a valid table frees the node of each key that a lookup finds exactly
  -- once, and no other node, and frees exactly the values that are stored, in table order.
  pub destroy_lem :
      {t : Table V}
      → IsValid t
      → ((q : ℕ) → node_frees q (destroy t) + added (find t q) ≡ 1)
        × (freed_values (destroy t) ≡ values_all t.entries)
  unfolding destroy find
  destroy_lem {t} v = (
    λ q.
        let old = only_in q t.entries (q % t.size) (λ i. (v.shaped.placed q i).1) in
        let here = v.shaped.placed q (q % t.size) in
        omega (
          arith,
          node_frees-free_all q t.entries,
          old.0,
          count-add-added q (chain_at t.entries (q % t.size)) here.0,
        ),
    freed_values-free_all t.entries,
  )
