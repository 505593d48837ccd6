-- ===== src/Cache/Chain.antt =====
-- Facts on one chain of sigar_cache.c, and on counting an id in it.
use re_co_mon_b.Base.{
  ℕ, ◌+◌, ◌≤◌, ◌≡◌, refl, ap, suc, false, length, Bool-cases, inl, inr, [], ◌∷◌, ◌++◌, Option, none,
  some, if◌then◌else◌, ◌==◌, arith,
}
use re_co_mon_b.Cache.{Entry, Bucket, scan, store_chain}

module _ {ℓ} {V : Type ℓ} where
  -- How often an id occurs in a chain.
  abbrev pub count : ℕ → Bucket V → ℕ
  count q [] = 0
  count q (e ∷ c) = (if e.id == q then 1 else 0) + count q c

  -- The last entry of an id, or `d`: what is found after each node was moved to a head.
  abbrev pub last : ℕ → Bucket V → Option (Entry V) → Option (Entry V)
  last q [] d = d
  last q (e ∷ c) d = last q c (if e.id == q then some e else d)

  pub scan-eq-none : (q : ℕ) (c : Bucket V) → count q c ≡ 0 → scan q c ≡ none
  unfolding scan
  scan-eq-none q [] h = refl
  scan-eq-none q (e ∷ c) h = ground (arith, scan-eq-none q c)

  pub count-eq-zero : (q : ℕ) (c : Bucket V) → scan q c ≡ none → count q c ≡ 0
  unfolding scan
  count-eq-zero q [] h = refl
  count-eq-zero q (e ∷ c) h = ground (arith, count-eq-zero q c)

  pub last-eq_of_absent :
      (q : ℕ) (c : Bucket V) (d : Option (Entry V)) → count q c ≡ 0 → last q c d ≡ d
  last-eq_of_absent q [] d h = refl
  last-eq_of_absent q (e ∷ c) d h = ground (arith, last-eq_of_absent q c d)

  pub last-scan : (q : ℕ) (c : Bucket V) → count q c ≤ 1 → last q c none ≡ scan q c
  unfolding scan
  last-scan q [] h = refl
  last-scan q (e ∷ c) h = ground (arith, last-scan q c, last-eq_of_absent q c (some e))

  pub count-concat :
      (q : ℕ) (c : Bucket V) (e : Entry V)
      → count q (c ++ e ∷ []) ≡ count q c + (if e.id == q then 1 else 0)
  count-concat q [] e = omega arith
  count-concat q (x ∷ c) e = omega (arith, count-concat q c e)

  pub scan-concat :
      (q : ℕ) (c : Bucket V) (e : Entry V)
      → scan e.id c ≡ none
      → scan q (c ++ e ∷ []) ≡ (if e.id == q then some e else scan q c)
  unfolding scan
  scan-concat q [] e h = refl
  scan-concat q (x ∷ c) e h = ground (arith, scan-concat q c e)

  pub scan-id : (q : ℕ) (c : Bucket V) (e : Entry V) → scan q c ≡ some e → e.id ≡ q
  unfolding scan
  scan-id q [] e h = cc
  scan-id q (x ∷ c) e h = ground (arith, scan-id q c e)

  pub count-store_chain :
      (q key : ℕ) (v : V) (c : Bucket V) → count q (store_chain key v c) ≡ count q c
  unfolding store_chain
  count-store_chain q key v [] = refl
  count-store_chain q key v (e ∷ c) = ground (arith, count-store_chain q key v c)

  -- An entry with its value replaced.
  abbrev pub with_value : V → Option (Entry V) → Option (Entry V)
  with_value v none = none
  with_value v (some e) = some (record e { value = some v })

  pub length-store_chain :
      (key : ℕ) (v : V) (c : Bucket V) → length (store_chain key v c) ≡ length c
  unfolding store_chain
  length-store_chain key v [] = refl
  length-store_chain key v (e ∷ c) = ap suc (length-store_chain key v c)

  pub scan-store_chain_self :
      (key : ℕ) (v : V) (c : Bucket V) → scan key (store_chain key v c) ≡ with_value v (scan key c)
  unfolding store_chain scan
  scan-store_chain_self key v [] = refl
  scan-store_chain_self key v (e ∷ c) = elim (Bool-cases (e.id == key)) [
    | inl here ↦ rw (here, here)
    | inr away ↦ rw (away, away) (scan-store_chain_self key v c)
  ]

  pub scan-store_chain_ne :
      (q key : ℕ) (v : V) (c : Bucket V)
      → (key == q) ≡ false
      → scan q (store_chain key v c) ≡ scan q c
  unfolding store_chain scan
  scan-store_chain_ne q key v [] h = refl
  scan-store_chain_ne q key v (e ∷ c) h = ground (arith, scan-store_chain_ne q key v c)
