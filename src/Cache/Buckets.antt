-- ===== src/Cache/Buckets.antt =====
-- The bucket array of sigar_cache.c: where an id may stand, and what a write to one bucket does.
use re_co_mon_b.Base.{
  ℕ, zero, suc, ◌+◌, ◌%◌, ◌≤◌, ◌<◌, ◌≡◌, ◌≢◌, refl, ap, false, ◌∙◌, List, [], ◌∷◌, Option, none,
  if◌then◌else◌, ◌==◌, ==_iff, arith, length, get_or, set, replicate, get_or-set_self,
  get_or-set_ne, get_or-replicate, inl, inr, Bool-cases,
}
use re_co_mon_b.Cache.Chain.{count, last, last-eq_of_absent}
use re_co_mon_b.Cache.{Entry, Bucket}

pub mod-lt : (k n : ℕ) → 0 < n → k % n < n
mod-lt k n h = grind arith

moved_off : {a b : ℕ} → (a == b) ≡ false → a ≢ b
moved_off h = ground arith

pub differ : (n a q : ℕ) → (a % n == q % n) ≡ false → (a == q) ≡ false
differ n a q away = elim (Bool-cases (a == q)) [
  | inl same ↦ absurd (moved_off away (ap (λ (k : ℕ). k % n) ((==_iff a q).0 same)))
  | inr other ↦ other
]

module _ {ℓ} {V : Type ℓ} where
  abbrev pub chain_at : List (Bucket V) → ℕ → Bucket V
  chain_at bs i = get_or bs i []

  -- All entries of the array.
  abbrev pub total : List (Bucket V) → ℕ
  total [] = 0
  total (c ∷ cs) = length c + total cs

  -- An id occurs at most once, and only in the bucket of its remainder by `n`.
  abbrev pub IsPlaced : ℕ → List (Bucket V) → Type 0
  IsPlaced n bs =
      (q i : ℕ) → (count q (chain_at bs i) ≤ 1) × (q % n ≢ i → count q (chain_at bs i) ≡ 0)

  -- `last` over the chains in order.
  abbrev pub last_all : ℕ → List (Bucket V) → Option (Entry V) → Option (Entry V)
  last_all q [] d = d
  last_all q (c ∷ cs) d = last_all q cs (last q c d)

  -- `count` over the chains.
  abbrev pub count_all : ℕ → List (Bucket V) → ℕ
  count_all q [] = 0
  count_all q (c ∷ cs) = count q c + count_all q cs

  pub total-set :
      (bs : List (Bucket V)) (i : ℕ) (c : Bucket V)
      → i < length bs
      → total (set bs i c) + length (chain_at bs i) ≡ total bs + length c
  total-set [] i c h = absurd (omega arith)
  total-set (b ∷ bs) zero c h = omega arith
  total-set (b ∷ bs) (suc i) c h = omega (arith, total-set bs i c)

  pub count_all-nowhere :
      (q : ℕ) (bs : List (Bucket V))
      → ((i : ℕ) → count q (chain_at bs i) ≡ 0)
      → (count_all q bs ≡ 0) × ((d : Option (Entry V)) → last_all q bs d ≡ d)
  count_all-nowhere q [] h = (refl, λ d. refl)
  count_all-nowhere q (c ∷ cs) h =
      let (none_left, kept) = count_all-nowhere q cs (λ i. h (suc i)) in
      (omega (arith, h 0), λ d. kept _ ∙ last-eq_of_absent q c d (h 0))

  -- An id that only bucket `j` may hold is counted, and found last, there.
  pub only_in :
      (q : ℕ) (bs : List (Bucket V)) (j : ℕ)
      → ((i : ℕ) → j ≢ i → count q (chain_at bs i) ≡ 0)
      → (count_all q bs ≡ count q (chain_at bs j))
        × (last_all q bs none ≡ last q (chain_at bs j) none)
  only_in q [] j h = (refl, refl)
  only_in q (c ∷ cs) zero h =
      let (none_left, kept) = count_all-nowhere q cs (λ i. h (suc i) (omega arith)) in
      (omega arith, kept _)
  only_in q (c ∷ cs) (suc j) h =
      let here = h 0 (omega arith) in
      let (counted, found) = only_in q cs j (λ i n. h (suc i) (omega arith)) in
      (omega arith, rw (last-eq_of_absent q c none here) found)

  -- Bucket `i` is the written one or an old one.
  pub get_or-set_cases :
      (bs : List (Bucket V)) (i j : ℕ) (c : Bucket V)
      → i < length bs
      → chain_at (set bs i c) j ≡ (if i == j then c else chain_at bs j)
  get_or-set_cases bs i j c h = elim (Bool-cases (i == j)) [
    | inl e ↦ rw (e, ← (==_iff i j).0 e) (get_or-set_self bs i c [] h)
    | inr n ↦ rw n (get_or-set_ne bs i j c [] (ground arith))
  ]

  -- What a chain may hold that stands in bucket `i` of `n`.
  abbrev pub Belongs : ℕ → ℕ → Bucket V → Type 0
  Belongs n i c = (q : ℕ) → (count q c ≤ 1) × (q % n ≢ i → count q c ≡ 0)

  pub set-IsPlaced :
      (n : ℕ) (bs : List (Bucket V)) (i : ℕ) (c : Bucket V)
      → i < length bs
      → IsPlaced n bs
      → Belongs n i c
      → IsPlaced n (set bs i c)
  set-IsPlaced n bs i c h placed fits q j = elim (Bool-cases (i == j)) [
    | inl here ↦ rw (get_or-set_cases bs i j c h, here, ← (==_iff i j).0 here) (fits q)
    | inr away ↦ rw (get_or-set_cases bs i j c h, away) (placed q j)
  ]

module _ {ℓ} (V : Type ℓ) where
  pub total-replicate : (n : ℕ) → total {V = V} (replicate n []) ≡ 0
  total-replicate zero = refl
  total-replicate (suc n) = omega (arith, total-replicate n)

  pub replicate-IsPlaced : (n m : ℕ) → IsPlaced {V = V} n (replicate m [])
  replicate-IsPlaced n m q i = rw get_or-replicate (omega arith)
