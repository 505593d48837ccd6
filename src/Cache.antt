-- ===== src/Cache.antt =====
-- sigar_cache.c: a chained hash table from 64-bit ids to values.
-- A chain of nodes linked by `next` is the list of its entries, and an entry's address is its
-- id, which no two nodes share. `count` and `size` are unsigned 32-bit numbers, as `new_size`
-- is. Memory is never exhausted: the code does not test what `malloc` returns.
pub mod Chain
pub mod Buckets
pub mod Rehash
pub mod Methods
pub mod Store
pub mod Room
pub mod Values
pub mod Release
use re_co_mon_b.Base.{
  ℕ, ◌+◌, ◌*◌, ◌%◌, ◌^◌, List, [], ◌∷◌, ◌++◌, Option, none, some, Bool, true, false, if◌then◌else◌,
  ltb, ◌==◌, get_or, set, replicate,
}

-- `value` is NULL until the caller stores one.
pub record Entry {ℓ} (V : Type ℓ) : Type ℓ where
  pub id : ℕ
  pub value : Option V

abbrev pub Bucket {ℓ} : Type ℓ → Type ℓ
Bucket V = List (Entry V)

pub record Table {ℓ} (V : Type ℓ) : Type ℓ where
  pub count : ℕ
  pub size : ℕ
  pub entries : List (Bucket V)

-- What `sigar_cache_destroy` frees, in order.
pub data Freed {ℓ} (V : Type ℓ) : Type ℓ where
  value : V → Freed V
  node : ℕ → Freed V
  buckets : Freed V
  table : Freed V

abbrev pub u32 : ℕ
u32 = 2 ^ 32

module _ {ℓ} {V : Type ℓ} where
  unfoldable pub new : ℕ → Table V
  new size = record { count = 0; size = size; entries = replicate size [] }

  -- The walk over one chain.
  unfoldable pub scan : ℕ → Bucket V → Option (Entry V)
  scan key [] = none
  scan key (e ∷ c) = if e.id == key then some e else scan key c

  -- `SIGAR_CACHE_IX`. In a table of size 0 the remainder is undefined; `find` and `get` are
  -- stated for tables of a positive size only.
  abbrev pub bucket : Table V → ℕ → Bucket V
  bucket t key = get_or t.entries (key % t.size) []

  unfoldable pub find : Table V → ℕ → Option (Entry V)
  find t key = scan key (bucket t key)

  -- The body of the inner loop of `sigar_cache_rehash`: the node goes to the head of its chain.
  unfoldable pub move : ℕ → Entry V → List (Bucket V) → List (Bucket V)
  move new_size e new_entries =
      let hash = e.id % new_size in set new_entries hash (e ∷ get_or new_entries hash [])

  unfoldable pub move_chain : ℕ → Bucket V → List (Bucket V) → List (Bucket V)
  move_chain n [] fresh = fresh
  move_chain n (e ∷ c) fresh = move_chain n c (move n e fresh)

  unfoldable pub move_all : ℕ → List (Bucket V) → List (Bucket V) → List (Bucket V)
  move_all n [] fresh = fresh
  move_all n (c ∷ cs) fresh = move_all n cs (move_chain n c fresh)

  unfoldable pub rehash : Table V → Table V
  rehash t =
      let new_size = (t.size * 2 + 1) % u32 in
      record t { size = new_size; entries = move_all new_size t.entries (replicate new_size []) }

  -- `*ptr = entry`, where `ptr` is the end of the chain of `key`.
  unfoldable pub attach : Table V → ℕ → Table V × Entry V
  attach t key =
      let entry : Entry V = record { id = key; value = none } in
      (record t { entries = set t.entries (key % t.size) (bucket t key ++ entry ∷ []) }, entry)

  -- The entry of `key`, created if it does not exist; the test reads `count` before the `++`.
  unfoldable pub get : Table V → ℕ → Table V × Entry V
  get t key = elim (find t key) [
    | some e ↦ (t, e)
    | none ↦
        let counted = record t { count = (t.count + 1) % u32 } in
        attach (if ltb t.size t.count then rehash counted else counted) key
  ]

  -- A caller's `entry->value = v` through the pointer that `get` returned.
  unfoldable pub store_chain : ℕ → V → Bucket V → Bucket V
  store_chain key v [] = []
  store_chain key v (e ∷ c) =
      (if e.id == key then record e { value = some v } else e) ∷ store_chain key v c

  unfoldable pub store : Table V → ℕ → V → Table V
  unfolding store_chain
  store t key v = record t {
    entries = set t.entries (key % t.size) (store_chain key v (bucket t key));
  }

  unfoldable pub free_value : Option V → List (Freed V) → List (Freed V)
  free_value none rest = rest
  free_value (some v) rest = value v ∷ rest

  unfoldable pub free_chain : Bucket V → List (Freed V) → List (Freed V)
  unfolding free_value
  free_chain [] rest = rest
  free_chain (e ∷ c) rest = free_value e.value (node e.id ∷ free_chain c rest)

  unfoldable pub free_all : List (Bucket V) → List (Freed V)
  unfolding free_chain
  free_all [] = buckets ∷ table ∷ []
  free_all (c ∷ cs) = free_chain c (free_all cs)

  unfoldable pub destroy : Table V → List (Freed V)
  unfolding free_all
  destroy t = free_all t.entries
