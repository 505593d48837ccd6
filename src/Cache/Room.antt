-- ===== src/Cache/Room.antt =====
-- Caches of sigar_cache.c that a bounded number of entries is added to, as a program's loops do.
use re_co_mon_b.Base.{ℕ, suc, ◌+◌, ◌*◌, ◌^◌, ◌<◌, ◌≤◌, Option, none, some, arith, inl, inr}
use re_co_mon_b.Cache.{Table, Entry, find, get, store, u32}
use re_co_mon_b.Cache.Methods.{IsValid, get-Gets, added}
use re_co_mon_b.Cache.Store.{store-IsValid}

module _ {ℓ} {V : Type ℓ} where
  -- A valid cache, with room for `more` entries.
  pub record HasRoom (more : ℕ) (t : Table V) : Type 0 where
    pub valid : IsValid t
    pub size : t.size ≤ 2 * t.count + 1024
    pub count : t.count + more < 2 ^ 29

  pub less : {n m : ℕ} {t : Table V} → m ≤ n → HasRoom n t → HasRoom m t
  less h r = record { valid = r.valid; size = r.size; count = omega (arith, r.count, h) }

  pub weaken : {more : ℕ} {t : Table V} → HasRoom (suc more) t → HasRoom more t
  weaken r = less (omega arith) r

  pub fits : {more : ℕ} {t : Table V} → HasRoom (suc more) t → t.size * 2 + 1 < u32
  fits r = omega (arith, r.size, r.count)

  added-le : (o : Option (Entry V)) → added o ≤ 1
  added-le none = omega arith
  added-le (some e) = omega arith

  pub get-HasRoom :
      {more : ℕ} (t : Table V) (key : ℕ) → HasRoom (suc more) t → HasRoom more (get t key).0
  get-HasRoom t key r =
      let g = get-Gets key r.valid (fits r) in
      let one = added-le (find t key) in
      record {
        valid = g.valid;
        size = elim g.size [
          | inl kept ↦ omega (arith, kept, g.counted, r.size)
          | inr (grown, full) ↦ omega (arith, grown, full, g.counted)
        ];
        count = omega (arith, g.counted, one, r.count);
      }

  pub store-HasRoom :
      {more : ℕ} (t : Table V) (key : ℕ) (v : V) → HasRoom more t → HasRoom more (store t key v)
  unfolding store
  store-HasRoom t key v r = record {
    valid = (store-IsValid key v r.valid).0;
    size = r.size;
    count = r.count;
  }
