-- ===== src/Cache/Values.antt =====
-- Caches of sigar_cache.c as the values they have for keys.
use re_co_mon_b.Base.{
  ℕ, suc, ◌≡◌, refl, ap, ◌∙◌, Option, none, some, false, ◌==◌, ==_iff, ==_refl, if◌then◌else◌,
  Bool-cases, inl, inr,
}
use re_co_mon_b.Cache.{Table, Entry, find, get, store}
use re_co_mon_b.Cache.Methods.{get-Gets, or_fresh}
use re_co_mon_b.Cache.Room.{HasRoom, fits, get-HasRoom, store-HasRoom}
use re_co_mon_b.Cache.Store.{find-store-get, store-IsValid}

module _ {ℓ} {V : Type ℓ} where
  -- The value that a cache has for a key.
  abbrev pub value_at : Option (Entry V) → Option V
  value_at none = none
  value_at (some e) = e.value

  or_fresh-value : (key : ℕ) (o : Option (Entry V)) → (or_fresh key o).value ≡ value_at o
  or_fresh-value key none = refl
  or_fresh-value key (some e) = refl

  -- The value that `get` returns is the one that is there.
  pub get-value :
      {more : ℕ} (t : Table V) (key : ℕ)
      → HasRoom (suc more) t
      → (get t key).1.value ≡ value_at (find t key)
  get-value t key r =
      let g = get-Gets key r.valid (fits r) in
      ap (λ x. x.value) g.returns ∙ or_fresh-value key (find t key)

  -- A cache `r` that has the value `v` for a key, and for the others what `t` has.
  pub record Holds (more : ℕ) (t : Table V) (key : ℕ) (v : V) (r : Table V) : Type ℓ where
    pub room : HasRoom more r
    pub found :
        (q : ℕ)
        → find r q ≡ (if key == q then some (record { id = key; value = some v }) else find t q)

  pub store-get-Holds :
      {more : ℕ} (t : Table V) (key : ℕ) (v : V)
      → HasRoom (suc more) t
      → Holds more t key v (store (get t key).0 key v)
  store-get-Holds t key v r = record {
    room = store-HasRoom (get t key).0 key v (get-HasRoom t key r);
    found = find-store-get key v r.valid (fits r);
  }

  -- A second write through the same entry.
  pub store-Holds :
      {more : ℕ} {t r : Table V} (key : ℕ) (v w : V)
      → Holds more t key v r
      → Holds more t key w (store r key w)
  store-Holds {t = t} {r = r} key v w h = record {
    room = store-HasRoom r key w h.room;
    found = λ q.
        let written = (store-IsValid key w h.room.valid).1 q in
        elim (Bool-cases (key == q)) [
          | inl same ↦ rw (written, same, h.found key, ==_refl key)
          | inr other ↦ rw (written, other, h.found q, other)
        ];
  }

  -- What such a cache has for the key, and for another.
  pub value_self :
      {more : ℕ} {t r : Table V} {key : ℕ} {v : V}
      → Holds more t key v r
      → value_at (find r key) ≡ some v
  value_self {key = key} h = rw (h.found key, ==_refl key)

  pub value_other :
      {more : ℕ} {t r : Table V} {key : ℕ} {v : V} (q : ℕ)
      → Holds more t key v r
      → (key == q) ≡ false
      → value_at (find r q) ≡ value_at (find t q)
  value_other q h other = rw (h.found q, other)

  -- `get` leaves the values as they are.
  pub values-get :
      {more : ℕ} (t : Table V) (key q : ℕ)
      → HasRoom (suc more) t
      → value_at (find (get t key).0 q) ≡ value_at (find t q)
  values-get t key q r =
      let read = (get-Gets key r.valid (fits r)).reads q in
      elim (Bool-cases (key == q)) [
        | inl same ↦ rw (read, same) (get-value t key r ∙ rw ((==_iff key q).0 same))
        | inr other ↦ rw (read, other)
      ]
