-- ===== src/Util/Iodev/First.antt =====
-- sigar_util.c: what `sigar_iodev_get` answers for a directory, and that it keeps to it.
use re_co_mon_b.Base.{
  ℕ, suc, ◌+◌, ◌≡◌, refl, sym, ap, ◌∙◌, Bool, true, false, ◌&&◌, List, [], ◌∷◌, Option, none, some,
  Bytes, arith, ◌==◌, ==_iff, if◌then◌else◌, Bool-cases, Option-cases, inl, inr, length, or_else,
  or_else-none, or_else_assoc,
}
use re_co_mon_b.Cache.{Table, find, get}
use re_co_mon_b.Cache.Room.{HasRoom, less, weaken, get-HasRoom}
use re_co_mon_b.Cache.Values.{value_at, get-value, values-get, store-get-Holds}
use re_co_mon_b.Ptql.Host.{Reply, got}
use re_co_mon_b.Util.Iodev.{
  Iodev, FileSystem, Disks, name_is_dev, bounded, full_name, is_dev, fill_device, map_device,
  map_devices, named, from_list, from_entry, fsdev_cache, iodev_get,
}

module _ (d : Disks) where
  abbrev answers : ℕ → Option ℕ → Bool
  answers id none = false
  answers id (some i) = i == id

  -- Whether a file system is on a local disk, has the id, and names a device.
  abbrev is_mapped : ℕ → FileSystem → Bool
  is_mapped id fs = fs.is_local && answers id (d.stat fs.dir_name) && name_is_dev d fs.dev_name

  abbrev device_of : FileSystem → Iodev
  device_of fs = record { name = bounded d fs.dev_name; is_partition = true }

  abbrev mapped : ℕ → FileSystem → Option Iodev
  mapped id fs = if is_mapped id fs then some (device_of fs) else none

  -- The device of the first file system that is on a local disk, whose directory has the id, and
  -- whose device name is one of SIGAR_DEV_PREFIX.
  abbrev pub first_device : ℕ → List FileSystem → Option Iodev
  first_device id [] = none
  first_device id (fs ∷ fslist) = or_else (mapped id fs) (first_device id fslist)

  record Maps (more : ℕ) (t r : Table Iodev) (new_value : ℕ → Option Iodev) : Type 0 where
    room : HasRoom more r
    reads : (q : ℕ) → value_at (find r q) ≡ or_else (value_at (find t q)) (new_value q)

  kept-Maps :
      {more : ℕ} {t r : Table Iodev} {f : ℕ → Option Iodev}
      → HasRoom more r
      → ((q : ℕ) → value_at (find r q) ≡ value_at (find t q))
      → ((q : ℕ) → or_else (value_at (find t q)) (f q) ≡ value_at (find t q))
      → Maps more t r f
  kept-Maps room same none_new = record { room = room; reads = λ q. same q ∙ sym (none_new q) }

  with_id-Maps :
      {more : ℕ} (t : Table Iodev) (fs : FileSystem) (id : ℕ) (value : Option Iodev)
      → HasRoom (suc more) t
      → (get t id).1.value ≡ value
      → Maps more t
          (fill_device d fs id (get t id).0 value)
          (λ q. if (id == q) && name_is_dev d fs.dev_name then some (device_of fs) else none)
  with_id-Maps t fs id (some old) room e =
      kept-Maps (get-HasRoom t id room) (λ q. values-get t id q room)
        (λ q. elim (Bool-cases (id == q)) [
          | inl same ↦
              let has : value_at (find t q) ≡ some old =
                ap (λ k. value_at (find t k)) (sym ((==_iff id q).0 same))
                ∙ sym (get-value t id room)
                ∙ e in
              rw has
          | inr other ↦ rw other (or_else-none (value_at (find t q)))
        ])
  with_id-Maps t fs id none room e = elim (Bool-cases (name_is_dev d fs.dev_name)) [
    | inr no_dev ↦ rw no_dev (
        kept-Maps (get-HasRoom t id room) (λ q. values-get t id q room)
          (λ q. elim (Bool-cases (id == q)) [
            | inl same ↦ rw same (or_else-none (value_at (find t q)))
            | inr other ↦ rw other (or_else-none (value_at (find t q)))
          ]))
    | inl dev ↦
        let h = store-get-Holds t id (device_of fs) room in
        rw dev (record {
          room = h.room;
          reads = λ q. elim (Bool-cases (id == q)) [
            | inl same ↦
                let empty : value_at (find t q) ≡ none =
                  ap (λ k. value_at (find t k)) (sym ((==_iff id q).0 same))
                  ∙ sym (get-value t id room)
                  ∙ e in
                rw (h.found q, same, empty)
            | inr other ↦ rw (h.found q, other) (sym (or_else-none (value_at (find t q))))
          ];
        })
  ]

  map_device-Maps :
      {more : ℕ} (t : Table Iodev) (fs : FileSystem)
      → HasRoom (suc more) t
      → Maps more t (map_device d fs t) (λ q. mapped q fs)
  unfolding map_device
  map_device-Maps t fs room = elim (Bool-cases fs.is_local) [
    | inr remote ↦ rw remote (kept-Maps (weaken room) (λ q. refl) (λ q. or_else-none _))
    | inl local ↦ elim (Option-cases (d.stat fs.dir_name)) [
      | inl unknown ↦
          rw (local, unknown) (kept-Maps (weaken room) (λ q. refl) (λ q. or_else-none _))
      | inr (id, known) ↦
          let m = with_id-Maps t fs id (get t id).1.value room refl in
          rw (local, known) (record { room = m.room; reads = m.reads })
    ]
  ]

  map_devices-Maps :
      (fslist : List FileSystem) (t : Table Iodev) {more : ℕ}
      → HasRoom (length fslist + more) t
      → Maps more t (map_devices d fslist t) (λ q. first_device q fslist)
  unfolding map_devices
  map_devices-Maps [] t room = kept-Maps (less (omega arith) room) (λ q. refl) (λ q. or_else-none _)
  map_devices-Maps (fs ∷ fslist) t {more = more} room =
      let one = map_device-Maps {more = length fslist + more} t fs (less (omega arith) room) in
      let rest = map_devices-Maps fslist (map_device d fs t) one.room in
      record {
        room = rest.room;
        reads = λ q.
            rest.reads q
            ∙ ap (λ o. or_else o (first_device q fslist)) (one.reads q)
            ∙ or_else_assoc (value_at (find t q)) (mapped q fs) (first_device q fslist);
      }

  named-some : (o : Option Iodev) {v : Iodev} → named o ≡ some v → o ≡ some v
  named-some none h = h
  named-some (some iodev) h = ground (arith, h)

  -- What a call leaves: its answer, and a cache that has it.
  record Answers (id : ℕ) (answer : Option Iodev) (r : Table Iodev × Option Iodev) : Type 0 where
    room : HasRoom 1 r.0
    gives : r.1 ≡ answer
    keeps : (v : Iodev) → answer ≡ some v → value_at (find r.0 id) ≡ some v

  from_entry-Answers :
      (dirname : Bytes) (t : Table Iodev) (id : ℕ) (fslist : List FileSystem) (value : Option Iodev)
      → HasRoom (length fslist + 1) t
      → is_dev d dirname ≡ false
      → d.file_systems ≡ got fslist
      → value_at (find t id) ≡ value
      → Answers id
          (or_else value (named (first_device id fslist)))
          (from_entry d dirname t id value)
  unfolding from_entry from_list
  from_entry-Answers dirname t id fslist (some old) room dir listed e = record {
    room = less (omega arith) room;
    gives = refl;
    keeps = λ v h. e ∙ h;
  }
  from_entry-Answers dirname t id fslist none room dir listed e =
      let m = map_devices-Maps fslist t room in
      let read : value_at (find (map_devices d fslist t) id) ≡ first_device id fslist =
        m.reads id ∙ ap (λ o. or_else o (first_device id fslist)) e in
      rw (dir, listed)
        (record {
          room = m.room;
          gives = ap named read;
          keeps = λ v h. read ∙ named-some (first_device id fslist) h;
        })

  iodev_get-Answers :
      (fsdev : Option (Table Iodev)) (dirname : Bytes) (id : ℕ) (fslist : List FileSystem)
      → HasRoom (suc (length fslist + 1)) (fsdev_cache fsdev)
      → d.stat (full_name d dirname) ≡ some id
      → is_dev d dirname ≡ false
      → d.file_systems ≡ got fslist
      → Answers id
          (or_else (value_at (find (fsdev_cache fsdev) id)) (named (first_device id fslist)))
          (iodev_get d fsdev dirname)
  unfolding iodev_get
  iodev_get-Answers fsdev dirname id fslist room known dir listed =
      let t = fsdev_cache fsdev in
      let v = get-value t id room in
      rw (known, v)
        (from_entry-Answers dirname (get t id).0 id fslist (value_at (find t id))
          (get-HasRoom t id room) dir listed (values-get t id id room))

iodev_get-known :
    (d : Disks) (t : Table Iodev) (dirname : Bytes) (id : ℕ) (v : Iodev)
    → d.stat (full_name d dirname) ≡ some id
    → (get t id).1.value ≡ some v
    → (iodev_get d (some t) dirname).1 ≡ some v
unfolding iodev_get from_entry
iodev_get-known d t dirname id v known there = rw (known, there) refl

-- A directory that is known to the system and not a device name is answered with the device that
-- the cache has for its id, or else with that of the first file system in the list that is on a
-- local disk, whose directory has the id, and whose device name is one of SIGAR_DEV_PREFIX, if its
-- name is not empty; and once it is answered with a device, the same device answers the next call
-- for it, whatever file systems are listed then. The cache has room for the file systems.
pub iodev_get-first :
    (d : Disks) (fsdev : Option (Table Iodev)) (dirname : Bytes) (id : ℕ) (fslist : List FileSystem)
    (later : Reply (List FileSystem))
    → HasRoom (suc (length fslist + 1)) (fsdev_cache fsdev)
    → d.stat (full_name d dirname) ≡ some id
    → is_dev d dirname ≡ false
    → d.file_systems ≡ got fslist
    → let (t, answer) = iodev_get d fsdev dirname in
      (answer ≡ or_else (value_at (find (fsdev_cache fsdev) id)) (named (first_device d id fslist)))
      × ((v : Iodev)
          → answer ≡ some v
          → (iodev_get (record d { file_systems = later }) (some t) dirname).1 ≡ some v)
iodev_get-first d fsdev dirname id fslist later room known dir listed =
    let a = iodev_get-Answers d fsdev dirname id fslist room known dir listed in
    let t = (iodev_get d fsdev dirname).0 in
    (
      a.gives,
      λ v h.
          iodev_get-known (record d { file_systems = later }) t dirname id v known
            (get-value t id a.room ∙ a.keeps v (sym a.gives ∙ h)),
    )
