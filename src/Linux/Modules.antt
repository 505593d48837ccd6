-- ===== src/Linux/Modules.antt =====
-- os/linux/linux_sigar.c: the files that are mapped into a process.
pub mod Regions
use re_co_mon_b.Base.{ℕ, ◌-◌, ◌||◌, List, [], ◌∷◌, ◌++◌, Bytes, ◌==◌, if◌then◌else◌, length, take}
use re_co_mon_b.Linux.{strtoull}
use re_co_mon_b.Ptql.Host.{Reply, got, failed}
use re_co_mon_b.Util.Text.{skip_spaces, skip_multiple_token}

-- What the code takes of a line of /proc/<pid>/maps.
pub record Region : Type 0 where
  pub inode : ℕ
  pub name : Bytes

-- The region, flags, offset and device are skipped; the last byte of the rest is chopped.
unfoldable pub read_region : Bytes → Region
unfolding skip_multiple_token skip_spaces strtoull
read_region line =
    let (inode, ptr) = strtoull (skip_multiple_token line 4) in
    let name = skip_spaces ptr in record { inode = inode; name = take (length name - 1) name }

-- `procmods->data` and `procmods->module_getter`, which gets a name and gives a status.
pub record Getter {ℓ} (S : Type ℓ) : Type ℓ where
  pub call : S → Bytes → S × ℕ

module _ {ℓ} {S : Type ℓ} (getter : Getter S) where
  abbrev pub after_call : S × ℕ → (S → S) → S
  after_call (s, status) next = if status == 0 then next s else s

  -- The loop over the lines, with `last_inode`.
  unfoldable pub modules_loop : ℕ → S → List Bytes → S
  unfolding read_region
  modules_loop last_inode s [] = s
  modules_loop last_inode s (line ∷ lines) =
      let region = read_region line in
      let skipped = modules_loop 0 s lines in
      let handed =
        after_call (getter.call s region.name) (λ t. modules_loop region.inode t lines) in
      if region.inode == 0 || region.inode == last_inode then skipped else handed

  unfoldable pub proc_modules_get : S → Reply (List Bytes) → Reply S
  unfolding modules_loop
  proc_modules_get s (failed errno) = failed errno
  proc_modules_get s (got lines) = got (modules_loop 0 s lines)

-- A getter that keeps what it is given and does not stop.
abbrev pub collect : Getter (List Bytes)
collect = record { call = λ seen name. (seen ++ name ∷ [], 0) }
