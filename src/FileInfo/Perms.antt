-- ===== src/FileInfo/Perms.antt =====
-- sigar_fileinfo.c: the permissions of a file, as they are in its mode, in Sigar's numbers, and as
-- text.
pub mod Digits
use re_co_mon_b.Base.{ℕ, suc, ◌+◌, Bool, List, [], ◌∷◌, Bytes, codes, get_or, ◌==◌, if◌then◌else◌}
use re_co_mon_b.Base.Bits.{test_bit, set_bit}

-- The bits of the header's SIGAR_UREAD and the others, each of which is a single bit.
pub record PermBits : Type 0 where
  pub uread : ℕ
  pub uwrite : ℕ
  pub uexecute : ℕ
  pub gread : ℕ
  pub gwrite : ℕ
  pub gexecute : ℕ
  pub wread : ℕ
  pub wwrite : ℕ
  pub wexecute : ℕ

abbrev pub set_if : Bool → ℕ → ℕ → ℕ
set_if b k perms = if b then set_bit k perms else perms

-- `sigar_unix_mode2perms`; S_IRUSR is 0400 and so on, as POSIX has them.
unfoldable pub unix_mode2perms : PermBits → ℕ → ℕ
unfolding test_bit set_bit
unix_mode2perms m mode =
    let u1 = set_if (test_bit 8 mode) m.uread 0 in
    let u2 = set_if (test_bit 7 mode) m.uwrite u1 in
    let u3 = set_if (test_bit 6 mode) m.uexecute u2 in
    let g1 = set_if (test_bit 5 mode) m.gread u3 in
    let g2 = set_if (test_bit 4 mode) m.gwrite g1 in
    let g3 = set_if (test_bit 3 mode) m.gexecute g2 in
    let w1 = set_if (test_bit 2 mode) m.wread g3 in
    let w2 = set_if (test_bit 1 mode) m.wwrite w1 in set_if (test_bit 0 mode) m.wexecute w2

-- `perm_modes`
abbrev pub perm_modes : PermBits → List ℕ
perm_modes m =
    m.uread ∷ m.uwrite ∷ m.uexecute ∷ m.gread ∷ m.gwrite ∷ m.gexecute ∷ m.wread ∷ m.wwrite
    ∷ m.wexecute ∷ []

-- `perm_int`
abbrev pub perm_int : List ℕ
perm_int = 400 ∷ 200 ∷ 100 ∷ 40 ∷ 20 ∷ 10 ∷ 4 ∷ 2 ∷ 1 ∷ []

-- The loop of `sigar_file_attrs_mode_get` over both tables.
unfoldable pub add_modes : ℕ → List ℕ → List ℕ → ℕ → ℕ
unfolding test_bit
add_modes permissions (mode ∷ modes) (int ∷ ints) perms =
    add_modes permissions modes ints (if test_bit mode permissions then perms + int else perms)
add_modes permissions _ _ perms = perms

-- `sigar_file_attrs_mode_get`.
unfoldable pub file_attrs_mode_get : PermBits → ℕ → ℕ
unfolding add_modes
file_attrs_mode_get m permissions = add_modes permissions (perm_modes m) perm_int 0

-- One byte of the text.
abbrev pub perm_char : ℕ → ℕ → ℕ → ℕ
perm_char permissions mode c = if test_bit mode permissions then c else b'-'

-- `perm_chars`
abbrev pub perm_chars : Bytes
perm_chars = codes "rwx"

-- The two loops of `sigar_file_attrs_permissions_string_get` as one over the modes; `j` is the
-- place in `perm_chars`.
unfoldable pub perm_text : ℕ → ℕ → List ℕ → Bytes
unfolding test_bit
perm_text permissions j [] = []
perm_text permissions j (mode ∷ modes) =
    perm_char permissions mode (get_or perm_chars j 0)
    ∷ perm_text permissions (if j == 2 then 0 else j + 1) modes

-- `sigar_file_attrs_permissions_string_get`.
unfoldable pub file_attrs_permissions_string_get : PermBits → ℕ → Bytes
unfolding perm_text
file_attrs_permissions_string_get m permissions = perm_text permissions 0 (perm_modes m)
