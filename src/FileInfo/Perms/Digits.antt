-- ===== src/FileInfo/Perms/Digits.antt =====
-- sigar_fileinfo.c: the mode that is written for the permissions of a Unix file is the file's.
use re_co_mon_b.Base.{
  ℕ, suc, zero, ◌+◌, ◌*◌, ◌/◌, ◌%◌, ◌≡◌, refl, ap, ◌∙◌, Bool, true, false, not, ◌&&◌, ◌||◌, List,
  [], ◌∷◌, map, Bytes, arith, ◌==◌, ==_iff, if◌then◌else◌, Bool-cases, inl, inr, length, get_or,
}
use re_co_mon_b.Base.Bits.{test_bit, test_bit-set_bit_self, test_bit-set_bit_ne}
use re_co_mon_b.FileInfo.Perms.{
  PermBits, set_if, unix_mode2perms, perm_modes, perm_int, add_modes, file_attrs_mode_get,
  perm_chars, perm_text, file_attrs_permissions_string_get,
}

abbrev elem : ℕ → List ℕ → Bool
elem k [] = false
elem k (j ∷ ks) = (k == j) || elem k ks

-- No number stands twice in a list.
abbrev pub distinct : List ℕ → Bool
distinct [] = true
distinct (k ∷ ks) = not (elem k ks) && distinct ks

-- The bits whose flags are set.
abbrev build : List Bool → List ℕ → ℕ → ℕ
build (b ∷ bs) (k ∷ ks) p = build bs ks (set_if b k p)
build _ _ p = p

test_bit-zero : (k : ℕ) → test_bit k 0 ≡ false
unfolding test_bit
test_bit-zero zero = refl
test_bit-zero (suc k) = test_bit-zero k

test_bit-set_if_self : (b : Bool) (k p : ℕ) → test_bit k p ≡ false → test_bit k (set_if b k p) ≡ b
test_bit-set_if_self true k p h = test_bit-set_bit_self k p
test_bit-set_if_self false k p h = h

test_bit-set_if_ne :
    (b : Bool) (k j p : ℕ) → (k == j) ≡ false → test_bit k (set_if b j p) ≡ test_bit k p
test_bit-set_if_ne true k j p h = test_bit-set_bit_ne k j p (λ e. ground (arith, h, e))
test_bit-set_if_ne false k j p h = refl

test_bit-build :
    (bs : List Bool) (ks : List ℕ) (k p : ℕ)
    → elem k ks ≡ false
    → test_bit k (build bs ks p) ≡ test_bit k p
test_bit-build (b ∷ bs) (j ∷ ks) k p h =
    test_bit-build bs ks k (set_if b j p) (ground (arith, h))
    ∙ test_bit-set_if_ne b k j p (ground (arith, h))
test_bit-build (b ∷ bs) [] k p h = refl
test_bit-build [] ks k p h = refl

-- The flags as they are read back.
map-test_bit :
    (bs : List Bool) (ks : List ℕ) (p : ℕ)
    → length bs ≡ length ks
    → distinct ks ≡ true
    → ((k : ℕ) → elem k ks ≡ true → test_bit k p ≡ false)
    → map (λ k. test_bit k (build bs ks p)) ks ≡ bs
map-test_bit [] [] p l d clear = refl
map-test_bit [] (k ∷ ks) p l d clear = absurd (omega (arith, l))
map-test_bit (b ∷ bs) [] p l d clear = absurd (omega (arith, l))
map-test_bit (b ∷ bs) (k ∷ ks) p l d clear =
    let new : elem k ks ≡ false = ground (arith, d) in
    let self : (k == k) ≡ true = ground arith in
    let head : test_bit k (build bs ks (set_if b k p)) ≡ b =
      test_bit-build bs ks k (set_if b k p) new ∙ test_bit-set_if_self b k p (clear k (rw self)) in
    let tail = map-test_bit bs ks (set_if b k p) (omega (arith, l)) (ground (arith, d)) (λ q in_ks.
      elim (Bool-cases (q == k)) [
        | inl same ↦ ground (arith, new, in_ks, (==_iff q k).0 same)
        | inr other ↦ test_bit-set_if_ne b q k p other ∙ clear q (rw (other, in_ks))
      ]) in
    rw (head, tail)

-- The sum and the text of flags.
abbrev add_flags : List Bool → List ℕ → ℕ → ℕ
add_flags (b ∷ bs) (int ∷ ints) perms = add_flags bs ints (if b then perms + int else perms)
add_flags _ _ perms = perms

abbrev flag_text : ℕ → List Bool → Bytes
flag_text j [] = []
flag_text j (b ∷ bs) =
    (if b then get_or perm_chars j 0 else b'-') ∷ flag_text (if j == 2 then 0 else j + 1) bs

add_modes-flags :
    (p : ℕ) (modes ints : List ℕ) (perms : ℕ)
    → add_modes p modes ints perms ≡ add_flags (map (λ k. test_bit k p) modes) ints perms
unfolding add_modes
add_modes-flags p (k ∷ modes) (int ∷ ints) perms = add_modes-flags p modes ints _
add_modes-flags p (k ∷ modes) [] perms = refl
add_modes-flags p [] ints perms = refl

perm_text-flags :
    (p j : ℕ) (modes : List ℕ) → perm_text p j modes ≡ flag_text j (map (λ k. test_bit k p) modes)
unfolding perm_text
perm_text-flags p j [] = refl
perm_text-flags p j (k ∷ modes) = rw (perm_text-flags p (if j == 2 then 0 else j + 1) modes)

abbrev mode_flags : ℕ → List Bool
mode_flags mode =
    test_bit 8 mode
    ∷ test_bit 7 mode
    ∷ test_bit 6 mode
    ∷ test_bit 5 mode
    ∷ test_bit 4 mode
    ∷ test_bit 3 mode
    ∷ test_bit 2 mode
    ∷ test_bit 1 mode
    ∷ test_bit 0 mode
    ∷ []

unix_mode2perms-flags :
    (m : PermBits) (mode : ℕ)
    → distinct (perm_modes m) ≡ true
    → map (λ k. test_bit k (unix_mode2perms m mode)) (perm_modes m) ≡ mode_flags mode
unfolding unix_mode2perms
unix_mode2perms-flags m mode d =
    map-test_bit (mode_flags mode) (perm_modes m) 0 refl d (λ k h. test_bit-zero k)

abbrev dot : List ℕ → List ℕ → ℕ
dot (n ∷ ns) (int ∷ ints) = n % 2 * int + dot ns ints
dot _ _ = 0

add_flags-dot :
    (ns ints : List ℕ) (perms : ℕ)
    → add_flags (map (λ n. n % 2 == 1) ns) ints perms ≡ perms + dot ns ints
add_flags-dot (n ∷ ns) (int ∷ ints) perms = elim (Bool-cases (n % 2 == 1)) [
  | inl odd ↦
      let e = (==_iff (n % 2) 1).0 odd in
      rw (odd, e) (omega (arith, add_flags-dot ns ints (perms + int)))
  | inr even ↦
      let e : n % 2 ≡ 0 = ground (arith, even) in
      rw (even, e) (omega (arith, add_flags-dot ns ints perms))
]
add_flags-dot (n ∷ ns) [] perms = omega arith
add_flags-dot [] ints perms = omega arith

abbrev halves : ℕ → List ℕ
halves mode =
    mode / 2 / 2 / 2 / 2 / 2 / 2 / 2 / 2
    ∷ mode / 2 / 2 / 2 / 2 / 2 / 2 / 2
    ∷ mode / 2 / 2 / 2 / 2 / 2 / 2
    ∷ mode / 2 / 2 / 2 / 2 / 2
    ∷ mode / 2 / 2 / 2 / 2
    ∷ mode / 2 / 2 / 2
    ∷ mode / 2 / 2
    ∷ mode / 2
    ∷ mode
    ∷ []

-- Three decimal digits that are those of the mode in base 8.
abbrev pub octal : ℕ → ℕ
octal mode = 100 * (mode / 64 % 8) + 10 * (mode / 8 % 8) + mode % 8

add_flags-octal : (mode : ℕ) → add_flags (mode_flags mode) perm_int 0 ≡ octal mode
unfolding test_bit
add_flags-octal mode = add_flags-dot (halves mode) perm_int 0 ∙ omega arith

-- The letter `c` for a set bit.
abbrev letter : ℕ → ℕ → ℕ → ℕ
letter mode k c = if test_bit k mode then c else b'-'

-- The nine bytes that `ls -l` has for a mode.
abbrev pub symbolic : ℕ → Bytes
unfolding test_bit
symbolic mode =
    letter mode 8 b'r'
    ∷ letter mode 7 b'w'
    ∷ letter mode 6 b'x'
    ∷ letter mode 5 b'r'
    ∷ letter mode 4 b'w'
    ∷ letter mode 3 b'x'
    ∷ letter mode 2 b'r'
    ∷ letter mode 1 b'w'
    ∷ letter mode 0 b'x'
    ∷ []

-- Where the header's nine permissions are different bits, the number that is written for the
-- permissions made of a Unix mode has the digits of the mode's last nine bits in base 8, and the
-- text has a letter for each of these bits that is set.
pub file_attrs_mode_get-octal :
    (m : PermBits) (mode : ℕ)
    → distinct (perm_modes m) ≡ true
    → let permissions = unix_mode2perms m mode in
      (file_attrs_mode_get m permissions ≡ octal mode)
      × (file_attrs_permissions_string_get m permissions ≡ symbolic mode)
unfolding file_attrs_mode_get file_attrs_permissions_string_get symbolic
file_attrs_mode_get-octal m mode d =
    let flags = unix_mode2perms-flags m mode d in
    let p = unix_mode2perms m mode in
    (
      add_modes-flags p (perm_modes m) perm_int 0
          ∙ ap (λ bs. add_flags bs perm_int 0) flags
          ∙ add_flags-octal mode,
      perm_text-flags p 0 (perm_modes m) ∙ ap (flag_text 0) flags,
    )
