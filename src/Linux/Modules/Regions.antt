-- ===== src/Linux/Modules/Regions.antt =====
-- os/linux/linux_sigar.c: which of the regions of the mapped files are handed on.
use re_co_mon_b.Base.{
  ℕ, ◌≡◌, refl, sym, ap, ◌∙◌, Bool, true, false, not, ◌||◌, List, [], ◌∷◌, ◌++◌, map, Bytes, ◌==◌,
  arith, if◌then◌else◌, Bool-cases, inl, inr,
}
use re_co_mon_b.Linux.Modules.{Getter, read_region, after_call, modules_loop, proc_modules_get}
use re_co_mon_b.Ptql.Host.{got}

-- Adjacent lines of one file, or of none where the inode is 0.
pub record Group : Type 0 where
  pub inode : ℕ
  pub first : Bytes
  pub others : List Bytes

-- The lines are of the file with the inode.
abbrev pub AreOf : ℕ → List Bytes → Type 0
AreOf inode [] = Unit
AreOf inode (line ∷ lines) = ((read_region line).inode ≡ inode) × AreOf inode lines

-- The next group is of another inode.
abbrev pub is_apart : ℕ → List Group → Bool
is_apart inode [] = true
is_apart inode (g ∷ gs) = not (g.inode == inode)

abbrev pub AreGroups : List Group → Type 0
AreGroups [] = Unit
AreGroups (g ∷ gs) =
    AreOf g.inode (g.first ∷ g.others) × (is_apart g.inode gs ≡ true) × AreGroups gs

abbrev pub lines_of : List Group → List Bytes
lines_of [] = []
lines_of (g ∷ gs) = (g.first ∷ g.others) ++ lines_of gs

-- The first, the third and so on.
abbrev pub odd_ones : List Bytes → List Bytes
odd_ones [] = []
odd_ones (line ∷ []) = line ∷ []
odd_ones (line ∷ next ∷ lines) = line ∷ odd_ones lines

abbrev pub name_of : Bytes → Bytes
name_of line = (read_region line).name

-- The names that are handed on: of every file, those of its odd regions.
abbrev pub names_of : List Group → List Bytes
names_of [] = []
names_of (g ∷ gs) =
    if g.inode == 0 then names_of gs else map name_of (odd_ones (g.first ∷ g.others)) ++ names_of gs

module _ {ℓ} {S : Type ℓ} (getter : Getter S) where
  -- The names are given to the getter in order, up to the first that it gives a status for.
  abbrev pub give_names : S → List Bytes → S
  give_names s [] = s
  give_names s (name ∷ names) = after_call getter (getter.call s name) (λ t. give_names t names)

  after_call-ext :
      (p : S × ℕ) (f g : S → S)
      → ((t : S) → f t ≡ g t)
      → after_call getter p f ≡ after_call getter p g
  after_call-ext (s, status) f g h = elim (Bool-cases (status == 0)) [
    | inl ok ↦ rw ok (h s)
    | inr stop ↦ rw stop refl
  ]

  -- A line of no file, or of the last inode, is skipped, and the last inode forgotten.
  modules_loop-skipped :
      (last : ℕ) (s : S) (line : Bytes) (lines : List Bytes)
      → ((read_region line).inode == 0 || (read_region line).inode == last) ≡ true
      → modules_loop getter last s (line ∷ lines) ≡ modules_loop getter 0 s lines
  unfolding modules_loop
  modules_loop-skipped last s line lines skipped = rw skipped refl

  -- Any other is handed on.
  modules_loop-handed :
      (last : ℕ) (s : S) (line : Bytes) (lines : List Bytes)
      → ((read_region line).inode == 0 || (read_region line).inode == last) ≡ false
      → modules_loop getter last s (line ∷ lines)
        ≡ after_call getter
            (getter.call s (name_of line))
            (λ t. modules_loop getter (read_region line).inode t lines)
  unfolding modules_loop
  modules_loop-handed last s line lines handed = rw handed refl

  -- Behind a line of another inode, the loop goes on as at its start.
  modules_loop-apart :
      (last : ℕ) (s : S) (gs : List Group)
      → AreGroups gs
      → is_apart last gs ≡ true
      → modules_loop getter last s (lines_of gs) ≡ modules_loop getter 0 s (lines_of gs)
  modules_loop-apart last s [] h a = unfold modules_loop in refl
  modules_loop-apart last s (g ∷ gs) h a =
      let lines = g.others ++ lines_of gs in
      let inode = (read_region g.first).inode in
      let same = h.0.0 in
      elim (Bool-cases (inode == 0)) [
        | inl none ↦
            modules_loop-skipped last s g.first lines (ground (arith, none))
            ∙ sym (modules_loop-skipped 0 s g.first lines (ground (arith, none)))
        | inr file ↦
            modules_loop-handed last s g.first lines (ground (arith, file, a, same))
            ∙ sym (modules_loop-handed 0 s g.first lines (ground (arith, file)))
      ]

  -- Lines of no file are passed over.
  modules_loop-none :
      (inode : ℕ) (s : S) (lines rest : List Bytes)
      → (inode == 0) ≡ true
      → AreOf inode lines
      → modules_loop getter 0 s (lines ++ rest) ≡ modules_loop getter 0 s rest
  modules_loop-none inode s [] rest none h = refl
  modules_loop-none inode s (line ∷ lines) rest none h =
      let same = h.0 in
      modules_loop-skipped 0 s line (lines ++ rest) (ground (arith, none, same))
      ∙ modules_loop-none inode s lines rest none h.1

  -- The lines of a file, where the rest does not depend on whether the file is the last.
  modules_loop-file :
      (inode : ℕ) (s : S) (lines rest : List Bytes) (names : List Bytes)
      → (inode == 0) ≡ false
      → AreOf inode lines
      → ((t : S) → modules_loop getter inode t rest ≡ modules_loop getter 0 t rest)
      → ((t : S) → modules_loop getter 0 t rest ≡ give_names t names)
      → modules_loop getter 0 s (lines ++ rest)
        ≡ give_names s (map name_of (odd_ones lines) ++ names)
  modules_loop-file inode s [] rest names file h apart ends = ends s
  modules_loop-file inode s (line ∷ []) rest names file h apart ends =
      let same = h.0 in
      modules_loop-handed 0 s line rest (ground (arith, file, same))
      ∙ after_call-ext (getter.call s (name_of line)) _ _
          (λ t. ap (λ i. modules_loop getter i t rest) same ∙ apart t ∙ ends t)
  modules_loop-file inode s (line ∷ next ∷ lines) rest names file h apart ends =
      let same = h.0 in
      let same_next = h.1.0 in
      modules_loop-handed 0 s line (next ∷ (lines ++ rest)) (ground (arith, file, same))
      ∙ after_call-ext (getter.call s (name_of line)) _ _ (λ t.
        modules_loop-skipped (read_region line).inode t next (lines ++ rest)
          (ground (arith, same, same_next))
        ∙ modules_loop-file inode t lines rest names file h.1.1 apart ends)

  modules_loop-groups :
      (s : S) (gs : List Group)
      → AreGroups gs
      → modules_loop getter 0 s (lines_of gs) ≡ give_names s (names_of gs)
  modules_loop-groups s [] h = unfold modules_loop in refl
  modules_loop-groups s (g ∷ gs) h =
      let lines = g.first ∷ g.others in
      elim (Bool-cases (g.inode == 0)) [
        | inl none ↦
            modules_loop-none g.inode s lines (lines_of gs) none h.0
            ∙ modules_loop-groups s gs h.2
            ∙ rw none refl
        | inr file ↦
            modules_loop-file g.inode s lines (lines_of gs) (names_of gs) file h.0
              (λ t. modules_loop-apart g.inode t gs h.2 h.1) (λ t. modules_loop-groups t gs h.2)
            ∙ rw file refl
      ]

  -- Of the lines of /proc/<pid>/maps, in groups of adjacent lines with one inode, those with the
  -- inode 0 are passed over, and of each other group the first, the third and so on are handed on:
  -- a file with three regions in a row is handed on twice. The getter is given their names in
  -- order, up to the first for which its status is not 0.
  pub proc_modules_get-regions :
      (s : S) (gs : List Group)
      → AreGroups gs
      → proc_modules_get getter s (got (lines_of gs)) ≡ got (give_names s (names_of gs))
  unfolding proc_modules_get
  proc_modules_get-regions s gs h = ap got (modules_loop-groups s gs h)
