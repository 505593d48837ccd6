-- ===== src/Linux/Counters/Lines.antt =====
-- os/linux/linux_sigar.c: the counters that are read of the lines that the kernel writes.
use re_co_mon_b.Base.{
  ℕ, ◌≡◌, refl, ap, ◌∙◌, true, false, List, [], ◌∷◌, ◌++◌, none, some, Bytes, length, str_eq,
  str_eq_iff, all_of, arith, Option, inl, inr, Bool-cases, ◌≢◌,
}
use re_co_mon_b.Libc.Split.{IsFree, split_at-append}
use re_co_mon_b.Libc.{is_space, split_at}
use re_co_mon_b.Linux.Counters.{
  Members, Statuses, read_members, rx_members, tx_members, read_interface, of_interface,
  find_interface, net_interface_stat_get,
}
use re_co_mon_b.Linux.Fields.{fields, IsNumber, value, AreWords, strtoull-fields, skip-cells}
use re_co_mon_b.Ptql.Host.{got}
use re_co_mon_b.Util.Text.{skip_spaces}

-- Numbers, as many as the members.
abbrev pub AreFor : List Bytes → List Bytes → Type 0
AreFor [] [] = Unit
AreFor [] (w ∷ ws) = ⊥
AreFor (name ∷ names) [] = ⊥
AreFor (name ∷ names) (w ∷ ws) = IsNumber w × AreFor names ws

-- The members with the values of the numbers.
abbrev pub labelled : List Bytes → List Bytes → Members
labelled [] ws = []
labelled (name ∷ names) [] = []
labelled (name ∷ names) (w ∷ ws) = (name, value w) ∷ labelled names ws

read_members-fields :
    (names ws more : List Bytes)
    → AreFor names ws
    → read_members names (fields (ws ++ more)) ≡ (labelled names ws, fields more)
unfolding read_members
read_members-fields [] [] more h = refl
read_members-fields [] (w ∷ ws) more h = absurd h
read_members-fields (name ∷ names) [] more h = absurd h
read_members-fields (name ∷ names) (w ∷ ws) more h =
    rw (strtoull-fields w (ws ++ more) h.0, read_members-fields names ws more h.1) refl

read_interface-fields :
    (rx skipped tx more : List Bytes)
    → AreFor rx_members rx
    → AreWords skipped × (length skipped ≡ 2)
    → AreFor tx_members tx
    → read_interface (fields (rx ++ (skipped ++ (tx ++ more))))
      ≡ labelled rx_members rx ++ labelled tx_members tx
read_interface-fields rx skipped tx more r s t =
    rw
      (
        read_members-fields rx_members rx (skipped ++ (tx ++ more)) r,
        skip-cells 2 skipped (tx ++ more) s,
        read_members-fields tx_members tx more t,
      )
      refl

-- None of the lines is of the interface.
abbrev pub AreOthers : Bytes → List Bytes → Type 0
AreOthers name [] = Unit
AreOthers name (line ∷ lines) = (find_interface name (line ∷ []) ≡ none) × AreOthers name lines

some-ne-none {ℓ} : {A : Type ℓ} (a : A) → some a ≢ none
some-ne-none a h = cc h

of_interface-others :
    (name : Bytes) (found : Option (Bytes × Bytes)) (rest : Option Members)
    → of_interface name found none ≡ none
    → of_interface name found rest ≡ rest
unfolding of_interface
of_interface-others name none rest h = refl
of_interface-others name (some (dev, ptr)) rest h = elim (Bool-cases (str_eq dev name)) [
  | inl same ↦ absurd (some-ne-none (read_interface ptr) (rw same at h))
  | inr other ↦ rw other refl
]

find_interface-others :
    (name : Bytes) (pre lines : List Bytes)
    → AreOthers name pre
    → find_interface name (pre ++ lines) ≡ find_interface name lines
unfolding find_interface
find_interface-others name [] lines h = refl
find_interface-others name (line ∷ pre) lines h =
    of_interface-others name (split_at b':' (skip_spaces line)) (find_interface name (pre ++ lines))
      h.0
    ∙ find_interface-others name pre lines h.1

skip_spaces-pad :
    (pad : Bytes) (c : ℕ) (s : Bytes)
    → all_of is_space pad ≡ true
    → is_space c ≡ false
    → skip_spaces (pad ++ c ∷ s) ≡ c ∷ s
unfolding skip_spaces
skip_spaces-pad [] c s blank word = rw word refl
skip_spaces-pad (b ∷ pad) c s blank word =
    let skipped : is_space b ≡ true = ground (arith, blank) in
    rw skipped (skip_spaces-pad pad c s (ground (arith, blank)) word)

first-line :
    (c : ℕ) (name pad : Bytes) (lines : List Bytes) (counters : Bytes)
    → all_of is_space pad ≡ true
    → is_space c ≡ false
    → IsFree b':' (c ∷ name)
    → find_interface (c ∷ name) ((pad ++ c ∷ (name ++ b':' ∷ counters)) ∷ lines)
      ≡ some (read_interface counters)
unfolding find_interface
first-line c name pad lines counters blank word free =
    rw
      (
        skip_spaces-pad pad c (name ++ b':' ∷ counters) blank word,
        split_at-append b':' (c ∷ name) counters free,
        (str_eq_iff (c ∷ name) (c ∷ name)).1 refl,
      )
      refl

-- The counters of an interface are those of the first line that is of it: six numbers behind the
-- colon, and, two fields later, seven more, each for its member; what stands before the name are
-- blanks, and what stands behind the numbers does not matter.
pub net_interface_stat_get-first :
    (e : Statuses) (c : ℕ) (name pad : Bytes) (pre : List Bytes) (rx skipped tx more : List Bytes)
    (lines : List Bytes)
    → AreOthers (c ∷ name) pre
    → all_of is_space pad ≡ true
    → is_space c ≡ false
    → IsFree b':' (c ∷ name)
    → AreFor rx_members rx
    → AreWords skipped × (length skipped ≡ 2)
    → AreFor tx_members tx
    → let counters = fields (rx ++ (skipped ++ (tx ++ more))) in
      net_interface_stat_get e
        (c ∷ name)
        (got (pre ++ (pad ++ c ∷ (name ++ b':' ∷ counters)) ∷ lines))
      ≡ got (labelled rx_members rx ++ labelled tx_members tx)
unfolding net_interface_stat_get
net_interface_stat_get-first e c name pad pre rx skipped tx more lines others blank word free r s
      t =
    let counters = fields (rx ++ (skipped ++ (tx ++ more))) in
    let line = pad ++ c ∷ (name ++ b':' ∷ counters) in
    let found : find_interface (c ∷ name) (line ∷ lines)
        ≡ some (labelled rx_members rx ++ labelled tx_members tx) =
      first-line c name pad lines counters blank word free
      ∙ ap some (read_interface-fields rx skipped tx more r s t) in
    rw (find_interface-others (c ∷ name) pre (line ∷ lines) others, found) refl
