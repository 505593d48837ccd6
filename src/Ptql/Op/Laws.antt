-- ===== src/Ptql/Op/Laws.antt =====
-- The operators of sigar_ptql.c: what each decides, on numbers and on strings.
use re_co_mon_b.Base.{
  ℕ, ◌≤◌, ◌<◌, ◌≡◌, ◌≢◌, ◌↔◌, refl, Bool, true, false, not, ◌||◌, [], ◌∷◌, ◌++◌, map, Option, none,
  some, Bytes, arith, if◌then◌else◌, get_elem?,
}
use re_co_mon_b.Libc.Affix.{strn_eq-prefix_iff, ends_with_iff, strcmp-flip, length-map, map-drop}
use re_co_mon_b.Libc.{Sign, strcmp, strcasecmp, strncase_eq, to_lower}
use re_co_mon_b.Ptql.Op.{
  op_index, op_ui64, branch_strcmp, branch_strn_eq, op_str_eq, op_str_ne, op_str_gt, op_str_ge,
  op_str_lt, op_str_le, op_str_ew, op_str_sw,
}
use re_co_mon_b.Ptql.Types.{Op, eq, ne, gt, ge, lt, le, ew, sw, re, ct, max}

-- What a numeric operator says of the two numbers.
abbrev pub Relates : Op → ℕ → ℕ → Type 0
Relates eq h n = h ≡ n
Relates ne h n = h ≢ n
Relates gt h n = n < h
Relates ge h n = n ≤ h
Relates lt h n = h < n
Relates le h n = h ≤ n
Relates _ h n = ⊥

abbrev pub Decides : Op → ℕ → ℕ → Option (ℕ → ℕ → Bool) → Type 0
Decides op h n none = ¬ (Relates op h n)
Decides op h n (some f) = (f h n ≡ true) ↔ Relates op h n

-- The table `ptql_op_ui64` has at the number of each of the six numeric operators the function
-- that decides its relation, and no entry for another operator.
op_ui64-Decides : (op : Op) (h n : ℕ) → Decides op h n (get_elem? op_ui64 (op_index op))
op_ui64-Decides eq h n = ground arith
op_ui64-Decides ne h n = ground arith
op_ui64-Decides gt h n = ground arith
op_ui64-Decides ge h n = ground arith
op_ui64-Decides lt h n = ground arith
op_ui64-Decides le h n = ground arith
op_ui64-Decides ew h n = λ x. x
op_ui64-Decides sw h n = λ x. x
op_ui64-Decides re h n = λ x. x
op_ui64-Decides ct h n = λ x. x
op_ui64-Decides max h n = λ x. x

strcmp-same : (s t : Bytes) → (strcmp s t ≡ Sign.same) ↔ (s ≡ t)
unfolding strcmp
strcmp-same [] [] = ground arith
strcmp-same [] (y ∷ t) = ground arith
strcmp-same (x ∷ s) [] = ground arith
strcmp-same (x ∷ s) (y ∷ t) = ground (arith, strcmp-same s t)

-- A text as a comparison sees it.
abbrev pub seen : Bool → Bytes → Bytes
seen icase s = if icase then map to_lower s else s

-- `eq` and `ne` on strings decide equality, but for case if so asked.
op_str_eq_iff :
    (icase : Bool) (h n : Bytes)
    → ((op_str_eq icase h n ≡ true) ↔ (seen icase h ≡ seen icase n))
      × (op_str_ne icase h n ≡ not (op_str_eq icase h n))
unfolding op_str_eq op_str_ne branch_strcmp strcasecmp
op_str_eq_iff true h n = (ground (arith, strcmp-same (map to_lower h) (map to_lower n)), refl)
op_str_eq_iff false h n = (ground (arith, strcmp-same h n), refl)

-- The orders on strings agree: `gt` is `lt` the other way round, `ge` is the complement of `lt`,
-- `le` is `lt` or equality, and `lt` does not hold both ways.
op_str_order :
    (icase : Bool) (h n : Bytes)
    → (op_str_gt icase h n ≡ op_str_lt icase n h)
      × (op_str_ge icase h n ≡ not (op_str_lt icase h n))
      × (op_str_le icase h n ≡ (op_str_lt icase h n || op_str_eq icase h n))
      × ((op_str_lt icase h n ≡ true) → op_str_lt icase n h ≡ false)
unfolding op_str_gt op_str_ge op_str_lt op_str_le op_str_eq branch_strcmp strcasecmp
op_str_order true h n =
    let turned = strcmp-flip (map to_lower h) (map to_lower n) in
    rw turned (ground arith, ground arith, ground arith, ground arith)
op_str_order false h n =
    rw (strcmp-flip h n) (ground arith, ground arith, ground arith, ground arith)

-- `sw` decides whether the haystack begins with the needle, and `ew` whether it ends with it,
-- but for case if so asked.
op_str_sw-ew_iff :
    (icase : Bool) (h n : Bytes)
    → ((op_str_sw icase h n ≡ true) ↔ ((v : Bytes) × (seen icase h ≡ seen icase n ++ v)))
      × ((op_str_ew icase h n ≡ true) ↔ ((v : Bytes) × (seen icase h ≡ v ++ seen icase n)))
unfolding op_str_sw op_str_ew branch_strn_eq strncase_eq
op_str_sw-ew_iff true h n = (
  rw (← length-map to_lower n) (strn_eq-prefix_iff (map to_lower h) (map to_lower n)),
  rw (← length-map to_lower h, ← length-map to_lower n, map-drop)
      (ends_with_iff (map to_lower h) (map to_lower n)),
)
op_str_sw-ew_iff false h n = (strn_eq-prefix_iff h n, ends_with_iff h n)
