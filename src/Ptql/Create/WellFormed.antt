-- ===== src/Ptql/Create/WellFormed.antt =====
-- What every query that sigar_ptql.c creates satisfies: the assumptions of the matching code.
use re_co_mon_b.Base.{
  ℕ, suc, ◌+◌, ◌<◌, ◌≤◌, ◌≡◌, refl, sym, ◌∙◌, ◌≢◌, Bool, true, false, ◌||◌, List, [], ◌∷◌, ◌++◌,
  some, Bytes, arith, inl, inr, Bool-cases, length, length-append, ltb,
}
use mathlib.Core.List.{Permᴰ}
use mathlib.Core.Path.{subst}
use re_co_mon_b.Ptql.Add.{branch_add, grow, make_branch}
use re_co_mon_b.Ptql.Create.{add_text, any_ref, sort_branches, query_create, empty_list}
use re_co_mon_b.Ptql.Create.Made.{OkHolds, OkHolds-bind, OkHolds-any, Made, NoUdp, make_branch-Made}
use re_co_mon_b.Ptql.Create.Pieces.{add_all, pieces, query_create-eq}
use re_co_mon_b.Ptql.Host.{Host}
use re_co_mon_b.Ptql.Init.{BranchOf}
use re_co_mon_b.Ptql.Op.{op_code_get}
use re_co_mon_b.Ptql.Parse.{read_flags, read_op, redirect, cut, branch_parse}
use re_co_mon_b.Ptql.Types.{OpFlags, no_flags, ParseBranch, BranchList, ok}

-- The parser never sets the flag of a reference.
abbrev NoRef : ParseBranch → Type 0
NoRef p = p.op_flags.ref ≡ false

read_flags-NoRef :
    (flags : OpFlags) (query : Bytes)
    → flags.ref ≡ false
    → OkHolds (λ p. p.0.ref ≡ false) (read_flags flags query)
unfolding read_flags
read_flags-NoRef flags [] e = e
read_flags-NoRef flags (c ∷ query) e = ground (
  arith,
  read_flags-NoRef (record flags { parent = true }) query e,
  read_flags-NoRef (record flags { icase = true }) query e,
)

read_op-NoRef : (query : Bytes) → OkHolds (λ p. p.0.ref ≡ false) (read_op query)
unfolding read_op
read_op-NoRef [] = tt
read_op-NoRef (c ∷ query) = read_flags-NoRef no_flags (c ∷ query) refl

redirect-NoRef : (p : ParseBranch) → NoRef p → NoRef (redirect p)
unfolding redirect
redirect-NoRef p e = ground arith

branch_parse-NoRef : (query : Bytes) → OkHolds NoRef (branch_parse query)
unfolding branch_parse
branch_parse-NoRef query = OkHolds-any NoRef (cut b'=' _ query) _ (λ (left, value).
    OkHolds-any NoRef (cut b'.' _ left) _ (λ (name, left1).
      OkHolds-any NoRef (cut b'.' _ left1) _ (λ (attr, left2).
        OkHolds-bind (λ p. p.0.ref ≡ false) NoRef (read_op left2) _ (read_op-NoRef left2)
          (λ (flags, op) e.
            redirect-NoRef
              (record { name = name; attr = attr; op = op; value = value; op_flags = flags }) e))))

or-false : (a b : Bool) → (a || b) ≡ false → (a ≡ false) × (b ≡ false)
or-false false b e = (refl, e)
or-false true b e = (e, absurd cc)

false-ne-true : false ≢ true
false-ne-true e = cc

some-eq : {A : Type 0} {x y : A} → some x ≡ some y → x ≡ y
some-eq e = cc

module _ (h : Host) where
  -- The branches of a list, from index `i` on, are as the matching code needs them.
  abbrev pub AllMade : ℕ → List (BranchOf h) → Type 0
  AllMade i [] = Unit
  AllMade i (b ∷ bs) = (Made h i b × NoUdp h b) × AllMade (suc i) bs

  AllMade-append :
      (i n : ℕ) (bs : List (BranchOf h)) (b : BranchOf h)
      → i + length bs ≡ n
      → AllMade i bs
      → Made h n b × NoUdp h b
      → AllMade i (bs ++ b ∷ [])
  AllMade-append i n [] b e all made =
      (subst (λ k. Made h k b × NoUdp h b) (omega (arith, e)) made, tt)
  AllMade-append i n (c ∷ bs) b e all made =
      (all.0, AllMade-append (suc i) n bs b (omega (arith, e)) all.1 made)

  -- A list as `ptql_branch_add` keeps it: its branches, and its number within its size.
  abbrev pub IsListed : BranchList h.Double → Type 0
  IsListed list = AllMade 0 list.branches × (length list.branches ≤ list.size)

  grow-room :
      (list : BranchList h.Double)
      → length list.branches ≤ list.size
      → length list.branches < (grow h list).size
  unfolding grow
  grow-room list e = ground arith

  -- Each branch that is parsed and added leaves the branches as the matching code needs them, and
  -- the array has room for it.
  branch_add-IsListed :
      (parsed : ParseBranch) (list : BranchList h.Double)
      → NoRef parsed
      → IsListed list
      → OkHolds IsListed (branch_add h parsed list)
  unfolding branch_add
  branch_add-IsListed parsed list free (all, fits) =
      OkHolds-bind (λ b. Made h (length list.branches) b × NoUdp h b) IsListed
        (make_branch h (length list.branches + 1) parsed) _
        (subst
          (λ n. OkHolds (λ b. Made h (length list.branches) b × NoUdp h b) (make_branch h n parsed))
          (omega arith)
          (make_branch-Made h (length list.branches) parsed (op_code_get parsed.op) refl free))
        (λ b made. (
          AllMade-append 0 (length list.branches) list.branches b (omega arith) all made,
          omega (arith, grow-room list fits, length-append list.branches (b ∷ [])),
        ))

  add_text-IsListed :
      (query : Bytes) (list : BranchList h.Double)
      → IsListed list
      → OkHolds IsListed (add_text h query list)
  unfolding add_text
  add_text-IsListed query list listed =
      OkHolds-bind NoRef IsListed (branch_parse query) _ (branch_parse-NoRef query)
        (λ parsed free. branch_add-IsListed parsed list free listed)

  add_all-IsListed :
      (texts : List Bytes) (list : BranchList h.Double)
      → IsListed list
      → OkHolds IsListed (add_all h texts list)
  add_all-IsListed [] list listed = listed
  add_all-IsListed (t ∷ ts) list listed =
      OkHolds-bind IsListed IsListed (add_text h t list) _ (add_text-IsListed t list listed)
        (λ more. add_all-IsListed ts more)

  -- Well-made at any index, as it has no reference.
  abbrev AllPlain : List (BranchOf h) → Type 0
  AllPlain [] = Unit
  AllPlain (b ∷ bs) = ((i : ℕ) → Made h i b × NoUdp h b) × AllPlain bs

  AllPlain-perm : {xs ys : List (BranchOf h)} → Permᴰ xs ys → AllPlain xs → AllPlain ys
  AllPlain-perm Permᴰ.nil a = a
  AllPlain-perm (Permᴰ.cons e p) a =
      (subst (λ b. (i : ℕ) → Made h i b × NoUdp h b) e a.0, AllPlain-perm p a.1)
  AllPlain-perm (Permᴰ.swap e f) a = (
    subst (λ b. (i : ℕ) → Made h i b × NoUdp h b) f a.1.0,
    (subst (λ b. (i : ℕ) → Made h i b × NoUdp h b) e a.0, a.1.1),
  )
  AllPlain-perm (Permᴰ.trans p q) a = AllPlain-perm q (AllPlain-perm p a)

  AllPlain-AllMade : (i : ℕ) (bs : List (BranchOf h)) → AllPlain bs → AllMade i bs
  AllPlain-AllMade i [] a = tt
  AllPlain-AllMade i (b ∷ bs) a = (a.0 i, AllPlain-AllMade (suc i) bs a.1)

  AllMade-AllPlain :
      (i : ℕ) (bs : List (BranchOf h)) → any_ref h bs ≡ false → AllMade i bs → AllPlain bs
  AllMade-AllPlain i [] e a = tt
  AllMade-AllPlain i (b ∷ bs) e (((l, op, below), udp), rest) =
      let parts = or-false b.op_flags.ref (any_ref h bs) e in
      (
        (λ j. ((l, op, λ y. absurd (false-ne-true (sym (parts.0) ∙ y))), udp)),
        AllMade-AllPlain (suc i) bs parts.1 rest,
      )

  sort_branches-AllMade :
      (qsort : List (BranchOf h) → List (BranchOf h)) (list : BranchList h.Double)
      → Permᴰ list.branches (qsort list.branches)
      → AllMade 0 list.branches
      → AllMade 0 (sort_branches h qsort list)
  unfolding sort_branches
  sort_branches-AllMade qsort list perm all = elim (Bool-cases (any_ref h list.branches)) [
    | inl y ↦ rw y all
    | inr n ↦ elim (Bool-cases (ltb 1 (length list.branches))) [
      | inl m ↦
          rw (n, m)
            (AllPlain-AllMade 0 (qsort list.branches)
              (AllPlain-perm perm (AllMade-AllPlain 0 list.branches n all)))
      | inr f ↦ rw (n, f) all
    ]
  ]

  -- Where `qsort` returns a permutation, every branch of a query that was created has a lookup, a
  -- known operator, which for a lookup of a number is one of the six that its table has, and, if it
  -- has a reference, one to a branch before it; none asks for a UDP port.
  pub query_create-AllMade :
      (qsort : List (BranchOf h) → List (BranchOf h)) (ptql : Bytes) (bs : List (BranchOf h))
      → ((xs : List (BranchOf h)) → Permᴰ xs (qsort xs))
      → query_create h qsort ptql ≡ some (ok bs)
      → AllMade 0 bs
  query_create-AllMade qsort ptql bs perm e =
      let listed = add_all-IsListed (pieces ptql) (empty_list h) (tt, omega arith) in
      let sorted =
        OkHolds-bind IsListed (AllMade 0) (add_all h (pieces ptql) (empty_list h))
          (λ list. ok (sort_branches h qsort list)) listed
          (λ list (all, fits). sort_branches-AllMade qsort list (perm list.branches) all) in
      subst (OkHolds (AllMade 0)) (some-eq (sym (query_create-eq h qsort ptql) ∙ e)) sorted
