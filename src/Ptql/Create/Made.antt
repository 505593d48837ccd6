-- ===== src/Ptql/Create/Made.antt =====
-- What `make_branch` of sigar_ptql.c, the building of one branch, makes sure of.
use re_co_mon_b.Base.{
  ℕ, suc, ◌+◌, ◌-◌, ◌%◌, ◌^◌, ◌<◌, ◌≡◌, refl, ◌∙◌, ◌≢◌, true, false, [], ◌∷◌, Option, none, some,
  Bytes, arith, ◌==◌, inl, inr, Bool-cases,
}
use re_co_mon_b.Libc.Number.{atoi32}
use re_co_mon_b.Ptql.Add.{
  is_scalar, blank, add_reference, add_variable, add_value, set_value, check_op, make_branch,
}
use re_co_mon_b.Ptql.Host.{Host}
use re_co_mon_b.Ptql.Init.{
  BranchOf, branch_init_any, branch_init_service, branch_init_pid, args_branch_init,
  branch_init_port, run_init,
}
use re_co_mon_b.Ptql.Lookup.{find_lookup}
use re_co_mon_b.Ptql.Op.{op_index, op_code_get}
use re_co_mon_b.Ptql.Types.{
  Op, max, Lookup, ParseBranch, Init, init_any, init_args, init_pid, init_port, init_service,
  pid_udp_port, num32, ValueType, Result, ok, err, ◌>>=◌,
}

-- Every success satisfies `P`.
abbrev pub OkHolds : {A : Type 0} → (A → Type 0) → Result A → Type 0
OkHolds P (ok a) = P a
OkHolds P (err e) = Unit

pub OkHolds-bind :
    {A B : Type 0} (P : A → Type 0) (Q : B → Type 0) (m : Result A) (f : A → Result B)
    → OkHolds P m
    → ((a : A) → P a → OkHolds Q (f a))
    → OkHolds Q (m >>= f)
OkHolds-bind P Q (ok a) f p q = q a p
OkHolds-bind P Q (err e) f p q = tt

pub OkHolds-any :
    {A B : Type 0} (Q : B → Type 0) (m : Result A) (f : A → Result B)
    → ((a : A) → OkHolds Q (f a))
    → OkHolds Q (m >>= f)
OkHolds-any Q (ok a) f q = q a
OkHolds-any Q (err e) f q = tt

pub OkHolds-imp :
    {A : Type 0} (P Q : A → Type 0) (m : Result A)
    → OkHolds P m
    → ((a : A) → P a → Q a)
    → OkHolds Q m
OkHolds-imp P Q (ok a) p f = f a p
OkHolds-imp P Q (err e) p f = tt

module _ (h : Host) where
  -- What an `init` function leaves as it was.
  abbrev Keeps : BranchOf h → BranchOf h → Type 0
  Keeps b c =
      (c.op_name ≡ b.op_name)
      × (c.op_flags.ref ≡ b.op_flags.ref)
      × (b.flags ≢ pid_udp_port → c.flags ≢ pid_udp_port)

  service-Keeps :
      (parsed : ParseBranch) (b : BranchOf h) → OkHolds (Keeps b) (branch_init_service h parsed b)
  unfolding branch_init_service
  service-Keeps parsed b = ground arith

  pid-Keeps :
      (parsed : ParseBranch) (b : BranchOf h) → OkHolds (Keeps b) (branch_init_pid h parsed b)
  unfolding branch_init_pid
  pid-Keeps parsed b = ground arith

  args-Keeps :
      (parsed : ParseBranch) (b : BranchOf h) → OkHolds (Keeps b) (args_branch_init h parsed b)
  unfolding args_branch_init
  args-Keeps parsed b = ground arith

  port-Keeps :
      (parsed : ParseBranch) (b : BranchOf h) (op : Op)
      → b.op_name ≡ op
      → OkHolds (Keeps b) (branch_init_port h parsed b)
  unfolding branch_init_port
  port-Keeps parsed b Op.eq e = rw e (ground arith)
  port-Keeps parsed b _ e = rw e tt

  run_init-Keeps :
      (init : Option Init) (parsed : ParseBranch) (b : BranchOf h)
      → OkHolds (Keeps b) (run_init h init parsed b)
  unfolding run_init branch_init_any
  run_init-Keeps none parsed b = (refl, refl, λ n. n)
  run_init-Keeps (some init_any) parsed b = (refl, refl, λ n. n)
  run_init-Keeps (some init_service) parsed b = service-Keeps parsed b
  run_init-Keeps (some init_pid) parsed b = pid-Keeps parsed b
  run_init-Keeps (some init_args) parsed b = args-Keeps parsed b
  run_init-Keeps (some init_port) parsed b = port-Keeps parsed b b.op_name refl

  -- A reference leads to one of the first `i` branches.
  abbrev pub RefBelow : ℕ → BranchOf h → Type 0
  RefBelow i b = b.op_flags.ref ≡ true → (k : ℕ) × (b.value ≡ num32 k) × (k < i)

  -- What the setting of the value, of the branch at index `i`, leaves as it was.
  abbrev Sets : ℕ → BranchOf h → BranchOf h → Type 0
  Sets i b c = (c.lookup ≡ b.lookup) × (c.op_name ≡ b.op_name) × (c.flags ≡ b.flags) × RefBelow i c

  reference-Sets :
      (i index : ℕ) (parsed : ParseBranch) (b : BranchOf h)
      → OkHolds (Sets i b) (add_reference h (suc i) parsed index b)
  unfolding add_reference
  reference-Sets i index parsed b = ground arith

  variable-Sets :
      (i : ℕ) (parsed : ParseBranch) (rest : Bytes) (b : BranchOf h)
      → b.op_flags.ref ≡ false
      → OkHolds (Sets i b) (add_variable h (suc i) parsed rest b)
  unfolding add_variable
  variable-Sets i parsed rest b e =
      ground (arith, reference-Sets i ((atoi32 rest + 2 ^ 32 - 1) % 2 ^ 32) parsed b)

  value-Sets :
      (i : ℕ) (type : ValueType) (value : Bytes) (b : BranchOf h)
      → b.op_flags.ref ≡ false
      → OkHolds (Sets i b) (add_value h type value b)
  unfolding add_value
  value-Sets i type value b e = ground arith

  set_value-Sets :
      (i : ℕ) (parsed : ParseBranch) (type : ValueType) (value : Bytes) (b : BranchOf h)
      → b.op_flags.ref ≡ false
      → OkHolds (Sets i b) (set_value h (suc i) parsed type value b)
  unfolding set_value
  set_value-Sets i parsed type [] b e = value-Sets i type [] b e
  set_value-Sets i parsed type (c ∷ rest) b e = elim (Bool-cases (c == b'$')) [
    | inl y ↦ rw y (variable-Sets i parsed rest b e)
    | inr n ↦ rw n (value-Sets i type (c ∷ rest) b e)
  ]

  -- What the matching code relies on in the branch at index `i`: it has a lookup, the operator of
  -- a number is one of those in the tables for numbers, and a reference leads to an earlier branch.
  abbrev pub Made : ℕ → BranchOf h → Type 0
  Made i b =
      ((l : Lookup) × (b.lookup ≡ some l) × (is_scalar l.type ≡ true → op_index b.op_name < 6))
      × (b.op_name ≢ max)
      × RefBelow i b

  -- No search for a UDP port is ever set up.
  abbrev pub NoUdp : BranchOf h → Type 0
  NoUdp b = b.flags ≢ pid_udp_port

  check_op-Scalar :
      (parsed : ParseBranch) (l : Lookup) (b : BranchOf h)
      → OkHolds
          (λ c. (c ≡ b) × (is_scalar l.type ≡ true → op_index b.op_name < 6))
          (check_op h parsed l b)
  unfolding check_op
  check_op-Scalar parsed l b = ground arith

  -- The checks and the value of a branch that an `init` function has seen.
  checked-Made :
      (i : ℕ) (parsed : ParseBranch) (l : Lookup) (b : BranchOf h)
      → b.lookup ≡ some l
      → b.op_name ≢ max
      → b.op_flags.ref ≡ false
      → NoUdp b
      → OkHolds
          (λ c. Made i c × NoUdp c)
          (check_op h parsed l b >>= λ checked.
            set_value h (suc i) parsed l.type parsed.value checked)
  checked-Made i parsed l b looked known e udp =
      OkHolds-bind (λ c. (c ≡ b) × (is_scalar l.type ≡ true → op_index b.op_name < 6))
        (λ c. Made i c × NoUdp c) (check_op h parsed l b) _ (check_op-Scalar parsed l b)
        (λ c (same, scalar). rw same (
          OkHolds-imp (Sets i b) (λ d. Made i d × NoUdp d)
            (set_value h (suc i) parsed l.type parsed.value b)
            (set_value-Sets i parsed l.type parsed.value b e)
            (λ d sets. (
              ((l, sets.0 ∙ looked, rw (sets.1) scalar), rw (sets.1) known, sets.3),
              rw (sets.2) udp,
            ))))

  -- The branch for a known operator.
  op-Made :
      (i : ℕ) (parsed : ParseBranch) (op : Op)
      → op ≢ max
      → parsed.op_flags.ref ≡ false
      → (l : Lookup)
      → OkHolds
          (λ b. Made i b × NoUdp b)
          (run_init h l.init parsed (blank h parsed.op_flags op) >>= λ b.
            check_op h parsed l (record b { lookup = some l }) >>= λ checked.
            set_value h (suc i) parsed l.type parsed.value checked)
  op-Made i parsed op known e l =
      OkHolds-bind (Keeps (blank h parsed.op_flags op)) (λ b. Made i b × NoUdp b)
        (run_init h l.init parsed (blank h parsed.op_flags op)) _
        (run_init-Keeps l.init parsed (blank h parsed.op_flags op))
        (λ b keeps.
          checked-Made i parsed l (record b { lookup = some l }) refl (rw (keeps.0) known)
            (keeps.1 ∙ e) (keeps.2 (λ u. cc)))

  pub make_branch-Made :
      (i : ℕ) (parsed : ParseBranch) (op : Op)
      → op_code_get parsed.op ≡ op
      → parsed.op_flags.ref ≡ false
      → OkHolds (λ b. Made i b × NoUdp b) (make_branch h (suc i) parsed)
  unfolding make_branch
  make_branch-Made i parsed Op.max o e = rw (make_branch, o) tt
  make_branch-Made i parsed op o e =
      rw (make_branch, o)
        (OkHolds-any (λ b. Made i b × NoUdp b) (find_lookup parsed.name parsed.attr) _
          (op-Made i parsed op (λ u. cc) e))
