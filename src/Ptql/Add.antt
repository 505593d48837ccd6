-- ===== src/Ptql/Add.antt =====
-- `ptql_branch_add` of sigar_ptql.c: one parsed branch, checked and appended to the list.
use re_co_mon_b.Base.{
  ℕ, ◌+◌, ◌-◌, ◌%◌, ◌^◌, Bool, true, false, ◌&&◌, [], ◌∷◌, ◌++◌, none, some, Bytes, ltb, leb, ◌==◌,
  if◌then◌else◌, length,
}
use re_co_mon_b.Libc.Number.{atoi32}
use re_co_mon_b.Libc.{is_digit}
use re_co_mon_b.Ptql.Host.{Host}
use re_co_mon_b.Ptql.Init.{BranchOf, run_init, value_number}
use re_co_mon_b.Ptql.Lookup.{find_lookup}
use re_co_mon_b.Ptql.Op.{op_code_get, op_index}
use re_co_mon_b.Ptql.Types.{
  Op, re, max, le, ValueType, ui64, ui32, dbl, chr, str, any, OpFlags, ParseBranch, Lookup, unset,
  num64, num32, num_dbl, byte, text, BranchList, pid_pid, unsupported_operator, operator_for,
  operator_with_variable, out_of_range, self_reference, not_number, not_char, Result, ok, err,
  ◌>>=◌,
}

-- `lookup->type < PTQL_VALUE_TYPE_STR`.
abbrev pub is_scalar : ValueType → Bool
is_scalar str = false
is_scalar any = false
is_scalar _ = true

abbrev pub is_re : Op → Bool
is_re re = true
is_re _ = false

abbrev begins_with_digit : Bytes → Bool
begins_with_digit [] = false
begins_with_digit (c ∷ s) = is_digit c

module _ (h : Host) where
  -- SIGAR_ZERO(branch), and the fields set next.
  abbrev pub blank : OpFlags → Op → BranchOf h
  blank flags op = record {
    lookup = none;
    datum = unset;
    flags = pid_pid;
    op_flags = flags;
    op_name = op;
    value = unset;
  }

  -- A reference `$n` to the branch of index `n - 1`; `number` counts the new branch too.
  unfoldable pub add_reference : ℕ → ParseBranch → ℕ → BranchOf h → Result (BranchOf h)
  add_reference number parsed index b =
      if leb number index
      then err (out_of_range parsed.value number)
      else if index == number - 1
      then err (self_reference parsed.value)
      else ok (record b { op_flags = record b.op_flags { ref = true }; value = num32 index })

  -- The branch for a value `$rest`.
  unfoldable pub add_variable : ℕ → ParseBranch → Bytes → BranchOf h → Result (BranchOf h)
  unfolding is_digit atoi32 add_reference
  add_variable number parsed rest b =
      if is_re b.op_name
      then err (operator_with_variable parsed.op parsed.value)
      else if begins_with_digit rest
      then add_reference number parsed ((atoi32 rest + 2 ^ 32 - 1) % 2 ^ 32) b
      else ok (record b { value = text (h.getenv rest) })

  -- The `switch` for a value that is not set yet.
  unfoldable pub add_value : ValueType → Bytes → BranchOf h → Result (BranchOf h)
  unfolding value_number
  add_value ui64 value b = do n ← value_number value; ok (record b { value = num64 n })
  add_value ui32 value b = do n ← value_number value; ok (record b { value = num32 (n % 2 ^ 32) })
  add_value dbl value b = elim (h.strtod value) [
    | none ↦ err (not_number value)
    | some d ↦ ok (record b { value = num_dbl d })
  ]
  add_value chr [] b = err (not_char [])
  add_value chr (c ∷ []) b = ok (record b { value = byte c })
  add_value chr (c ∷ d ∷ s) b = err (not_char (c ∷ d ∷ s))
  add_value _ value b = ok (record b { value = text (some value) })

  -- `if (*parsed->value == '$')`, and the `switch` if the value is not set.
  unfoldable pub set_value : ℕ → ParseBranch → ValueType → Bytes → BranchOf h → Result (BranchOf h)
  unfolding add_variable add_value
  set_value number parsed type [] b = add_value type [] b
  set_value number parsed type (c ∷ rest) b =
      if c == b'$' then add_variable number parsed rest b else add_value type (c ∷ rest) b

  -- The checks behind `init`.
  unfoldable pub check_op : ParseBranch → Lookup → BranchOf h → Result (BranchOf h)
  check_op parsed l b =
      if is_scalar l.type && ltb (op_index le) (op_index b.op_name)
      then err (operator_for parsed.op parsed.name parsed.attr)
      else ok b

  -- The new branch, as the `number`th of its list.
  unfoldable pub make_branch : ℕ → ParseBranch → Result (BranchOf h)
  unfolding op_code_get find_lookup run_init check_op set_value
  make_branch number parsed = elim (op_code_get parsed.op) [
    | max ↦ err (unsupported_operator parsed.op)
    | op ↦ do
      l ← find_lookup parsed.name parsed.attr
      b ← run_init h l.init parsed (blank parsed.op_flags op)
      checked ← check_op parsed l (record b { lookup = some l })
      set_value number parsed l.type parsed.value checked
  ]

  -- PTQL_BRANCH_LIST_GROW, by PTQL_BRANCH_LIST_MAX.
  unfoldable pub grow : BranchList h.Double → BranchList h.Double
  grow list =
      if leb list.size (length list.branches) then record list { size = list.size + 3 } else list

  -- On an error the caller destroys the whole list.
  unfoldable pub branch_add : ParseBranch → BranchList h.Double → Result (BranchList h.Double)
  unfolding grow make_branch
  branch_add parsed list = do
    b ← make_branch (length list.branches + 1) parsed
    ok (record (grow list) { branches = list.branches ++ b ∷ [] })
