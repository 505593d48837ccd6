-- ===== src/Ptql/Parse.antt =====
-- `ptql_branch_parse` of sigar_ptql.c: one branch, `Name.Attr.[PI]op=value`.
pub mod RoundTrip
use re_co_mon_b.Base.{
  ℕ, Bool, true, false, List, [], ◌∷◌, ◌++◌, Option, none, some, Bytes, codes, ◌==◌, if◌then◌else◌,
  str_eq,
}
use re_co_mon_b.Libc.{is_upper, split_at}
use re_co_mon_b.Ptql.Types.{
  OpFlags, no_flags, ParseBranch, Error, missing_equals, missing_dot, missing_query,
  unsupported_modifier, Result, ok, err, ◌>>=◌,
}

-- `strchr` and the split there, or the error of its absence.
unfoldable pub cut : ℕ → Error → Bytes → Result (Bytes × Bytes)
unfolding split_at
cut c e s = elim (split_at c s) [ none ↦ err e | some p ↦ ok p ]

-- The `while` over upper-case flags; what is left is the operator.
unfoldable pub read_flags : OpFlags → Bytes → Result (OpFlags × Bytes)
unfolding is_upper
read_flags flags [] = ok (flags, [])
read_flags flags (c ∷ query) =
    let with_parent = read_flags (record flags { parent = true }) query in
    let with_icase = read_flags (record flags { icase = true }) query in
    if is_upper c
    then if c == b'P'
      then with_parent
      else if c == b'I'
      then with_icase
      else err (unsupported_modifier c)
    else ok (flags, c ∷ query)

-- `if (*query) { … } else Missing query`.
unfoldable pub read_op : Bytes → Result (OpFlags × Bytes)
unfolding read_flags
read_op [] = err missing_query
read_op (c ∷ query) = read_flags no_flags (c ∷ query)

-- Pid.Service -> Service.Name
unfoldable pub redirect : ParseBranch → ParseBranch
unfolding str_eq
redirect p =
    if str_eq p.attr (codes "Service") then record p { name = p.attr; attr = codes "Name" } else p

unfoldable pub branch_parse : Bytes → Result ParseBranch
unfolding cut read_op redirect
branch_parse query = do
  (left, value) ← cut b'=' missing_equals query
  (name, left1) ← cut b'.' missing_dot left
  (attr, left2) ← cut b'.' missing_dot left1
  (flags, op) ← read_op left2
  ok (redirect (record { name = name; attr = attr; op = op; value = value; op_flags = flags }))
