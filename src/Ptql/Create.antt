-- ===== src/Ptql/Create.antt =====
-- `sigar_ptql_query_create` of sigar_ptql.c: the loop over the branches, and the sort.
pub mod Pieces
pub mod Made
pub mod WellFormed
use re_co_mon_b.Base.{
  ℕ, zero, suc, ◌+◌, Bool, true, false, not, ◌&&◌, ◌||◌, List, [], ◌∷◌, Option, none, some, Bytes,
  ltb, if◌then◌else◌, length,
}
use re_co_mon_b.Libc.{split_at}
use re_co_mon_b.Ptql.Add.{branch_add}
use re_co_mon_b.Ptql.Host.{Host}
use re_co_mon_b.Ptql.Init.{BranchOf}
use re_co_mon_b.Ptql.Parse.{branch_parse}
use re_co_mon_b.Ptql.Types.{
  ValueType, ui64, ui32, dbl, chr, str, any, ParseBranch, Lookup, Branch, BranchList, Result, ok,
  err, ◌>>=◌,
}

-- The enumerator's number.
abbrev pub type_index : ValueType → ℕ
type_index ui64 = 0
type_index ui32 = 1
type_index dbl = 2
type_index chr = 3
type_index str = 4
type_index any = 5

-- `branch->lookup->type`, by which `ptql_branch_compare` orders; a created branch has a lookup.
abbrev pub lookup_type : Option Lookup → ℕ
lookup_type none = 0
lookup_type (some l) = type_index l.type

module _ (h : Host) where
  -- The keys by which `ptql_branch_compare` orders; a created branch has a lookup.
  abbrev pub sort_key : BranchOf h → ℕ
  sort_key b = lookup_type b.lookup

  -- `has_ref` is set once some branch has a reference.
  abbrev pub any_ref : List (BranchOf h) → Bool
  any_ref [] = false
  any_ref (b ∷ bs) = b.op_flags.ref || any_ref bs

  -- One round: parse and add the text up to a comma.
  unfoldable pub add_text : Bytes → BranchList h.Double → Result (BranchList h.Double)
  unfolding branch_parse branch_add
  add_text query list = do parsed ← branch_parse query; branch_add h parsed list

  -- `if (status != SIGAR_OK) break`.
  abbrev pub on_added :
      (BranchList h.Double → Option (Result (BranchList h.Double)))
      → Result (BranchList h.Double)
      → Option (Result (BranchList h.Double))
  on_added next (err e) = some (err e)
  on_added next (ok more) = next more

  -- `do { … } while (*ptql)`. None means that the fuel ran out.
  unfoldable pub loop : ℕ → Bytes → BranchList h.Double → Option (Result (BranchList h.Double))
  unfolding add_text split_at
  loop zero ptql list = none
  loop (suc fuel) ptql list = elim (split_at b',' ptql) [
    | none ↦ some (add_text ptql list)
    | some (query, rest) ↦
        on_added (λ more. elim rest [ [] ↦ some (ok more) | c ∷ s ↦ loop fuel (c ∷ s) more ])
          (add_text query list)
  ]

  abbrev pub empty_list : BranchList h.Double
  empty_list = record { size = 3; branches = [] }

  -- `qsort` by `ptql_branch_compare` is the argument: its order of equal keys is not specified.
  unfoldable pub sort_branches :
      (List (BranchOf h) → List (BranchOf h)) → BranchList h.Double → List (BranchOf h)
  sort_branches qsort list =
      if not (any_ref list.branches) && ltb 1 (length list.branches)
      then qsort list.branches
      else list.branches

  -- The query's branches, or the first error. Each round but the last takes a comma and a byte
  -- behind it, so one unit of fuel for each byte and one more are enough.
  unfoldable pub query_create :
      (List (BranchOf h) → List (BranchOf h)) → Bytes → Option (Result (List (BranchOf h)))
  unfolding loop sort_branches
  query_create qsort ptql = elim (loop (suc (length ptql)) ptql empty_list) [
    | none ↦ none
    | some r ↦ some (r >>= λ list. ok (sort_branches qsort list))
  ]
