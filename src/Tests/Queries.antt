-- ===== src/Tests/Queries.antt =====
-- The theorems on queries at concrete inputs.
use mathlib.Core.List.{Permᴰ}
use mathlib.Core.List.Permᴰ
use re_co_mon_b.Base.{ℕ, ◌≡◌, refl, ◌↔◌, List, [], ◌∷◌, ◌++◌, none, some, Bytes, codes, arith}
use re_co_mon_b.Ptql.Create.{query_create, empty_list, sort_branches}
use re_co_mon_b.Ptql.Create.Pieces.{pieces, add_all, query_create-eq}
use re_co_mon_b.Ptql.Create.WellFormed.{AllMade, query_create-AllMade}
use re_co_mon_b.Ptql.Find.{query_find, query_find_process, proc_list_get, pid_get, pid_list_get}
use re_co_mon_b.Ptql.Find.Agree.{summary, query_find_process-eq}
use re_co_mon_b.Ptql.Find.Exact.{Selected, query_find_iff}
use re_co_mon_b.Ptql.Find.Pids.{relation, related, pid_list_get-related}
use re_co_mon_b.Ptql.Host.{got}
use re_co_mon_b.Ptql.Init.{BranchOf}
use re_co_mon_b.Ptql.Match.{query_match}
use re_co_mon_b.Ptql.Match.Failures.{FailuresReported, NonzeroReply}
use re_co_mon_b.Ptql.Match.RefFree.{AllPass, query_match_iff, query_match-perm}
use re_co_mon_b.Ptql.Parse.{branch_parse}
use re_co_mon_b.Ptql.Parse.RoundTrip.{Spells, branch_parse_iff}
use re_co_mon_b.Ptql.Run.{done, ◌>>=◌}
use re_co_mon_b.Ptql.Types.{
  Op, ParseBranch, no_flags, num32, Result, ok, err, text, field, str, ui32, any, unset, num64,
  pid_match, pid_pid, Lookup, BranchList, AnyValue,
}
use re_co_mon_b.Ptql.Types
use re_co_mon_b.Tests.Machine.{machine, name_of, parent_of}

abbrev name_lookup : Lookup
name_lookup = record {
  name = some (codes "Name");
  get = field (codes "ProcState") (codes "name");
  type = str;
  init = none;
}

abbrev ppid_lookup : Lookup
ppid_lookup = record {
  name = some (codes "Ppid");
  get = field (codes "ProcState") (codes "ppid");
  type = ui32;
  init = none;
}

-- `State.Name.eq=java` and `State.Ppid.ge=1`.
abbrev is_java : BranchOf machine
is_java = record {
  lookup = some name_lookup;
  datum = unset;
  flags = pid_pid;
  op_flags = no_flags;
  op_name = Op.eq;
  value = text (some (codes "java"));
}

abbrev has_parent : BranchOf machine
has_parent = record {
  lookup = some ppid_lookup;
  datum = unset;
  flags = pid_pid;
  op_flags = no_flags;
  op_name = Op.ge;
  value = num32 1;
}

abbrev query : List (BranchOf machine)
query = is_java ∷ has_parent ∷ []

-- Two branches, of which the second refers to the first.
abbrev referring : Bytes
referring = codes "State.Ppid.ge=0,State.Ppid.Peq=$1"

two_branches : List (BranchOf machine)
unfolding query_create
two_branches = elim (query_create machine (λ bs. bs) referring) [ some (ok bs) ↦ bs | _ ↦ [] ]

two_branches_created : query_create machine (λ bs. bs) referring ≡ some (ok two_branches)
unfolding query_create two_branches
two_branches_created = refl

query_create-eq_example :
    query_create machine (λ bs. bs) referring
    ≡ some (
        Types.◌>>=◌
          (add_all machine (pieces referring) (empty_list machine))
          (λ list. ok (sort_branches machine (λ bs. bs) list)))
query_create-eq_example = query_create-eq machine (λ bs. bs) referring

query_create-AllMade_example : AllMade machine 0 two_branches
query_create-AllMade_example =
    query_create-AllMade machine (λ bs. bs) referring two_branches (λ xs. Permᴰ.refl xs)
      two_branches_created

abbrev parsed : ParseBranch
parsed = record {
  name = codes "State";
  attr = codes "Ppid";
  op = codes "ge";
  value = codes "1";
  op_flags = no_flags;
}

names_reported : (pid : ℕ) → NonzeroReply machine (name_of pid)
names_reported pid = ground arith

parents_reported : (pid : ℕ) → NonzeroReply machine (parent_of pid)
parents_reported pid = ground arith

machine_reported : FailuresReported machine
machine_reported = (
  λ s m pid. tt,
  λ s m pid. parents_reported pid,
  λ s m pid. tt,
  λ s m pid. tt,
  λ s m pid. names_reported pid,
  parents_reported,
)

query_match_iff_example : (query_match machine query 300 ≡ done 0) ↔ AllPass machine 300 query
query_match_iff_example = query_match_iff machine machine_reported query 300 (refl, (refl, tt))

query_match-perm_example :
    (query_match machine query 300 ≡ done 0)
    ↔ (query_match machine (has_parent ∷ is_java ∷ []) 300 ≡ done 0)
query_match-perm_example =
    query_match-perm machine machine_reported {xs = query} {ys = has_parent ∷ is_java ∷ []} 300
      (Permᴰ.swap refl refl) (refl, (refl, tt))

query_find_iff_example : (query_find machine query ≡ done (got (300 ∷ []))) ↔ (
    (pids : List ℕ) × (proc_list_get machine query ≡ done (got pids))
    × Selected machine query pids (300 ∷ []))
query_find_iff_example = query_find_iff machine query (300 ∷ [])

query_find_process-eq_example :
    query_find_process machine query ≡ (query_find machine query >>= λ found. done (summary found))
query_find_process-eq_example = query_find_process-eq machine query

-- `Pid.Pid.gt=20`
abbrev above_20 : BranchOf machine
above_20 = record {
  lookup = some (record { name = some (codes "Pid"); get = pid_match; type = any; init = none });
  datum = num64 20;
  flags = pid_pid;
  op_flags = no_flags;
  op_name = Op.gt;
  value = unset;
}

pid_list_get-related_example :
    pid_list_get machine above_20 (7 ∷ [])
    ≡ (related (relation Op.gt) 20 (1 ∷ 20 ∷ 300 ∷ []) >>= λ found. done (got (7 ∷ [] ++ found)))
pid_list_get-related_example =
    pid_list_get-related machine above_20 (7 ∷ []) (1 ∷ 20 ∷ 300 ∷ []) 20 refl
      (unfold pid_get in refl) refl

branch_parse_iff_example :
    (branch_parse (codes "State.Ppid.ge=1") ≡ ok parsed) ↔ Spells (codes "State.Ppid.ge=1") parsed
branch_parse_iff_example = branch_parse_iff (codes "State.Ppid.ge=1") parsed
