-- ===== src/Ptql/Find/Pids.antt =====
-- The branches on pids of sigar_ptql.c: `ptql_pid_list_get` with `pid_branch_match`.
use re_co_mon_b.Base.{
  ℕ, ◌≡◌, refl, ◌∙◌, ap, Bool, false, not, List, [], ◌∷◌, ◌++◌, ltb, leb, ◌==◌, if◌then◌else◌,
  Option, none, some,
}
use re_co_mon_b.Ptql.Find.{is_service_list, pid_get, filter_pids, pid_list_get}
use re_co_mon_b.Ptql.Host.{Host, got}
use re_co_mon_b.Ptql.Init.{BranchOf}
use re_co_mon_b.Ptql.Match.{at}
use re_co_mon_b.Ptql.Op.{op_index, op_ui64}
use re_co_mon_b.Ptql.Run.{Run, done, fault, ◌>>=◌}
use re_co_mon_b.Ptql.Types.{Op, eq, ne, gt, ge, lt, le}

-- The relation of a pid to the query's that an operator on numbers means; the operators on strings
-- mean none.
abbrev pub relation : Op → Option (ℕ → ℕ → Bool)
relation eq = some (λ pid wanted. pid == wanted)
relation ne = some (λ pid wanted. not (pid == wanted))
relation gt = some (λ pid wanted. ltb wanted pid)
relation ge = some (λ pid wanted. leb wanted pid)
relation lt = some (λ pid wanted. ltb pid wanted)
relation le = some (λ pid wanted. leb pid wanted)
relation _ = none

-- The pids of a list for which a test holds.
abbrev pub keep : (ℕ → Bool) → List ℕ → List ℕ
keep f [] = []
keep f (x ∷ xs) = if f x then x ∷ keep f xs else keep f xs

-- The pids that stand in the relation; without one, any pid at all is a read past the table.
abbrev pub related : Option (ℕ → ℕ → Bool) → ℕ → List ℕ → Run (List ℕ)
related none wanted [] = done []
related none wanted (pid ∷ pids) = fault
related (some r) wanted pids = done (keep (λ pid. r pid wanted) pids)

-- What the table has for an operator.
abbrev looked_up : Option (ℕ → ℕ → Bool) → Run (ℕ → ℕ → Bool)
looked_up none = fault
looked_up (some r) = done r

table-relation : (op : Op) → at op_ui64 (op_index op) ≡ looked_up (relation op)
table-relation eq = refl
table-relation ne = refl
table-relation gt = refl
table-relation ge = refl
table-relation lt = refl
table-relation le = refl
table-relation op = refl

module _ (h : Host) where
  filter_pids-looked_up :
      (op : Op) (wanted pid : ℕ) (pids : List ℕ)
      → filter_pids h op wanted (pid ∷ pids) ≡ (
          looked_up (relation op) >>= λ f.
          filter_pids h op wanted pids >>= λ kept. done (if f pid wanted then pid ∷ kept else kept))
  unfolding filter_pids
  filter_pids-looked_up op wanted pid pids =
      ap
        (λ m. m >>= λ f.
          filter_pids h op wanted pids >>= λ kept. done (if f pid wanted then pid ∷ kept else kept))
        (table-relation op)

  filter_pids-related :
      (op : Op) (r : Option (ℕ → ℕ → Bool)) (wanted : ℕ) (pids : List ℕ)
      → relation op ≡ r
      → filter_pids h op wanted pids ≡ related r wanted pids
  filter_pids-related op none wanted [] e = unfold filter_pids in refl
  filter_pids-related op (some r) wanted [] e = unfold filter_pids in refl
  filter_pids-related op none wanted (pid ∷ pids) e =
      filter_pids-looked_up op wanted pid pids ∙ rw e refl
  filter_pids-related op (some r) wanted (pid ∷ pids) e =
      filter_pids-looked_up op wanted pid pids
      ∙ rw (e, filter_pids-related op (some r) wanted pids e) refl

  -- A branch on pids that has one to compare with appends, to the list so far, the pids of the
  -- system in their order that stand in the relation of its operator to that one; an operator on
  -- strings, which nothing keeps out here, makes the match read past the end of the table of
  -- operators on numbers, if there is any pid.
  pub pid_list_get-related :
      (b : BranchOf h) (acc pids : List ℕ) (wanted : ℕ)
      → is_service_list b.flags b.op_name ≡ false
      → pid_get h b.flags b ≡ done (got wanted)
      → h.get_pids ≡ got pids
      → pid_list_get h b acc
        ≡ (related (relation b.op_name) wanted pids >>= λ found. done (got (acc ++ found)))
  unfolding pid_list_get
  pid_list_get-related b acc pids wanted plain has listed =
      rw (plain, has, listed, filter_pids-related b.op_name (relation b.op_name) wanted pids refl)
        refl
