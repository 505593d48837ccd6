-- ===== src/Ptql/Match.antt =====
-- The matching of a query against one process in sigar_ptql.c, up to `sigar_ptql_query_match`.
pub mod Failures
pub mod RefFree
use re_co_mon_b.Base.{
  ℕ, zero, suc, ◌+◌, ◌-◌, ◌^◌, Bool, true, false, not, List, [], ◌∷◌, ◌++◌, Option, none, some,
  Bytes, ltb, leb, if◌then◌else◌, length, get_elem?, str_eq,
}
use re_co_mon_b.Ptql.Add.{is_re}
use re_co_mon_b.Ptql.Host.{Host, Reply, got, failed}
use re_co_mon_b.Ptql.Init.{BranchOf}
use re_co_mon_b.Ptql.Op.{
  op_ui64, op_ui32, op_chr, op_str, op_index, op_str_eq, op_str_ne, op_str_gt, op_str_ge, op_str_lt,
  op_str_le, op_str_ew, op_str_sw, op_str_re, op_str_ct,
}
use re_co_mon_b.Ptql.Run.{Run, done, fault, ◌>>=◌}
use re_co_mon_b.Ptql.Types.{
  ValueType, ui64, ui32, dbl, chr, str, any, Getter, field, args_match, modules_match, env_match,
  pid_match, Lookup, AnyValue, unset, num64, num32, num_dbl, byte, text,
}

-- A member of a filled structure.
pub data Field (D : Type 0) : Type 0 where
  field64 : ℕ → Field D
  field32 : ℕ → Field D
  field_dbl : D → Field D
  field_chr : ℕ → Field D
  field_str : Bytes → Field D

-- The outcome of one round: the query's status, or what the branch read from the process.
pub data Step (D : Type 0) : Type 0 where
  stop : ℕ → Step D
  go_on : Option (Field D) → Step D

-- `table[i]`.
abbrev pub at {ℓ} : {A : Type ℓ} → List A → ℕ → Run A
at [] i = fault
at (x ∷ xs) zero = done x
at (x ∷ xs) (suc i) = at xs i

-- Reads of the members of `any_value_t`. All zeros, and the null pointer, read as zero.
module _ {D : Type 0} where
  abbrev pub as_ui64 : AnyValue D → Run ℕ
  as_ui64 unset = done 0
  as_ui64 (num64 n) = done n
  as_ui64 (text none) = done 0
  as_ui64 _ = fault

  abbrev pub as_ui32 : AnyValue D → Run ℕ
  as_ui32 unset = done 0
  as_ui32 (num32 n) = done n
  as_ui32 (text none) = done 0
  as_ui32 _ = fault

  abbrev pub as_dbl : D → AnyValue D → Run D
  as_dbl zero_dbl unset = done zero_dbl
  as_dbl zero_dbl (num_dbl d) = done d
  as_dbl zero_dbl (text none) = done zero_dbl
  as_dbl zero_dbl _ = fault

  abbrev pub as_chr : AnyValue D → Run ℕ
  as_chr unset = done 0
  as_chr (byte c) = done c
  as_chr (text none) = done 0
  as_chr _ = fault

  -- A small number is no address.
  abbrev pub as_str : AnyValue D → Run (Option Bytes)
  as_str unset = done none
  as_str (text t) = done t
  as_str (num32 zero) = done none
  as_str _ = fault

module _ (h : Host) where
  -- `ptql_op_dbl_eq` to `ptql_op_dbl_le`, in the order of the table `ptql_op_dbl`.
  abbrev pub op_dbl : List (h.Double → h.Double → Bool)
  op_dbl =
      (λ haystack needle. h.dbl_eq haystack needle)
      ∷ (λ haystack needle. not (h.dbl_eq haystack needle))
      ∷ (λ haystack needle. h.dbl_lt needle haystack)
      ∷ (λ haystack needle. h.dbl_le needle haystack)
      ∷ (λ haystack needle. h.dbl_lt haystack needle)
      ∷ (λ haystack needle. h.dbl_le haystack needle)
      ∷ []

  -- `branch->match.str`.
  unfoldable pub call_str : BranchOf h → Bytes → Bytes → Run Bool
  unfolding op_str_eq op_str_ne op_str_gt op_str_ge op_str_lt op_str_le op_str_ew op_str_sw
      op_str_re op_str_ct
  call_str b haystack needle =
      at op_str (op_index b.op_name) >>= λ f. done (f b.op_flags.icase haystack needle)

  -- `ptql_re_impl`, if the application has set one.
  abbrev call_re : Option (Bytes → Bytes → Bool) → Bytes → Bytes → Bool
  call_re none value needle = false
  call_re (some f) value needle = f value needle

  unfoldable pub str_match_needle : BranchOf h → Bytes → Option Bytes → Run Bool
  unfolding call_str
  str_match_needle b value none = done false
  str_match_needle b value (some needle) =
      if is_re b.op_name then done (call_re h.re_impl value needle) else call_str b value needle

  -- `ptql_str_match`.
  unfoldable pub str_match : BranchOf h → Bytes → Run Bool
  unfolding str_match_needle
  str_match b value = as_str b.value >>= str_match_needle b value

  -- `ptql_branch_match`, on the member that was read.
  unfoldable pub branch_match : BranchOf h → Field h.Double → Run Bool
  unfolding str_match
  branch_match b (Field.field64 n) =
      at op_ui64 (op_index b.op_name) >>= λ f. as_ui64 b.value >>= λ v. done (f n v)
  branch_match b (Field.field32 n) =
      at op_ui32 (op_index b.op_name) >>= λ f. as_ui32 b.value >>= λ v. done (f n v)
  branch_match b (Field.field_dbl d) =
      at op_dbl (op_index b.op_name) >>= λ f. as_dbl h.dbl_zero b.value >>= λ v. done (f d v)
  branch_match b (Field.field_chr c) =
      at op_chr (op_index b.op_name) >>= λ f. as_chr b.value >>= λ v. done (f c v)
  branch_match b (Field.field_str s) = str_match b s

  -- `ptql_branch_match_ref`; a reference to a member of another type reads the wrong bytes.
  unfoldable pub branch_match_ref : BranchOf h → Field h.Double → Field h.Double → Run Bool
  unfolding call_str
  branch_match_ref b (Field.field64 n) (Field.field64 v) =
      at op_ui64 (op_index b.op_name) >>= λ f. done (f n v)
  branch_match_ref b (Field.field32 n) (Field.field32 v) =
      at op_ui32 (op_index b.op_name) >>= λ f. done (f n v)
  branch_match_ref b (Field.field_dbl d) (Field.field_dbl v) =
      at op_dbl (op_index b.op_name) >>= λ f. done (f d v)
  branch_match_ref b (Field.field_chr c) (Field.field_chr v) =
      at op_chr (op_index b.op_name) >>= λ f. done (f c v)
  branch_match_ref b (Field.field_str s) (Field.field_str v) = call_str b s v
  branch_match_ref b _ _ = fault

  -- `ptql_args_match` with a glob, and `proc_modules_match` with one: up to the first match.
  unfoldable pub match_any : BranchOf h → List Bytes → Run Bool
  unfolding str_match
  match_any b [] = done false
  match_any b (v ∷ vs) =
      let rest = match_any b vs in str_match b v >>= λ m. if m then done true else rest

  abbrev match_at : BranchOf h → Option Bytes → Run Bool
  match_at b none = done false
  match_at b (some v) = str_match b v

  -- `num`, as a signed number, counts from the end if it is negative.
  unfoldable pub arg_index : ℕ → ℕ → Option ℕ
  arg_index num number =
      if ltb num (2 ^ 31)
      then some num
      else if leb (2 ^ 32 - num) number
      then some (number - (2 ^ 32 - num))
      else none

  abbrev nth_arg : List Bytes → Option ℕ → Option Bytes
  nth_arg args none = none
  nth_arg args (some i) = get_elem? args i

  unfoldable pub args_matches : BranchOf h → List Bytes → Run Bool
  unfolding match_any arg_index
  args_matches b args =
      if b.op_flags.glob
      then match_any b args
      else as_ui32 b.datum >>= λ num. match_at b (nth_arg args (arg_index num (length args)))

  unfoldable pub modules_matches : BranchOf h → List Bytes → Run Bool
  unfolding match_any
  modules_matches b names =
      if b.op_flags.glob
      then match_any b names
      else as_ui32 b.datum >>= λ ix. match_at b (get_elem? names ix)

  -- `sigar_proc_env_get_key`: the value of the first entry of the key.
  abbrev env_value : Option Bytes → List (Bytes × Bytes) → Option Bytes
  env_value none entries = none
  env_value (some key) [] = none
  env_value (some key) ((k, v) ∷ rest) = if str_eq key k then some v else env_value (some key) rest

  unfoldable pub env_matches : BranchOf h → List (Bytes × Bytes) → Run Bool
  unfolding str_eq
  env_matches b entries = as_str b.datum >>= λ key. match_at b (env_value key entries)

  -- A failure to read counts as no match.
  abbrev on_reply : {A : Type 0} → (A → Run Bool) → Reply A → Run Bool
  on_reply f (got a) = f a
  on_reply f (failed status) = done false

  -- `lookup->get` of the lookups of type ANY: whether it returns SIGAR_OK.
  unfoldable pub get_any : Getter → BranchOf h → ℕ → Run Bool
  unfolding args_matches modules_matches env_matches
  get_any args_match b pid = on_reply (args_matches b) (h.get_args pid)
  get_any modules_match b pid = on_reply (modules_matches b) (h.get_modules pid)
  get_any env_match b pid = on_reply (env_matches b) (h.get_env pid)
  get_any pid_match b pid = done true
  get_any (field s m) b pid = fault

  abbrev pub wrap : {A : Type 0} → (A → Field h.Double) → Reply A → Reply (Field h.Double)
  wrap f (got a) = got (f a)
  wrap f (failed status) = failed status

  -- `lookup->get` of the others, and the member that DATA_PTR points to.
  unfoldable pub fetch : Lookup → ℕ → Reply (Field h.Double)
  fetch l pid = elim l.get [
    | field s m ↦ elim l.type [
      | ui64 ↦ wrap Field.field64 (h.get_ui64 s m pid)
      | ui32 ↦ wrap Field.field32 (h.get_ui32 s m pid)
      | dbl ↦ wrap Field.field_dbl (h.get_dbl s m pid)
      | chr ↦ wrap Field.field_chr (h.get_chr s m pid)
      | _ ↦ wrap Field.field_str (h.get_str s m pid)
    ]
    | _ ↦ failed 1
  ]

  -- `if (!matched) return 1`.
  abbrev pub settle : Option (Field h.Double) → Bool → Step h.Double
  settle f true = go_on f
  settle f false = stop 1

  -- The member that an earlier branch of this query read.
  abbrev referred : List (Option (Field h.Double)) → ℕ → Run (Field h.Double)
  referred seen k = at seen k >>= λ f. elim f [ none ↦ fault | some v ↦ done v ]

  -- The tests on a member that was read.
  unfoldable pub match_field :
      List (Option (Field h.Double)) → BranchOf h → Field h.Double → Run Bool
  unfolding branch_match branch_match_ref
  match_field seen b f =
      if b.op_flags.ref
      then (as_ui32 b.value >>= λ k. referred seen k >>= branch_match_ref b f)
      else branch_match b f

  unfoldable pub match_reply :
      List (Option (Field h.Double)) → BranchOf h → Reply (Field h.Double) → Run (Step h.Double)
  unfolding match_field
  match_reply seen b (failed status) = done (stop status)
  match_reply seen b (got f) = match_field seen b f >>= λ m. done (settle (some f) m)

  -- A round for the process `pid`, the parent if so asked.
  unfoldable pub match_lookup :
      List (Option (Field h.Double)) → BranchOf h → Option Lookup → ℕ → Run (Step h.Double)
  unfolding get_any fetch match_reply
  match_lookup seen b none pid = fault
  match_lookup seen b (some l) pid = elim l.type [
    | any ↦ get_any l.get b pid >>= λ m. done (settle none m)
    | _ ↦ match_reply seen b (fetch l pid)
  ]

  abbrev pub with_pid : (ℕ → Run (Step h.Double)) → Reply ℕ → Run (Step h.Double)
  with_pid f (got pid) = f pid
  with_pid f (failed status) = done (stop status)

  unfoldable pub branch_step : List (Option (Field h.Double)) → BranchOf h → ℕ → Run (Step h.Double)
  unfolding match_lookup
  branch_step seen b pid =
      with_pid (match_lookup seen b b.lookup)
        (if b.op_flags.parent then h.get_ppid pid else got pid)

  -- A round returns, or the next one follows.
  abbrev pub on_step : (Option (Field h.Double) → Run ℕ) → Step h.Double → Run ℕ
  on_step next (stop status) = done status
  on_step next (go_on f) = next f

  -- The loop of `sigar_ptql_query_match`. `seen` holds what the earlier branches read, by index;
  -- the buffers of the code also keep what later branches read in an earlier call, to which no
  -- reference leads. SIGAR_OK is 0.
  unfoldable pub match_from : List (Option (Field h.Double)) → List (BranchOf h) → ℕ → Run ℕ
  unfolding branch_step
  match_from seen [] pid = done 0
  match_from seen (b ∷ bs) pid =
      branch_step seen b pid >>= on_step (λ f. match_from (seen ++ f ∷ []) bs pid)

  unfoldable pub query_match : List (BranchOf h) → ℕ → Run ℕ
  unfolding match_from
  query_match = match_from []
