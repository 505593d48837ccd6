-- ===== src/Ptql/Op.antt =====
-- The operators of sigar_ptql.c: their names, and the tables of functions that compare a value of
-- a process (the haystack) with the query's (the needle). A function's `int` is a Boolean.
pub mod Laws
use re_co_mon_b.Base.{
  ℕ, ◌+◌, ◌-◌, ◌%◌, Bool, true, false, not, ◌&&◌, ◌||◌, List, [], ◌∷◌, Option, none, some, Bytes,
  codes, ltb, leb, ◌==◌, if◌then◌else◌, str_eq, length, drop, get_elem?,
}
use re_co_mon_b.Libc.{Sign, below, same, above, strcmp, strcasecmp, strn_eq, strncase_eq, contains}
use re_co_mon_b.Ptql.Types.{Op, eq, ne, gt, ge, lt, le, ew, sw, re, ct, max}
use re_co_mon_b.Util.{strcasestr}

-- `ptql_op_code_get`.
unfoldable pub op_code_get : Bytes → Op
unfolding str_eq
op_code_get op =
    if str_eq op (codes "eq")
    then eq
    else if str_eq op (codes "ne")
    then ne
    else if str_eq op (codes "gt")
    then gt
    else if str_eq op (codes "ge")
    then ge
    else if str_eq op (codes "lt")
    then lt
    else if str_eq op (codes "le")
    then le
    else if str_eq op (codes "ew")
    then ew
    else if str_eq op (codes "sw")
    then sw
    else if str_eq op (codes "re")
    then re
    else if str_eq op (codes "ct")
    then ct
    else max

-- The enumerator's number, which indexes the tables.
abbrev pub op_index : Op → ℕ
op_index eq = 0
op_index ne = 1
op_index gt = 2
op_index ge = 3
op_index lt = 4
op_index le = 5
op_index ew = 6
op_index sw = 7
op_index re = 8
op_index ct = 9
op_index max = 10

-- `ptql_op_ui64_eq` to `ptql_op_ui64_le`, in the order of the table `ptql_op_ui64`.
abbrev pub op_ui64 : List (ℕ → ℕ → Bool)
op_ui64 =
    (λ haystack needle. haystack == needle)
    ∷ (λ haystack needle. not (haystack == needle))
    ∷ (λ haystack needle. ltb needle haystack)
    ∷ (λ haystack needle. leb needle haystack)
    ∷ (λ haystack needle. ltb haystack needle)
    ∷ (λ haystack needle. leb haystack needle)
    ∷ []

-- `ptql_op_ui32_eq` to `ptql_op_ui32_le`.
abbrev pub op_ui32 : List (ℕ → ℕ → Bool)
op_ui32 =
    (λ haystack needle. haystack == needle)
    ∷ (λ haystack needle. not (haystack == needle))
    ∷ (λ haystack needle. ltb needle haystack)
    ∷ (λ haystack needle. leb needle haystack)
    ∷ (λ haystack needle. ltb haystack needle)
    ∷ (λ haystack needle. leb haystack needle)
    ∷ []

-- A byte as a signed `char`, moved up by 128.
abbrev pub char_order : ℕ → ℕ
char_order c = (c + 128) % 256

-- `ptql_op_chr_eq` to `ptql_op_chr_le`.
abbrev pub op_chr : List (ℕ → ℕ → Bool)
op_chr =
    (λ haystack needle. haystack == needle)
    ∷ (λ haystack needle. not (haystack == needle))
    ∷ (λ haystack needle. ltb (char_order needle) (char_order haystack))
    ∷ (λ haystack needle. leb (char_order needle) (char_order haystack))
    ∷ (λ haystack needle. ltb (char_order haystack) (char_order needle))
    ∷ (λ haystack needle. leb (char_order haystack) (char_order needle))
    ∷ []

-- `branch_strcmp`; the first argument is IS_ICASE(branch).
unfoldable pub branch_strcmp : Bool → Bytes → Bytes → Sign
unfolding strcmp strcasecmp
branch_strcmp icase s1 s2 = if icase then strcasecmp s1 s2 else strcmp s1 s2

-- `branch_strnEQ`.
unfoldable pub branch_strn_eq : Bool → Bytes → Bytes → ℕ → Bool
unfolding strn_eq strncase_eq
branch_strn_eq icase s1 s2 n = if icase then strncase_eq s1 s2 n else strn_eq s1 s2 n

abbrev pub is_some {ℓ} : {A : Type ℓ} → Option A → Bool
is_some none = false
is_some (some a) = true

-- `branch_strstr(branch, s1, s2) != NULL`.
unfoldable pub branch_strstr : Bool → Bytes → Bytes → Bool
unfolding strcasestr contains
branch_strstr icase s1 s2 = if icase then is_some (strcasestr s1 s2) else contains s1 s2 (length s2)

abbrev pub is_same : Sign → Bool
is_same same = true
is_same _ = false

abbrev pub is_above : Sign → Bool
is_above above = true
is_above _ = false

abbrev pub is_below : Sign → Bool
is_below below = true
is_below _ = false

unfoldable pub op_str_eq : Bool → Bytes → Bytes → Bool
unfolding branch_strcmp
op_str_eq icase haystack needle = is_same (branch_strcmp icase haystack needle)

unfoldable pub op_str_ne : Bool → Bytes → Bytes → Bool
unfolding branch_strcmp
op_str_ne icase haystack needle = not (is_same (branch_strcmp icase haystack needle))

unfoldable pub op_str_gt : Bool → Bytes → Bytes → Bool
unfolding branch_strcmp
op_str_gt icase haystack needle = is_above (branch_strcmp icase haystack needle)

unfoldable pub op_str_ge : Bool → Bytes → Bytes → Bool
unfolding branch_strcmp
op_str_ge icase haystack needle = not (is_below (branch_strcmp icase haystack needle))

unfoldable pub op_str_lt : Bool → Bytes → Bytes → Bool
unfolding branch_strcmp
op_str_lt icase haystack needle = is_below (branch_strcmp icase haystack needle)

unfoldable pub op_str_le : Bool → Bytes → Bytes → Bool
unfolding branch_strcmp
op_str_le icase haystack needle = not (is_above (branch_strcmp icase haystack needle))

unfoldable pub op_str_ew : Bool → Bytes → Bytes → Bool
unfolding branch_strn_eq
op_str_ew icase haystack needle =
    if ltb (length haystack) (length needle)
    then false
    else branch_strn_eq icase (drop (length haystack - length needle) haystack) needle
        (length needle)

unfoldable pub op_str_sw : Bool → Bytes → Bytes → Bool
unfolding branch_strn_eq
op_str_sw icase haystack needle = branch_strn_eq icase haystack needle (length needle)

-- Without PCRE; `ptql_str_match` calls the application's function instead.
unfoldable pub op_str_re : Bool → Bytes → Bytes → Bool
op_str_re icase haystack needle = false

unfoldable pub op_str_ct : Bool → Bytes → Bytes → Bool
unfolding branch_strstr
op_str_ct icase haystack needle = branch_strstr icase haystack needle

-- The table `ptql_op_str`.
abbrev pub op_str : List (Bool → Bytes → Bytes → Bool)
op_str =
    op_str_eq ∷ op_str_ne ∷ op_str_gt ∷ op_str_ge ∷ op_str_lt ∷ op_str_le ∷ op_str_ew ∷ op_str_sw
    ∷ op_str_re ∷ op_str_ct ∷ []
