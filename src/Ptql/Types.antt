-- ===== src/Ptql/Types.antt =====
-- The types of sigar_ptql.c that its parts share, its errors, and faults.
use re_co_mon_b.Base.{List, ℕ, ◌≡◌, refl, Bool, false, Option, Bytes}

-- `ptql_op_name_t`; `max` is also the answer for a name that is no operator.
pub data Op : Type 0 where
  eq ne gt ge lt le ew sw re ct max : Op

-- `ptql_value_type_t`.
pub data ValueType : Type 0 where
  ui64 ui32 dbl chr str any : ValueType

-- The bits of `op_flags`.
pub record OpFlags : Type 0 where
  pub parent : Bool
  pub ref : Bool
  pub glob : Bool
  pub pid : Bool
  pub icase : Bool

abbrev pub no_flags : OpFlags
no_flags = record { parent = false; ref = false; glob = false; pid = false; icase = false }

-- `ptql_parse_branch_t`.
pub record ParseBranch : Type 0 where
  pub name : Bytes
  pub attr : Bytes
  pub op : Bytes
  pub value : Bytes
  pub op_flags : OpFlags

-- How `lookup->get` reads a value: a member of the structure that a `sigar_proc_*_get` fills, or
-- one of the functions that match by themselves.
pub data Getter : Type 0 where
  field : Bytes → Bytes → Getter
  args_match modules_match env_match pid_match : Getter

pub data Init : Type 0 where
  init_args init_any init_port init_pid init_service : Init

-- `ptql_lookup_t`; the size and the offset of a structure are left to the getter.
pub record Lookup : Type 0 where
  pub name : Option Bytes
  pub get : Getter
  pub type : ValueType
  pub init : Option Init

-- `PTQL_PID_*`.
pub data PidFlag : Type 0 where
  pid_pid pid_file pid_sudo_file pid_tcp_port pid_udp_port : PidFlag
  pid_service_name pid_service_display pid_service_path pid_service_exe : PidFlag

-- `any_value_t`, with the member that was written last; `unset` is all zeros.
pub data AnyValue (D : Type 0) : Type 0 where
  unset : AnyValue D
  num64 : ℕ → AnyValue D
  num32 : ℕ → AnyValue D
  num_dbl : D → AnyValue D
  byte : ℕ → AnyValue D
  text : Option Bytes → AnyValue D

-- `ptql_branch_t`. `match` is the table's function for `type` and `op_name`, and is not kept.
pub record Branch (D : Type 0) : Type 0 where
  pub lookup : Option Lookup
  pub datum : AnyValue D
  pub flags : PidFlag
  pub op_flags : OpFlags
  pub op_name : Op
  pub value : AnyValue D

-- `ptql_branch_list_t`; `number` is the length of the list.
pub record BranchList (D : Type 0) : Type 0 where
  pub size : ℕ
  pub branches : List (Branch D)

-- The messages that `ptql_error` formats, with their arguments. Each call returns the status
-- SIGAR_PTQL_MALFORMED_QUERY.
pub data Error : Type 0 where
  missing_equals missing_dot missing_query : Error
  unsupported_modifier : ℕ → Error
  unsupported_operator : Bytes → Error
  unsupported_method : Bytes → Error
  unsupported_attribute : Bytes → Bytes → Error
  operator_for : Bytes → Bytes → Bytes → Error
  operator_with_variable : Bytes → Bytes → Error
  out_of_range : Bytes → ℕ → Error
  self_reference : Bytes → Error
  not_number : Bytes → Error
  attr_not_number : Bytes → Error
  not_char : Bytes → Error
  requires_eq : Bytes → Error
  unsupported_protocol : Bytes → Bytes → Error

-- SIGAR_OK with what was made, or the error.
pub data Result {ℓ} (A : Type ℓ) : Type ℓ where
  err : Error → Result A
  ok : (made : A) → Result A

module _ {ℓ κ} {Made : Type ℓ} {Next : Type κ} where
  -- `if (status != SIGAR_OK) return status;`
  infixl 5 ◌>>=◌
  abbrev pub ◌>>=◌ : (status : Result Made) (next : Made → Result Next) → Result Next
  err why >>= next = err why
  ok made >>= next = next made

  -- Inversion of a chain that succeeds.
  pub bind-eq-ok :
      (status : Result Made) (next : Made → Result Next) {end : Next}
      → (status >>= next) ≡ ok end
      → (made : Made) × (status ≡ ok made) × (next made ≡ ok end)
  bind-eq-ok (err why) next h = cc
  bind-eq-ok (ok made) next h = (made, refl, h)
