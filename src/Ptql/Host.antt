-- ===== src/Ptql/Host.antt =====
-- What sigar_ptql.c asks of the C library, the operating system and the platform files: the
-- process readers of os/*, the environment, floating-point numbers. A reader fails with a status.
use re_co_mon_b.Base.{ℕ, Bool, List, Option, Bytes}

pub data Reply {ℓ} (A : Type ℓ) : Type ℓ where
  got : A → Reply A
  failed : ℕ → Reply A

-- The answers hold for the time of one query: a process table that changes under it is outside
-- the model.
pub record Host : Type 1 where
  pub Double : Type 0
  pub dbl_zero : Double
  pub dbl_eq : Double → Double → Bool
  pub dbl_lt : Double → Double → Bool
  pub dbl_le : Double → Double → Bool
  -- `strtod`, unless it leaves text over or is out of range
  pub strtod : Bytes → Option Double
  pub getpid : ℕ
  pub getenv : Bytes → Option Bytes
  -- SIGAR_ENOTIMPL
  pub enotimpl : ℕ
  -- a member of the structure that a `sigar_proc_*_get` fills for a process, by its type
  pub get_ui64 : Bytes → Bytes → ℕ → Reply ℕ
  pub get_ui32 : Bytes → Bytes → ℕ → Reply ℕ
  pub get_dbl : Bytes → Bytes → ℕ → Reply Double
  pub get_chr : Bytes → Bytes → ℕ → Reply ℕ
  pub get_str : Bytes → Bytes → ℕ → Reply Bytes
  -- `state.ppid`
  pub get_ppid : ℕ → Reply ℕ
  pub get_args : ℕ → Reply (List Bytes)
  -- the names handed to `module_getter`, in order
  pub get_modules : ℕ → Reply (List Bytes)
  -- the keys and values handed to `env_getter`, in order
  pub get_env : ℕ → Reply (List (Bytes × Bytes))
  -- `sigar->pids` after `sigar_proc_list_get(sigar, NULL)`
  pub get_pids : Reply (List ℕ)
  -- `sigar_proc_port_get`; the first argument says UDP
  pub port_pid : Bool → ℕ → Reply ℕ
  pub file2str : Bytes → Reply Bytes
  pub sudo_file2str : Bytes → Reply Bytes
  -- `sigar->ptql_re_impl`, applied to its data
  pub re_impl : Option (Bytes → Bytes → Bool)
