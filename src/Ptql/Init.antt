-- ===== src/Ptql/Init.antt =====
-- The `lookup->init` functions of sigar_ptql.c.
pub mod Port
use re_co_mon_b.Base.{ℕ, ◌%◌, ◌^◌, true, Option, none, some, Bytes, codes, if◌then◌else◌, str_eq}
use re_co_mon_b.Libc.Number.{strict_unsigned, strict_signed32}
use re_co_mon_b.Ptql.Host.{Host}
use re_co_mon_b.Ptql.Types.{
  Op, eq, ParseBranch, Branch, Init, init_args, init_any, init_port, init_pid, init_service, num64,
  num32, text, pid_pid, pid_file, pid_sudo_file, pid_tcp_port, pid_service_name,
  pid_service_display, pid_service_path, pid_service_exe, Error, unsupported_attribute, not_number,
  attr_not_number, requires_eq, unsupported_protocol, Result, ok, err, ◌>>=◌,
}

-- `strtoull` of the query's value, or PTQL_ERRNAN.
unfoldable pub value_number : Bytes → Result ℕ
unfolding strict_unsigned
value_number value = elim (strict_unsigned value) [ none ↦ err (not_number value) | some n ↦ ok n ]

abbrev pub is_eq : Op → {A : Type 0} → A → A → A
is_eq eq yes_case no_case = yes_case
is_eq _ yes_case no_case = no_case

module _ (h : Host) where
  abbrev pub BranchOf : Type 0
  BranchOf = Branch h.Double

  -- `branch->op_flags |= PTQL_OP_FLAG_PID`.
  abbrev mark_pid : BranchOf → BranchOf
  mark_pid b = record b { op_flags = record b.op_flags { pid = true } }

  unfoldable pub branch_init_any : ParseBranch → BranchOf → Result BranchOf
  branch_init_any parsed b = ok (record b { datum = text (some parsed.attr) })

  unfoldable pub branch_init_service : ParseBranch → BranchOf → Result BranchOf
  unfolding str_eq
  branch_init_service parsed b =
      if str_eq parsed.attr (codes "Name")
      then ok (record (mark_pid b) { flags = pid_service_name })
      else if str_eq parsed.attr (codes "DisplayName")
      then ok (record (mark_pid b) { flags = pid_service_display })
      else if str_eq parsed.attr (codes "Path")
      then ok (record (mark_pid b) { flags = pid_service_path })
      else if str_eq parsed.attr (codes "Exe")
      then ok (record (mark_pid b) { flags = pid_service_exe })
      else err (unsupported_attribute parsed.name parsed.attr)

  -- The pid of a `Pid.Pid` query: `$$` is the caller's own.
  unfoldable pub pid_value : Bytes → Result ℕ
  unfolding str_eq value_number
  pid_value value = if str_eq value (codes "$$") then ok h.getpid else value_number value

  unfoldable pub branch_init_pid : ParseBranch → BranchOf → Result BranchOf
  unfolding str_eq pid_value
  branch_init_pid parsed b =
      if str_eq parsed.attr (codes "Pid")
      then (pid_value parsed.value >>= λ pid.
          ok (record (mark_pid b) { flags = pid_pid; datum = num64 pid }))
      else if str_eq parsed.attr (codes "PidFile")
      then ok (record (mark_pid b) { flags = pid_file; datum = text (some parsed.value) })
      else if str_eq parsed.attr (codes "SudoPidFile")
      then ok (record (mark_pid b) { flags = pid_sudo_file; datum = text (some parsed.value) })
      else err (unsupported_attribute parsed.name parsed.attr)

  unfoldable pub args_branch_init : ParseBranch → BranchOf → Result BranchOf
  unfolding str_eq strict_signed32
  args_branch_init parsed b =
      if str_eq parsed.attr (codes "*")
      then ok (record b { op_flags = record b.op_flags { glob = true } })
      else elim (strict_signed32 parsed.attr) [
        | none ↦ err (attr_not_number parsed.attr)
        | some n ↦ ok (record b { datum = num32 n })
      ]

  -- The part of `ptql_branch_init_port` behind the protocol, which sets the same flag for both.
  port_number : ParseBranch → BranchOf → Result BranchOf
  unfolding value_number
  port_number parsed b = do
    port ← value_number parsed.value
    ok (record (mark_pid b) { flags = pid_tcp_port; datum = num32 (port % 2 ^ 32) })

  unfoldable pub branch_init_port : ParseBranch → BranchOf → Result BranchOf
  unfolding str_eq port_number
  branch_init_port parsed b =
      is_eq b.op_name
        (if str_eq parsed.attr (codes "tcp")
          then port_number parsed b
          else if str_eq parsed.attr (codes "udp")
          then port_number parsed b
          else err (unsupported_protocol parsed.name parsed.attr))
        (err (requires_eq parsed.name))

  -- `if (lookup->init) { … }`.
  unfoldable pub run_init : Option Init → ParseBranch → BranchOf → Result BranchOf
  unfolding branch_init_any branch_init_service branch_init_pid args_branch_init branch_init_port
  run_init none parsed b = ok b
  run_init (some init_any) parsed b = branch_init_any parsed b
  run_init (some init_args) parsed b = args_branch_init parsed b
  run_init (some init_port) parsed b = branch_init_port parsed b
  run_init (some init_pid) parsed b = branch_init_pid parsed b
  run_init (some init_service) parsed b = branch_init_service parsed b
