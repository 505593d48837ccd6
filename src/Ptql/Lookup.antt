-- ===== src/Ptql/Lookup.antt =====
-- The tables of methods and attributes of sigar_ptql.c, and their search.
use Prim.Native.String.{String}
use re_co_mon_b.Base.{List, [], ◌∷◌, Option, none, some, Bytes, codes, if◌then◌else◌, str_eq}
use re_co_mon_b.Ptql.Types.{
  ValueType, ui64, ui32, dbl, chr, str, any, field, args_match, modules_match, env_match, pid_match,
  Getter, Init, init_args, init_any, init_port, init_pid, init_service, Lookup, unsupported_method,
  unsupported_attribute, Result, ok, err,
}

-- `PTQL_LOOKUP_ENTRY`.
abbrev entry : String → String → String → ValueType → Lookup
entry name cname member type = record {
  name = some (codes name);
  get = field (codes cname) (codes member);
  type = type;
  init = none;
}

abbrev matcher : Getter → Init → List Lookup
matcher get init = record { name = none; get = get; type = any; init = some init } ∷ []

abbrev pub ptql_time : List Lookup
ptql_time =
    entry "StartTime" "proc_time" "start_time" ui64
    ∷ entry "User" "proc_time" "user" ui64
    ∷ entry "Sys" "proc_time" "sys" ui64
    ∷ entry "Total" "proc_time" "total" ui64
    ∷ []

abbrev pub ptql_cpu : List Lookup
ptql_cpu =
    entry "StartTime" "proc_cpu" "start_time" ui64
    ∷ entry "User" "proc_cpu" "user" ui64
    ∷ entry "Sys" "proc_cpu" "sys" ui64
    ∷ entry "Total" "proc_cpu" "total" ui64
    ∷ entry "Percent" "proc_cpu" "percent" dbl
    ∷ []

abbrev pub ptql_cred_name : List Lookup
ptql_cred_name =
    entry "User" "proc_cred_name" "user" str ∷ entry "Group" "proc_cred_name" "group" str ∷ []

abbrev pub ptql_mem : List Lookup
ptql_mem =
    entry "Size" "proc_mem" "size" ui64
    ∷ entry "Resident" "proc_mem" "resident" ui64
    ∷ entry "Share" "proc_mem" "share" ui64
    ∷ entry "MinorFaults" "proc_mem" "minor_faults" ui64
    ∷ entry "MajorFaults" "proc_mem" "major_faults" ui64
    ∷ entry "PageFaults" "proc_mem" "page_faults" ui64
    ∷ []

abbrev pub ptql_exe : List Lookup
ptql_exe = entry "Name" "proc_exe" "name" str ∷ entry "Cwd" "proc_exe" "cwd" str ∷ []

abbrev pub ptql_cred : List Lookup
ptql_cred =
    entry "Uid" "proc_cred" "uid" ui32
    ∷ entry "Gid" "proc_cred" "gid" ui32
    ∷ entry "Euid" "proc_cred" "euid" ui32
    ∷ entry "Egid" "proc_cred" "egid" ui32
    ∷ []

abbrev pub ptql_state : List Lookup
ptql_state =
    entry "State" "proc_state" "state" chr
    ∷ entry "Name" "proc_state" "name" str
    ∷ entry "Ppid" "proc_state" "ppid" ui32
    ∷ entry "Tty" "proc_state" "tty" ui32
    ∷ entry "Nice" "proc_state" "nice" ui32
    ∷ entry "Priority" "proc_state" "priority" ui32
    ∷ entry "Threads" "proc_state" "threads" ui64
    ∷ entry "Processor" "proc_state" "processor" ui32
    ∷ []

abbrev pub ptql_fd : List Lookup
ptql_fd = entry "Total" "proc_fd" "total" ui64 ∷ []

abbrev pub ptql_args : List Lookup
ptql_args = matcher args_match init_args

abbrev pub ptql_modules : List Lookup
ptql_modules = matcher modules_match init_args

abbrev pub ptql_env : List Lookup
ptql_env = matcher env_match init_any

abbrev pub ptql_port : List Lookup
ptql_port = matcher pid_match init_port

abbrev pub ptql_pid : List Lookup
ptql_pid = matcher pid_match init_pid

abbrev pub ptql_service : List Lookup
ptql_service = matcher pid_match init_service

abbrev pub ptql_map : List (Bytes × List Lookup)
ptql_map =
    (codes "Time", ptql_time)
    ∷ (codes "Cpu", ptql_cpu)
    ∷ (codes "CredName", ptql_cred_name)
    ∷ (codes "Mem", ptql_mem)
    ∷ (codes "Exe", ptql_exe)
    ∷ (codes "Cred", ptql_cred)
    ∷ (codes "State", ptql_state)
    ∷ (codes "Fd", ptql_fd)
    ∷ (codes "Args", ptql_args)
    ∷ (codes "Modules", ptql_modules)
    ∷ (codes "Env", ptql_env)
    ∷ (codes "Port", ptql_port)
    ∷ (codes "Pid", ptql_pid)
    ∷ (codes "Service", ptql_service)
    ∷ []

-- The first `for`: the entry of a method.
unfoldable pub find_entry : Bytes → List (Bytes × List Lookup) → Option (List Lookup)
unfolding str_eq
find_entry name [] = none
find_entry name ((n, members) ∷ rest) = if str_eq n name then some members else find_entry name rest

-- The second `for`, which ends at a member with no name.
unfoldable pub find_member : Bytes → List Lookup → Option Lookup
unfolding str_eq
find_member attr [] = none
find_member attr (l ∷ rest) = elim l.name [
  | none ↦ none
  | some n ↦ if str_eq n attr then some l else find_member attr rest
]

-- `if (entry->members[0].type == PTQL_VALUE_TYPE_ANY)`.
abbrev catch_all : List Lookup → Option Lookup
catch_all [] = none
catch_all (l ∷ rest) = elim l.type [ any ↦ some l | _ ↦ none ]

-- The lookup of a method and an attribute, or the error that `ptql_branch_add` reports.
unfoldable pub find_lookup : Bytes → Bytes → Result Lookup
unfolding find_entry find_member
find_lookup name attr = elim (find_entry name ptql_map) [
  | none ↦ err (unsupported_method name)
  | some members ↦ elim (find_member attr members) [
    | some l ↦ ok l
    | none ↦ elim (catch_all members) [
      | some l ↦ ok l
      | none ↦ err (unsupported_attribute name attr)
    ]
  ]
]
