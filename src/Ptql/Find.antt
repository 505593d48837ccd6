-- ===== src/Ptql/Find.antt =====
-- The search for the processes that match a query, in sigar_ptql.c.
pub mod Agree
pub mod Exact
pub mod Pids
use re_co_mon_b.Base.{
  ℕ, ◌+◌, Bool, true, false, ◌&&◌, List, [], ◌∷◌, ◌++◌, Option, none, some, Bytes, ltb, ◌==◌, not,
  if◌then◌else◌, length,
}
use re_co_mon_b.Libc.Number.{scan_number, range_unsigned, wrap}
use re_co_mon_b.Ptql.Host.{Host, Reply, got, failed}
use re_co_mon_b.Ptql.Init.{BranchOf}
use re_co_mon_b.Ptql.Match.{at, as_ui64, as_ui32, as_str, query_match}
use re_co_mon_b.Ptql.Op.{op_ui64, op_index}
use re_co_mon_b.Ptql.Run.{Run, done, fault, ◌>>=◌}
use re_co_mon_b.Ptql.Types.{
  Op, eq, PidFlag, pid_pid, pid_file, pid_sudo_file, pid_tcp_port, pid_udp_port, pid_service_name,
  pid_service_display, pid_service_path, pid_service_exe,
}

-- ERANGE.
abbrev erange : ℕ
erange = 34

-- `*pid = str2pid(buffer)` of a file's text and the test behind it. Where there is no digit,
-- `strtoull` gives 0 and leaves `errno` at the 0 that it was set to, which is what is returned.
unfoldable pub pid_of_text : Bytes → Reply ℕ
unfolding scan_number
pid_of_text buffer =
    let r = scan_number buffer in
    if not r.found
    then got 0
    else if range_unsigned r
    then failed erange
    else got (wrap 64 r.negative r.magnitude)

abbrev then_pid : Reply Bytes → Reply ℕ
then_pid (got buffer) = pid_of_text buffer
then_pid (failed status) = failed status

-- `branch->flags > PTQL_PID_SERVICE_NAME` and the operator's test: the services of Windows only.
abbrev pub is_service_list : PidFlag → Op → Bool
is_service_list pid_service_name eq = false
is_service_list pid_service_name _ = true
is_service_list pid_service_display op = true
is_service_list pid_service_path op = true
is_service_list pid_service_exe op = true
is_service_list _ op = false

-- The result of `sigar_ptql_query_find_process`, with the status or the error text's number.
pub data Found : Type 0 where
  process : ℕ → Found
  no_match : Found
  multiple : ℕ → Found
  error : ℕ → Found

module _ (h : Host) where
  abbrev read_path : (Bytes → Reply Bytes) → Option Bytes → Run (Reply ℕ)
  read_path read none = fault
  read_path read (some path) = done (then_pid (read path))

  -- `ptql_pid_get` outside Windows.
  unfoldable pub pid_get : PidFlag → BranchOf h → Run (Reply ℕ)
  unfolding pid_of_text
  pid_get pid_file b = as_str b.datum >>= read_path h.file2str
  pid_get pid_sudo_file b = as_str b.datum >>= read_path h.sudo_file2str
  pid_get pid_service_name b = done (failed h.enotimpl)
  pid_get pid_tcp_port b = as_ui32 b.datum >>= λ port. done (h.port_pid false port)
  pid_get pid_udp_port b = as_ui32 b.datum >>= λ port. done (h.port_pid true port)
  pid_get _ b = as_ui64 b.datum >>= λ pid. done (got pid)

  -- The pids for which `pid_branch_match` holds.
  unfoldable pub filter_pids : Op → ℕ → List ℕ → Run (List ℕ)
  filter_pids op match_pid [] = done []
  filter_pids op match_pid (pid ∷ pids) =
      let rest = filter_pids op match_pid pids in
      at op_ui64 (op_index op) >>= λ f.
      rest >>= λ kept. done (if f pid match_pid then pid ∷ kept else kept)

  abbrev append_pids : List ℕ → List ℕ → Run (Reply (List ℕ))
  append_pids acc pids = done (got (acc ++ pids))

  abbrev scan_pids : Op → ℕ → List ℕ → Reply (List ℕ) → Run (Reply (List ℕ))
  scan_pids op match_pid acc (failed status) = done (failed status)
  scan_pids op match_pid acc (got pids) = filter_pids op match_pid pids >>= append_pids acc

  -- A pid that cannot be had is no match.
  abbrev after_pid : Op → List ℕ → Reply ℕ → Run (Reply (List ℕ))
  after_pid op acc (failed status) = done (got acc)
  after_pid op acc (got match_pid) = scan_pids op match_pid acc h.get_pids

  -- `ptql_pid_list_get`, which appends to the list so far.
  unfoldable pub pid_list_get : BranchOf h → List ℕ → Run (Reply (List ℕ))
  unfolding pid_get filter_pids
  pid_list_get b acc =
      if is_service_list b.flags b.op_name
      then done (got acc)
      else pid_get b.flags b >>= after_pid b.op_name acc

  abbrev or_empty : Option (List ℕ) → List ℕ
  or_empty none = []
  or_empty (some pids) = pids

  -- The loop of `ptql_proc_list_get`; the list is NULL until a branch on pids is met.
  unfoldable pub pid_lists : List (BranchOf h) → Option (List ℕ) → Run (Reply (Option (List ℕ)))
  unfolding pid_list_get
  pid_lists [] acc = done (got acc)
  pid_lists (b ∷ bs) acc =
      let skip = pid_lists bs acc in
      let listed = pid_list_get b (or_empty acc) >>= λ r. elim r [
        | failed status ↦ done (failed status)
        | got pids ↦ pid_lists bs (some pids)
      ] in
      if b.op_flags.pid then listed else skip

  abbrev or_all : Reply (Option (List ℕ)) → Reply (List ℕ)
  or_all (failed status) = failed status
  or_all (got none) = h.get_pids
  or_all (got (some pids)) = got pids

  -- `ptql_proc_list_get`.
  unfoldable pub proc_list_get : List (BranchOf h) → Run (Reply (List ℕ))
  unfolding pid_lists
  proc_list_get query = pid_lists query none >>= λ r. done (or_all r)

  -- `status == SIGAR_ENOTIMPL`, tested after `status == SIGAR_OK`, ends the search.
  abbrev pub halted_or : {A : Type 0} → ℕ → Run (Reply A) → Run (Reply A)
  halted_or status rest =
      if status == h.enotimpl && not (status == 0) then done (failed status) else rest

  -- The loop of `sigar_ptql_query_find`: the pids that match, or the status ENOTIMPL.
  unfoldable pub find_loop : List (BranchOf h) → List ℕ → List ℕ → Run (Reply (List ℕ))
  unfolding query_match
  find_loop query [] out = done (got out)
  find_loop query (pid ∷ pids) out = query_match h query pid >>= λ status.
      halted_or status (find_loop query pids (if status == 0 then out ++ pid ∷ [] else out))

  abbrev pub search_pids : List (BranchOf h) → Reply (List ℕ) → Run (Reply (List ℕ))
  search_pids query (failed status) = done (failed status)
  search_pids query (got pids) = find_loop query pids []

  unfoldable pub query_find : List (BranchOf h) → Run (Reply (List ℕ))
  unfolding proc_list_get find_loop
  query_find query = proc_list_get query >>= search_pids query

  -- The loop of `sigar_ptql_query_find_process`: the last match and the number of matches.
  unfoldable pub count_loop : List (BranchOf h) → List ℕ → ℕ → ℕ → Run (Reply (ℕ × ℕ))
  unfolding query_match
  count_loop query [] last matches = done (got (last, matches))
  count_loop query (pid ∷ pids) last matches = query_match h query pid >>= λ status.
      halted_or status (
        count_loop query pids (if status == 0 then pid else last)
          (if status == 0 then matches + 1 else matches))

  abbrev pub found_of : Reply (ℕ × ℕ) → Found
  found_of (failed status) = error status
  found_of (got (last, matches)) =
      if matches == 1 then process last else if matches == 0 then no_match else multiple matches

  abbrev pub count_pids : List (BranchOf h) → Reply (List ℕ) → Run Found
  count_pids query (failed status) = done (error status)
  count_pids query (got pids) = count_loop query pids 0 0 >>= λ r. done (found_of r)

  unfoldable pub query_find_process : List (BranchOf h) → Run Found
  unfolding proc_list_get count_loop
  query_find_process query = proc_list_get query >>= count_pids query
