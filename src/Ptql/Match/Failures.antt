-- ===== src/Ptql/Match/Failures.antt =====
-- The statuses with which a round of `sigar_ptql_query_match` in sigar_ptql.c fails.
use re_co_mon_b.Base.{
  ℕ, Bytes, arith, ◌≢◌, ◌≡◌, refl, Bool, true, false, List, Option, none, some, if◌then◌else◌,
}
use re_co_mon_b.Ptql.Host.{Host, Reply, got, failed}
use re_co_mon_b.Ptql.Init.{BranchOf}
use re_co_mon_b.Ptql.Match.{
  Field, Step, stop, go_on, match_field, match_reply, match_lookup, branch_step, with_pid, wrap,
  settle, fetch, get_any,
}
use re_co_mon_b.Ptql.Run.{Run, done, fault, ◌>>=◌}
use re_co_mon_b.Ptql.Types.{Lookup, ValueType, any, ui64, ui32, dbl, chr, str, Getter, field}

module _ (h : Host) where
  -- A failing round never has the status SIGAR_OK.
  abbrev pub FailsNonzero : Run (Step h.Double) → Type 0
  FailsNonzero (done (stop status)) = status ≢ 0
  FailsNonzero (done (go_on f)) = Unit
  FailsNonzero fault = Unit

  abbrev pub NonzeroReply : {A : Type 0} → Reply A → Type 0
  NonzeroReply (got a) = Unit
  NonzeroReply (failed status) = status ≢ 0

  -- The readers of a process report a failure by a status other than SIGAR_OK.
  abbrev pub FailuresReported : Type 0
  FailuresReported =
      ((s m : Bytes) (pid : ℕ) → NonzeroReply (h.get_ui64 s m pid))
      × ((s m : Bytes) (pid : ℕ) → NonzeroReply (h.get_ui32 s m pid))
      × ((s m : Bytes) (pid : ℕ) → NonzeroReply (h.get_dbl s m pid))
      × ((s m : Bytes) (pid : ℕ) → NonzeroReply (h.get_chr s m pid))
      × ((s m : Bytes) (pid : ℕ) → NonzeroReply (h.get_str s m pid))
      × ((pid : ℕ) → NonzeroReply (h.get_ppid pid))

  settle-nonzero :
      (f : Option (Field h.Double)) (m : Run Bool) → FailsNonzero (m >>= λ r. done (settle h f r))
  settle-nonzero f (done true) = tt
  settle-nonzero f (done false) = λ e. absurd (omega arith)
  settle-nonzero f fault = tt

  reply-nonzero :
      {A : Type 0} (w : A → Field h.Double) (seen : List (Option (Field h.Double))) (b : BranchOf h)
      (r : Reply A)
      → NonzeroReply r
      → FailsNonzero (match_reply h seen b (wrap h w r))
  unfolding match_reply
  reply-nonzero w seen b (got a) n = settle-nonzero (some (w a)) (match_field h seen b (w a))
  reply-nonzero w seen b (failed status) n = n

  type-nonzero :
      (reported : FailuresReported) (seen : List (Option (Field h.Double))) (b : BranchOf h)
      (l : Lookup) (pid : ℕ) (t : ValueType) (g : Getter)
      → l.type ≡ t
      → l.get ≡ g
      → FailsNonzero (match_lookup h seen b (some l) pid)
  unfolding match_lookup fetch match_reply
  type-nonzero (r64, r32, rd, rc, rs, _) seen b l pid any g e e' =
      rw e (settle-nonzero none (get_any h l.get b pid))
  type-nonzero (r64, r32, rd, rc, rs, _) seen b l pid ui64 (field s m) e e' =
      rw (e, fetch, e', e) (reply-nonzero Field.field64 seen b (h.get_ui64 s m pid) (r64 s m pid))
  type-nonzero (r64, r32, rd, rc, rs, _) seen b l pid ui32 (field s m) e e' =
      rw (e, fetch, e', e) (reply-nonzero Field.field32 seen b (h.get_ui32 s m pid) (r32 s m pid))
  type-nonzero (r64, r32, rd, rc, rs, _) seen b l pid dbl (field s m) e e' =
      rw (e, fetch, e', e) (reply-nonzero Field.field_dbl seen b (h.get_dbl s m pid) (rd s m pid))
  type-nonzero (r64, r32, rd, rc, rs, _) seen b l pid chr (field s m) e e' =
      rw (e, fetch, e', e) (reply-nonzero Field.field_chr seen b (h.get_chr s m pid) (rc s m pid))
  type-nonzero (r64, r32, rd, rc, rs, _) seen b l pid str (field s m) e e' =
      rw (e, fetch, e', e) (reply-nonzero Field.field_str seen b (h.get_str s m pid) (rs s m pid))
  type-nonzero reported seen b l pid t g e e' = rw (e, fetch, e') (λ q. absurd (omega (arith, q)))

  pid-nonzero :
      (f : ℕ → Run (Step h.Double)) (r : Reply ℕ)
      → NonzeroReply r
      → ((pid : ℕ) → FailsNonzero (f pid))
      → FailsNonzero (with_pid h f r)
  pid-nonzero f (got pid) n e = e pid
  pid-nonzero f (failed status) n e = n

  lookup-nonzero :
      (reported : FailuresReported) (seen : List (Option (Field h.Double))) (b : BranchOf h)
      (l : Option Lookup) (pid : ℕ)
      → FailsNonzero (match_lookup h seen b l pid)
  unfolding match_lookup
  lookup-nonzero reported seen b none pid = tt
  lookup-nonzero reported seen b (some l) pid =
      type-nonzero reported seen b l pid l.type l.get refl refl

  ppid-nonzero :
      (reported : FailuresReported) (parent : Bool) (pid : ℕ)
      → NonzeroReply (if parent then h.get_ppid pid else got pid)
  ppid-nonzero (_, _, _, _, _, r) true pid = r pid
  ppid-nonzero (_, _, _, _, _, r) false pid = tt

  pub branch_step-FailsNonzero :
      (reported : FailuresReported) (seen : List (Option (Field h.Double))) (b : BranchOf h)
      (pid : ℕ)
      → FailsNonzero (branch_step h seen b pid)
  unfolding branch_step
  branch_step-FailsNonzero reported seen b pid =
      pid-nonzero (match_lookup h seen b b.lookup) _ (ppid-nonzero reported b.op_flags.parent pid)
        (lookup-nonzero reported seen b b.lookup)
