-- ===== src/Ptql/Match/RefFree.antt =====
-- Queries of sigar_ptql.c without references: each branch is tested by itself.
use re_co_mon_b.Base.{
  ℕ, ◌≢◌, ◌≡◌, refl, false, List, [], ◌∷◌, ◌++◌, Option, none, some, ◌↔◌, if◌then◌else◌,
}
use mathlib.Core.List.{Permᴰ}
use mathlib.Core.List.Permᴰ
use mathlib.Core.Path.{subst}
use re_co_mon_b.Ptql.Host.{Host, Reply, got, failed}
use re_co_mon_b.Ptql.Init.{BranchOf}
use re_co_mon_b.Ptql.Match.{
  Field, Step, stop, go_on, match_field, match_reply, match_lookup, branch_step, match_from,
  query_match, with_pid, on_step,
}
use re_co_mon_b.Ptql.Match.Failures.{FailuresReported, FailsNonzero, branch_step-FailsNonzero}
use re_co_mon_b.Ptql.Run.{Run, done, fault, ◌>>=◌}
use re_co_mon_b.Ptql.Types.{Lookup, ValueType, any}

module _ (h : Host) where
  -- No branch has a reference.
  abbrev pub RefFree : List (BranchOf h) → Type 0
  RefFree [] = Unit
  RefFree (b ∷ bs) = (b.op_flags.ref ≡ false) × RefFree bs

  -- The branch lets the process through, looked at alone.
  abbrev pub Passes : ℕ → BranchOf h → Type 0
  Passes pid b = (f : Option (Field h.Double)) × (branch_step h [] b pid ≡ done (go_on f))

  abbrev pub AllPass : ℕ → List (BranchOf h) → Type 0
  AllPass pid [] = Unit
  AllPass pid (b ∷ bs) = Passes pid b × AllPass pid bs

  match_reply-alone :
      (seen : List (Option (Field h.Double))) (b : BranchOf h) (r : Reply (Field h.Double))
      → b.op_flags.ref ≡ false
      → match_reply h seen b r ≡ match_reply h [] b r
  unfolding match_reply match_field
  match_reply-alone seen b (failed status) e = refl
  match_reply-alone seen b (got f) e = rw e refl

  match_type-alone :
      (seen : List (Option (Field h.Double))) (b : BranchOf h) (l : Lookup) (pid : ℕ)
      (t : ValueType)
      → l.type ≡ t
      → b.op_flags.ref ≡ false
      → match_lookup h seen b (some l) pid ≡ match_lookup h [] b (some l) pid
  unfolding match_lookup
  match_type-alone seen b l pid any e r = rw e refl
  match_type-alone seen b l pid _ e r = rw e (match_reply-alone seen b _ r)

  match_lookup-alone :
      (seen : List (Option (Field h.Double))) (b : BranchOf h) (l : Option Lookup) (pid : ℕ)
      → b.op_flags.ref ≡ false
      → match_lookup h seen b l pid ≡ match_lookup h [] b l pid
  unfolding match_lookup
  match_lookup-alone seen b none pid e = refl
  match_lookup-alone seen b (some l) pid e = match_type-alone seen b l pid l.type refl e

  with_pid-eq :
      (f g : ℕ → Run (Step h.Double)) (r : Reply ℕ)
      → ((pid : ℕ) → f pid ≡ g pid)
      → with_pid h f r ≡ with_pid h g r
  with_pid-eq f g (got pid) e = e pid
  with_pid-eq f g (failed status) e = refl

  -- What the earlier branches read does not matter to a branch without a reference.
  branch_step-alone :
      (seen : List (Option (Field h.Double))) (b : BranchOf h) (pid : ℕ)
      → b.op_flags.ref ≡ false
      → branch_step h seen b pid ≡ branch_step h [] b pid
  unfolding branch_step
  branch_step-alone seen b pid e =
      with_pid-eq _ _ (if b.op_flags.parent then h.get_ppid pid else got pid)
        (λ p. match_lookup-alone seen b b.lookup p e)

  stop-ne-go_on :
      {status : ℕ} {f : Option (Field h.Double)}
      → ◌≢◌ {A = Run (Step h.Double)} (done (stop status)) (done (go_on f))
  stop-ne-go_on e = cc

  fault-ne-go_on :
      {f : Option (Field h.Double)} → ◌≢◌ {A = Run (Step h.Double)} fault (done (go_on f))
  fault-ne-go_on e = cc

  step_iff :
      (next : Option (Field h.Double) → Run ℕ) (A : Type 0) (s : Run (Step h.Double))
      → FailsNonzero h s
      → ((f : Option (Field h.Double)) → (next f ≡ done 0) ↔ A)
      → ((s >>= on_step h next) ≡ done 0)
        ↔ (((f : Option (Field h.Double)) × (s ≡ done (go_on f))) × A)
  step_iff next A (done (stop status)) n e =
      ((λ q. absurd (n cc)), λ p. absurd (stop-ne-go_on p.0.1))
  step_iff next A (done (go_on f)) n e = ((λ q. ((f, refl), (e f).0 q)), λ p. (e f).1 p.1)
  step_iff next A fault n e = ((λ q. absurd cc), λ p. absurd (fault-ne-go_on p.0.1))

  match_from_iff :
      (reported : FailuresReported h) (seen : List (Option (Field h.Double)))
      (bs : List (BranchOf h)) (pid : ℕ)
      → RefFree bs
      → (match_from h seen bs pid ≡ done 0) ↔ AllPass pid bs
  unfolding match_from
  match_from_iff reported seen [] pid free = ((λ e. tt), λ t. refl)
  match_from_iff reported seen (b ∷ bs) pid free = rw (branch_step-alone seen b pid free.0) (
      step_iff (λ f. match_from h (seen ++ f ∷ []) bs pid) (AllPass pid bs) (branch_step h [] b pid)
        (branch_step-FailsNonzero h reported [] b pid)
        (λ f. match_from_iff reported (seen ++ f ∷ []) bs pid free.1))

  -- Where readers report failures and no branch has a reference, a process matches a query
  -- exactly if it passes each branch, looked at alone.
  pub query_match_iff :
      (reported : FailuresReported h) (query : List (BranchOf h)) (pid : ℕ)
      → RefFree query
      → (query_match h query pid ≡ done 0) ↔ AllPass pid query
  unfolding query_match
  query_match_iff reported query pid free = match_from_iff reported [] query pid free

  AllPass-perm :
      (pid : ℕ) {xs ys : List (BranchOf h)} → Permᴰ xs ys → AllPass pid xs → AllPass pid ys
  AllPass-perm pid Permᴰ.nil a = a
  AllPass-perm pid (Permᴰ.cons e p) a = (subst (Passes pid) e a.0, AllPass-perm pid p a.1)
  AllPass-perm pid (Permᴰ.swap e f) a =
      (subst (Passes pid) f a.1.0, (subst (Passes pid) e a.0, a.1.1))
  AllPass-perm pid (Permᴰ.trans p q) a = AllPass-perm pid q (AllPass-perm pid p a)

  RefFree-perm : {xs ys : List (BranchOf h)} → Permᴰ xs ys → RefFree xs → RefFree ys
  RefFree-perm Permᴰ.nil a = a
  RefFree-perm (Permᴰ.cons e p) a = (subst (λ b. b.op_flags.ref ≡ false) e a.0, RefFree-perm p a.1)
  RefFree-perm (Permᴰ.swap e f) a = (
    subst (λ b. b.op_flags.ref ≡ false) f a.1.0,
    (subst (λ b. b.op_flags.ref ≡ false) e a.0, a.1.1),
  )
  RefFree-perm (Permᴰ.trans p q) a = RefFree-perm q (RefFree-perm p a)

  -- Where readers report failures, the order of the branches of a query without references does
  -- not matter to which processes match.
  pub query_match-perm :
      (reported : FailuresReported h) {xs ys : List (BranchOf h)} (pid : ℕ)
      → Permᴰ xs ys
      → RefFree xs
      → (query_match h xs pid ≡ done 0) ↔ (query_match h ys pid ≡ done 0)
  query_match-perm reported {xs} {ys} pid perm free =
      let first = query_match_iff reported xs pid free in
      let second = query_match_iff reported ys pid (RefFree-perm perm free) in
      (
        (λ m. second.1 (AllPass-perm pid perm (first.0 m))),
        (λ m. first.1 (AllPass-perm pid (Permᴰ.symm perm) (second.0 m))),
      )
