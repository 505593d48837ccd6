-- ===== src/Ptql/Find/Exact.antt =====
-- What `sigar_ptql_query_find` of sigar_ptql.c returns: the processes that match, in order.
use re_co_mon_b.Base.{
  ℕ, ◌≡◌, refl, sym, ap, ◌∙◌, Bool, true, false, ◌≢◌, ◌↔◌, List, [], ◌∷◌, ◌++◌, Bool-cases, inl,
  inr, if◌then◌else◌, arith, ◌==◌, ==_iff,
}
use mathlib.Core.Path.{subst}
use mathlib.Core.List.{append-nil, append_assoc}
use re_co_mon_b.Ptql.Host.{Host, Reply, got, failed}
use re_co_mon_b.Ptql.Init.{BranchOf}
use re_co_mon_b.Ptql.Match.{query_match}
use re_co_mon_b.Ptql.Find.{find_loop, query_find, halted_or, search_pids, proc_list_get}
use re_co_mon_b.Ptql.Run.{Run, done, fault, ◌>>=◌}

module _ (h : Host) (query : List (BranchOf h)) where
  -- `Selected pids out`: `out` is what is left of `pids` without the processes that do not match,
  -- and no status ends the search.
  pub data Selected : List ℕ → List ℕ → Type 0 where
    nil : Selected [] []
    hit :
        {pid : ℕ} {pids out : List ℕ}
        → query_match h query pid ≡ done 0
        → Selected pids out
        → Selected (pid ∷ pids) (pid ∷ out)
    miss :
        {pid status : ℕ} {pids out : List ℕ}
        → query_match h query pid ≡ done status
        → status ≢ 0
        → status ≢ h.enotimpl
        → Selected pids out
        → Selected (pid ∷ pids) out

  hit-halted : (x : Run (Reply (List ℕ))) → halted_or h 0 x ≡ x
  hit-halted x = elim (Bool-cases (0 == h.enotimpl)) [ inl e ↦ rw e refl | inr n ↦ rw n refl ]

  zero-eq : (status : ℕ) → status ≢ 0 → (status == 0) ≡ false
  zero-eq status n = ground arith

  halts-ne : (status : ℕ) → status ≢ h.enotimpl → (status == h.enotimpl) ≡ false
  halts-ne status n = ground arith

  -- Every selection is found, behind what was found before.
  find_loop-Selected :
      (out : List ℕ) {pids found : List ℕ}
      → Selected pids found
      → find_loop h query pids out ≡ done (got (out ++ found))
  unfolding find_loop
  find_loop-Selected out nil = ap (λ xs. done (got xs)) (sym (append-nil out))
  find_loop-Selected out (hit {pid} m s) =
      rw (m, hit-halted)
        (find_loop-Selected (out ++ pid ∷ []) s
          ∙ ap (λ xs. done (got xs)) (append_assoc out (pid ∷ []) _))
  find_loop-Selected out (miss {status = status} m nz ne s) =
      rw m (rw (halts-ne status ne, zero-eq status nz) (find_loop-Selected out s))

  -- A selection, and what the list found is made of.
  abbrev Sound : List ℕ → List ℕ → List ℕ → Type 0
  Sound out pids result = (found : List ℕ) × (result ≡ out ++ found) × Selected pids found

  eq-false : (a b : ℕ) → (a == b) ≡ false → a ≢ b
  eq-false a b e = ground arith

  failed-ne-got :
      {status : ℕ} {out : List ℕ}
      → ◌≢◌ {A = Run (Reply (List ℕ))} (done (failed status)) (done (got out))
  failed-ne-got e = cc

  failed-ne-got_pids :
      {status : ℕ} {out : List ℕ} → ◌≢◌ {A = Reply (List ℕ)} (failed status) (got out)
  failed-ne-got_pids e = cc

  fault-ne-done : {r : Reply (List ℕ)} → ◌≢◌ {A = Run (Reply (List ℕ))} fault (done r)
  fault-ne-done e = cc

  done-injective : {r q : Reply (List ℕ)} → done r ≡ done q → r ≡ q
  done-injective e = cc

  got-inj : {xs ys : List ℕ} → ◌≡◌ {A = Reply (List ℕ)} (got xs) (got ys) → xs ≡ ys
  got-inj e = cc

  got-injective :
      {xs ys : List ℕ} → ◌≡◌ {A = Run (Reply (List ℕ))} (done (got xs)) (done (got ys)) → xs ≡ ys
  got-injective e = cc

  hit-Sound :
      (out result pids : List ℕ) (pid status : ℕ)
      → query_match h query pid ≡ done status
      → (status == 0) ≡ true
      → Sound (out ++ pid ∷ []) pids result
      → Sound out (pid ∷ pids) result
  hit-Sound out result pids pid status m z (found, r, s) = (
    pid ∷ found,
    r ∙ append_assoc out (pid ∷ []) found,
    hit (m ∙ ap done ((==_iff status 0).0 z)) s,
  )

  -- One round of the converse, by the status and the two tests on it.
  round-Sound :
      (out result pids : List ℕ) (pid status : ℕ) (zero_status halt_status : Bool)
      → query_match h query pid ≡ done status
      → (status == 0) ≡ zero_status
      → (status == h.enotimpl) ≡ halt_status
      → halted_or h status (find_loop h query pids (if status == 0 then out ++ pid ∷ [] else out))
        ≡ done (got result)
      → ((more : List ℕ) → find_loop h query pids more ≡ done (got result) → Sound more pids result)
      → Sound out (pid ∷ pids) result
  round-Sound out result pids pid status true true m z e f ih =
      hit-Sound out result pids pid status m z (ih (out ++ pid ∷ []) (rw (e, z) at f))
  round-Sound out result pids pid status true false m z e f ih =
      hit-Sound out result pids pid status m z (ih (out ++ pid ∷ []) (rw (e, z) at f))
  round-Sound out result pids pid status false false m z e f ih =
      let (found, r, s) = ih out (rw (e, z) at f) in
      (found, r, miss m (eq-false status 0 z) (eq-false status h.enotimpl e) s)
  round-Sound out result pids pid status false true m z e f ih =
      absurd (failed-ne-got (rw (e, z) at f))

  on_status :
      (out result pids : List ℕ) (pid : ℕ) (r : Run ℕ)
      → query_match h query pid ≡ r
      → (r >>= λ status.
          halted_or h status
            (find_loop h query pids (if status == 0 then out ++ pid ∷ [] else out)))
        ≡ done (got result)
      → ((more : List ℕ) → find_loop h query pids more ≡ done (got result) → Sound more pids result)
      → Sound out (pid ∷ pids) result
  on_status out result pids pid fault m f ih = absurd cc
  on_status out result pids pid (done status) m f ih =
      round-Sound out result pids pid status _ _ m refl refl f ih

  find_loop-Sound :
      (pids out result : List ℕ)
      → find_loop h query pids out ≡ done (got result)
      → Sound out pids result
  unfolding find_loop
  find_loop-Sound [] out result f = ([], sym (got-injective f) ∙ sym (append-nil out), nil)
  find_loop-Sound (pid ∷ pids) out result f =
      on_status out result pids pid (query_match h query pid) refl f
        (λ more. find_loop-Sound pids more result)

  search_pids_iff :
      (r : Reply (List ℕ)) (out : List ℕ)
      → (search_pids h query r ≡ done (got out))
        ↔ ((pids : List ℕ) × (r ≡ got pids) × Selected pids out)
  search_pids_iff (failed status) out = ((λ e. absurd cc), λ p. absurd (failed-ne-got_pids p.1))
  search_pids_iff (got pids) out = (
    (λ e.
        let (found, r, s) = find_loop-Sound pids [] out e in
        (pids, refl, subst (Selected pids) (sym r) s)),
    λ p. find_loop-Selected [] (subst (λ ps. Selected ps out) (sym (got-inj p.1)) p.2),
  )

  candidates_iff :
      (m : Run (Reply (List ℕ))) (out : List ℕ)
      → ((m >>= search_pids h query) ≡ done (got out))
        ↔ ((pids : List ℕ) × (m ≡ done (got pids)) × Selected pids out)
  candidates_iff fault out = ((λ e. absurd cc), λ p. absurd (fault-ne-done p.1))
  candidates_iff (done r) out =
      let both = search_pids_iff r out in
      (
        (λ e. let (pids, q, s) = both.0 e in (pids, ap done q, s)),
        λ p. both.1 (p.0, done-injective p.1, p.2),
      )

  -- The search gives a list of processes exactly if the candidates could be listed, and the list
  -- holds those of them that match, in their order, where no candidate's status is
  -- SIGAR_ENOTIMPL or a fault.
  pub query_find_iff :
      (out : List ℕ)
      → (query_find h query ≡ done (got out))
        ↔ ((pids : List ℕ) × (proc_list_get h query ≡ done (got pids)) × Selected pids out)
  unfolding query_find
  query_find_iff out = candidates_iff (proc_list_get h query) out
