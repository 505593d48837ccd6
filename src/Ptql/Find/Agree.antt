-- ===== src/Ptql/Find/Agree.antt =====
-- The two searches of sigar_ptql.c, against the processes that match one by one.
use re_co_mon_b.Base.{
  ℕ, suc, ◌+◌, ◌≡◌, refl, sym, ap, false, not, ◌&&◌, List, [], ◌∷◌, ◌++◌, Bool-cases, inl, inr,
  if◌then◌else◌, length, length-append, arith, ◌==◌,
}
use re_co_mon_b.Ptql.Host.{Host, Reply, got, failed}
use re_co_mon_b.Ptql.Init.{BranchOf}
use re_co_mon_b.Ptql.Match.{query_match}
use re_co_mon_b.Ptql.Find.{
  find_loop, query_find, halted_or, count_loop, query_find_process, found_of, search_pids,
  count_pids, proc_list_get, Found, process, no_match, multiple, error,
}
use re_co_mon_b.Ptql.Run.{Run, done, fault, ◌>>=◌}

-- The last of a list, or a default.
abbrev pub last_or : ℕ → List ℕ → ℕ
last_or d [] = d
last_or d (x ∷ xs) = last_or x xs

-- What the search for one process makes of the list of all.
abbrev pub summary : Reply (List ℕ) → Found
summary (failed status) = error status
summary (got []) = no_match
summary (got (pid ∷ [])) = process pid
summary (got (pid ∷ next ∷ rest)) = multiple (length (pid ∷ next ∷ rest))

last_or-append : (d x : ℕ) (xs : List ℕ) → last_or d (xs ++ x ∷ []) ≡ x
last_or-append d x [] = refl
last_or-append d x (y ∷ ys) = last_or-append y x ys

not_one : (n : ℕ) → (suc (suc n) == 1) ≡ false
not_one n = ground arith

not_zero : (n : ℕ) → (suc (suc n) == 0) ≡ false
not_zero n = ground arith

module _ (h : Host) (query : List (BranchOf h)) where
  -- The pair that the counting search keeps, for the list that the other search keeps.
  abbrev pair_of : Reply (List ℕ) → Reply (ℕ × ℕ)
  pair_of (failed status) = failed status
  pair_of (got out) = got (last_or 0 out, length out)

  abbrev next_out : List ℕ → ℕ → ℕ → List ℕ
  next_out out pid status = if status == 0 then out ++ pid ∷ [] else out

  last-next :
      (out : List ℕ) (pid status : ℕ)
      → (if status == 0 then pid else last_or 0 out) ≡ last_or 0 (next_out out pid status)
  last-next out pid status = elim (Bool-cases (status == 0)) [
    | inl e ↦ rw e (sym (last_or-append 0 pid out))
    | inr n ↦ rw n refl
  ]

  length-next :
      (out : List ℕ) (pid status : ℕ)
      → (if status == 0 then length out + 1 else length out) ≡ length (next_out out pid status)
  length-next out pid status = elim (Bool-cases (status == 0)) [
    | inl e ↦ rw e (omega (arith, length-append out (pid ∷ [])))
    | inr n ↦ rw n refl
  ]

  halted_or-bind :
      (status : ℕ) (x : Run (Reply (ℕ × ℕ))) (y : Run (Reply (List ℕ)))
      → x ≡ (y >>= λ r. done (pair_of r))
      → halted_or h status x ≡ (halted_or h status y >>= λ r. done (pair_of r))
  halted_or-bind status x y e = elim (Bool-cases (status == h.enotimpl && not (status == 0))) [
    | inl y ↦ rw y refl
    | inr n ↦ rw n e
  ]

  -- One round, by the status of the process.
  round :
      (pid : ℕ) (pids out : List ℕ) (r : Run ℕ)
      → query_match h query pid ≡ r
      → ((more : List ℕ)
          → count_loop h query pids (last_or 0 more) (length more)
            ≡ (find_loop h query pids more >>= λ r. done (pair_of r)))
      → count_loop h query (pid ∷ pids) (last_or 0 out) (length out)
        ≡ (find_loop h query (pid ∷ pids) out >>= λ r. done (pair_of r))
  unfolding count_loop find_loop
  round pid pids out fault e ih = rw e refl
  round pid pids out (done status) e ih = rw e (
      halted_or-bind status _ (find_loop h query pids (next_out out pid status))
        (rw (last-next out pid status, length-next out pid status) (ih (next_out out pid status))))

  -- Both loops see the same matches.
  count_loop-find_loop :
      (pids out : List ℕ)
      → count_loop h query pids (last_or 0 out) (length out)
        ≡ (find_loop h query pids out >>= λ r. done (pair_of r))
  unfolding count_loop find_loop
  count_loop-find_loop [] out = refl
  count_loop-find_loop (pid ∷ pids) out =
      round pid pids out (query_match h query pid) refl (count_loop-find_loop pids)

  found_of-pair_of : (r : Reply (List ℕ)) → found_of h (pair_of r) ≡ summary r
  found_of-pair_of (failed status) = refl
  found_of-pair_of (got []) = refl
  found_of-pair_of (got (pid ∷ [])) = refl
  found_of-pair_of (got (pid ∷ next ∷ rest)) =
      rw (not_one (length rest), not_zero (length rest)) refl

  summary-bind :
      (m : Run (Reply (List ℕ)))
      → ((m >>= λ r. done (pair_of r)) >>= λ r. done (found_of h r))
        ≡ (m >>= λ found. done (summary found))
  summary-bind fault = refl
  summary-bind (done r) = ap done (found_of-pair_of r)

  count_pids-search_pids :
      (r : Reply (List ℕ))
      → count_pids h query r ≡ (search_pids h query r >>= λ found. done (summary found))
  count_pids-search_pids (failed status) = refl
  count_pids-search_pids (got pids) =
      rw (count_loop-find_loop pids []) (summary-bind (find_loop h query pids []))

  process-bind :
      (m : Run (Reply (List ℕ)))
      → (m >>= count_pids h query) ≡ ((m >>= search_pids h query) >>= λ found. done (summary found))
  process-bind fault = refl
  process-bind (done r) = count_pids-search_pids r

  -- The search for one process gives what the search for all of them gives, summed up: the
  -- process if it is the only one, and otherwise that there is none, or how many there are.
  pub query_find_process-eq :
      query_find_process h query ≡ (query_find h query >>= λ found. done (summary found))
  unfolding query_find_process query_find
  query_find_process-eq = process-bind (proc_list_get h query)
