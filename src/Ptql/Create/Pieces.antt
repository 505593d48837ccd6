-- ===== src/Ptql/Create/Pieces.antt =====
-- The loop of `sigar_ptql_query_create` in sigar_ptql.c ends, and goes through the texts between
-- the commas in order.
use re_co_mon_b.Base.{
  ℕ, zero, suc, ◌<◌, ◌≡◌, refl, sym, ap, false, List, [], ◌∷◌, Option, none, some, Bytes, arith,
  ◌==◌, if◌then◌else◌, inl, inr, Bool-cases, length, length-append,
}
use re_co_mon_b.Libc.{split_at, prepend}
use re_co_mon_b.Libc.Split.{split_at-eq-some}
use re_co_mon_b.Ptql.Create.{add_text, loop, on_added, empty_list, sort_branches, query_create}
use re_co_mon_b.Ptql.Host.{Host}
use re_co_mon_b.Ptql.Init.{BranchOf}
use re_co_mon_b.Ptql.Types.{BranchList, Result, ok, err, ◌>>=◌}

-- `c` in front of the first text.
abbrev pub onto_first : ℕ → List Bytes → List Bytes
onto_first c [] = (c ∷ []) ∷ []
onto_first c (p ∷ ps) = (c ∷ p) ∷ ps

-- The texts between the commas; an empty text at the end is left out, unless it is the only one.
abbrev pub pieces : Bytes → List Bytes
pieces [] = [] ∷ []
pieces (c ∷ []) = (if c == b',' then [] else c ∷ []) ∷ []
pieces (c ∷ d ∷ s) = if c == b',' then [] ∷ pieces (d ∷ s) else onto_first c (pieces (d ∷ s))

-- What the pieces are after a split at the first comma.
abbrev Parts : Bytes → Option (Bytes × Bytes) → Type 0
Parts s none = pieces s ≡ s ∷ []
Parts s (some (p, [])) = pieces s ≡ p ∷ []
Parts s (some (p, c ∷ rest)) = pieces s ≡ p ∷ pieces (c ∷ rest)

Parts-cons :
    (c d : ℕ) (s : Bytes) (r : Option (Bytes × Bytes))
    → (c == b',' ≡ false)
    → Parts (d ∷ s) r
    → Parts (c ∷ d ∷ s) (prepend c r)
Parts-cons c d s none n h = rw (n, h)
Parts-cons c d s (some (p, [])) n h = rw (n, h)
Parts-cons c d s (some (p, x ∷ rest)) n h = rw (n, h)

split_at-Parts : (s : Bytes) → Parts s (split_at b',' s)
unfolding split_at
split_at-Parts [] = refl
split_at-Parts (c ∷ []) = elim (Bool-cases (c == b',')) [ inl e ↦ rw (e, e) | inr n ↦ rw (n, n) ]
split_at-Parts (c ∷ d ∷ s) = elim (Bool-cases (c == b',')) [
  | inl e ↦ rw (e, e)
  | inr n ↦ rw n (Parts-cons c d s (split_at b',' (d ∷ s)) n (split_at-Parts (d ∷ s)))
]

-- What is left of a text behind a comma is shorter.
shorter-split_at : (s p rest : Bytes) → split_at b',' s ≡ some (p, rest) → length rest < length s
shorter-split_at s p rest e =
    omega (arith, ap length ((split_at-eq-some b',' s p rest e).0), length-append p (b',' ∷ rest))

module _ (h : Host) where
  -- The texts parsed and added in order, up to the first error.
  abbrev pub add_all : List Bytes → BranchList h.Double → Result (BranchList h.Double)
  add_all [] list = ok list
  add_all (p ∷ ps) list = add_text h p list >>= add_all ps

  bind-ok : {A : Type 0} (m : Result A) → (m >>= ok) ≡ m
  bind-ok (ok a) = refl
  bind-ok (err e) = refl

  on_added-bind :
      (next : BranchList h.Double → Option (Result (BranchList h.Double)))
      (f : BranchList h.Double → Result (BranchList h.Double)) (r : Result (BranchList h.Double))
      → ((l : BranchList h.Double) → next l ≡ some (f l))
      → on_added h next r ≡ some (r >>= f)
  on_added-bind next f (ok l) e = e l
  on_added-bind next f (err x) e = refl

  -- One round, by what the search for a comma finds.
  round :
      (fuel : ℕ) (s : Bytes) (list : BranchList h.Double) (r : Option (Bytes × Bytes))
      → split_at b',' s ≡ r
      → Parts s r
      → ((c : ℕ) (rest : Bytes) (more : BranchList h.Double)
          → length (c ∷ rest) < length s
          → loop h fuel (c ∷ rest) more ≡ some (add_all (pieces (c ∷ rest)) more))
      → loop h (suc fuel) s list ≡ some (add_all (pieces s) list)
  unfolding loop
  round fuel s list none e parts ih =
      rw (e, loop, parts) (ap some (sym (bind-ok (add_text h s list))))
  round fuel s list (some (p, [])) e parts ih =
      rw (e, loop, parts) (on_added-bind _ ok (add_text h p list) (λ l. refl))
  round fuel s list (some (p, c ∷ rest)) e parts ih =
      rw (e, loop, parts)
        (on_added-bind _ (add_all (pieces (c ∷ rest))) (add_text h p list)
          (λ l. ih c rest l (shorter-split_at s p (c ∷ rest) e)))

  loop-add_all :
      (fuel : ℕ) (s : Bytes) (list : BranchList h.Double)
      → length s < fuel
      → loop h fuel s list ≡ some (add_all (pieces s) list)
  loop-add_all zero s list lt = absurd (omega arith)
  loop-add_all (suc fuel) s list lt =
      round fuel s list (split_at b',' s) refl (split_at-Parts s)
        (λ c rest more shorter. loop-add_all fuel (c ∷ rest) more (omega arith))

  -- Query creation always returns: the fuel is enough. It parses and adds the texts between the
  -- commas in order, up to the first error, and sorts what it has if no branch has a reference.
  pub query_create-eq :
      (qsort : List (BranchOf h) → List (BranchOf h)) (ptql : Bytes)
      → query_create h qsort ptql
        ≡ some (add_all (pieces ptql) (empty_list h) >>= λ list. ok (sort_branches h qsort list))
  unfolding query_create
  query_create-eq qsort ptql =
      rw (loop-add_all (suc (length ptql)) ptql (empty_list h) (omega arith), query_create)
