-- ===== src/Util/Casestr.antt =====
-- `sigar_strcasestr` of sigar_util.c finds the first match, and misses none.
use re_co_mon_b.Base.{
  ℕ, ◌≡◌, refl, Bool, true, false, [], ◌∷◌, ◌++◌, map, Option, none, some, Bytes, arith, ◌==◌,
  ==_iff, inl, inr, Bool-cases,
}
use re_co_mon_b.Libc.{to_lower}
use re_co_mon_b.Util.{rest_matches, seek, strcasestr}

abbrev pub lower : Bytes → Bytes
lower = map to_lower

-- `u` begins with `t` but for case.
abbrev pub StartsWith : Bytes → Bytes → Type 0
StartsWith t u = (v : Bytes) × (lower u ≡ lower t ++ v)

clash : {b : Bool} → b ≡ true → b ≡ false → ⊥
clash p q = cc

rest_matches-StartsWith : (s t : Bytes) → rest_matches s t ≡ true → StartsWith t s
unfolding rest_matches
rest_matches-StartsWith [] [] h = ([], refl)
rest_matches-StartsWith [] (y ∷ t) h = cc
rest_matches-StartsWith (x ∷ s) [] h = (lower (x ∷ s), refl)
rest_matches-StartsWith (x ∷ s) (y ∷ t) h = elim (Bool-cases (to_lower x == to_lower y)) [
  | inl e ↦ let (v, p) = rest_matches-StartsWith s t (rw e at h) in (v, cc ((==_iff _ _).0 e, p))
  | inr n ↦ cc (rw (n, rest_matches) at h)
]

StartsWith-rest_matches : (s t v : Bytes) → lower s ≡ lower t ++ v → rest_matches s t ≡ true
unfolding rest_matches
StartsWith-rest_matches [] [] v h = refl
StartsWith-rest_matches [] (y ∷ t) v h = cc
StartsWith-rest_matches (x ∷ s) [] v h = refl
StartsWith-rest_matches (x ∷ s) (y ∷ t) v h = ground (arith, StartsWith-rest_matches s t v)

starts-cons :
    (x y : ℕ) (s t : Bytes)
    → StartsWith (y ∷ t) (x ∷ s)
    → (to_lower x == to_lower y ≡ true) × (rest_matches s t ≡ true)
starts-cons x y s t (v, h) =
    ((==_iff (to_lower x) (to_lower y)).1 cc, StartsWith-rest_matches s t v cc)

-- `u` is the first suffix of `s` that begins with `t` but for case.
pub data IsFirst (t : Bytes) : Bytes → Bytes → Type 0 where
  here : {s : Bytes} → StartsWith t s → IsFirst t s s
  later : {x : ℕ} {s u : Bytes} → ¬ (StartsWith t (x ∷ s)) → IsFirst t s u → IsFirst t (x ∷ s) u

-- No suffix of `s` begins with `t` but for case.
pub data NoMatch (t : Bytes) : Bytes → Type 0 where
  end : ¬ (StartsWith t []) → NoMatch t []
  skip : {x : ℕ} {s : Bytes} → ¬ (StartsWith t (x ∷ s)) → NoMatch t s → NoMatch t (x ∷ s)

abbrev pub Finds : Bytes → Bytes → Option Bytes → Type 0
Finds t s none = NoMatch t s
Finds t s (some u) = IsFirst t s u

pass :
    (t : Bytes) (x : ℕ) (s : Bytes) (r : Option Bytes)
    → ¬ (StartsWith t (x ∷ s))
    → Finds t s r
    → Finds t (x ∷ s) r
pass t x s none h f = skip h f
pass t x s (some u) h f = later h f

seek-Finds : (y : ℕ) (t s : Bytes) → Finds (y ∷ t) s (seek y t s)
unfolding seek
seek-Finds y t [] = end (λ m. cc m.1)
seek-Finds y t (x ∷ s) = elim (Bool-cases (to_lower x == to_lower y)) [
  | inl e ↦ elim (Bool-cases (rest_matches s t)) [
    | inl m ↦
        let (v, p) = rest_matches-StartsWith s t m in
        rw (e, m) (here (v, cc ((==_iff (to_lower x) (to_lower y)).0 e, p)))
    | inr n ↦
        rw (e, n)
          (pass (y ∷ t) x s (seek y t s) (λ m. clash (starts-cons x y s t m).1 n)
            (seek-Finds y t s))
  ]
  | inr n ↦
      rw n
        (pass (y ∷ t) x s (seek y t s) (λ m. clash (starts-cons x y s t m).0 n) (seek-Finds y t s))
]

-- `sigar_strcasestr` returns the text from the first place where the second string stands in the
-- first but for case, and NULL exactly if there is no such place.
strcasestr-Finds : (s t : Bytes) → Finds t s (strcasestr s t)
unfolding strcasestr
strcasestr-Finds s [] = here (lower s, refl)
strcasestr-Finds s (y ∷ t) = seek-Finds y t s
