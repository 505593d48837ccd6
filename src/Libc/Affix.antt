-- ===== src/Libc/Affix.antt =====
-- `strncmp` at the ends of a text: prefixes and suffixes.
use re_co_mon_b.Base.{
  ℕ, zero, suc, ◌-◌, ◌≤◌, ◌≡◌, ◌↔◌, refl, sym, ap, ◌∙◌, true, false, [], ◌∷◌, ◌++◌, map, Bytes,
  arith, str_eq_iff, length, take, drop, length-append, if◌then◌else◌, ltb, ltb→lt, Bool-cases, inl,
  inr,
}
use re_co_mon_b.Libc.{Sign, below, same, above, strcmp, strn_eq}

pub take-append : (s v : Bytes) → take (length s) (s ++ v) ≡ s
take-append [] v = refl
take-append (x ∷ s) v = ap (◌∷◌ x) (take-append s v)

pub take-length : (s : Bytes) → take (length s) s ≡ s
take-length [] = refl
take-length (x ∷ s) = ap (◌∷◌ x) (take-length s)

pub take-append-drop : (n : ℕ) (s : Bytes) → take n s ++ drop n s ≡ s
take-append-drop zero s = refl
take-append-drop (suc n) [] = refl
take-append-drop (suc n) (x ∷ s) = ap (◌∷◌ x) (take-append-drop n s)

pub drop-append : (v s : Bytes) → drop (length v) (v ++ s) ≡ s
drop-append [] s = refl
drop-append (x ∷ v) s = drop-append v s

pub length-drop : (n : ℕ) (s : Bytes) → length (drop n s) ≡ length s - n
length-drop zero s = omega arith
length-drop (suc n) [] = omega arith
length-drop (suc n) (x ∷ s) = omega (arith, length-drop n s)

pub map-drop : (f : ℕ → ℕ) (n : ℕ) (s : Bytes) → map f (drop n s) ≡ drop n (map f s)
map-drop f zero s = refl
map-drop f (suc n) [] = refl
map-drop f (suc n) (x ∷ s) = map-drop f n s

pub length-map : (f : ℕ → ℕ) (s : Bytes) → length (map f s) ≡ length s
length-map f [] = refl
length-map f (x ∷ s) = ap suc (length-map f s)

-- `strncmp(s, t, strlen(t)) == 0` exactly if `t` is a prefix of `s`.
pub strn_eq-prefix_iff :
    (s t : Bytes) → (strn_eq s t (length t) ≡ true) ↔ ((v : Bytes) × (s ≡ t ++ v))
unfolding strn_eq
strn_eq-prefix_iff s t = (
  λ h.
      let e : take (length t) s ≡ t = (str_eq_iff _ _).0 h ∙ take-length t in
      (drop (length t) s, sym (take-append-drop (length t) s) ∙ ap (λ u. u ++ drop (length t) s) e),
  λ (v, e).
      (str_eq_iff (take (length t) s) (take (length t) t)).1
        (rw e (take-append t v ∙ sym (take-length t))),
)

take_all : (s : Bytes) (n : ℕ) → length s ≡ n → take n s ≡ s
take_all s n e = rw (← e) (take-length s)

-- The last `strlen(t)` bytes of `s` equal `t` exactly if `t` is a suffix of `s`.
pub strn_eq-suffix_iff :
    (s t : Bytes)
    → length t ≤ length s
    → (strn_eq (drop (length s - length t) s) t (length t) ≡ true) ↔ ((v : Bytes) × (s ≡ v ++ t))
unfolding strn_eq
strn_eq-suffix_iff s t h = (
  λ p.
      let d = length s - length t in
      let full = take_all (drop d s) (length t) (omega (arith, length-drop d s)) in
      let e : drop d s ≡ t = sym full ∙ (str_eq_iff _ _).0 p ∙ take-length t in
      (take d s, sym (take-append-drop d s) ∙ ap (λ u. take d s ++ u) e),
  λ (v, e).
      let d : length s - length t ≡ length v = omega (arith, ap length e, length-append v t) in
      (str_eq_iff _ _).1 (ap (take (length t)) (rw d (rw e (drop-append v t)))),
)

-- The same with the test that `s` is long enough.
pub ends_with_iff :
    (s t : Bytes)
    → ((if ltb (length s) (length t)
          then false
          else strn_eq (drop (length s - length t) s) t (length t))
        ≡ true)
      ↔ ((v : Bytes) × (s ≡ v ++ t))
ends_with_iff s t = elim (Bool-cases (ltb (length s) (length t))) [
  | inl short ↦ rw short (
    λ p. absurd (cc p),
    λ (v, e). absurd (omega (arith, ap length e, length-append v t, ltb→lt _ _ short)),
  )
  | inr enough ↦ rw enough (strn_eq-suffix_iff s t (ground arith))
]

abbrev pub flip : Sign → Sign
flip below = above
flip same = same
flip above = below

-- `strcmp` the other way round.
pub strcmp-flip : (s t : Bytes) → strcmp t s ≡ flip (strcmp s t)
unfolding strcmp
strcmp-flip [] [] = refl
strcmp-flip [] (y ∷ t) = refl
strcmp-flip (x ∷ s) [] = refl
strcmp-flip (x ∷ s) (y ∷ t) = ground (arith, strcmp-flip s t)
