-- ===== src/Util/Text/Uitoa.antt =====
-- `sigar_uitoa` of sigar_util.c writes decimal numbers.
use re_co_mon_b.Base.{
  ℕ, zero, suc, ◌+◌, ◌-◌, ◌*◌, ◌/◌, ◌%◌, ◌^◌, ◌<◌, ◌≤◌, ◌≡◌, ◌≢◌, refl, sym, ap, ◌∙◌, [], ◌∷◌, ◌++◌,
  Option, some, Bytes, arith, ◌==◌, ==_iff, Bool-cases, false, inl, inr, length, length-append,
}
use mathlib.Core.List.{append_assoc, append-nil}
use re_co_mon_b.Util.Text.{write_digits, uitoa}

-- The number that digits spell, behind those read so far.
abbrev pub value_from : ℕ → Bytes → ℕ
value_from v [] = v
value_from v (c ∷ s) = value_from (v * 10 + (c - b'0')) s

-- Only digits.
abbrev pub AllDigits : Bytes → Type 0
AllDigits [] = Unit
AllDigits (c ∷ s) = ((b'0' ≤ c) × (c ≤ b'9')) × AllDigits s

abbrev power : ℕ → ℕ
power zero = 1
power (suc n) = 10 * power n

value_from-snoc :
    (v : ℕ) (s : Bytes) (c : ℕ) → value_from v (s ++ c ∷ []) ≡ value_from v s * 10 + (c - b'0')
value_from-snoc v [] c = refl
value_from-snoc v (d ∷ s) c = value_from-snoc (v * 10 + (d - b'0')) s c

AllDigits-snoc : (s : Bytes) (c : ℕ) → AllDigits s → b'0' ≤ c → c ≤ b'9' → AllDigits (s ++ c ∷ [])
AllDigits-snoc [] c a l u = ((l, u), tt)
AllDigits-snoc (d ∷ s) c a l u = (a.0, AllDigits-snoc s c a.1 l u)

==_false : (a b : ℕ) → (a == b) ≡ false → a ≢ b
==_false a b e = ground arith

-- What `fuel` rounds write in front of `written`.
abbrev Writes : ℕ → ℕ → Bytes → Option Bytes → Type 0
Writes fuel n written r =
    (s : Bytes) × (r ≡ some (s ++ written)) × (value_from 0 s ≡ n) × (length s ≤ fuel) × AllDigits s

more_fuel : (fuel n : ℕ) → n < power (suc fuel) → (n / 10 == 0) ≡ false → 0 < fuel
more_fuel zero n l e = absurd (==_false (n / 10) 0 e (omega (arith, l)))
more_fuel (suc fuel) n l e = omega arith

write_digits-Writes :
    (fuel n : ℕ) (written : Bytes)
    → n < power fuel
    → 0 < fuel
    → Writes fuel n written (write_digits fuel n written)
unfolding write_digits
write_digits-Writes zero n written l p = absurd (omega (arith, p))
write_digits-Writes (suc fuel) n written l p = elim (Bool-cases (n / 10 == 0)) [
  | inl e ↦
      let small : n / 10 ≡ 0 = (==_iff (n / 10) 0).0 e in
      rw e (
        (b'0' + n % 10) ∷ [],
        refl,
        omega (arith, small),
        omega arith,
        ((omega arith, omega arith), tt),
      )
  | inr e ↦
      let (s, r, v, k, d) =
        write_digits-Writes fuel (n / 10) ((b'0' + n % 10) ∷ written) (omega (arith, l))
          (more_fuel fuel n l e) in
      rw e (
        s ++ (b'0' + n % 10) ∷ [],
        r ∙ ap some (sym (append_assoc s _ written)),
        value_from-snoc 0 s (b'0' + n % 10) ∙ omega (arith, v),
        omega (arith, length-append s ((b'0' + n % 10) ∷ []), k),
        AllDigits-snoc s (b'0' + n % 10) d (omega arith) (omega arith),
      )
]

-- Every unsigned 32-bit number is written, in at most ten bytes, all of them digits, that spell it.
uitoa_lem :
    (n : ℕ)
    → n < 2 ^ 32
    → (s : Bytes) × (uitoa n ≡ some s) × (value_from 0 s ≡ n) × (length s ≤ 10) × AllDigits s
unfolding uitoa
uitoa_lem n l =
    let (s, r, v, k, d) = write_digits-Writes 10 n [] (omega (arith, l)) (omega arith) in
    (s, r ∙ ap some (append-nil s), v, k, d)
