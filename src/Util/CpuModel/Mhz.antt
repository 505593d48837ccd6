-- ===== src/Util/CpuModel/Mhz.antt =====
-- sigar_util.c: the clock rates that `sigar_cpu_mhz_from_model` reads.
use re_co_mon_b.Base.{
  ℕ, suc, ◌+◌, ◌-◌, ◌*◌, ◌%◌, ◌^◌, ◌<◌, ◌≡◌, refl, ap, ◌∙◌, Bool, true, false, not, [], ◌∷◌, ◌++◌,
  some, Bytes, codes, arith, ◌==◌, ltb, if◌then◌else◌, length, all_of,
}
use re_co_mon_b.Libc.Number.{scan_digits, scan_sign, scan_number}
use re_co_mon_b.Libc.{is_digit, is_space, strn_eq}
use re_co_mon_b.Util.CpuModel.{
  Read, u32, notimpl, read_number, find_blank, skip_other, add_fraction, on_dot, or_unit, or_again,
  after_number, mhz_round, mhz_loop, cpu_mhz_from_model,
}

abbrev pub are_digits : Bytes → Bool
are_digits ds = all_of is_digit ds

-- The number that digits spell, behind `n`.
abbrev pub value_from : ℕ → Bytes → ℕ
value_from n [] = n
value_from n (c ∷ ds) = value_from (n * 10 + (c - b'0')) ds

-- A text that does not go on with a digit.
abbrev pub stops : Bytes → Bool
stops [] = true
stops (c ∷ s) = not (is_digit c)

abbrev found_after : Bool → Bytes → Bool
found_after found [] = found
found_after found (c ∷ ds) = true

pub scan_digits-digits :
    (found : Bool) (n : ℕ) (ds rest : Bytes)
    → are_digits ds ≡ true
    → stops rest ≡ true
    → scan_digits false found n (ds ++ rest) ≡ record {
      magnitude = value_from n ds;
      negative = false;
      found = found_after found ds;
      rest = rest;
    }
unfolding scan_digits
scan_digits-digits found n [] [] d s = refl
scan_digits-digits found n [] (c ∷ rest) d s =
    let e : is_digit c ≡ false = ground (arith, s) in rw e
scan_digits-digits found n (c ∷ []) rest d s =
    let e : is_digit c ≡ true = ground (arith, d) in
    rw e (scan_digits-digits true (n * 10 + (c - b'0')) [] rest refl s)
scan_digits-digits found n (c ∷ c' ∷ ds) rest d s =
    let e : is_digit c ≡ true = ground (arith, d) in
    rw e (scan_digits-digits true (n * 10 + (c - b'0')) (c' ∷ ds) rest (ground (arith, d)) s)

-- A digit is neither a space nor a sign.
pub digit-plain :
    (c : ℕ)
    → is_digit c ≡ true
    → (is_space c ≡ false) × ((c == b'-') ≡ false) × ((c == b'+') ≡ false)
unfolding is_digit is_space
digit-plain c h = (ground (arith, h), ground (arith, h), ground (arith, h))

read_number-digits :
    (c : ℕ) (ds rest : Bytes)
    → are_digits (c ∷ ds) ≡ true
    → stops rest ≡ true
    → value_from 0 (c ∷ ds) < u32
    → read_number (c ∷ ds ++ rest) ≡ record { mhz = value_from 0 (c ∷ ds); ptr = rest }
unfolding read_number scan_number scan_sign
read_number-digits c ds rest d s small =
    let p = digit-plain c (ground (arith, d)) in
    let e = scan_digits-digits false 0 (c ∷ ds) rest d s in
    let fits : ltb (2 ^ 64 - 1) (value_from 0 (c ∷ ds)) ≡ false = ground (arith, small) in
    let whole : value_from 0 (c ∷ ds) % 2 ^ 64 % u32 ≡ value_from 0 (c ∷ ds) =
      omega (arith, small) in
    rw (p.0, p.1, p.2, e, fits, whole)

find_blank-first :
    (pre s : Bytes)
    → all_of (λ c. not (c == b' ')) pre ≡ true
    → find_blank (pre ++ b' ' ∷ s) ≡ some (b' ' ∷ s)
unfolding find_blank
find_blank-first [] s h = refl
find_blank-first (c ∷ pre) s h =
    let e : (c == b' ') ≡ false = ground (arith, h) in
    rw e (find_blank-first pre s (ground (arith, h)))

skip_other-digit : (c : ℕ) (s : Bytes) → is_digit c ≡ true → skip_other (b' ' ∷ c ∷ s) ≡ c ∷ s
unfolding skip_other
skip_other-digit c s h = rw h (unfold is_digit in refl)

-- The first round of the loop, at a word that begins with digits.
mhz_loop-round :
    (fuel : ℕ) (pre : Bytes) (c : ℕ) (ds rest : Bytes)
    → all_of (λ c. not (c == b' ')) pre ≡ true
    → are_digits (c ∷ ds) ≡ true
    → stops rest ≡ true
    → value_from 0 (c ∷ ds) < u32
    → let r : Read = record { mhz = value_from 0 (c ∷ ds); ptr = rest } in
      mhz_loop (suc fuel) (pre ++ b' ' ∷ (c ∷ ds ++ rest))
      ≡ or_again (or_unit r (on_dot r rest)) (mhz_loop fuel rest)
unfolding mhz_loop
mhz_loop-round fuel pre c ds rest blank d s small =
    ap (mhz_round (mhz_loop fuel)) (find_blank-first pre (c ∷ ds ++ rest) blank)
    ∙ ap (after_number (mhz_loop fuel)) (
        ap read_number (skip_other-digit c (ds ++ rest) (ground (arith, d)))
        ∙ read_number-digits c ds rest d s small)

abbrev mhz_of : Read → ℕ
mhz_of r =
    if r.mhz == notimpl
    then r.mhz
    else if strn_eq r.ptr (codes "GHz") 3
    then r.mhz * 10 % u32
    else r.mhz

cpu_mhz_from_model-round :
    (pre : Bytes) (c : ℕ) (ds rest : Bytes)
    → all_of (λ c. not (c == b' ')) pre ≡ true
    → are_digits (c ∷ ds) ≡ true
    → stops rest ≡ true
    → value_from 0 (c ∷ ds) < u32
    → let r : Read = record { mhz = value_from 0 (c ∷ ds); ptr = rest } in
      (end : Read)
      → or_unit r (on_dot r rest) ≡ some end
      → cpu_mhz_from_model (pre ++ b' ' ∷ (c ∷ ds ++ rest)) ≡ mhz_of end
unfolding cpu_mhz_from_model
cpu_mhz_from_model-round pre c ds rest blank d s small end e = ap mhz_of (
    mhz_loop-round (length (pre ++ b' ' ∷ (c ∷ ds ++ rest))) pre c ds rest blank d s small
    ∙ ap (λ o. or_again o (mhz_loop (length (pre ++ b' ' ∷ (c ∷ ds ++ rest))) rest)) e)

mhz_of-mega :
    (m : ℕ) (more : Bytes)
    → m < 100000000
    → mhz_of (record { mhz = m; ptr = codes "MHz" ++ more }) ≡ m
mhz_of-mega m more small =
    let known : (m == notimpl) ≡ false = ground (arith, small) in rw known (unfold strn_eq in refl)

mhz_of-giga :
    (m : ℕ) (more : Bytes)
    → m < 100000000
    → mhz_of (record { mhz = m; ptr = codes "GHz" ++ more }) ≡ m * 10
mhz_of-giga m more small =
    let known : (m == notimpl) ≡ false = ground (arith, small) in
    rw known (unfold strn_eq in omega (arith, small))

-- A model whose first blank is followed by a number: with "MHz" behind it, the number is the clock
-- rate; with "GHz", ten times the number is; and with a dot, digits and "GHz", ten times the sum
-- of a hundred times the number and what the digits spell. The numbers are below 10000.
pub cpu_mhz_from_model-units :
    (pre : Bytes) (c : ℕ) (ds : Bytes) (e : ℕ) (es more : Bytes)
    → all_of (λ c. not (c == b' ')) pre ≡ true
    → are_digits (c ∷ ds) ≡ true
    → are_digits (e ∷ es) ≡ true
    → (value_from 0 (c ∷ ds) < 10000) × (value_from 0 (e ∷ es) < 10000)
    → let n = value_from 0 (c ∷ ds) in
      let fraction = value_from 0 (e ∷ es) in
      (cpu_mhz_from_model (pre ++ b' ' ∷ (c ∷ ds ++ (codes "MHz" ++ more))) ≡ n)
      × (cpu_mhz_from_model (pre ++ b' ' ∷ (c ∷ ds ++ (codes "GHz" ++ more))) ≡ n * 10)
      × (cpu_mhz_from_model (pre ++ b' ' ∷ (c ∷ ds ++ (b'.' ∷ (e ∷ es ++ (codes "GHz" ++ more)))))
          ≡ (n * 100 + fraction) * 10)
cpu_mhz_from_model-units pre c ds e es more blank d d' (small, small') =
    let n = value_from 0 (c ∷ ds) in
    let f = value_from 0 (e ∷ es) in
    let n = value_from 0 (c ∷ ds) in
    let f = value_from 0 (e ∷ es) in
    let mega = codes "MHz" ++ more in
    let giga = codes "GHz" ++ more in
    let fraction =
      read_number-digits e es giga d' (unfold is_digit in refl) (omega (arith, small')) in
    (
      cpu_mhz_from_model-round pre c ds mega blank d (unfold is_digit in refl)
            (omega (arith, small)) (record { mhz = n; ptr = mega }) (unfold strn_eq in refl)
          ∙ mhz_of-mega n more (omega (arith, small)),
      cpu_mhz_from_model-round pre c ds giga blank d (unfold is_digit in refl)
            (omega (arith, small)) (record { mhz = n; ptr = giga }) (unfold strn_eq in refl)
          ∙ mhz_of-giga n more (omega (arith, small)),
      cpu_mhz_from_model-round pre c ds (b'.' ∷ (e ∷ es ++ giga)) blank d (unfold is_digit in refl)
            (omega (arith, small)) (record { mhz = (n * 100 + f) % u32; ptr = giga })
            (ap (λ r. some (add_fraction n r)) fraction)
          ∙ mhz_of-giga ((n * 100 + f) % u32) more (omega (arith, small, small'))
          ∙ omega (arith, small, small'),
    )
