-- ===== src/Format/Size/Width.antt =====
-- The texts of `sigar_format_size` of sigar_format.c: their width and their rounding.
use re_co_mon_b.Base.{
  ℕ, zero, suc, ◌+◌, ◌-◌, ◌*◌, ◌/◌, ◌%◌, ◌<◌, ◌≤◌, ◌^◌, ◌≡◌, ◌≢◌, refl, true, false, ◌&&◌, ◌||◌, [],
  ◌∷◌, ◌++◌, Option, some, Bytes, codes, arith, ltb, leb, ◌==◌, length, length-append,
  length-replicate, replicate, ap, Bool-cases, inl, inr,
}
use re_co_mon_b.Format.Size.{print_digits, print_int, pad3, tenths, scaled, reduce, format_size}

abbrev power : ℕ → ℕ
power zero = 1
power (suc n) = 1024 * power n

print_digits-one : (fuel n : ℕ) → n < 10 → print_digits (suc fuel) n ≡ (b'0' + n) ∷ []
unfolding print_digits
print_digits-one fuel n l = let one : ltb n 10 ≡ true = ground (arith, l) in rw one refl

print_digits-more :
    (fuel n : ℕ)
    → 10 ≤ n
    → length (print_digits (suc fuel) n) ≡ suc (length (print_digits fuel (n / 10)))
unfolding print_digits
print_digits-more fuel n l =
    let more : ltb n 10 ≡ false = ground (arith, l) in
    rw more (omega (arith, length-append (print_digits fuel (n / 10)) ((b'0' + n % 10) ∷ [])))

not-ltb : (a b : ℕ) → ltb a b ≡ false → b ≤ a
not-ltb a b e = ground arith

-- A number below a power of ten has no more digits than that.
length-print_digits : (fuel n : ℕ) → n < 1000 → length (print_digits (suc (suc (suc fuel))) n) ≤ 3
length-print_digits fuel n l = elim (Bool-cases (ltb n 10)) [
  | inl a ↦
      let one = ap length (print_digits-one (suc (suc fuel)) n (ground (arith, a))) in
      omega (arith, one)
  | inr a ↦
      let more = print_digits-more (suc (suc fuel)) n (not-ltb n 10 a) in
      elim (Bool-cases (ltb (n / 10) 10)) [
        | inl b ↦
            let one = ap length (print_digits-one (suc fuel) (n / 10) (ground (arith, b))) in
            omega (arith, more, one)
        | inr b ↦
            let next = print_digits-more (suc fuel) (n / 10) (not-ltb (n / 10) 10 b) in
            let last = ap length (print_digits-one fuel (n / 10 / 10) (omega (arith, l))) in
            omega (arith, more, next, last)
      ]
]

length-pad3 : (n : ℕ) → n < 1000 → length (pad3 n) ≡ 3
unfolding pad3 print_int
length-pad3 n l =
    let digits = print_digits 10 n in
    omega (
      arith,
      length-append (replicate (3 - length digits) b' ') digits,
      length-replicate {A = ℕ} (3 - length digits) b' ',
      length-print_digits 7 n l,
    )

print_int-digit : (n : ℕ) → n < 10 → print_int n ≡ (b'0' + n) ∷ []
unfolding print_int
print_int-digit n l = print_digits-one 9 n l

decimal-width :
    (a b o : ℕ) → a < 10 → b < 10 → length (print_int a ++ b'.' ∷ print_int b ++ o ∷ []) ≡ 4
decimal-width a b o l m = rw (print_int-digit a l, print_int-digit b m) refl

padded-width : (n o : ℕ) → n < 1000 → length (pad3 n ++ o ∷ []) ≡ 4
padded-width n o l = omega (arith, length-append (pad3 n) (o ∷ []), length-pad3 n l)

leb-le : (a b : ℕ) → leb a b ≡ true → a ≤ b
leb-le a b e = ground arith

not-leb : (a b : ℕ) → leb a b ≡ false → b < a
not-leb a b e = ground arith

ne-eq : (a b : ℕ) → a ≢ b → (a == b) ≡ false
ne-eq a b e = ground arith

small_lem :
    (size remain : ℕ)
    → (ltb size 9 || (size == 9 && ltb remain 973)) ≡ true
    → (size < 10) × (10 ≤ tenths remain → size < 9)
small_lem size remain e = ground arith

scaled-width : (size remain o : ℕ) → remain < 1024 → size < 973 → length (scaled size remain o) ≡ 4
unfolding scaled
scaled-width size remain o l m = elim (Bool-cases (ltb size 9 || (size == 9 && ltb remain 973))) [
  | inl e ↦ elim (Bool-cases (leb 10 (tenths remain))) [
    | inl t ↦
        let nine = (small_lem size remain e).1 (leb-le 10 (tenths remain) t) in
        rw (e, t) (decimal-width (size + 1) 0 o (omega (arith, nine)) (omega arith))
    | inr t ↦
        rw (e, t)
          (decimal-width size (tenths remain) o (small_lem size remain e).0
            (not-leb 10 (tenths remain) t))
  ]
  | inr n ↦ elim (Bool-cases (leb 512 remain)) [
    | inl u ↦ rw (n, u) (padded-width (size + 1) o (omega (arith, m)))
    | inr u ↦ rw (n, u) (padded-width size o (omega (arith, m)))
  ]
]

-- Some text of four bytes.
abbrev pub FourBytes : Option Bytes → Type 0
FourBytes r = (s : Bytes) × (r ≡ some s) × (length s ≡ 4)

reduce-FourBytes :
    (ord : Bytes) (size : ℕ)
    → 973 ≤ size
    → size < 973 * power (length ord)
    → FourBytes (reduce ord size)
unfolding reduce
reduce-FourBytes [] size g l = absurd (omega (arith, g, l))
reduce-FourBytes (o ∷ ord) size g l = elim (Bool-cases (leb 973 (size / 1024))) [
  | inl e ↦
      rw e (reduce-FourBytes ord (size / 1024) (leb-le 973 (size / 1024) e) (omega (arith, l)))
  | inr n ↦ rw n (
    _,
    refl,
    scaled-width (size / 1024) (size % 1024) o (omega arith) (not-leb 973 (size / 1024) n),
  )
]

-- Every size below 2 ^ 64, but for the number that stands for a missing value, is written in
-- exactly four bytes; the units never run out.
pub format_size-FourBytes :
    (notimpl size : ℕ) → size < 2 ^ 64 → size ≢ notimpl → FourBytes (format_size notimpl size)
unfolding format_size
format_size-FourBytes notimpl size l n = elim (Bool-cases (ltb size 973)) [
  | inl e ↦ rw (ne-eq size notimpl n, e) (_, refl, padded-width size b' ' (ground (arith, e)))
  | inr e ↦
      rw (ne-eq size notimpl n, e)
        (reduce-FourBytes (codes "KMGTPE") size (not-ltb size 973 e) (omega (arith, l)))
]
