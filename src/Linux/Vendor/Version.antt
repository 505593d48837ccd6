-- ===== src/Linux/Vendor/Version.antt =====
-- os/linux/linux_sigar.c: the versions that `generic_vendor_parse` finds, and the texts at which it
-- does not come to a good end.
use re_co_mon_b.Base.{
  ℕ, zero, suc, ◌+◌, ◌≤◌, ◌<◌, ◌≡◌, refl, ap, ◌∙◌, Bool, true, false, not, ◌||◌, Option, some, [],
  ◌∷◌, ◌++◌, Bytes, arith, ltb, leb, ◌^◌, ◌==◌, length, all_of, Bool-cases, inl, inr,
}
use re_co_mon_b.Libc.Affix.{take-append}
use re_co_mon_b.Libc.{is_digit, is_space}
use re_co_mon_b.Linux.Run.{Run, done, fault, overflowed, overrun}
use re_co_mon_b.Linux.Vendor.{
  SysInfo, Sizes, version_run, on_run, at_word, generic_loop, generic_vendor_parse,
}
use re_co_mon_b.Util.Text.{skip_spaces}

abbrev pub is_version : ℕ → Bool
is_version c = is_digit c || c == b'.'

-- A text that does not go on with a digit or a dot.
abbrev pub ends_version : Bytes → Bool
ends_version [] = true
ends_version (c ∷ s) = not (is_version c)

version_run-append :
    (v rest : Bytes)
    → all_of is_version v ≡ true
    → ends_version rest ≡ true
    → version_run (v ++ rest) ≡ v
unfolding version_run
version_run-append [] [] a e = refl
version_run-append [] (c ∷ rest) a e =
    let stop : is_version c ≡ false = ground (arith, e) in rw stop
version_run-append (c ∷ v) rest a e =
    let goes : is_version c ≡ true = ground (arith, a) in
    rw goes (ap (◌∷◌ c) (version_run-append v rest (ground (arith, a)) e))

-- A blank is skipped in the round of what follows it.
generic_loop-blank :
    (fuel size len c d : ℕ) (s : Bytes)
    → is_space c ≡ true
    → generic_loop (suc fuel) size len (c ∷ d ∷ s) ≡ generic_loop (suc fuel) size len (d ∷ s)
unfolding generic_loop at_word skip_spaces
generic_loop-blank fuel size len c d s blank = rw blank refl

generic_loop-other :
    (fuel size len c : ℕ) (s : Bytes)
    → is_space c ≡ false
    → is_digit c ≡ false
    → generic_loop (suc fuel) size len (c ∷ s) ≡ generic_loop fuel size len s
unfolding generic_loop at_word skip_spaces
generic_loop-other fuel size len c s word other = rw (word, other) refl

digit-not_blank : (c : ℕ) → is_digit c ≡ true → is_space c ≡ false
unfolding is_digit is_space
digit-not_blank c h = ground (arith, h)

generic_loop-digit :
    (fuel size len c : ℕ) (v rest : Bytes)
    → is_digit c ≡ true
    → all_of is_version v ≡ true
    → ends_version rest ≡ true
    → generic_loop (suc fuel) size len (c ∷ v ++ rest)
      ≡ on_run size (len + suc (length v)) (c ∷ v ++ rest) (λ n line. generic_loop fuel size n line)
unfolding generic_loop at_word skip_spaces version_run
generic_loop-digit fuel size len c v rest digit all ends =
    rw (digit-not_blank c digit, digit, version_run-append v rest all ends) refl

generic_loop-blanks :
    (fuel size len c d : ℕ) (pre s : Bytes)
    → is_space c ≡ true
    → generic_loop (suc fuel) size len (c ∷ (pre ++ d ∷ s))
      ≡ generic_loop (suc fuel) size len (pre ++ d ∷ s)
generic_loop-blanks fuel size len c d [] s blank = generic_loop-blank fuel size len c d s blank
generic_loop-blanks fuel size len c d (e ∷ pre) s blank =
    generic_loop-blank fuel size len c e (pre ++ d ∷ s) blank

-- Bytes that are no digits take at most a round each, and do not change what the loop comes to
-- where there are `m` more rounds for it.
generic_loop-behind :
    (pre : Bytes) (fuel m size d : ℕ) (s : Bytes) (r : Run (Option Bytes))
    → all_of (λ c. not (is_digit c)) pre ≡ true
    → length pre + m ≤ fuel
    → ((n : ℕ) → m ≤ n → generic_loop (suc n) size 0 (d ∷ s) ≡ r)
    → generic_loop (suc fuel) size 0 (pre ++ d ∷ s) ≡ r
generic_loop-behind [] fuel m size d s r free enough at = at fuel (omega (arith, enough))
generic_loop-behind (c ∷ pre) zero m size d s r free enough at = absurd (omega (arith, enough))
generic_loop-behind (c ∷ pre) (suc fuel) m size d s r free enough at =
    let other : is_digit c ≡ false = ground (arith, free) in
    let more : all_of (λ c. not (is_digit c)) pre ≡ true = ground (arith, free) in
    elim (Bool-cases (is_space c)) [
      | inl blank ↦
          generic_loop-blanks (suc fuel) size 0 c d pre s blank
          ∙ generic_loop-behind pre (suc fuel) m size d s r more (omega (arith, enough)) at
      | inr word ↦
          generic_loop-other (suc fuel) size 0 c (pre ++ d ∷ s) word other
          ∙ generic_loop-behind pre fuel m size d s r more (omega (arith, enough)) at
    ]

-- The digit and what follows it are a version that fits.
generic_loop-version :
    (n size c : ℕ) (v rest : Bytes)
    → is_digit c ≡ true
    → all_of is_version v ≡ true
    → ends_version rest ≡ true
    → suc (length v) < size
    → size < 2 ^ 31
    → generic_loop (suc n) size 0 (c ∷ (v ++ rest)) ≡ done (some (c ∷ v))
generic_loop-version n size c v rest digit all ends short int =
    let small : leb (2 ^ 31) (suc (length v)) ≡ false = ground (arith, short, int) in
    let fits : ltb size (suc (length v)) ≡ false = ground (arith, short) in
    let below : (suc (length v) == size) ≡ false = ground (arith, short) in
    let len : 0 + suc (length v) ≡ suc (length v) = omega arith in
    generic_loop-digit n size 0 c v rest digit all ends
    ∙ rw (len, small, fits, below, take-append v rest) refl

-- A version that is too long is measured again in every round.
generic_loop-long :
    (n size len c : ℕ) (v rest : Bytes)
    → is_digit c ≡ true
    → all_of is_version v ≡ true
    → ends_version rest ≡ true
    → size < len + suc (length v)
    → len < 2 ^ 31
    → 2 ^ 31 ≤ len + n
    → generic_loop n size len (c ∷ (v ++ rest)) ≡ fault overflowed
generic_loop-long zero size len c v rest digit all ends long int enough =
    absurd (omega (arith, int, enough))
generic_loop-long (suc n) size len c v rest digit all ends long int enough =
    let next = len + suc (length v) in
    elim (Bool-cases (leb (2 ^ 31) next)) [
      | inl past ↦ generic_loop-digit n size len c v rest digit all ends ∙ rw past refl
      | inr below ↦
          let more : ltb size next ≡ true = ground (arith, long) in
          generic_loop-digit n size len c v rest digit all ends
          ∙ rw (below, more)
              (generic_loop-long n size next c v rest digit all ends (omega (arith, long))
                (ground (arith, below)) (omega (arith, enough)))
    ]

generic_loop-last :
    (n size blank : ℕ)
    → is_space blank ≡ true
    → generic_loop (suc n) size 0 (blank ∷ []) ≡ fault overrun
unfolding generic_loop at_word skip_spaces
generic_loop-last n size blank h = rw h refl

-- Behind bytes that are no digits, the first run of digits and dots is the version, if it is
-- shorter than its buffer; if it is longer than that, the loop measures it again and again, until
-- the `int` that its length is added to overflows, which C leaves undefined; and if there is no
-- digit at all but a blank at the end, as a line feed is, the code reads on behind the text. The
-- buffer's size is an `int`.
pub generic_vendor_parse-ends :
    (sizes : Sizes) (info : SysInfo) (pre : Bytes) (c : ℕ) (v : Bytes) (d : ℕ) (w rest : Bytes)
    (blank : ℕ)
    → all_of (λ c. not (is_digit c)) pre ≡ true
    → (is_digit c ≡ true) × (all_of is_version v ≡ true)
    → (is_digit d ≡ true) × (all_of is_version w ≡ true)
    → ends_version rest ≡ true
    → (suc (length v) < sizes.vendor_version) × (sizes.vendor_version < suc (length w))
    → sizes.vendor_version < 2 ^ 31
    → is_space blank ≡ true
    → let enough = suc (length pre) in
      (generic_vendor_parse enough sizes (pre ++ c ∷ (v ++ rest)) info
        ≡ done (record info { vendor_version = c ∷ v }))
      × (generic_vendor_parse (suc (length pre + 2 ^ 31)) sizes (pre ++ d ∷ (w ++ rest)) info
          ≡ fault overflowed)
      × (generic_vendor_parse enough sizes (pre ++ blank ∷ []) info ≡ fault overrun)
unfolding generic_vendor_parse
generic_vendor_parse-ends sizes info pre c v d w rest blank free (dc, av) (dd, aw) ends
      (short, long) int last =
    let size = sizes.vendor_version in
    let rounds = length pre + 2 ^ 31 in
    (
      rw
          (generic_loop-behind pre (length pre) 0 size c (v ++ rest) (done (some (c ∷ v))) free
            (omega arith) (λ n e. generic_loop-version n size c v rest dc av ends short int))
          refl,
      rw
          (generic_loop-behind pre rounds (2 ^ 31) size d (w ++ rest) (fault overflowed) free
            (omega arith)
            (λ n e.
              generic_loop-long (suc n) size 0 d w rest dd aw ends (omega (arith, long))
                (omega arith) (omega (arith, e))))
          refl,
      rw
          (generic_loop-behind pre (length pre) 0 size blank [] (fault overrun) free (omega arith)
            (λ n e. generic_loop-last n size blank last))
          refl,
    )
