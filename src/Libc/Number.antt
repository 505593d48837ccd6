-- ===== src/Libc/Number.antt =====
-- `strtoul`, `strtol` and `atoi` in base 10.
use re_co_mon_b.Base.{
  ℕ, ◌+◌, ◌-◌, ◌*◌, ◌%◌, ◌^◌, Bool, true, false, not, ◌||◌, [], ◌∷◌, Option, none, some, Bytes, ltb,
  ◌==◌, if◌then◌else◌,
}
use re_co_mon_b.Libc.{is_digit, is_space}

-- What a conversion reads: the number's magnitude, whether a minus sign stood before it, whether
-- there was a digit, and the text at `endptr` if there was.
pub record Scan : Type 0 where
  pub magnitude : ℕ
  pub negative : Bool
  pub found : Bool
  pub rest : Bytes

unfoldable pub scan_digits : Bool → Bool → ℕ → Bytes → Scan
unfolding is_digit
scan_digits neg found n [] = record { magnitude = n; negative = neg; found = found; rest = [] }
scan_digits neg found n (c ∷ s) =
    let more = scan_digits neg true (n * 10 + (c - b'0')) s in
    if is_digit c
    then more
    else record { magnitude = n; negative = neg; found = found; rest = c ∷ s }

unfoldable pub scan_sign : Bytes → Scan
unfolding scan_digits
scan_sign [] = scan_digits false false 0 []
scan_sign (c ∷ s) =
    if c == b'-'
    then scan_digits true false 0 s
    else if c == b'+'
    then scan_digits false false 0 s
    else scan_digits false false 0 (c ∷ s)

unfoldable pub scan_number : Bytes → Scan
unfolding scan_sign is_space
scan_number [] = scan_sign []
scan_number (c ∷ s) =
    let skipped = scan_number s in if is_space c then skipped else scan_sign (c ∷ s)

abbrev pub is_empty : Bytes → Bool
is_empty [] = true
is_empty (c ∷ s) = false

-- `n` modulo 2 ^ w, negated if asked.
abbrev pub wrap : ℕ → Bool → ℕ → ℕ
wrap w neg n = if neg then (2 ^ w - n % 2 ^ w) % 2 ^ w else n % 2 ^ w

-- `strtoul` on 64 bits is out of range; `strtol` is.
abbrev pub range_unsigned : Scan → Bool
range_unsigned r = ltb (2 ^ 64 - 1) r.magnitude

abbrev pub range_signed : Scan → Bool
range_signed r = ltb (if r.negative then 2 ^ 63 else 2 ^ 63 - 1) r.magnitude

-- `strtoull(s, &ptr, 10)`, unless `strtonum_failed(s, ptr)`.
unfoldable pub strict_unsigned : Bytes → Option ℕ
unfolding scan_number
strict_unsigned s =
    let r = scan_number s in
    if not r.found || range_unsigned r || not (is_empty r.rest)
    then none
    else some (wrap 64 r.negative r.magnitude)

-- `(uint32_t) strtol(s, &ptr, 10)`, unless `strtonum_failed(s, ptr)`.
unfoldable pub strict_signed32 : Bytes → Option ℕ
unfolding scan_number
strict_signed32 s =
    let r = scan_number s in
    if not r.found || range_signed r || not (is_empty r.rest)
    then none
    else some (wrap 32 r.negative r.magnitude)

-- `(uint32_t) atoi(s)`, which is `strtol` cut to 32 bits; out of range `strtol` returns the bound.
unfoldable pub atoi32 : Bytes → ℕ
unfolding scan_number
atoi32 s =
    let r = scan_number s in
    if range_signed r then if r.negative then 0 else 2 ^ 32 - 1 else wrap 32 r.negative r.magnitude
