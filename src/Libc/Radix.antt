-- ===== src/Libc/Radix.antt =====
-- `strtoul` and `strtoull` in base 16, and in base 0, which goes by the text's prefix.
use re_co_mon_b.Base.{
  ℕ, ◌+◌, ◌-◌, ◌*◌, ◌^◌, Bool, true, false, ◌&&◌, ◌||◌, [], ◌∷◌, Bytes, ltb, leb, ◌==◌,
  if◌then◌else◌, drop,
}
use re_co_mon_b.Libc.Number.{Scan, wrap, range_unsigned}
use re_co_mon_b.Libc.{is_digit, is_upper, is_space}

-- The value of a digit or a letter, or one that no base has.
abbrev pub digit_value : ℕ → ℕ
unfolding is_digit is_upper
digit_value c =
    if is_digit c
    then c - b'0'
    else if is_upper c
    then c - b'A' + 10
    else if leb b'a' c && leb c b'z'
    then c - b'a' + 10
    else 36

unfoldable pub radix_digits : ℕ → Bool → Bool → ℕ → Bytes → Scan
unfolding digit_value
radix_digits base neg found n [] = record {
  magnitude = n;
  negative = neg;
  found = found;
  rest = [];
}
radix_digits base neg found n (c ∷ s) =
    let more = radix_digits base neg true (n * base + digit_value c) s in
    if ltb (digit_value c) base
    then more
    else record { magnitude = n; negative = neg; found = found; rest = c ∷ s }

-- "0x" and a digit of base 16 behind it.
abbrev pub has_hex_prefix : Bytes → Bool
unfolding digit_value
has_hex_prefix (z ∷ x ∷ c ∷ s) = z == b'0' && (x == b'x' || x == b'X') && ltb (digit_value c) 16
has_hex_prefix short = false

abbrev pub starts_zero : Bytes → Bool
starts_zero [] = false
starts_zero (c ∷ s) = c == b'0'

abbrev pub radix_prefix : ℕ → Bool → Bytes → Scan
unfolding radix_digits has_hex_prefix
radix_prefix base neg s =
    if (base == 16 || base == 0) && has_hex_prefix s
    then radix_digits 16 neg false 0 (drop 2 s)
    else if base == 0
    then radix_digits (if starts_zero s then 8 else 10) neg false 0 s
    else radix_digits base neg false 0 s

unfoldable pub radix_sign : ℕ → Bytes → Scan
unfolding radix_prefix
radix_sign base [] = radix_prefix base false []
radix_sign base (c ∷ s) =
    if c == b'-'
    then radix_prefix base true s
    else if c == b'+'
    then radix_prefix base false s
    else radix_prefix base false (c ∷ s)

unfoldable pub radix_scan : ℕ → Bytes → Scan
unfolding radix_sign is_space
radix_scan base [] = radix_sign base []
radix_scan base (c ∷ s) =
    let skipped = radix_scan base s in if is_space c then skipped else radix_sign base (c ∷ s)

-- `strtoull(ptr, &end, base)`: the number and the text at `end`; out of range it answers the
-- greatest number.
unfoldable pub strtoull_base : ℕ → Bytes → ℕ × Bytes
unfolding radix_scan
strtoull_base base ptr =
    let r = radix_scan base ptr in
    (
      if range_unsigned r then 2 ^ 64 - 1 else wrap 64 r.negative r.magnitude,
      if r.found then r.rest else ptr,
    )
