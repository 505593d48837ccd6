-- ===== src/Format/Address/Text.antt =====
-- The texts of addresses in sigar_format.c.
use re_co_mon_b.Base.{
  ℕ, ◌+◌, ◌/◌, ◌%◌, ◌^◌, ◌<◌, ◌≤◌, ◌≡◌, refl, [], ◌∷◌, ◌++◌, some, Bytes, arith, length,
  length-append, ◌↔◌, str_eq_iff,
}
use re_co_mon_b.Format.Address.{
  NetAddress, inet, inet6, link, write_octet, write_octets, inet_ntoa, equal, net_address_equals,
}
use re_co_mon_b.Util.Text.{uitoa, write_digits}

-- The three branches of `sigar_inet_ntoa` write a byte as `sigar_uitoa` does.
pub write_octet-uitoa : (u : ℕ) → u < 256 → uitoa u ≡ some (write_octet u)
unfolding uitoa write_digits write_octet
write_octet-uitoa u l = ground arith

length-write_octet : (u : ℕ) → length (write_octet u) ≤ 3
unfolding write_octet
length-write_octet u = ground arith

length-dot : (p rest : Bytes) → length (p ++ b'.' ∷ [] ++ rest) ≡ length p + 1 + length rest
length-dot p rest = omega (arith, length-append (p ++ b'.' ∷ []) rest, length-append p (b'.' ∷ []))

dotted-length :
    (p q r s : Bytes)
    → length p ≤ 3
    → length q ≤ 3
    → length r ≤ 3
    → length s ≤ 3
    → length (p ++ b'.' ∷ [] ++ (q ++ b'.' ∷ [] ++ (r ++ b'.' ∷ [] ++ s))) ≤ 15
dotted-length p q r s lp lq lr ls = omega (
  arith,
  lp,
  lq,
  lr,
  ls,
  length-dot p (q ++ b'.' ∷ [] ++ (r ++ b'.' ∷ [] ++ s)),
  length-dot q (r ++ b'.' ∷ [] ++ s),
  length-dot r s,
)

-- The text of an IPv4 address is that of its four bytes in memory, as `sigar_uitoa` writes them,
-- with dots between; it has at most 15 bytes.
inet_ntoa_lem :
    (address : ℕ)
    → (p q r s : Bytes) × (uitoa (address % 256) ≡ some p)
      × (uitoa (address / 2 ^ 8 % 256) ≡ some q)
      × (uitoa (address / 2 ^ 16 % 256) ≡ some r)
      × (uitoa (address / 2 ^ 24 % 256) ≡ some s)
      × (inet_ntoa address ≡ p ++ b'.' ∷ [] ++ (q ++ b'.' ∷ [] ++ (r ++ b'.' ∷ [] ++ s)))
      × (length (inet_ntoa address) ≤ 15)
unfolding inet_ntoa write_octets
inet_ntoa_lem address = (
  write_octet (address % 256),
  write_octet (address / 2 ^ 8 % 256),
  write_octet (address / 2 ^ 16 % 256),
  write_octet (address / 2 ^ 24 % 256),
  write_octet-uitoa (address % 256) (omega arith),
  write_octet-uitoa (address / 2 ^ 8 % 256) (omega arith),
  write_octet-uitoa (address / 2 ^ 16 % 256) (omega arith),
  write_octet-uitoa (address / 2 ^ 24 % 256) (omega arith),
  refl,
  dotted-length (write_octet (address % 256)) (write_octet (address / 2 ^ 8 % 256))
      (write_octet (address / 2 ^ 16 % 256)) (write_octet (address / 2 ^ 24 % 256))
      (length-write_octet (address % 256)) (length-write_octet (address / 2 ^ 8 % 256))
      (length-write_octet (address / 2 ^ 16 % 256)) (length-write_octet (address / 2 ^ 24 % 256)),
)

-- The families whose addresses the code compares.
abbrev pub IsComparable : NetAddress → Type 0
IsComparable (inet a) = Unit
IsComparable (inet6 a) = Unit
IsComparable (link a) = Unit
IsComparable _ = ⊥

-- Two addresses compare as equal exactly if they are the same and their family is IPv4, IPv6 or
-- the link layer's: an unspecified address is not equal even to itself.
net_address_equals_iff :
    (a b : NetAddress) → (net_address_equals a b ≡ equal) ↔ ((a ≡ b) × IsComparable a)
unfolding net_address_equals
net_address_equals_iff (inet a) (inet b) = ground arith
net_address_equals_iff (inet6 a) (inet6 b) = ground (arith, str_eq_iff a b)
net_address_equals_iff (link a) (link b) = ground (arith, str_eq_iff a b)
net_address_equals_iff _ _ = ground arith
