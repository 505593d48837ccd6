-- ===== src/Format/Address.antt =====
-- sigar_format.c: network addresses as text, their equality and their hash, on a little-endian
-- machine.
pub mod Text
pub mod Hash
use re_co_mon_b.Base.{
  ℕ, ◌+◌, ◌-◌, ◌*◌, ◌/◌, ◌%◌, ◌^◌, Bool, true, false, List, [], ◌∷◌, ◌++◌, Option, none, some,
  Bytes, ltb, ◌==◌, if◌then◌else◌, str_eq,
}

-- `sigar_net_address_t`: the member of the union that the family selects, addresses being in the
-- order of their bytes in memory. `other` is a family with no name in the code.
pub data NetAddress : Type 0 where
  unspec : ℕ → NetAddress
  inet : ℕ → NetAddress
  inet6 : Bytes → NetAddress
  link : Bytes → NetAddress
  other : ℕ → NetAddress

-- One round of `sigar_inet_ntoa`, without the dot.
unfoldable pub write_octet : ℕ → Bytes
write_octet u =
    if ltb 99 u
    then (b'0' + u / 100) ∷ (b'0' + u % 100 / 10) ∷ (b'0' + u % 100 % 10) ∷ []
    else if ltb 9 u
    then (b'0' + u / 10) ∷ (b'0' + u % 10) ∷ []
    else (b'0' + u) ∷ []

-- The bytes of a 32-bit number in memory.
abbrev pub memory : ℕ → Bytes
memory address =
    address % 256 ∷ address / 2 ^ 8 % 256 ∷ address / 2 ^ 16 % 256 ∷ address / 2 ^ 24 % 256 ∷ []

-- The rounds; a dot follows each but the last, which the zero byte overwrites.
unfoldable pub write_octets : Bytes → Bytes
unfolding write_octet
write_octets [] = []
write_octets (u ∷ []) = write_octet u
write_octets (u ∷ v ∷ src) = write_octet u ++ b'.' ∷ [] ++ write_octets (v ∷ src)

unfoldable pub inet_ntoa : ℕ → Bytes
unfolding write_octets
inet_ntoa address = write_octets (memory address)

abbrev hex_digit : ℕ → ℕ
hex_digit d = if ltb d 10 then b'0' + d else b'7' + d

-- "%02X", and a colon but for the last.
unfoldable pub write_hex : Bytes → Bytes
write_hex [] = []
write_hex (c ∷ []) = hex_digit (c / 16) ∷ hex_digit (c % 16) ∷ []
write_hex (c ∷ d ∷ ptr) = hex_digit (c / 16) ∷ hex_digit (c % 16) ∷ b':' ∷ write_hex (d ∷ ptr)

abbrev first6 : Bytes → Bytes
first6 (a ∷ b ∷ c ∷ d ∷ e ∷ f ∷ rest) = a ∷ b ∷ c ∷ d ∷ e ∷ f ∷ []
first6 short = short

-- `sigar_ether_ntoa`, of the first six bytes of an address that has as many.
unfoldable pub ether_ntoa : Bytes → Bytes
unfolding write_hex
ether_ntoa ptr = write_hex (first6 ptr)

-- The answer of `sigar_net_address_equals`: 0, the sign of `memcmp`, or EINVAL.
pub data Comparison : Type 0 where
  equal different einval : Comparison

abbrev compared : Bool → Comparison
compared true = equal
compared false = different

unfoldable pub net_address_equals : NetAddress → NetAddress → Comparison
unfolding str_eq
net_address_equals (inet a) (inet b) = compared (a == b)
net_address_equals (inet6 a) (inet6 b) = compared (str_eq a b)
net_address_equals (link a) (link b) = compared (str_eq a b)
net_address_equals _ _ = einval

-- The answer of `sigar_net_address_to_string`: a text, or a status.
pub data Written : Type 0 where
  ok : Bytes → Written
  failed : ℕ → Written

abbrev from_ntop : ℕ → Option Bytes → Written
from_ntop errno none = failed errno
from_ntop errno (some s) = ok s

-- The arguments are `inet_ntop` for AF_INET6, with the `errno` that a failure sets, and EINVAL.
unfoldable pub net_address_to_string : (Bytes → Option Bytes) → ℕ → ℕ → NetAddress → Written
unfolding inet_ntoa ether_ntoa
net_address_to_string inet_ntop errno einval_status (inet6 a) = from_ntop errno (inet_ntop a)
net_address_to_string inet_ntop errno einval_status (inet a) = ok (inet_ntoa a)
net_address_to_string inet_ntop errno einval_status (unspec a) = ok (inet_ntoa 0)
net_address_to_string inet_ntop errno einval_status (link a) = ok (ether_ntoa a)
net_address_to_string inet_ntop errno einval_status (other f) = failed einval_status

-- The loops of `sigar_net_address_hash`, in 32 bits: `j` bytes of a component have been read.
unfoldable pub hash_loop : ℕ → ℕ → ℕ → ℕ → Bytes → ℕ
hash_loop elts j component hash [] = (hash + component) % 2 ^ 32
hash_loop elts j component hash (c ∷ data_left) =
    let more = (component * 256 + c) % 2 ^ 32 in
    let closed = hash_loop elts 0 0 ((hash + more) % 2 ^ 32) data_left in
    let opened = hash_loop elts (j + 1) more hash data_left in
    if j + 1 == elts then closed else opened

unfoldable pub net_address_hash : NetAddress → ℕ
unfolding hash_loop
net_address_hash (unspec a) = a
net_address_hash (inet a) = a
net_address_hash (inet6 a) = hash_loop 4 0 0 0 a
net_address_hash (link a) = hash_loop 2 0 0 0 a
net_address_hash (other f) = 2 ^ 32 - 1
