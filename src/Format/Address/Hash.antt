-- ===== src/Format/Address/Hash.antt =====
-- The hash of addresses in sigar_format.c.
use re_co_mon_b.Base.{ℕ, ◌+◌, ◌/◌, ◌%◌, ◌^◌, ◌<◌, ◌≡◌, [], ◌∷◌, Bytes, arith, ◌∙◌, ap}
use re_co_mon_b.Format.Address.{inet6, hash_loop, net_address_hash}

-- The four bytes of a word, the first the highest.
abbrev pub word_bytes : ℕ → Bytes → Bytes
word_bytes w rest = w / 2 ^ 24 % 256 ∷ w / 2 ^ 16 % 256 ∷ w / 2 ^ 8 % 256 ∷ w % 256 ∷ rest

word-hash :
    (w hash : ℕ) (rest : Bytes)
    → w < 2 ^ 32
    → hash_loop 4 0 0 hash (word_bytes w rest) ≡ hash_loop 4 0 0 ((hash + w) % 2 ^ 32) rest
unfolding hash_loop
word-hash w hash rest l = ap (λ n. hash_loop 4 0 0 n rest) (omega (arith, l))

last_round :
    (a b c d : ℕ)
    → hash_loop 4 0 0 (((((0 + a) % 2 ^ 32 + b) % 2 ^ 32 + c) % 2 ^ 32 + d) % 2 ^ 32) []
      ≡ (a + b + c + d) % 2 ^ 32
unfolding hash_loop
last_round a b c d = omega arith

-- The hash of an IPv6 address is the sum, in 32 bits, of its four words in network order.
pub net_address_hash-inet6 :
    (a b c d : ℕ)
    → a < 2 ^ 32
    → b < 2 ^ 32
    → c < 2 ^ 32
    → d < 2 ^ 32
    → net_address_hash (inet6 (word_bytes a (word_bytes b (word_bytes c (word_bytes d [])))))
      ≡ (a + b + c + d) % 2 ^ 32
unfolding net_address_hash
net_address_hash-inet6 a b c d la lb lc ld =
    let two = word_bytes d [] in
    let three = word_bytes c two in
    word-hash a 0 (word_bytes b three) la
    ∙ word-hash b ((0 + a) % 2 ^ 32) three lb
    ∙ word-hash c (((0 + a) % 2 ^ 32 + b) % 2 ^ 32) two lc
    ∙ word-hash d ((((0 + a) % 2 ^ 32 + b) % 2 ^ 32 + c) % 2 ^ 32) [] ld
    ∙ last_round a b c d
