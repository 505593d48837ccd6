-- ===== src/Util/Text.antt =====
-- sigar_util.c: numbers as text, and the walk over lines and words.
pub mod Uitoa
pub mod Words
use re_co_mon_b.Base.{
  ℕ, zero, suc, ◌+◌, ◌/◌, ◌%◌, ◌^◌, List, [], ◌∷◌, ◌++◌, Option, none, some, Bytes, codes, ◌==◌,
  if◌then◌else◌,
}
use re_co_mon_b.Libc.{is_space}

-- The `do … while (n)` of `sigar_uitoa`, which writes from the end of its buffer. None means that
-- the fuel ran out.
unfoldable pub write_digits : ℕ → ℕ → Bytes → Option Bytes
write_digits zero n written = none
write_digits (suc fuel) n written =
    let start = (b'0' + n % 10) ∷ written in
    let rest = write_digits fuel (n / 10) start in if n / 10 == 0 then some start else rest

-- `sigar_uitoa`: an unsigned 32-bit number has at most ten digits.
unfoldable pub uitoa : ℕ → Option Bytes
unfolding write_digits
uitoa n = write_digits 10 n []

-- `sigar_proc_filename`, for a root such as "/proc/", which the code takes from a header; the pid
-- is cut to 32 bits.
unfoldable pub proc_filename : Bytes → ℕ → Bytes → Option Bytes
unfolding uitoa
proc_filename root bigpid fname = elim (uitoa (bigpid % 2 ^ 32)) [
  | none ↦ none
  | some pid_str ↦ some (root ++ pid_str ++ fname)
]

-- The first `while` of `sigar_skip_token`.
unfoldable pub skip_spaces : Bytes → Bytes
unfolding is_space
skip_spaces [] = []
skip_spaces (c ∷ p) = if is_space c then skip_spaces p else c ∷ p

-- The second `while`.
unfoldable pub skip_word : Bytes → Bytes
unfolding is_space
skip_word [] = []
skip_word (c ∷ p) = if is_space c then c ∷ p else skip_word p

unfoldable pub skip_token : Bytes → Bytes
unfolding skip_spaces skip_word
skip_token p = skip_word (skip_spaces p)

unfoldable pub skip_multiple_token : Bytes → ℕ → Bytes
unfolding skip_token
skip_multiple_token p zero = p
skip_multiple_token p (suc count) = skip_multiple_token (skip_token p) count

-- The `while` of `sigar_getword` over the word: the word and what follows.
unfoldable pub take_word : ℕ → Bytes → Bytes × Bytes
take_word stop [] = ([], [])
take_word stop (c ∷ pos) =
    let (word, rest) = take_word stop pos in if c == stop then ([], c ∷ pos) else (c ∷ word, rest)

unfoldable pub skip_stops : ℕ → Bytes → Bytes
skip_stops stop [] = []
skip_stops stop (c ∷ pos) = if c == stop then skip_stops stop pos else c ∷ pos

-- `sigar_getword`, for a stop that is no zero byte: the word and the rest of the line.
unfoldable pub getword : Bytes → ℕ → Bytes × Bytes
unfolding take_word skip_stops
getword line stop = let (word, rest) = take_word stop line in (word, skip_stops stop rest)
