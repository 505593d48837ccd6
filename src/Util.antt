-- ===== src/Util.antt =====
-- sigar_util.c: helpers on strings.
pub mod Casestr
pub mod Text
pub mod Usage
pub mod Iodev
pub mod Procfs
pub mod CpuModel
pub mod Cores
use re_co_mon_b.Base.{
  ℕ, Bool, true, false, List, [], ◌∷◌, Option, none, some, Bytes, ◌==◌, if◌then◌else◌,
}
use re_co_mon_b.Libc.{to_lower}

-- The inner `for` of `sigar_strcasestr` and the test behind it, past the first character.
unfoldable pub rest_matches : Bytes → Bytes → Bool
unfolding to_lower
rest_matches [] [] = true
rest_matches [] (y ∷ t) = false
rest_matches (x ∷ s) [] = true
rest_matches (x ∷ s) (y ∷ t) = if to_lower x == to_lower y then rest_matches s t else false

-- The outer `while`, for a second string of first character `y`.
unfoldable pub seek : ℕ → Bytes → Bytes → Option Bytes
unfolding to_lower rest_matches
seek y t [] = none
seek y t (x ∷ s) =
    if to_lower x == to_lower y
    then if rest_matches s t then some (x ∷ s) else seek y t s
    else seek y t s

-- The text from the first place where `s2` stands in `s1` but for case.
unfoldable pub strcasestr : Bytes → Bytes → Option Bytes
unfolding seek rest_matches
strcasestr s1 [] = some s1
strcasestr s1 (y ∷ t) = seek y t s1
