-- ===== src/Libc.antt =====
-- The C library's functions on strings and characters, as the modelled sources call them, in the
-- C locale with signed 8-bit characters, 64-bit `long` and 32-bit `int`. Strings are lists of
-- bytes without the terminating zero.
pub mod Number
pub mod Radix
pub mod Split
pub mod Affix
pub mod Double
use re_co_mon_b.Base.{
  ℕ, ◌+◌, Bool, true, false, ◌&&◌, ◌||◌, List, [], ◌∷◌, map, Option, none, some, Bytes, ltb, leb,
  ◌==◌, if◌then◌else◌, str_eq, take,
}

pub data Sign : Type 0 where
  below same above : Sign

unfoldable pub is_upper : ℕ → Bool
is_upper c = leb b'A' c && leb c b'Z'

unfoldable pub is_digit : ℕ → Bool
is_digit c = leb b'0' c && leb c b'9'

-- Space, and tab to carriage return.
unfoldable pub is_space : ℕ → Bool
is_space c = c == 32 || (leb 9 c && leb c 13)

unfoldable pub to_lower : ℕ → ℕ
unfolding is_upper
to_lower c = if is_upper c then c + 32 else c

-- The sign of `strcmp(s, t)`; bytes compare as unsigned.
unfoldable pub strcmp : Bytes → Bytes → Sign
strcmp [] [] = same
strcmp [] (y ∷ t) = below
strcmp (x ∷ s) [] = above
strcmp (x ∷ s) (y ∷ t) = if x == y then strcmp s t else if ltb x y then below else above

unfoldable pub strcasecmp : Bytes → Bytes → Sign
unfolding strcmp to_lower
strcasecmp s t = strcmp (map to_lower s) (map to_lower t)

-- `strncmp(s, t, n) == 0` and `strncasecmp(s, t, n) == 0`.
unfoldable pub strn_eq : Bytes → Bytes → ℕ → Bool
unfolding str_eq
strn_eq s t n = str_eq (take n s) (take n t)

unfoldable pub strncase_eq : Bytes → Bytes → ℕ → Bool
unfolding strn_eq to_lower
strncase_eq s t n = strn_eq (map to_lower s) (map to_lower t) n

abbrev pub prepend : ℕ → Option (Bytes × Bytes) → Option (Bytes × Bytes)
prepend x none = none
prepend x (some (before, after)) = some (x ∷ before, after)

-- `strchr(s, c)` and a zero written there: what stands before and after.
unfoldable pub split_at : ℕ → Bytes → Option (Bytes × Bytes)
split_at c [] = none
split_at c (x ∷ s) = if x == c then some ([], s) else prepend x (split_at c s)

-- `strstr(s, t) != NULL`.
unfoldable pub contains : Bytes → Bytes → ℕ → Bool
unfolding strn_eq
contains [] t n = strn_eq [] t n
contains (x ∷ s) t n = strn_eq (x ∷ s) t n || contains s t n
