-- ===== src/Format/Size.antt =====
-- `sigar_format_size` of sigar_format.c.
pub mod Width
use re_co_mon_b.Base.{
  ℕ, zero, suc, ◌+◌, ◌-◌, ◌*◌, ◌/◌, ◌%◌, ◌<◌, ◌≤◌, ◌^◌, ◌≡◌, refl, Bool, true, false, ◌&&◌, ◌||◌,
  List, [], ◌∷◌, ◌++◌, Option, none, some, Bytes, codes, arith, ltb, leb, ◌==◌, if◌then◌else◌,
  length, replicate,
}

-- The digits of a number, at most as many as the first argument says.
unfoldable pub print_digits : ℕ → ℕ → Bytes
print_digits zero n = []
print_digits (suc fuel) n =
    let rest = print_digits fuel (n / 10) in
    if ltb n 10 then (b'0' + n) ∷ [] else rest ++ (b'0' + n % 10) ∷ []

-- `sprintf("%d", n)` for an `int` that is not negative, which has at most ten digits.
unfoldable pub print_int : ℕ → Bytes
unfolding print_digits
print_int n = print_digits 10 n

-- `sprintf("%3d", n)` for such a number.
unfoldable pub pad3 : ℕ → Bytes
unfolding print_int
pad3 n = let digits = print_int n in replicate (3 - length digits) b' ' ++ digits

-- `remain` in tenths, rounded.
abbrev pub tenths : ℕ → ℕ
tenths remain = (remain * 5 + 256) / 512

-- The text of `size` units of `*o` and `remain` parts in 1024.
unfoldable pub scaled : ℕ → ℕ → ℕ → Bytes
unfolding print_int pad3
scaled size remain o =
    if ltb size 9 || (size == 9 && ltb remain 973)
    then if leb 10 (tenths remain)
      then print_int (size + 1) ++ b'.' ∷ print_int 0 ++ o ∷ []
      else print_int size ++ b'.' ∷ print_int (tenths remain) ++ o ∷ []
    else if leb 512 remain
    then pad3 (size + 1) ++ o ∷ []
    else pad3 size ++ o ∷ []

-- The `do … while (1)`, by the letters that `o` has not passed; None means that it passed them all.
unfoldable pub reduce : Bytes → ℕ → Option Bytes
unfolding scaled
reduce [] size = none
reduce (o ∷ ord) size =
    let rest = reduce ord (size / 1024) in
    if leb 973 (size / 1024) then rest else some (scaled (size / 1024) (size % 1024) o)

-- `sigar_format_size`; the first argument is SIGAR_FIELD_NOTIMPL.
unfoldable pub format_size : ℕ → ℕ → Option Bytes
unfolding pad3 reduce
format_size notimpl size =
    if size == notimpl
    then some (codes "-")
    else if ltb size 973
    then some (pad3 size ++ codes " ")
    else reduce (codes "KMGTPE") size
