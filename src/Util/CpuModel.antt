-- ===== src/Util/CpuModel.antt =====
-- sigar_util.c: the names of CPU models, and the clock rate that a name tells.
pub mod Mhz
use re_co_mon_b.Base.{
  ℕ, zero, suc, ◌+◌, ◌-◌, ◌*◌, ◌%◌, ◌^◌, Bool, not, ◌||◌, List, [], ◌∷◌, Option, none, some, Bytes,
  codes, ◌==◌, if◌then◌else◌, length, take, drop,
}
use re_co_mon_b.Libc.Number.{scan_number, wrap, range_unsigned}
use re_co_mon_b.Libc.{is_digit, strn_eq}

-- `cpu_model_str_t`: what to search and what to put in its place.
pub record CpuModelStr : Type 0 where
  pub name : Bytes
  pub rname : Bytes

abbrev pub same_name : Bytes → CpuModelStr
same_name name = record { name = name; rname = name }

abbrev pub cpu_models : List CpuModelStr
cpu_models =
    same_name (codes "Xeon")
    ∷ record { name = codes "XEON"; rname = codes "Xeon" }
    ∷ same_name (codes "Pentium III")
    ∷ same_name (codes "Pentium II")
    ∷ record { name = codes "Pentium(R) III"; rname = codes "Pentium III" }
    ∷ record { name = codes "Pentium(R) 4"; rname = codes "Pentium 4" }
    ∷ record { name = codes "Pentium(R) M"; rname = codes "Pentium M" }
    ∷ same_name (codes "Pentium Pro")
    ∷ same_name (codes "Celeron")
    ∷ same_name (codes "Opteron")
    ∷ same_name (codes "Athlon")
    ∷ same_name (codes "Duron")
    ∷ record { name = codes "K6(tm)-III"; rname = codes "K6 III" }
    ∷ record { name = codes "K6(tm) 3D+"; rname = codes "K6 3D+" }
    ∷ []

-- `while (*ptr == ' ') ++ptr`.
unfoldable pub skip_blanks : Bytes → Bytes
skip_blanks [] = []
skip_blanks (c ∷ ptr) = if c == b' ' then skip_blanks ptr else c ∷ ptr

abbrev pub cons_unless_blank : ℕ → Bytes → Bytes
cons_unless_blank c [] = if c == b' ' then [] else c ∷ []
cons_unless_blank c (d ∷ rest) = c ∷ d ∷ rest

-- `while (*end == ' ') *end-- = '\0'`. In a text of blanks only, `end` leaves the array in the
-- code, which is not modelled.
unfoldable pub trim_end : Bytes → Bytes
trim_end [] = []
trim_end (c ∷ model) = cons_unless_blank c (trim_end model)

-- `if (IS_CPU_R(ptr)) ptr += 3`.
abbrev pub skip_mark : Bytes → Bytes
skip_mark ptr = if strn_eq ptr (codes "(R)") 3 then drop 3 ptr else ptr

-- The vendor, "(R)" and the blanks behind it.
unfoldable pub remove_vendor : Bytes → Bytes → Bytes
unfolding strn_eq skip_blanks
remove_vendor vendor ptr =
    if strn_eq ptr vendor (length vendor)
    then skip_blanks (skip_mark (drop (length vendor) ptr))
    else ptr

abbrev pub skip_dash : Bytes → Bytes
skip_dash [] = []
skip_dash (c ∷ ptr) = if c == b'-' then ptr else c ∷ ptr

-- The loop over the table, or the text as it is.
unfoldable pub replace : List CpuModelStr → Bytes → Bytes
unfolding strn_eq
replace [] ptr = ptr
replace (m ∷ models) ptr =
    if strn_eq ptr m.name (length m.name) then m.rname else replace models ptr

-- `sigar_cpu_model_adjust`: the model of a vendor, for texts below 128 bytes.
unfoldable pub cpu_model_adjust : Bytes → Bytes → Bytes
unfolding skip_blanks trim_end remove_vendor replace
cpu_model_adjust vendor model =
    replace cpu_models (skip_dash (remove_vendor vendor (trim_end (skip_blanks model))))

abbrev pub u32 : ℕ
u32 = 2 ^ 32

-- SIGAR_FIELD_NOTIMPL as an `int`.
abbrev pub notimpl : ℕ
notimpl = u32 - 1

-- An `int` in two's complement, and where `ptr` is left.
pub record Read : Type 0 where
  pub mhz : ℕ
  pub ptr : Bytes

-- `sigar_strtoul(ptr)`, which moves `ptr` behind the digits, if there are any.
unfoldable pub read_number : Bytes → Read
unfolding scan_number
read_number ptr =
    let r = scan_number ptr in
    record {
      mhz = (if range_unsigned r then 2 ^ 64 - 1 else wrap 64 r.negative r.magnitude) % u32;
      ptr = if r.found then r.rest else ptr;
    }

-- `strchr(ptr, ' ')`; none is NULL.
unfoldable pub find_blank : Bytes → Option Bytes
find_blank [] = none
find_blank (c ∷ ptr) = if c == b' ' then some (c ∷ ptr) else find_blank ptr

unfoldable pub skip_other : Bytes → Bytes
unfolding is_digit
skip_other [] = []
skip_other (c ∷ ptr) = if is_digit c then c ∷ ptr else skip_other ptr

-- The first branch of a round: the digits behind a dot.
abbrev pub add_fraction : ℕ → Read → Read
add_fraction mhz r = record { mhz = (mhz * 100 + r.mhz) % u32; ptr = r.ptr }

abbrev pub is_unit : Bytes → Bool
is_unit ptr = strn_eq ptr (codes "GHz") 3 || strn_eq ptr (codes "MHz") 3

abbrev pub on_dot : Read → Bytes → Option Read
on_dot r [] = none
on_dot r (c ∷ ptr) = if c == b'.' then some (add_fraction r.mhz (read_number ptr)) else none

-- A round behind `strchr`: what ends the loop, if anything does, and where it goes on.
abbrev pub or_unit : Read → Option Read → Option Read
or_unit r (some fraction) = some fraction
or_unit r none = if is_unit r.ptr then some r else none

abbrev pub or_again : Option Read → Read → Read
or_again (some r) again = r
or_again none again = again

-- A round from the number on; `again` is the rest of the loop.
abbrev pub after_number : (Bytes → Read) → Read → Read
after_number again r = or_again (or_unit r (on_dot r r.ptr)) (again r.ptr)

-- A round, by what `strchr` finds.
abbrev pub mhz_round : (Bytes → Read) → Option Bytes → Read
mhz_round again none = record { mhz = notimpl; ptr = [] }
mhz_round again (some blank) = after_number again (read_number (skip_other blank))

-- The `while`, on fuel; every round but the last takes a blank.
unfoldable pub mhz_loop : ℕ → Bytes → Read
unfolding find_blank skip_other read_number strn_eq
mhz_loop zero ptr = record { mhz = notimpl; ptr = ptr }
mhz_loop (suc fuel) ptr = mhz_round (mhz_loop fuel) (find_blank ptr)

-- `sigar_cpu_mhz_from_model`.
unfoldable pub cpu_mhz_from_model : Bytes → ℕ
unfolding mhz_loop strn_eq
cpu_mhz_from_model model =
    let r = mhz_loop (suc (length model)) model in
    if r.mhz == notimpl
    then r.mhz
    else if strn_eq r.ptr (codes "GHz") 3
    then r.mhz * 10 % u32
    else r.mhz
