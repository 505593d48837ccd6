-- ===== src/Util/Usage/Percent.antt =====
-- The rounding in sigar_util.c of memory sizes and percentages.
use re_co_mon_b.Base.{
  ℕ, ◌+◌, ◌-◌, ◌*◌, ◌/◌, ◌%◌, ◌^◌, ◌<◌, ◌≤◌, ◌≡◌, ◌≢◌, refl, Bool, true, false, Option, none, some,
  arith, ◌==◌, ==_iff, if◌then◌else◌,
}
use native.Mathlib.Nat.{div-add-mod', le_of_mul-le-mul_left, lt_of_mul-lt-mul_left, mul_comm}
use re_co_mon_b.Cache.Buckets.{mod-lt}
use re_co_mon_b.Libc.Double.{Doubles}
use re_co_mon_b.Util.Usage.{Mem, round_ram, mem_calc_ram, FileSystemUsage, usage_percent, u64}

-- Of less than 2 ^ 51 - 2 ^ 23 bytes, the memory is reported as the least multiple of 8 megabytes that
-- has all its whole megabytes, and the function's result is the same number.
mem_calc_ram_lem :
    (d : Doubles) (mem : Mem)
    → mem.total < 2 ^ 51 - 2 ^ 23
    → let (ram, calc) = mem_calc_ram d mem in
      (calc.ram ≡ ram)
      × (ram % 8 ≡ 0)
      × (mem.total / (1024 * 1024) ≤ ram)
      × (ram < mem.total / (1024 * 1024) + 8)
unfolding mem_calc_ram round_ram
mem_calc_ram_lem d mem l = ground arith

-- What `usage_percent` is for `used` kilobytes used of `all`.
abbrev pub IsShare : ℕ → ℕ → Option ℕ → Type 0
IsShare used all none = all ≡ 0
IsShare used all (some pct) =
    (used * 100 ≤ pct * all) × (pct * all < used * 100 + all) × (pct ≤ 100)

even-IsShare :
    (used all : ℕ)
    → used ≤ all
    → 0 < all
    → used * 100 % all ≡ 0
    → IsShare used all (some (used * 100 / all + 0))
even-IsShare used all l pos e =
    let whole : used * 100 / all * all + used * 100 % all ≡ used * 100 =
      div-add-mod' (used * 100) all in
    let below : used * 100 / all ≤ 100 =
      le_of_mul-le-mul_left {k = all} (omega (arith, whole, l, mul_comm all (used * 100 / all)))
        pos in
    (omega (arith, whole, e), omega (arith, whole, pos), omega (arith, below))

odd-IsShare :
    (used all : ℕ)
    → used ≤ all
    → 0 < all
    → used * 100 % all ≢ 0
    → IsShare used all (some (used * 100 / all + 1))
odd-IsShare used all l pos e =
    let whole : used * 100 / all * all + used * 100 % all ≡ used * 100 =
      div-add-mod' (used * 100) all in
    let less : used * 100 / all < 100 =
      lt_of_mul-lt-mul_left all (omega (arith, whole, e, l, mul_comm all (used * 100 / all))) in
    let part : used * 100 % all < all = mod-lt (used * 100) all pos in
    (omega (arith, whole, part), omega (arith, whole, e), omega (arith, less))

pos_of : (n : ℕ) → (n == 0) ≡ false → 0 < n
pos_of n z = ground arith

ne_of : (n : ℕ) → (n == 0) ≡ false → n ≢ 0
ne_of n z = ground arith

round-IsShare :
    (used all : ℕ) (zero_all even : Bool)
    → (all == 0) ≡ zero_all
    → (used * 100 % all == 0) ≡ even
    → used ≤ all
    → IsShare used all (
        if all == 0
        then none
        else some (used * 100 / all + (if used * 100 % all == 0 then 0 else 1)))
round-IsShare used all true even z e l = rw z ((==_iff all 0).0 z)
round-IsShare used all false true z e l =
    rw (z, e) (even-IsShare used all l (pos_of all z) ((==_iff _ 0).0 e))
round-IsShare used all false false z e l =
    rw (z, e) (odd-IsShare used all l (pos_of all z) (ne_of _ e))

-- With no more blocks free than there are, the percentage is the share of the used kilobytes in
-- those used and available, rounded up, and at most 100; there is none only if both are zero.
usage_percent_lem :
    (fs : FileSystemUsage)
    → fs.free ≤ fs.total
    → fs.total < u64
    → fs.avail < u64
    → IsShare
        ((fs.total - fs.free) / 1024)
        ((fs.total - fs.free) / 1024 + fs.avail / 1024)
        (usage_percent fs)
unfolding usage_percent
usage_percent_lem fs f t a =
    let used = (fs.total - fs.free) / 1024 in
    let difference : (fs.total + u64 - fs.free) % u64 ≡ fs.total - fs.free = omega (arith, f, t) in
    let sum : (used + fs.avail / 1024) % u64 ≡ used + fs.avail / 1024 = omega (arith, t, a) in
    let hundred : used * 100 % u64 ≡ used * 100 = omega (arith, t) in
    rw (difference, sum, hundred)
      (round-IsShare used (used + fs.avail / 1024) _ _ refl refl (omega arith))
