-- ===== src/Format/Uptime.antt =====
-- `sigar_uptime_string` of sigar_format.c.
use re_co_mon_b.Base.{
  ℕ, ◌+◌, ◌*◌, ◌/◌, ◌%◌, ◌<◌, ◌≡◌, [], ◌∷◌, ◌++◌, Option, none, some, Bytes, codes, arith, ltb,
  ◌==◌, if◌then◌else◌,
}
use re_co_mon_b.Format.Size.{print_int}
use re_co_mon_b.Util.Text.{uitoa}

-- What is printed: the days, hours and minutes.
pub record Parts : Type 0 where
  pub days : ℕ
  pub hours : ℕ
  pub minutes : ℕ

-- `time` is the uptime cut to an `int`, which is not negative.
unfoldable pub parts : ℕ → Parts
parts time = record {
  days = time / (60 * 60 * 24);
  hours = time / 60 / 60 % 24;
  minutes = time / 60 % 60;
}

-- `sprintf("%2d:%02d", hours, minutes)`.
unfoldable pub clock : ℕ → ℕ → Bytes
unfolding print_int
clock hours minutes =
    (if ltb hours 10 then b' ' ∷ print_int hours else print_int hours)
    ++ b':' ∷ (if ltb minutes 10 then b'0' ∷ print_int minutes else print_int minutes)

unfoldable pub write_days : ℕ → Option Bytes
unfolding uitoa
write_days days = if days == 0 then some [] else elim (uitoa days) [
  | none ↦ none
  | some n ↦ some (n ++ codes " day" ++ (if ltb 1 days then codes "s" else []) ++ codes ", ")
]

unfoldable pub uptime_string : ℕ → Option Bytes
unfolding parts clock write_days
uptime_string time =
    let p = parts time in
    elim (write_days p.days) [
      | none ↦ none
      | some days ↦ some (
          days
          ++ (if p.hours == 0
              then print_int p.minutes ++ codes " min"
              else clock p.hours p.minutes))
    ]

-- The printed parts are the time in whole minutes: hours below 24 and minutes below 60.
pub parts_lem :
    (time : ℕ)
    → let p = parts time in
      (p.days * 1440 + p.hours * 60 + p.minutes ≡ time / 60) × (p.hours < 24) × (p.minutes < 60)
unfolding parts
parts_lem time = (omega arith, omega arith, omega arith)
