-- ===== src/Format/Cpu/Clamp.antt =====
-- What `sigar_cpu_perc_calculate` of sigar_format.c makes of counters that went back.
use re_co_mon_b.Base.{ℕ, ◌-◌, ◌^◌, ◌<◌, ◌≡◌, refl, ap, ◌∙◌, false, arith, leb, if◌then◌else◌}
use re_co_mon_b.Format.Cpu.{Cpu, CpuPerc, diff, clamp, sum, shares, perc_of, cpu_perc_calculate}
use re_co_mon_b.Libc.Double.{Doubles}

-- How much a counter has grown, and what a counter that went back seems to have grown.
abbrev pub growth : ℕ → ℕ → ℕ
growth prev curr = if leb prev curr then curr - prev else 2 ^ 64 - (prev - curr)

abbrev pub growths : Cpu → Cpu → Cpu
growths prev curr = record {
  user = growth prev.user curr.user;
  sys = growth prev.sys curr.sys;
  nice = growth prev.nice curr.nice;
  idle = growth prev.idle curr.idle;
  wait = growth prev.wait curr.wait;
  irq = growth prev.irq curr.irq;
  soft_irq = growth prev.soft_irq curr.soft_irq;
  stolen = growth prev.stolen curr.stolen;
}

abbrev pub AreU64 : Cpu → Type 0
AreU64 c =
    (c.user < 2 ^ 64)
    × (c.sys < 2 ^ 64)
    × (c.nice < 2 ^ 64)
    × (c.idle < 2 ^ 64)
    × (c.wait < 2 ^ 64)
    × (c.irq < 2 ^ 64)
    × (c.soft_irq < 2 ^ 64)
    × (c.stolen < 2 ^ 64)

module _ (d : Doubles) where
  -- The percentages that differences make, which are of the sum of all eight, with that of user,
  -- sys, nice and wait together.
  abbrev pub percentages : Cpu → CpuPerc d.Double
  percentages g =
      let total =
        d.add
          (d.add
            (d.add
              (d.add
                (d.add (d.add (d.add (d.of_u64 g.user) (d.of_u64 g.sys)) (d.of_u64 g.nice))
                  (d.of_u64 g.idle))
                (d.of_u64 g.wait))
              (d.of_u64 g.irq))
            (d.of_u64 g.soft_irq))
          (d.of_u64 g.stolen) in
      let share : ℕ → d.Double = λ n. d.div (d.of_u64 n) total in
      record {
        user = share g.user;
        sys = share g.sys;
        nice = share g.nice;
        idle = share g.idle;
        wait = share g.wait;
        irq = share g.irq;
        soft_irq = share g.soft_irq;
        stolen = share g.stolen;
        combined = d.add (d.add (d.add (share g.user) (share g.sys)) (share g.nice)) (share g.wait);
      }

  diff-growth :
      (prev curr : ℕ)
      → prev < 2 ^ 64
      → curr < 2 ^ 64
      → clamp d (diff d prev curr) ≡ clamp d (d.of_u64 (growth prev curr))
  unfolding diff
  diff-growth prev curr p c = ap (λ n. clamp d (d.of_u64 n)) (ground (arith, p, c))

  clamp-of_u64 :
      ((n : ℕ) → d.is_negative (d.of_u64 n) ≡ false) → (n : ℕ) → clamp d (d.of_u64 n) ≡ d.of_u64 n
  unfolding clamp
  clamp-of_u64 unsigned n = rw (unsigned n) refl

  -- Where no unsigned number is converted to a negative one, the tests for a negative difference
  -- never hold: the percentages are those of the growths of the counters, in which a counter that
  -- went back has grown by 2 ^ 64 less what it lost. The counters are of 64 bits.
  pub cpu_perc_calculate-unclamped :
      ((n : ℕ) → d.is_negative (d.of_u64 n) ≡ false)
      → (prev curr : Cpu) → AreU64 prev
      → AreU64 curr
      → cpu_perc_calculate d prev curr ≡ percentages (growths prev curr)
  unfolding cpu_perc_calculate perc_of sum shares
  cpu_perc_calculate-unclamped unsigned prev curr p c =
      let kept : (a b : ℕ)
          → a < 2 ^ 64
          → b < 2 ^ 64
          → clamp d (diff d a b) ≡ d.of_u64 (growth a b) =
        λ a b l m. diff-growth a b l m ∙ clamp-of_u64 unsigned (growth a b) in
      rw
        (
          kept prev.user curr.user p.0 c.0,
          kept prev.sys curr.sys p.1 c.1,
          kept prev.nice curr.nice p.2 c.2,
          kept prev.idle curr.idle p.3 c.3,
          kept prev.wait curr.wait p.4 c.4,
          kept prev.irq curr.irq p.5 c.5,
          kept prev.soft_irq curr.soft_irq p.6 c.6,
          kept prev.stolen curr.stolen p.7 c.7,
        )
        refl
