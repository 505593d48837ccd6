-- ===== src/Format/Cpu.antt =====
-- `sigar_cpu_perc_calculate` of sigar_format.c.
pub mod Clamp
use re_co_mon_b.Base.{ℕ, ◌+◌, ◌-◌, ◌%◌, ◌^◌, if◌then◌else◌}
use re_co_mon_b.Libc.Double.{Doubles}

-- `sigar_cpu_t`: counters of 64 bits.
pub record Cpu : Type 0 where
  pub user : ℕ
  pub sys : ℕ
  pub nice : ℕ
  pub idle : ℕ
  pub wait : ℕ
  pub irq : ℕ
  pub soft_irq : ℕ
  pub stolen : ℕ

-- `sigar_cpu_perc_t`.
pub record CpuPerc (D : Type 0) : Type 0 where
  pub user : D
  pub sys : D
  pub nice : D
  pub idle : D
  pub wait : D
  pub irq : D
  pub soft_irq : D
  pub stolen : D
  pub combined : D

module _ (d : Doubles) where
  -- The difference of two counters, unsigned, as a floating-point number.
  unfoldable pub diff : ℕ → ℕ → d.Double
  diff prev curr = d.of_u64 ((curr + 2 ^ 64 - prev) % 2 ^ 64)

  -- `diff < 0 ? 0 : diff`.
  unfoldable pub clamp : d.Double → d.Double
  clamp x = if d.is_negative x then d.zero_dbl else x

  -- The differences of all counters, after a treatment of each.
  abbrev pub diffs : (d.Double → d.Double) → Cpu → Cpu → CpuPerc d.Double
  diffs f prev curr = record {
    user = f (diff prev.user curr.user);
    sys = f (diff prev.sys curr.sys);
    nice = f (diff prev.nice curr.nice);
    idle = f (diff prev.idle curr.idle);
    wait = f (diff prev.wait curr.wait);
    irq = f (diff prev.irq curr.irq);
    soft_irq = f (diff prev.soft_irq curr.soft_irq);
    stolen = f (diff prev.stolen curr.stolen);
    combined = d.zero_dbl;
  }

  -- `diff_total`, added from the left.
  unfoldable pub sum : CpuPerc d.Double → d.Double
  sum c =
      d.add
        (d.add (d.add (d.add (d.add (d.add (d.add c.user c.sys) c.nice) c.idle) c.wait) c.irq)
          c.soft_irq)
        c.stolen

  -- The shares of a total.
  unfoldable pub shares : d.Double → CpuPerc d.Double → CpuPerc d.Double
  shares total c = record {
    user = d.div c.user total;
    sys = d.div c.sys total;
    nice = d.div c.nice total;
    idle = d.div c.idle total;
    wait = d.div c.wait total;
    irq = d.div c.irq total;
    soft_irq = d.div c.soft_irq total;
    stolen = d.div c.stolen total;
    combined =
        d.add (d.add (d.add (d.div c.user total) (d.div c.sys total)) (d.div c.nice total))
          (d.div c.wait total);
  }

  unfoldable pub perc_of : CpuPerc d.Double → CpuPerc d.Double
  unfolding sum shares
  perc_of c = shares (sum c) c

  unfoldable pub cpu_perc_calculate : Cpu → Cpu → CpuPerc d.Double
  unfolding diff clamp perc_of
  cpu_perc_calculate prev curr = perc_of (diffs clamp prev curr)
