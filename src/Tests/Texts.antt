-- ===== src/Tests/Texts.antt =====
-- The theorems on texts, sizes and addresses at concrete inputs.
use re_co_mon_b.Base.{ℕ, ◌<◌, ◌+◌, ◌-◌, ◌^◌, ◌≡◌, refl, arith}
use re_co_mon_b.Format.Cpu.{Cpu, cpu_perc_calculate}
use re_co_mon_b.Format.Cpu.Clamp.{AreU64, growths, percentages, cpu_perc_calculate-unclamped}
use re_co_mon_b.Format.Size.{format_size}
use re_co_mon_b.Format.Size.Width.{FourBytes, format_size-FourBytes}
use re_co_mon_b.Tests.Machine.{whole}
use re_co_mon_b.Util.Usage.{Mem, FileSystemUsage}

abbrev mem : Mem
mem = record { total = 2 ^ 30 + 5; actual_free = 2 ^ 20; actual_used = 2 ^ 29 }

abbrev usage : FileSystemUsage
usage = record { total = 10000000; free = 4000000; avail = 3000000 }

format_size-FourBytes_example : FourBytes (format_size (2 ^ 64 - 1) 1048576)
format_size-FourBytes_example =
    format_size-FourBytes (2 ^ 64 - 1) 1048576 (omega arith) (omega arith)

abbrev cpu : ℕ → Cpu
cpu user = record {
  user = user;
  sys = 2;
  nice = 0;
  idle = 5;
  wait = 0;
  irq = 0;
  soft_irq = 0;
  stolen = 0;
}

cpu-AreU64 : (n : ℕ) → n < 2 ^ 64 → AreU64 (cpu n)
cpu-AreU64 n l =
    (l, omega arith, omega arith, omega arith, omega arith, omega arith, omega arith, omega arith)

-- A counter that went back by one.
cpu_perc_calculate-unclamped_example :
    cpu_perc_calculate whole (cpu 4) (cpu 3) ≡ percentages whole (growths (cpu 4) (cpu 3))
cpu_perc_calculate-unclamped_example =
    cpu_perc_calculate-unclamped whole (λ n. refl) (cpu 4) (cpu 3) (cpu-AreU64 4 (omega arith))
      (cpu-AreU64 3 (omega arith))
