-- ===== src/Linux/Cpu/Rollup.antt =====
-- os/linux/linux_sigar.c: the times of the processors with the logical processors merged.
use native.Mathlib.Nat.{zero-mod}
use re_co_mon_b.Base.{
  ℕ, suc, ◌+◌, ◌%◌, ◌≡◌, refl, Bool, true, false, List, [], ◌∷◌, Bytes, codes, arith, Bool-cases,
  inl, inr,
}
use re_co_mon_b.Libc.{strn_eq}
use re_co_mon_b.Linux.Cpu.{
  Cpu, Added, zero_cpu, add_times, get_cpu_metrics, read_line, merge, is_merged, cpu_loop, or_total,
  cpu_list_get,
}
use re_co_mon_b.Linux.{u64, System}
use re_co_mon_b.Ptql.Host.{Reply, got, failed}

-- The sum of a counter over the processors.
abbrev pub sum_of : (Cpu → ℕ) → List Cpu → ℕ
sum_of f [] = 0
sum_of f (cpu ∷ cpus) = f cpu + sum_of f cpus

first-new : (rollup : Bool) (lcpu : ℕ) → is_merged rollup (suc lcpu) 0 ≡ false
first-new true lcpu = rw (zero-mod (suc lcpu)) refl
first-new false lcpu = refl

module _ (f : Cpu → ℕ) (g : Added → ℕ)
    (adds : (cpu : Cpu) (a : Added) → f (add_times cpu a) ≡ (f cpu + g a) % u64)
    (starts : f zero_cpu ≡ 0) (sys : System) where
  -- Lists that are both empty, or are not and have the same sum.
  abbrev Same : List Cpu → List Cpu → Type 0
  Same [] [] = Unit
  Same [] (c ∷ y) = ⊥
  Same (c ∷ x) [] = ⊥
  Same (c ∷ x) (c' ∷ y) = sum_of f (c ∷ x) % u64 ≡ sum_of f (c' ∷ y) % u64

  metrics-adds :
      (cpu : Cpu) (ptr : Bytes)
      → f (get_cpu_metrics sys cpu ptr) ≡ (f cpu + g (read_line sys ptr)) % u64
  unfolding get_cpu_metrics
  metrics-adds cpu ptr = adds cpu (read_line sys ptr)

  metrics-start : (ptr : Bytes) → f (get_cpu_metrics sys zero_cpu ptr) ≡ g (read_line sys ptr) % u64
  metrics-start ptr = omega (arith, metrics-adds zero_cpu ptr, starts)

  cpu_loop-Same :
      (rollup : Bool) (lcpu i : ℕ) (c c' : Cpu) (x y : List Cpu) (lines : List Bytes)
      → Same (c ∷ x) (c' ∷ y)
      → Same (cpu_loop sys rollup lcpu i (c ∷ x) lines) (cpu_loop sys false lcpu i (c' ∷ y) lines)
  unfolding cpu_loop merge
  cpu_loop-Same rollup lcpu i c c' x y [] same = same
  cpu_loop-Same rollup lcpu i c c' x y (ptr ∷ lines) same =
      let fresh = get_cpu_metrics sys zero_cpu ptr in
      let start = metrics-start ptr in
      let n = g (read_line sys ptr) in
      elim (Bool-cases (strn_eq ptr (codes "cpu") 3)) [
        | inr other ↦ rw other same
        | inl line ↦ elim (Bool-cases (is_merged rollup lcpu i)) [
          | inl merged ↦
              rw (line, merged)
                (cpu_loop-Same rollup lcpu (suc i) (get_cpu_metrics sys c ptr) fresh x (c' ∷ y)
                  lines (omega (arith, same, start, metrics-adds c ptr)))
          | inr new ↦
              rw (line, new)
                (cpu_loop-Same rollup lcpu (suc i) fresh fresh (c ∷ x) (c' ∷ y) lines
                  (omega (arith, same)))
        ]
      ]

  cpu_loop-start :
      (rollup : Bool) (lcpu : ℕ) (lines : List Bytes)
      → is_merged rollup lcpu 0 ≡ false
      → Same (cpu_loop sys rollup lcpu 0 [] lines) (cpu_loop sys false lcpu 0 [] lines)
  unfolding cpu_loop
  cpu_loop-start rollup lcpu [] new = tt
  cpu_loop-start rollup lcpu (ptr ∷ lines) new =
      let fresh = get_cpu_metrics sys zero_cpu ptr in
      elim (Bool-cases (strn_eq ptr (codes "cpu") 3)) [
        | inr other ↦ rw other tt
        | inl line ↦ rw (line, new) (cpu_loop-Same rollup lcpu 1 fresh fresh [] [] lines refl)
      ]

  or_total-Same :
      (cpu_total : Bytes) (x y : List Cpu)
      → Same x y
      → sum_of f (or_total sys cpu_total x) % u64 ≡ sum_of f (or_total sys cpu_total y) % u64
  unfolding or_total
  or_total-Same cpu_total [] [] same = refl
  or_total-Same cpu_total [] (c ∷ y) same = absurd same
  or_total-Same cpu_total (c ∷ x) [] same = absurd same
  or_total-Same cpu_total (c ∷ x) (c' ∷ y) same = same

  list-Same :
      (rollup : Bool) (lcpu : ℕ) (cpu_total : Bytes) (lines : List Bytes)
      → sum_of f (or_total sys cpu_total (cpu_loop sys rollup (suc lcpu) 0 [] lines)) % u64
        ≡ sum_of f (or_total sys cpu_total (cpu_loop sys false (suc lcpu) 0 [] lines)) % u64
  list-Same rollup lcpu cpu_total lines =
      or_total-Same cpu_total (cpu_loop sys rollup (suc lcpu) 0 [] lines)
        (cpu_loop sys false (suc lcpu) 0 [] lines)
        (cpu_loop-start rollup (suc lcpu) lines (first-new rollup lcpu))

-- The sums of the counters over the processors of an answer; none where it is a failure.
abbrev pub sums : Reply (List Cpu) → List ℕ
sums (failed status) = []
sums (got cpus) =
    sum_of (λ c. c.user) cpus % u64
    ∷ sum_of (λ c. c.sys) cpus % u64
    ∷ sum_of (λ c. c.nice) cpus % u64
    ∷ sum_of (λ c. c.idle) cpus % u64
    ∷ sum_of (λ c. c.wait) cpus % u64
    ∷ sum_of (λ c. c.irq) cpus % u64
    ∷ sum_of (λ c. c.soft_irq) cpus % u64
    ∷ sum_of (λ c. c.stolen) cpus % u64
    ∷ []

-- Whether the logical processors of a core are merged or not, the sums of the eight counters over
-- the processors of the list are the same modulo 2 ^ 64: the merging neither loses nor doubles
-- time. There is at least one logical processor in a core.
pub cpu_list_get-sums :
    (sys : System) (rollup : Bool) (lcpu : ℕ) (file : Reply (Bytes × List Bytes))
    → sums (cpu_list_get sys rollup (suc lcpu) file) ≡ sums (cpu_list_get sys false (suc lcpu) file)
unfolding cpu_list_get
cpu_list_get-sums sys rollup lcpu (failed errno) = refl
cpu_list_get-sums sys rollup lcpu (got (cpu_total, lines)) =
    rw
      (
        list-Same (λ c. c.user) (λ a. a.user) (λ c a. refl) refl sys rollup lcpu cpu_total lines,
        list-Same (λ c. c.sys) (λ a. a.sys) (λ c a. refl) refl sys rollup lcpu cpu_total lines,
        list-Same (λ c. c.nice) (λ a. a.nice) (λ c a. refl) refl sys rollup lcpu cpu_total lines,
        list-Same (λ c. c.idle) (λ a. a.idle) (λ c a. refl) refl sys rollup lcpu cpu_total lines,
        list-Same (λ c. c.wait) (λ a. a.wait) (λ c a. refl) refl sys rollup lcpu cpu_total lines,
        list-Same (λ c. c.irq) (λ a. a.irq) (λ c a. refl) refl sys rollup lcpu cpu_total lines,
        list-Same (λ c. c.soft_irq) (λ a. a.soft_irq) (λ c a. refl) refl sys rollup lcpu cpu_total
            lines,
        list-Same (λ c. c.stolen) (λ a. a.stolen) (λ c a. refl) refl sys rollup lcpu cpu_total
            lines,
      )
      refl
