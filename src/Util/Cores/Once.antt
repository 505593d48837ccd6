-- ===== src/Util/Cores/Once.antt =====
-- sigar_util.c: when the logical processors are rolled up.
use re_co_mon_b.Base.{
  ℕ, ◌<◌, ◌≡◌, refl, ap, ◌&&◌, Bool, true, false, Option, none, some, arith, ltb, if◌then◌else◌,
}
use re_co_mon_b.Util.Cores.{Cpuid, Settings, cpu_core_count, is_unset, cpu_core_rollup}

-- The answer, from the members.
abbrev answer : Bool → Bool → Bool → Bool → Bool
answer cores debug unset many = if cores then false else (debug && unset) && many

answer-true :
    (cores debug unset many : Bool)
    → answer cores debug unset many ≡ true
    → (unset ≡ true) × (debug ≡ true) × (cores ≡ false) × (many ≡ true)
answer-true true debug unset many h = ground (arith, h)
answer-true false true true true h = (refl, refl, refl, refl)
answer-true false true true false h = ground (arith, h)
answer-true false true false many h = ground (arith, h)
answer-true false false unset many h = ground (arith, h)

answer-set : (cores debug many : Bool) → answer cores debug false many ≡ false
answer-set true debug many = refl
answer-set false true many = refl
answer-set false false many = refl

is_unset-none : (o : Option ℕ) → is_unset o ≡ true → o ≡ none
is_unset-none none h = refl
is_unset-none (some lcpu) h = ground (arith, h)

-- The logical processors are rolled up only at a call that finds their number unset while the log
-- is at SIGAR_LOG_DEBUG, and then there are more than one of them, so that a remainder by their
-- number is defined. Whatever the first of two calls answers, the second answers that they are
-- not, and leaves their number.
pub cpu_core_rollup-once :
    (cpuid : ℕ → Cpuid) (s : Settings)
    → let (left, rollup) = cpu_core_rollup cpuid s in
      (rollup ≡ true
        → (s.lcpu ≡ none)
          × (s.is_debug ≡ true)
          × (s.cpu_list_cores ≡ false)
          × (1 < cpu_core_count cpuid s.lcpu))
      × (cpu_core_rollup cpuid left ≡ (left, false))
unfolding cpu_core_rollup cpu_core_count
cpu_core_rollup-once cpuid s =
    let lcpu = cpu_core_count cpuid s.lcpu in
    (
      λ h.
          let a = answer-true s.cpu_list_cores s.is_debug (is_unset s.lcpu) (ltb 1 lcpu) h in
          (is_unset-none s.lcpu a.0, a.1, a.2, ground (arith, a.3)),
      ap (λ b. (record s { lcpu = some lcpu }, b))
          (answer-set s.cpu_list_cores s.is_debug (ltb 1 lcpu)),
    )
