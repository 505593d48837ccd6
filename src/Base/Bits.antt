-- ===== src/Base/Bits.antt =====
-- Single bits of native numbers, by halving.
use Prim.Native.Nat.{ℕ, zero, suc, ◌+◌, ◌*◌, ◌/◌, ◌%◌}
use mathlib.Core.Bool.{Bool, true}
use mathlib.Core.Logic.{◌≢◌}
use mathlib.Core.Path.{◌≡◌, ap}
use native.Mathlib.Omega.{arith}
use re_co_mon_b.Base.Booleans.{◌==◌}

-- `n & (1 << k)` as a condition.
unfoldable pub test_bit : ℕ → ℕ → Bool
test_bit zero n = n % 2 == 1
test_bit (suc k) n = test_bit k (n / 2)

-- `n | (1 << k)`.
unfoldable pub set_bit : ℕ → ℕ → ℕ
set_bit zero n = n / 2 * 2 + 1
set_bit (suc k) n = n % 2 + 2 * set_bit k (n / 2)

pub test_bit-set_bit_self : (k n : ℕ) → test_bit k (set_bit k n) ≡ true
unfolding test_bit set_bit
test_bit-set_bit_self zero n = ground arith
test_bit-set_bit_self (suc k) n =
    let half : (n % 2 + 2 * set_bit k (n / 2)) / 2 ≡ set_bit k (n / 2) = omega arith in
    rw half (test_bit-set_bit_self k (n / 2))

pub test_bit-set_bit_ne : (k j n : ℕ) → k ≢ j → test_bit k (set_bit j n) ≡ test_bit k n
unfolding test_bit set_bit
test_bit-set_bit_ne zero zero n h = absurd (h (λ i. zero))
test_bit-set_bit_ne zero (suc j) n h = ground arith
test_bit-set_bit_ne (suc k) zero n h = ap (test_bit k) (omega arith)
test_bit-set_bit_ne (suc k) (suc j) n h =
    let half : (n % 2 + 2 * set_bit j (n / 2)) / 2 ≡ set_bit j (n / 2) = omega arith in
    rw half (test_bit-set_bit_ne k j (n / 2) (λ e. h (ap suc e)))
