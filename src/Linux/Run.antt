-- ===== src/Linux/Run.antt =====
-- os/linux/linux_sigar.c: how the code that reads a text may end, if it does not end well.

-- A read behind the end of a text, a write outside a buffer, a read of a variable that was not set
-- or through NULL, an `int` that grows past its largest value, and a loop that has not ended within
-- its fuel.
pub data Fault : Type 0 where
  overrun smashed unset overflowed unfinished : Fault

pub data Run {ℓ} (A : Type ℓ) : Type ℓ where
  done : A → Run A
  fault : Fault → Run A

infixl 5 ◌>>=◌
abbrev pub ◌>>=◌ {ℓ κ} : {A : Type ℓ} {B : Type κ} → Run A → (A → Run B) → Run B
done a >>= f = f a
fault e >>= f = fault e
