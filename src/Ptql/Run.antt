-- ===== src/Ptql/Run.antt =====
-- Runs of the parts of sigar_ptql.c that may have undefined behaviour.

-- `fault` stands for undefined behaviour: a union read through a member that was not written, a
-- null or wild pointer followed, or a table read past its end.
pub data Run {ℓ} (A : Type ℓ) : Type ℓ where
  done : A → Run A
  fault : Run A

infixl 5 ◌>>=◌
abbrev pub ◌>>=◌ {ℓ κ} : {A : Type ℓ} {B : Type κ} → Run A → (A → Run B) → Run B
done a >>= f = f a
fault >>= f = fault
