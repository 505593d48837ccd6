-- ===== src/Libc/Split.antt =====
-- `strchr`: the split at the first occurrence of a byte.
use re_co_mon_b.Base.{
  ℕ, ◌≡◌, refl, ap, true, false, not, all_of, arith, [], ◌∷◌, ◌++◌, Option, none, some, Bytes, ◌==◌,
  ==_iff, ==_refl, inl, inr, Bool-cases,
}
use re_co_mon_b.Libc.{prepend, split_at}

-- The byte does not stand in the text.
abbrev pub IsFree : ℕ → Bytes → Type 0
IsFree c [] = Unit
IsFree c (x ∷ s) = (x == c ≡ false) × IsFree c s

pub split_at-append : (c : ℕ) (a b : Bytes) → IsFree c a → split_at c (a ++ c ∷ b) ≡ some (a, b)
unfolding split_at
split_at-append c [] b f = rw (==_refl c)
split_at-append c (x ∷ a) b f = rw (f.0, split_at-append c a b f.1)

-- What a split tells of the text.
abbrev pub Splits : ℕ → Bytes → Option (Bytes × Bytes) → Type 0
Splits c s none = IsFree c s
Splits c s (some (a, b)) = (s ≡ a ++ c ∷ b) × IsFree c a

prepend-Splits :
    (c x : ℕ) (s : Bytes) (r : Option (Bytes × Bytes))
    → (x == c ≡ false)
    → Splits c s r
    → Splits c (x ∷ s) (prepend x r)
prepend-Splits c x s none n h = (n, h)
prepend-Splits c x s (some (a, b)) n h = (ap (◌∷◌ x) h.0, (n, h.1))

pub split_at-Splits : (c : ℕ) (s : Bytes) → Splits c s (split_at c s)
unfolding split_at
split_at-Splits c [] = tt
split_at-Splits c (x ∷ s) = elim (Bool-cases (x == c)) [
  | inl e ↦ rw (e, (==_iff x c).0 e) (refl, tt)
  | inr n ↦ rw n (prepend-Splits c x s (split_at c s) n (split_at-Splits c s))
]

pub split_at-eq-some :
    (c : ℕ) (s a b : Bytes) → split_at c s ≡ some (a, b) → (s ≡ a ++ c ∷ b) × IsFree c a
split_at-eq-some c s a b h = rw h at (split_at-Splits c s)

pub all_of-IsFree : (c : ℕ) (s : Bytes) → all_of (λ x. not (x == c)) s ≡ true → IsFree c s
all_of-IsFree c [] h = tt
all_of-IsFree c (x ∷ s) h = (ground (arith, h), all_of-IsFree c s (ground (arith, h)))
