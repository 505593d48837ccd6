-- ===== src/Util/Text/Words.antt =====
-- `sigar_getword` of sigar_util.c cuts a line into its words.
use re_co_mon_b.Base.{
  ℕ, ◌≡◌, refl, ap, ◌∙◌, [], ◌∷◌, ◌++◌, Bytes, ◌==◌, ==_iff, Bool-cases, false, inl, inr, replicate,
  suc,
}
use re_co_mon_b.Libc.Split.{IsFree}
use re_co_mon_b.Util.Text.{take_word, skip_stops, getword}

-- The text is empty or goes on with another byte.
abbrev pub StartsOther : ℕ → Bytes → Type 0
StartsOther stop [] = Unit
StartsOther stop (c ∷ s) = (c == stop) ≡ false

take_word_lem :
    (stop : ℕ) (line : Bytes)
    → let (word, rest) = take_word stop line in (line ≡ word ++ rest) × IsFree stop word
unfolding take_word
take_word_lem stop [] = (refl, tt)
take_word_lem stop (c ∷ line) = elim (Bool-cases (c == stop)) [
  | inl e ↦ rw e (refl, tt)
  | inr n ↦ rw n (ap (◌∷◌ c) (take_word_lem stop line).0, (n, (take_word_lem stop line).1))
]

skip_stops_lem :
    (stop : ℕ) (s : Bytes)
    → (n : ℕ) × (s ≡ replicate n stop ++ skip_stops stop s) × StartsOther stop (skip_stops stop s)
unfolding skip_stops
skip_stops_lem stop [] = (0, refl, tt)
skip_stops_lem stop (c ∷ s) = elim (Bool-cases (c == stop)) [
  | inl e ↦
      let (n, p, o) = skip_stops_lem stop s in
      rw e (
        suc n,
        (ap (◌∷◌ c) p
            ∙ ap (λ x. x ∷ (replicate n stop ++ skip_stops stop s)) ((==_iff c stop).0 e)),
        o,
      )
  | inr n ↦ rw n (0, refl, n)
]

-- The line is the word, some stops and the rest; the word has no stop, and the rest starts with
-- none.
getword_lem :
    (line : Bytes) (stop : ℕ)
    → let (word, rest) = getword line stop in
      (n : ℕ) × (line ≡ word ++ (replicate n stop ++ rest))
      × IsFree stop word
      × StartsOther stop rest
unfolding getword
getword_lem line stop =
    let (e, free) = take_word_lem stop line in
    let (n, p, o) = skip_stops_lem stop (take_word stop line).1 in
    (n, e ∙ ap (◌++◌ (take_word stop line).0) p, free, o)
