-- ===== src/Linux/Fields.antt =====
-- Lines of fields that a blank stands before, as the kernel writes them, under the walk of
-- os/linux/linux_sigar.c over them.
use re_co_mon_b.Base.{
  ℕ, ◌-◌, ◌%◌, ◌^◌, ◌<◌, ◌≡◌, refl, sym, ap, ◌∙◌, true, false, not, List, [], ◌∷◌, ◌++◌, Bytes,
  arith, ltb, all_of, length,
}
use re_co_mon_b.Libc.Number.{scan_sign, scan_number}
use re_co_mon_b.Libc.{is_digit, is_space}
use re_co_mon_b.Linux.{strtoull}
use re_co_mon_b.Util.CpuModel.Mhz.{are_digits, value_from, stops, scan_digits-digits, digit-plain}
use re_co_mon_b.Util.Text.{skip_spaces, skip_word, skip_token, skip_multiple_token}

abbrev pub fields : List Bytes → Bytes
fields [] = []
fields (w ∷ ws) = b' ' ∷ (w ++ fields ws)

-- A text with no blank in it, and not empty.
abbrev pub IsWord : Bytes → Type 0
IsWord [] = ⊥
IsWord (c ∷ w) = all_of (λ c. not (is_space c)) (c ∷ w) ≡ true

abbrev pub value : Bytes → ℕ
value w = value_from 0 w

-- The digits of a number of 64 bits.
abbrev pub IsNumber : Bytes → Type 0
IsNumber [] = ⊥
IsNumber (c ∷ w) = (are_digits (c ∷ w) ≡ true) × (value (c ∷ w) < 2 ^ 64)

fields-stops : (ws : List Bytes) → stops (fields ws) ≡ true
unfolding is_digit
fields-stops [] = refl
fields-stops (w ∷ ws) = refl

skip_word-fields :
    (w : Bytes) (ws : List Bytes)
    → all_of (λ c. not (is_space c)) w ≡ true
    → skip_word (w ++ fields ws) ≡ fields ws
unfolding skip_word
skip_word-fields [] [] h = refl
skip_word-fields [] (v ∷ ws) h = unfold is_space in refl
skip_word-fields (c ∷ w) ws h =
    let word : is_space c ≡ false = ground (arith, h) in
    rw word (skip_word-fields w ws (ground (arith, h)))

pub skip_token-fields :
    (w : Bytes) (ws : List Bytes) → IsWord w → skip_token (fields (w ∷ ws)) ≡ fields ws
unfolding skip_token skip_spaces
skip_token-fields [] ws h = absurd h
skip_token-fields (c ∷ w) ws h =
    let word : is_space c ≡ false = ground (arith, h) in rw word (skip_word-fields (c ∷ w) ws h)

digits-word : (w : Bytes) → are_digits w ≡ true → all_of (λ c. not (is_space c)) w ≡ true
digits-word [] h = refl
digits-word (c ∷ w) h =
    let word : is_space c ≡ false = (digit-plain c (ground (arith, h))).0 in
    rw word (digits-word w (ground (arith, h)))

pub number-IsWord : (w : Bytes) → IsNumber w → IsWord w
number-IsWord [] h = absurd h
number-IsWord (c ∷ w) h = digits-word (c ∷ w) h.0

-- A number that a blank stands before.
pub scan_number-cell :
    (w rest : Bytes)
    → IsNumber w
    → stops rest ≡ true
    → scan_number (b' ' ∷ (w ++ rest))
      ≡ (record { negative = false; found = true; magnitude = value w; rest = rest })
unfolding scan_number scan_sign
scan_number-cell [] rest h e = absurd h
scan_number-cell (c ∷ w) rest (digits, small) e =
    let p = digit-plain c (ground (arith, digits)) in
    rw (p.0, p.1, p.2, scan_digits-digits false 0 (c ∷ w) rest digits e) refl

pub value-fits : (w : Bytes) → IsNumber w → value w < 2 ^ 64
value-fits [] h = absurd h
value-fits (c ∷ w) h = h.1

pub strtoull-cell :
    (w rest : Bytes)
    → IsNumber w
    → stops rest ≡ true
    → strtoull (b' ' ∷ (w ++ rest)) ≡ (value w, rest)
unfolding strtoull
strtoull-cell w rest h e =
    let small = value-fits w h in
    let fits : ltb (2 ^ 64 - 1) (value w) ≡ false = ground (arith, small) in
    let whole : value w % 2 ^ 64 ≡ value w = omega (arith, small) in
    rw (scan_number-cell w rest h e, fits, whole) refl

pub strtoull-number :
    (w : Bytes) (ws : List Bytes) → IsNumber w → strtoull (w ++ fields ws) ≡ (value w, fields ws)
unfolding strtoull scan_number scan_sign
strtoull-number [] ws h = absurd h
strtoull-number (c ∷ w) ws (digits, small) =
    let p = digit-plain c (ground (arith, digits)) in
    let fits : ltb (2 ^ 64 - 1) (value (c ∷ w)) ≡ false = ground (arith, small) in
    let whole : value (c ∷ w) % 2 ^ 64 ≡ value (c ∷ w) = omega (arith, small) in
    let scanned = scan_digits-digits false 0 (c ∷ w) (fields ws) digits (fields-stops ws) in
    rw (p.0, p.1, p.2, scanned, fits, whole) refl

pub strtoull-fields :
    (w : Bytes) (ws : List Bytes) → IsNumber w → strtoull (fields (w ∷ ws)) ≡ (value w, fields ws)
strtoull-fields w ws h = strtoull-cell w (fields ws) h (fields-stops ws)

abbrev pub AreWords : List Bytes → Type 0
AreWords [] = Unit
AreWords (w ∷ ws) = IsWord w × AreWords ws

pub skip_multiple_token-fields :
    (ws vs : List Bytes)
    → AreWords ws
    → skip_multiple_token (fields (ws ++ vs)) (length ws) ≡ fields vs
unfolding skip_multiple_token
skip_multiple_token-fields [] vs h = refl
skip_multiple_token-fields (w ∷ ws) vs h =
    ap (λ p. skip_multiple_token p (length ws)) (skip_token-fields w (ws ++ vs) h.0)
    ∙ skip_multiple_token-fields ws vs h.1

-- Fields that are skipped together.
pub skip-cells :
    (n : ℕ) (ws vs : List Bytes)
    → AreWords ws × (length ws ≡ n)
    → skip_multiple_token (fields (ws ++ vs)) n ≡ fields vs
skip-cells n ws vs (words, count) =
    ap (λ k. skip_multiple_token (fields (ws ++ vs)) k) (sym count)
    ∙ skip_multiple_token-fields ws vs words
