-- ===== src/Linux/Vendor/KeyValues.antt =====
-- os/linux/linux_sigar.c: the texts of keys and values that `kv_parse` reads, and those at which it
-- does not end.
use re_co_mon_b.Base.{
  ℕ, zero, suc, ◌+◌, ◌≤◌, ◌<◌, ◌≡◌, refl, ap, ◌∙◌, true, some, List, [], ◌∷◌, ◌++◌, Bytes, arith,
  ltb, length, length-append,
}
use re_co_mon_b.Libc.Split.{IsFree, split_at-append}
use re_co_mon_b.Libc.{split_at}
use re_co_mon_b.Linux.Env.Entries.{split_at-free}
use re_co_mon_b.Linux.Run.{done, fault, unfinished, ◌>>=◌}
use re_co_mon_b.Linux.Vendor.{SysInfo, on_pair, on_key, unquote, kv_loop, hand_on, kv_parse}

-- A line for each key and value, and what stands behind the lines.
abbrev pub kv_text : List (Bytes × Bytes) → Bytes → Bytes
kv_text [] rest = rest
kv_text ((key, val) ∷ pairs) rest = key ++ b'=' ∷ (val ++ 10 ∷ kv_text pairs rest)

-- The keys are shorter than 256 bytes and have no `=`, and the values have no line feed.
abbrev pub AreLines : List (Bytes × Bytes) → Type 0
AreLines [] = Unit
AreLines ((key, val) ∷ pairs) =
    IsFree b'=' key × (length key < 256) × IsFree 10 val × AreLines pairs

abbrev pub unquoted : List (Bytes × Bytes) → List (Bytes × Bytes)
unquoted [] = []
unquoted ((key, val) ∷ pairs) = (key, unquote val) ∷ unquoted pairs

kv_loop-round :
    (fuel c : ℕ) (ptr key val rest : Bytes)
    → split_at b'=' (c ∷ ptr) ≡ some (key, val ++ 10 ∷ rest)
    → IsFree 10 val
    → length key < 256
    → kv_loop (suc fuel) (c ∷ ptr)
      ≡ kv_loop fuel rest >>= λ pairs. done ((key, unquote val) ∷ pairs)
unfolding kv_loop on_pair on_key
kv_loop-round fuel c ptr key val rest cut free short =
    let fits : ltb (length key) 256 ≡ true = ground (arith, short) in
    rw (cut, split_at-append 10 val rest free, fits) refl

kv_loop-line :
    (fuel : ℕ) (key val rest : Bytes)
    → IsFree b'=' key
    → length key < 256
    → IsFree 10 val
    → kv_loop (suc fuel) (key ++ b'=' ∷ (val ++ 10 ∷ rest))
      ≡ kv_loop fuel rest >>= λ pairs. done ((key, unquote val) ∷ pairs)
kv_loop-line fuel [] val rest free short line =
    kv_loop-round fuel b'=' (val ++ 10 ∷ rest) [] val rest
      (split_at-append b'=' [] (val ++ 10 ∷ rest) free) line short
kv_loop-line fuel (c ∷ key) val rest free short line =
    kv_loop-round fuel c (key ++ b'=' ∷ (val ++ 10 ∷ rest)) (c ∷ key) val rest
      (split_at-append b'=' (c ∷ key) (val ++ 10 ∷ rest) free) line short

line_length :
    (key val rest : Bytes)
    → length (key ++ b'=' ∷ (val ++ 10 ∷ rest)) ≡ length key + length val + length rest + 2
line_length key val rest =
    omega (arith, length-append key (b'=' ∷ (val ++ 10 ∷ rest)), length-append val (10 ∷ rest))

kv_loop-text :
    (fuel : ℕ) (pairs : List (Bytes × Bytes))
    → AreLines pairs
    → length (kv_text pairs []) ≤ fuel
    → kv_loop fuel (kv_text pairs []) ≡ done (unquoted pairs)
kv_loop-text zero [] a h = unfold kv_loop in refl
kv_loop-text (suc fuel) [] a h = unfold kv_loop in refl
kv_loop-text zero ((key, val) ∷ pairs) a h =
    absurd (omega (arith, h, line_length key val (kv_text pairs [])))
kv_loop-text (suc fuel) ((key, val) ∷ pairs) (free, short, line, more) h =
    kv_loop-line fuel key val (kv_text pairs []) free short line
    ∙ ap (λ r. r >>= λ ps. done ((key, unquote val) ∷ ps))
        (kv_loop-text fuel pairs more (omega (arith, h, line_length key val (kv_text pairs []))))

kv_loop-no_key :
    (fuel c : ℕ) (rest : Bytes)
    → IsFree b'=' (c ∷ rest)
    → kv_loop fuel (c ∷ rest) ≡ fault unfinished
unfolding kv_loop on_key
kv_loop-no_key zero c rest free = refl
kv_loop-no_key (suc fuel) c rest free =
    rw (split_at-free b'=' (c ∷ rest) free) (kv_loop-no_key fuel c rest free)

kv_loop-zero : (key rest : Bytes) → kv_loop 0 (key ++ b'=' ∷ rest) ≡ fault unfinished
unfolding kv_loop
kv_loop-zero [] rest = refl
kv_loop-zero (c ∷ key) rest = refl

kv_loop-unfinished :
    (fuel : ℕ) (pairs : List (Bytes × Bytes)) (c : ℕ) (rest : Bytes)
    → AreLines pairs
    → IsFree b'=' (c ∷ rest)
    → kv_loop fuel (kv_text pairs (c ∷ rest)) ≡ fault unfinished
kv_loop-unfinished fuel [] c rest a free = kv_loop-no_key fuel c rest free
kv_loop-unfinished zero ((key, val) ∷ pairs) c rest a free =
    kv_loop-zero key (val ++ 10 ∷ kv_text pairs (c ∷ rest))
kv_loop-unfinished (suc fuel) ((key, val) ∷ pairs) c rest (one, short, line, more) free =
    kv_loop-line fuel key val (kv_text pairs (c ∷ rest)) one short line
    ∙ ap (λ r. r >>= λ ps. done ((key, unquote val) ∷ ps))
        (kv_loop-unfinished fuel pairs c rest more free)

-- Lines of a key, `=` and a value are handed to the function in order, with the quotes taken off
-- the values, and the loop ends; if anything without a `=` stands behind the lines, be it an empty
-- line, the loop never ends, whatever the fuel. Keys are shorter than 256 bytes.
pub kv_parse-lines :
    (pairs : List (Bytes × Bytes)) (c : ℕ) (rest : Bytes) (fuel : ℕ) (info : SysInfo)
    (func : SysInfo → Bytes × Bytes → SysInfo)
    → AreLines pairs
    → IsFree b'=' (c ∷ rest)
    → let text = kv_text pairs [] in
      (kv_parse (length text) text info func ≡ done (hand_on func info (unquoted pairs)))
      × (kv_parse fuel (kv_text pairs (c ∷ rest)) info func ≡ fault unfinished)
unfolding kv_parse
kv_parse-lines pairs c rest fuel info func a free = (
  rw (kv_loop-text (length (kv_text pairs [])) pairs a (omega arith)) refl,
  rw (kv_loop-unfinished fuel pairs c rest a free) refl,
)
