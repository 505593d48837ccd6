-- ===== src/Linux/Env/Entries.antt =====
-- os/linux/linux_sigar.c: the entries of an environment that are handed on.
use re_co_mon_b.Base.{
  ℕ, zero, suc, ◌≤◌, ◌<◌, ◌≡◌, refl, sym, ap, ◌∙◌, true, none, some, List, [], ◌∷◌, ◌++◌, Bytes,
  arith, ltb, length, length-append,
}
use mathlib.Core.List.{append_assoc, append-nil}
use re_co_mon_b.Libc.Split.{IsFree, split_at-append}
use re_co_mon_b.Libc.{split_at}
use re_co_mon_b.Linux.Env.{collect, env_loop, proc_env_get}
use re_co_mon_b.Linux.Run.{done}
use re_co_mon_b.Ptql.Host.{got}
use re_co_mon_b.Util.Procfs.{Errnos, cut_arg}
use re_co_mon_b.Util.Procfs.Args.{is_text, cut_arg-written}

-- A key and a value as the kernel holds them.
abbrev pub entry_text : Bytes × Bytes → Bytes
entry_text (key, val) = key ++ b'=' ∷ val

abbrev pub environ : List (Bytes × Bytes) → Bytes → Bytes
environ [] rest = rest
environ (entry ∷ entries) rest = entry_text entry ++ 0 ∷ environ entries rest

-- The key is shorter than its buffer and has no `=`, and neither text has a zero byte.
abbrev pub IsEntry : Bytes × Bytes → Type 0
IsEntry (key, val) = IsFree b'=' key × (length key < 128) × (is_text (entry_text (key, val)) ≡ true)

abbrev pub AreEntries : List (Bytes × Bytes) → Type 0
AreEntries [] = Unit
AreEntries (entry ∷ entries) = IsEntry entry × AreEntries entries

env_loop-round :
    (fuel c : ℕ) (ptr entry rest key val : Bytes) (seen : List (Bytes × Bytes))
    → cut_arg (c ∷ ptr) ≡ (entry, rest)
    → split_at b'=' entry ≡ some (key, val)
    → length key < 128
    → env_loop collect (suc fuel) seen (c ∷ ptr)
      ≡ env_loop collect fuel (seen ++ (key, val) ∷ []) rest
unfolding env_loop
env_loop-round fuel c ptr entry rest key val seen cut split short =
    let fits : ltb (length key) 128 ≡ true = ground (arith, short) in rw (cut, split, fits) refl

env_loop-entry :
    (fuel : ℕ) (key val rest : Bytes) (seen : List (Bytes × Bytes))
    → IsEntry (key, val)
    → env_loop collect (suc fuel) seen (entry_text (key, val) ++ 0 ∷ rest)
      ≡ env_loop collect fuel (seen ++ (key, val) ∷ []) rest
env_loop-entry fuel [] val rest seen (free, short, text) =
    env_loop-round fuel b'=' (val ++ 0 ∷ rest) (entry_text ([], val)) rest [] val seen
      (cut_arg-written (entry_text ([], val)) rest text) (split_at-append b'=' [] val free) short
env_loop-entry fuel (c ∷ key) val rest seen (free, short, text) =
    env_loop-round fuel c ((key ++ b'=' ∷ val) ++ 0 ∷ rest) (entry_text (c ∷ key, val)) rest
      (c ∷ key) val seen (cut_arg-written (entry_text (c ∷ key, val)) rest text)
      (split_at-append b'=' (c ∷ key) val free) short

-- A text at which the loop ends with what it has seen.
abbrev Stops : Bytes → Type 0
Stops rest =
    (fuel : ℕ) (seen : List (Bytes × Bytes))
    → length rest ≤ fuel
    → env_loop collect fuel seen rest ≡ done seen

env_loop-environ :
    (fuel : ℕ) (entries : List (Bytes × Bytes)) (rest : Bytes) (seen : List (Bytes × Bytes))
    → AreEntries entries
    → Stops rest
    → length (environ entries rest) ≤ fuel
    → env_loop collect fuel seen (environ entries rest) ≡ done (seen ++ entries)
env_loop-environ fuel [] rest seen a stop h = stop fuel seen h ∙ ap done (sym (append-nil seen))
env_loop-environ zero (entry ∷ entries) rest seen a stop h =
    absurd (omega (arith, h, length-append (entry_text entry) (0 ∷ environ entries rest)))
env_loop-environ (suc fuel) ((key, val) ∷ entries) rest seen a stop h =
    env_loop-entry fuel key val (environ entries rest) seen a.0
    ∙ env_loop-environ fuel entries rest (seen ++ (key, val) ∷ []) a.1 stop
        (omega (arith, h, length-append (entry_text (key, val)) (0 ∷ environ entries rest)))
    ∙ ap done (append_assoc seen ((key, val) ∷ []) entries)

Stops-end : Stops []
unfolding env_loop
Stops-end zero seen h = refl
Stops-end (suc fuel) seen h = refl

pub split_at-free : (c : ℕ) (s : Bytes) → IsFree c s → split_at c s ≡ none
unfolding split_at
split_at-free c [] f = refl
split_at-free c (x ∷ s) f = rw (f.0, split_at-free c s f.1)

no_entry :
    (fuel c : ℕ) (ptr bad rest : Bytes) (seen : List (Bytes × Bytes))
    → cut_arg (c ∷ ptr) ≡ (bad, rest)
    → IsFree b'=' bad
    → env_loop collect (suc fuel) seen (c ∷ ptr) ≡ done seen
unfolding env_loop
no_entry fuel c ptr bad rest seen cut free = rw (cut, split_at-free b'=' bad free) refl

Stops-bad : (bad rest : Bytes) → is_text bad ≡ true → IsFree b'=' bad → Stops (bad ++ 0 ∷ rest)
Stops-bad bad rest text free zero seen h = absurd (omega (arith, h, length-append bad (0 ∷ rest)))
Stops-bad [] rest text free (suc fuel) seen h =
    no_entry fuel 0 rest [] rest seen (cut_arg-written [] rest refl) tt
Stops-bad (c ∷ bad) rest text free (suc fuel) seen h =
    no_entry fuel c (bad ++ 0 ∷ rest) (c ∷ bad) rest seen (cut_arg-written (c ∷ bad) rest text) free

-- Entries with keys that are shorter than 128 bytes and have no `=` are handed on as they were
-- written, in order, and the loop ends; behind an entry with no `=`, an empty one for example,
-- nothing is handed on.
pub proc_env_get-entries :
    (e : Errnos) (entries : List (Bytes × Bytes)) (bad rest : Bytes)
    → AreEntries entries
    → is_text bad ≡ true
    → IsFree b'=' bad
    → (proc_env_get collect e [] (got (environ entries [])) ≡ got (done entries))
      × (proc_env_get collect e [] (got (environ entries (bad ++ 0 ∷ rest))) ≡ got (done entries))
unfolding proc_env_get
proc_env_get-entries e entries bad rest a text free = (
  ap got (env_loop-environ (length (environ entries [])) entries [] [] a Stops-end (omega arith)),
  ap got (
      env_loop-environ (length (environ entries (bad ++ 0 ∷ rest))) entries (bad ++ 0 ∷ rest) [] a
        (Stops-bad bad rest text free) (omega arith)),
)
