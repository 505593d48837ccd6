-- ===== src/Util/Procfs/Args.antt =====
-- sigar_util.c: the arguments of a process are read back as the kernel has written them.
use re_co_mon_b.Base.{
  ℕ, zero, suc, ◌≤◌, ◌≡◌, refl, ap, ◌∙◌, Bool, true, not, List, [], ◌∷◌, ◌++◌, some, Bytes, arith,
  ◌==◌, length, length-append, all_of,
}
use re_co_mon_b.Ptql.Host.{got}
use re_co_mon_b.Util.Procfs.{Errnos, cut_arg, add_arg, args_loop, procfs_args_get}

abbrev pub is_text : Bytes → Bool
is_text arg = all_of (λ c. not (c == 0)) arg

-- The buffer of arguments that each end with a zero byte, and a last one that does not.
abbrev pub written : List Bytes → Bytes → Bytes
written [] last = last
written (arg ∷ args) last = arg ++ 0 ∷ written args last

abbrev pub with_last : List Bytes → Bytes → List Bytes
with_last [] [] = []
with_last [] (c ∷ last) = (c ∷ last) ∷ []
with_last (arg ∷ args) last = arg ∷ with_last args last

abbrev pub are_texts : List Bytes → Bool
are_texts args = all_of is_text args

pub cut_arg-end : (last : Bytes) → is_text last ≡ true → cut_arg last ≡ (last, [])
unfolding cut_arg
cut_arg-end [] h = refl
cut_arg-end (c ∷ last) h = rw (cut_arg-end last (ground (arith, h))) (ground (arith, h))

pub cut_arg-written :
    (arg rest : Bytes) → is_text arg ≡ true → cut_arg (arg ++ 0 ∷ rest) ≡ (arg, rest)
unfolding cut_arg
cut_arg-written [] rest h = refl
cut_arg-written (c ∷ arg) rest h =
    rw (cut_arg-written arg rest (ground (arith, h))) (ground (arith, h))

-- One round.
args_loop-round :
    (fuel : ℕ) (c : ℕ) (buf arg rest : Bytes)
    → cut_arg (c ∷ buf) ≡ (arg, rest)
    → args_loop (suc fuel) (c ∷ buf) ≡ add_arg arg (args_loop fuel rest)
unfolding args_loop
args_loop-round fuel c buf arg rest e = rw e

args_loop-written :
    (fuel : ℕ) (args : List Bytes) (last : Bytes)
    → are_texts args ≡ true
    → is_text last ≡ true
    → length (written args last) ≤ fuel
    → args_loop fuel (written args last) ≡ some (with_last args last)
unfolding args_loop
args_loop-written fuel [] [] t l h = refl
args_loop-written zero [] (c ∷ last) t l h = absurd (omega (arith, h))
args_loop-written (suc fuel) [] (c ∷ last) t l h =
    args_loop-round fuel c last (c ∷ last) [] (cut_arg-end (c ∷ last) l)
args_loop-written zero (arg ∷ args) last t l h =
    absurd (omega (arith, h, length-append arg (0 ∷ written args last)))
args_loop-written (suc fuel) ([] ∷ args) last t l h =
    args_loop-round fuel 0 (written args last) [] (written args last) (cut_arg-written [] _ refl)
    ∙ ap (add_arg []) (args_loop-written fuel args last (ground (arith, t)) l (omega (arith, h)))
args_loop-written (suc fuel) ((c ∷ arg) ∷ args) last t l h =
    let text : is_text (c ∷ arg) ≡ true = ground (arith, t) in
    args_loop-round fuel c (arg ++ 0 ∷ written args last) (c ∷ arg) (written args last)
      (cut_arg-written (c ∷ arg) _ text)
    ∙ ap (add_arg (c ∷ arg)) (
        args_loop-written fuel args last (ground (arith, t)) l
          (omega (arith, h, length-append arg (0 ∷ written args last))))

-- The arguments of a process, none of which has a zero byte, are read back from the buffer in
-- which each is followed by a zero byte, also where the last has none behind it; the loop ends.
procfs_args_get-written :
    (e : Errnos) (args : List Bytes) (last : Bytes)
    → are_texts args ≡ true
    → all_of (λ c. not (c == 0)) last ≡ true
    → procfs_args_get e (got (written args last)) ≡ got (some (with_last args last))
unfolding procfs_args_get
procfs_args_get-written e args last t l =
    ap got (args_loop-written (length (written args last)) args last t l (omega arith))
