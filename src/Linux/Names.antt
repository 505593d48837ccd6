-- ===== src/Linux/Names.antt =====
-- os/linux/linux_sigar.c: the name of a process in /proc/<pid>/stat, which may hold brackets.
use re_co_mon_b.Base.{
  ℕ, ◌<◌, ◌≡◌, refl, false, [], ◌∷◌, ◌++◌, none, some, Bytes, arith, leb, ==_refl, length,
}
use re_co_mon_b.Libc.Affix.{take-length}
use re_co_mon_b.Libc.Split.{IsFree, split_at-append}
use re_co_mon_b.Libc.{is_space}
use re_co_mon_b.Linux.{
  System, ProcStat, split_last, read_state, read_named, read_behind, read_text, is_fresh,
  proc_stat_read,
}
use re_co_mon_b.Ptql.Host.{got}
use re_co_mon_b.Util.Text.{skip_spaces}

split_last-free : (c : ℕ) (s : Bytes) → IsFree c s → split_last c s ≡ none
unfolding split_last
split_last-free c [] f = refl
split_last-free c (x ∷ s) f = rw (split_last-free c s f.1, f.0)

split_last-append : (c : ℕ) (a b : Bytes) → IsFree c b → split_last c (a ++ c ∷ b) ≡ some (a, b)
unfolding split_last
split_last-append c [] b f = rw (split_last-free c b f, ==_refl c)
split_last-append c (x ∷ a) b f = rw (split_last-append c a b f)

-- A line whose name is shorter than its buffer is cut at the first opening bracket and at the last
-- closing one.
pub proc_stat_read-line :
    (sys : System) (last : ProcStat) (pid timenow : ℕ) (before name : Bytes) (c : ℕ) (rest : Bytes)
    → is_fresh sys last pid timenow ≡ false
    → IsFree b'(' before
    → IsFree b')' (c ∷ rest)
    → is_space c ≡ false
    → length name < sys.name_len
    → let text = before ++ b'(' ∷ (name ++ b')' ∷ b' ' ∷ c ∷ rest) in
      proc_stat_read sys last pid timenow (got text)
      ≡ read_state sys (record last { pid = pid; mtime = timenow; name = name }) (c ∷ rest)
unfolding proc_stat_read read_text read_behind read_named
proc_stat_read-line sys last pid timenow before name c rest old free free' word short =
    let opening = split_at-append b'(' before (name ++ b')' ∷ b' ' ∷ c ∷ rest) free in
    let closing = split_last-append b')' name (b' ' ∷ c ∷ rest) (refl, free') in
    let fits : leb sys.name_len (length name) ≡ false = ground (arith, short) in
    let blank : skip_spaces (b' ' ∷ c ∷ rest) ≡ c ∷ rest =
      unfold skip_spaces in rw word (unfold is_space in refl) in
    rw (old, opening, closing, blank, fits, take-length name) refl
