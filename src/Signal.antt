-- ===== src/Signal.antt =====
-- sigar_signal.c: the numbers of signals by name, and the sending of a signal on Unix.
pub mod Table
use re_co_mon_b.Base.{
  ℕ, List, [], ◌∷◌, Option, none, some, Bytes, codes, ◌==◌, if◌then◌else◌, str_eq, drop,
}
use re_co_mon_b.Libc.{strn_eq}

-- The number that the platform's headers define for a signal, by its name without "SIG".
abbrev pub Defined : Type 0
Defined = Bytes → Option ℕ

-- A case of the `switch`, with its names in order.
pub record Case : Type 0 where
  pub label : ℕ
  pub names : List Bytes

abbrev pub cases : List Case
cases =
    record { label = b'A'; names = codes "ABRT" ∷ codes "ALRM" ∷ [] }
    ∷ record { label = b'B'; names = codes "BUS" ∷ [] }
    ∷ record { label = b'C'; names = codes "CONT" ∷ codes "CHLD" ∷ codes "CLD" ∷ [] }
    ∷ record { label = b'E'; names = codes "EMT" ∷ [] }
    ∷ record { label = b'F'; names = codes "FPE" ∷ [] }
    ∷ record { label = b'H'; names = codes "HUP" ∷ [] }
    ∷ record {
      label = b'I';
      names = codes "INT" ∷ codes "ILL" ∷ codes "IOT" ∷ codes "IO" ∷ codes "INFO" ∷ [];
    }
    ∷ record { label = b'K'; names = codes "KILL" ∷ [] }
    ∷ record { label = b'P'; names = codes "POLL" ∷ codes "PIPE" ∷ codes "PROF" ∷ codes "PWR" ∷ [] }
    ∷ record { label = b'Q'; names = codes "QUIT" ∷ [] }
    ∷ record {
      label = b'S';
      names = codes "SEGV" ∷ codes "SYS" ∷ codes "STOP" ∷ codes "STKFLT" ∷ [];
    }
    ∷ record {
      label = b'T';
      names = codes "TRAP" ∷ codes "TERM" ∷ codes "TSTP" ∷ codes "TTIN" ∷ codes "TTOU" ∷ [];
    }
    ∷ record { label = b'U'; names = codes "URG" ∷ codes "USR1" ∷ codes "USR2" ∷ [] }
    ∷ record { label = b'V'; names = codes "VTALRM" ∷ [] }
    ∷ record { label = b'W'; names = codes "WINCH" ∷ [] }
    ∷ record { label = b'X'; names = codes "XCPU" ∷ codes "XFSZ" ∷ [] }
    ∷ []

-- One `if (strEQ(name, …)) return SIG…`, which is left out where the platform has no such signal.
abbrev pub test_name : Option ℕ → Bytes → Bytes → Option ℕ → Option ℕ
test_name none own name later = later
test_name (some n) own name later = if str_eq name own then some n else later

-- The tests of a case.
unfoldable pub try_names : Defined → Bytes → List Bytes → Option ℕ
unfolding str_eq
try_names defined name [] = none
try_names defined name (own ∷ names) =
    test_name (defined own) own name (try_names defined name names)

unfoldable pub switch : Defined → ℕ → Bytes → List Case → Option ℕ
unfolding try_names
switch defined c name [] = none
switch defined c name (k ∷ ks) =
    if c == k.label then try_names defined name k.names else switch defined c name ks

abbrev pub first : Bytes → ℕ
first [] = 0
first (c ∷ s) = c

-- `if (strnEQ(name, "SIG", 3)) name += 3`.
abbrev pub strip : Bytes → Bytes
unfolding strn_eq
strip name = if strn_eq name (codes "SIG") 3 then drop 3 name else name

-- `sigar_signum_get`; `none` is -1.
unfoldable pub signum_get : Defined → Bytes → Option ℕ
unfolding switch strip
signum_get defined name = let name' = strip name in switch defined (first name') name' cases

-- `sigar_proc_kill`, where the argument is what `kill` answers: nothing, or the `errno` of -1.
unfoldable pub proc_kill : (ℕ → ℕ → Option ℕ) → ℕ → ℕ → ℕ
proc_kill kill pid signum = elim (kill pid signum) [ none ↦ 0 | some errno ↦ errno ]
