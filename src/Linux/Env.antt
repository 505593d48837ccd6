-- ===== src/Linux/Env.antt =====
-- os/linux/linux_sigar.c: the environment of a process.
pub mod Entries
use re_co_mon_b.Base.{
  ℕ, zero, suc, List, [], ◌∷◌, ◌++◌, Option, none, some, Bytes, ltb, ◌==◌, if◌then◌else◌, length,
}
use re_co_mon_b.Libc.{split_at}
use re_co_mon_b.Linux.Run.{Run, done, fault, smashed, unfinished}
use re_co_mon_b.Ptql.Host.{Reply, got, failed}
use re_co_mon_b.Util.Procfs.{Errnos, no_process, cut_arg}

-- `procenv->data` and `procenv->env_getter`, which gets a key and a value and gives a status.
pub record Getter {ℓ} (S : Type ℓ) : Type ℓ where
  pub call : S → Bytes → Bytes → S × ℕ

-- The size of `key`.
abbrev pub key_size : ℕ
key_size = 128

module _ {ℓ} {S : Type ℓ} (getter : Getter S) where
  -- What a round does behind `env_getter`.
  abbrev pub after_call : S × ℕ → (S → Run S) → Run S
  after_call (s, status) next = if status == 0 then next s else done s

  -- A round, for what stands before and behind the `=` of the entry.
  abbrev pub on_entry : S → Option (Bytes × Bytes) → (S → Run S) → Run S
  on_entry s none next = done s
  on_entry s (some (key, val)) next =
      if ltb (length key) key_size then after_call (getter.call s key val) next else fault smashed

  -- `while (ptr < end)`: an entry ends at a zero byte or at the end of the buffer, behind which
  -- there is one.
  unfoldable pub env_loop : ℕ → S → Bytes → Run S
  unfolding cut_arg split_at
  env_loop fuel s [] = done s
  env_loop zero s (c ∷ ptr) = fault unfinished
  env_loop (suc fuel) s (c ∷ ptr) =
      let (entry, rest) = cut_arg (c ∷ ptr) in
      on_entry s (split_at b'=' entry) (λ t. env_loop fuel t rest)

  -- `sigar_proc_env_get`, from what opening and reading /proc/<pid>/environ gives, for a text that
  -- is shorter than the buffer; the shortcut for the own process is another function.
  unfoldable pub proc_env_get : Errnos → S → Reply Bytes → Reply (Run S)
  unfolding env_loop
  proc_env_get e s (failed errno) = failed (no_process e errno)
  proc_env_get e s (got buffer) = got (env_loop (length buffer) s buffer)

-- A getter that keeps what it is given and does not stop.
abbrev pub collect : Getter (List (Bytes × Bytes))
collect = record { call = λ seen key val. (seen ++ (key, val) ∷ [], 0) }
