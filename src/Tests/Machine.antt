-- ===== src/Tests/Machine.antt =====
-- A machine with three processes, on which queries are tried.
use re_co_mon_b.Base.{
  arith, ◌<◌, ℕ, ◌+◌, ◌*◌, ◌/◌, false, [], ◌∷◌, none, some, Bytes, codes, ◌==◌, ltb, leb,
  if◌then◌else◌, str_eq,
}
use re_co_mon_b.Libc.Number.{strict_unsigned}
use re_co_mon_b.Cache.{new}
use re_co_mon_b.Cache.Methods.{new-IsValid}
use re_co_mon_b.Cache.Room.{HasRoom}
use re_co_mon_b.Libc.Double.{Doubles}
use re_co_mon_b.Ptql.Host.{Host, Reply, got, failed}

-- 1 is init, 20 a shell started by 1, and 300 a java started by 20.
abbrev pub name_of : ℕ → Reply Bytes
name_of pid =
    if pid == 1
    then got (codes "init")
    else if pid == 20
    then got (codes "sh")
    else if pid == 300
    then got (codes "java")
    else failed 3

abbrev pub parent_of : ℕ → Reply ℕ
parent_of pid =
    if pid == 1 then got 0 else if pid == 20 then got 1 else if pid == 300 then got 20 else failed 3

-- Floating-point numbers are whole numbers here.
abbrev pub machine : Host
machine = record {
  Double = ℕ;
  dbl_zero = 0;
  dbl_eq = λ a b. a == b;
  dbl_lt = ltb;
  dbl_le = leb;
  strtod = strict_unsigned;
  getpid = 300;
  getenv = λ name. if str_eq name (codes "SHELL") then some (codes "sh") else none;
  enotimpl = 20001;
  get_ui64 = λ cname member pid. got (pid * 1000);
  get_ui32 = λ cname member pid. parent_of pid;
  get_dbl = λ cname member pid. got 0;
  get_chr = λ cname member pid. got b'S';
  get_str = λ cname member pid. name_of pid;
  get_ppid = parent_of;
  get_args = λ pid.
      if pid == 300 then got (codes "java" ∷ codes "-jar" ∷ codes "app.jar" ∷ []) else got [];
  get_modules = λ pid. got (codes "/lib/libc.so" ∷ []);
  get_env = λ pid. got ((codes "HOME", codes "/root") ∷ []);
  get_pids = got (1 ∷ 20 ∷ 300 ∷ []);
  port_pid = λ udp port. if port == 8080 then got 300 else failed 2;
  file2str = λ path. if str_eq path (codes "/run/sh.pid") then got (codes "20\n") else failed 2;
  sudo_file2str = λ path. failed 2;
  re_impl = none;
}

-- Floating-point numbers as whole numbers; none is negative.
abbrev pub whole : Doubles
whole = record {
  Double = ℕ;
  zero_dbl = 0;
  of_u64 = λ n. n;
  of_i64 = λ n. n;
  add = λ a b. a + b;
  div = λ a b. a / b;
  mul = λ a b. a * b;
  is_zero = λ n. n == 0;
  is_negative = λ n. false;
}

-- A new cache has room.
pub room_for {ℓ} :
    {V : Type ℓ} {more : ℕ} (size : ℕ)
    → 0 < size
    → size < 1024
    → more < 100
    → HasRoom more (new {V = V} size)
unfolding new
room_for {V = V} size h small few = record {
  valid = (new-IsValid {V = V} size h).0;
  size = omega (arith, small);
  count = omega (arith, few);
}
