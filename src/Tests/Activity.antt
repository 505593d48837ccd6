-- ===== src/Tests/Activity.antt =====
-- The theorems on the counting of processes and connections at concrete inputs.
use re_co_mon_b.Base.{
  ℕ, ◌-◌, ◌%◌, ◌^◌, ◌<◌, ◌≡◌, refl, List, [], ◌∷◌, none, some, arith, ◌==◌, if◌then◌else◌, count_if,
  get_or,
}
use re_co_mon_b.Cache.{find}
use re_co_mon_b.Cache.Methods.{new-IsValid}
use re_co_mon_b.Format.Address.{NetAddress, inet}
use re_co_mon_b.Format.Names.{tcp}
use re_co_mon_b.Ptql.Host.{Reply, got, failed}
use re_co_mon_b.Sigar.NetStat.{
  Connection, TcpStates, Walk, listen_cache, is_found, net_stat_get, net_listen_address_get,
}
use re_co_mon_b.Sigar.NetStat.Chosen.{
  listeners, preferred, answered, net_listen_address_get-preferred,
}
use re_co_mon_b.Sigar.NetStat.Counts.{
  directions, is_inbound, is_outbound, in_state, net_stat_get-Counts,
}
use re_co_mon_b.Sigar.ProcCpu.{ProcTime, ProcCpu, filled}
use re_co_mon_b.Sigar.ProcCpu.Rate.{Call, answer, run_calls, proc_cpu_get-rate, proc_cpu_get-repeat}
use re_co_mon_b.Sigar.ProcCpu.Samples.{remembered}
use re_co_mon_b.Sigar.ProcStat.{ProcState, StateCodes, proc_stat_get}
use re_co_mon_b.Sigar.ProcStat.Counts.{AreLabels, proc_stat_get-Counts}
use re_co_mon_b.Tests.Machine.{whole, room_for}

abbrev times : ℕ → ProcTime
times total = record { start_time = 1; user = 2; sys = 3; total = total }

-- A structure on the stack, with what happens to be there.
abbrev dirty : ProcCpu ℕ
dirty = record { start_time = 9; user = 9; sys = 9; total = 9; last_time = 9; percent = 77 }

abbrev call : ℕ → ℕ → ℕ → Call ℕ
call pid time_now total = record {
  pid = pid;
  time_now = time_now;
  times = got (times total);
  proccpu = dirty;
}

abbrev between : List (Call ℕ)
between = call 8 1500 10 ∷ []

-- Nothing is remembered in a new cache.
unseen : (remembered whole none 7).last_time < 1000
unseen = rw ((new-IsValid {V = ProcCpu ℕ} 128 (omega arith)).2 7) (omega arith)

proc_cpu_get-rate_example :
    (answer whole
      (run_calls whole between (some (answer whole none (call 7 1000 50)).cache))
      (call 7 2000 5050)).proccpu
    ≡ record (filled (times 5050) dirty) { last_time = 2000; percent = 5 }
proc_cpu_get-rate_example =
    proc_cpu_get-rate whole none (call 7 1000 50) (call 7 2000 5050) (times 50) (times 5050) between
      (room_for 128 (omega arith) (omega arith) (omega arith)) refl (refl, refl) unseen
      (omega arith, omega arith) refl (omega arith, omega arith, omega arith)

proc_cpu_get-repeat_example :
    let second =
      answer whole
        (run_calls whole between (some (answer whole none (call 7 1000 50)).cache))
        (call 7 1000 60) in
    (second.status ≡ 0)
    × (second.proccpu ≡ record (answer whole none (call 7 1000 50)).proccpu { percent = 77 })
proc_cpu_get-repeat_example =
    proc_cpu_get-repeat whole none (call 7 1000 50) (call 7 1000 60) (times 50) between
      (room_for 128 (omega arith) (omega arith) (omega arith)) refl (refl, refl) unseen
      (omega arith) refl

abbrev states : TcpStates
states = record { listen = 10; established = 1; close_wait = 8; width = 14 }

abbrev connection : ℕ → ℕ → NetAddress → Connection
connection state port address = record {
  type = tcp;
  state = state;
  local_port = port;
  local_address = address;
  remote_port = 40000;
  remote_address = inet 2;
}

-- A server on port 80, a connection to it, and one to elsewhere.
abbrev walk : Walk
walk = record {
  connections =
      connection 10 80 (inet 1) ∷ connection 1 80 (inet 1) ∷ connection 1 5000 (inet 1) ∷ [];
  status = 0;
}

net_stat_get-Counts_example :
    let s = (net_stat_get states walk none).0.1 in
    let seen = directions states (λ q. is_found (find (listen_cache none) q)) walk.connections in
    (s.tcp_inbound_total ≡ count_if is_inbound seen % 2 ^ 32)
    × (s.tcp_outbound_total ≡ count_if is_outbound seen % 2 ^ 32)
    × ((i : ℕ) → i < 14 → get_or s.tcp_states i 0 ≡ count_if (in_state i) walk.connections % 2 ^ 32)
    × (s.all_inbound_total ≡ s.tcp_inbound_total)
    × (s.all_outbound_total ≡ s.tcp_outbound_total)
net_stat_get-Counts_example =
    net_stat_get-Counts states walk none (room_for 32 (omega arith) (omega arith) (omega arith))

net_listen_address_get-preferred_example :
    (net_listen_address_get states 2 walk none 80).1
    ≡ answered 2 (preferred (listeners states 80 walk.connections))
net_listen_address_get-preferred_example =
    net_listen_address_get-preferred states 2 walk 80 refl (omega arith)

abbrev codes_of : StateCodes
codes_of = record {
  notimpl = 2 ^ 64 - 1;
  idle = b'D';
  run = b'R';
  sleep = b'S';
  stop = b'T';
  zombie = b'Z';
}

abbrev state_of : ℕ → Reply ProcState
state_of pid = if pid == 3 then failed 2 else got (record { state = b'S'; threads = 5 })

labels : AreLabels codes_of
labels = record {
  idle_run = omega arith;
  idle_sleep = omega arith;
  idle_stop = omega arith;
  idle_zombie = omega arith;
  run_sleep = omega arith;
  run_stop = omega arith;
  run_zombie = omega arith;
  sleep_stop = omega arith;
  sleep_zombie = omega arith;
  stop_zombie = omega arith;
}

abbrev pids : List ℕ
pids = 1 ∷ 2 ∷ 3 ∷ []

-- Two processes of five threads each are said to have nine.
proc_stat_get-Counts_example :
    let (status, s) = proc_stat_get codes_of (got pids) state_of in
    (status ≡ 0)
    × (s.total ≡ 3)
    × (s.idle ≡ 0)
    × (s.running ≡ 0)
    × (s.sleeping ≡ 2)
    × (s.stopped ≡ 0)
    × (s.zombie ≡ 0)
    × (s.threads ≡ 9)
proc_stat_get-Counts_example = proc_stat_get-Counts codes_of pids state_of labels (omega arith)
