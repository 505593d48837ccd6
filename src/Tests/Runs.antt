-- ===== src/Tests/Runs.antt =====
-- Queries of sigar_ptql.c run on the sample machine.
use re_co_mon_b.Base.{ℕ, List, [], ◌∷◌, none, some, ◌≡◌, refl, codes, Bytes}
use re_co_mon_b.Ptql.Create.{query_create}
use re_co_mon_b.Ptql.Find.{query_find}
use re_co_mon_b.Ptql.Host.{Reply, got}
use re_co_mon_b.Ptql.Run.{Run, done, fault}
use re_co_mon_b.Ptql.Types.{ok, err, Error}
use re_co_mon_b.Tests.Machine.{machine}

data Answer : Type 0 where
  pids : Run (Reply (List ℕ)) → Answer
  refused : Error → Answer
  no_fuel : Answer

-- Create a query and find its processes; the sort keeps the order.
search_for : Bytes → Answer
search_for ptql = elim (query_create machine (λ bs. bs) ptql) [
  | none ↦ no_fuel
  | some (err e) ↦ refused e
  | some (ok query) ↦ pids (query_find machine query)
]

by_name : search_for (codes "State.Name.eq=java") ≡ pids (done (got (300 ∷ [])))
unfolding search_for query_create query_find
by_name = refl

unknown_operator :
    search_for (codes "State.Name.xx=java") ≡ refused (Error.unsupported_operator (codes "xx"))
unfolding search_for query_create query_find
unknown_operator = refl

two_branches :
    search_for (codes "State.Name.PIct=S,State.Ppid.ge=1,") ≡ pids (done (got (300 ∷ [])))
unfolding search_for query_create query_find
two_branches = refl

last_argument : search_for (codes "Args.-1.Iew=.JAR") ≡ pids (done (got (300 ∷ [])))
unfolding search_for query_create query_find
last_argument = refl

by_pid_file : search_for (codes "Pid.PidFile.eq=/run/sh.pid") ≡ pids (done (got (20 ∷ [])))
unfolding search_for query_create query_find
by_pid_file = refl

-- A string operator on pids reads past the end of the table of numeric operators.
pid_contains : search_for (codes "Pid.Pid.ct=3") ≡ pids fault
unfolding search_for query_create query_find
pid_contains = refl

-- A reference from an `Args` branch is followed as a pointer.
args_reference :
    search_for (codes "State.Name.eq=java,State.Name.eq=java,Args.0.eq=$2") ≡ pids fault
unfolding search_for query_create query_find
args_reference = refl

variable : search_for (codes "State.Name.eq=$SHELL") ≡ pids (done (got (20 ∷ [])))
unfolding search_for query_create query_find
variable = refl

reference : search_for (codes "State.Ppid.ge=0,State.Ppid.Peq=$1") ≡ pids (done (got []))
unfolding search_for query_create query_find
reference = refl
