-- ===== src/Examples/Supervisors.antt =====
-- A supervisor of two processes of which one has been killed.
use socket_go.Supervisor.Scope.Whole.{in_scope, check_processes-in_scope}
use socket_go.Base.{if◌then◌else◌, ℕ, String, ◌≡◌, ◌≤◌, refl, true, false, List, [], ◌∷◌, arith}
use socket_go.Base.Int.{ℤ, pos}
use socket_go.Base.Map.{lookup, insert, delete}
use socket_go.Node.{Node, new_node, new_process, spawn_process_with_id, install, kill, update}
use socket_go.Node.Invariant.{Inv}
use socket_go.Node.History.{Call, spawns, kills, run, step, run-new_node-Inv}
use socket_go.Node.Registry.{find}
use socket_go.Supervisor.{
  Supervisor, ProcessSpec, Strategy, one_for_one, rest_for_one, contains_process_id, ids_of,
  is_dead, check_processes,
}
use socket_go.Supervisor.Strategies.{check_processes_heals, renewed}
use socket_go.Supervisor.Limits.{count_restarts, count_restarts-le}

abbrev log : ProcessSpec
log = record { id = "log"; function = 7 }

abbrev echo : ProcessSpec
echo = record { id = "echo"; function = 8 }

abbrev supervisor : Strategy → ℤ → Supervisor
supervisor strategy max_restarts = record {
  spec = record {
    id = "top";
    strategy = strategy;
    max_restarts = max_restarts;
    restart_period = 5;
    processes = log ∷ echo ∷ [];
  };
  restarts = [];
}

abbrev calls : List Call
calls = spawns "log" 7 ∷ spawns "echo" 8 ∷ kills "echo" ∷ []

abbrev node : Node
node = run calls (new_node "here")

node-Inv : Inv node
node-Inv = run-new_node-Inv "here" calls

running : node.stopped ≡ false
unfolding run step spawn_process_with_id kill update install new_node lookup insert
running = refl

log-alive : is_dead "log" node ≡ false
unfolding is_dead run step spawn_process_with_id kill update install new_node new_process lookup
    insert delete
log-alive = refl

echo-dead : is_dead "echo" node ≡ true
unfolding is_dead run step spawn_process_with_id kill update install new_node lookup insert delete
echo-dead = refl

check_processes_heals_example :
    is_dead "echo" (check_processes (λ k. 0) (supervisor one_for_one (pos 0), node)).1 ≡ false
unfolding contains_process_id ids_of
check_processes_heals_example =
    check_processes_heals (λ k. 0) "echo" (supervisor one_for_one (pos 0)) refl running node-Inv
      refl

-- Four restarts are asked for within the period of 5, with a limit of two.
abbrev requests : List (ℕ × String)
requests = (1, "echo") ∷ (2, "log") ∷ (3, "echo") ∷ (4, "echo") ∷ []

count_restarts-le_example :
    count_restarts "echo" requests (supervisor one_for_one (pos 2), node) ≤ 2
count_restarts-le_example =
    count_restarts-le 1 1 "echo" requests (supervisor one_for_one (pos 2)) node refl (
      (omega arith, omega arith),
      ((omega arith, omega arith), ((omega arith, omega arith), ((omega arith, omega arith), tt))),
    )

check_processes-in_scope_example :
    find "log" (check_processes (λ k. 0) (supervisor rest_for_one (pos 0), node)).1 ≡ (
      if in_scope rest_for_one (log ∷ echo ∷ []) node "log"
      then renewed "log" (log ∷ echo ∷ []) (find "log" node)
      else find "log" node)
check_processes-in_scope_example =
    check_processes-in_scope (λ k. 0) "log" (supervisor rest_for_one (pos 0)) refl running node-Inv
