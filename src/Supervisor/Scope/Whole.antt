-- ===== src/Supervisor/Scope/Whole.antt =====
-- socket/distributed/node.go, `checkProcesses`: the three strategies in one.
use socket_go.Base.{
  ℕ, String, ◌≡◌, refl, sym, ◌∙◌, inl, inr, Bool, true, false, ◌&&◌, List, [], ◌∷◌, ◌++◌, arith,
  if◌then◌else◌,
}
use mathlib.Core.List.{append_assoc}
use socket_go.Node.{Node}
use socket_go.Node.Invariant.{Inv}
use socket_go.Node.Registry.{find}
use socket_go.Supervisor.{
  Supervisor, ProcessSpec, Strategy, one_for_one, one_for_all, rest_for_one, contains_process_id,
  is_dead, dead_processes, to_restart, ids_of, from_first_dead, check_processes,
}
use socket_go.Supervisor.Strategies.{
  IsUnlimited, List-cases, chosen, renewed, contains-dead_processes, check_processes-find,
}
use socket_go.Supervisor.Scope.{
  any_dead, dead_processes_none, chosen-one_for_one, chosen-one_for_all, contains-middle,
}

-- The list from its first dead process on.
unfoldable from_dead : List ProcessSpec → Node → List ProcessSpec
from_dead [] n = []
from_dead (p ∷ ps) n = if is_dead p.id n then p ∷ ps else from_dead ps n

-- Whom a strategy is to make anew: the dead; everybody, once one is dead; those from the first dead on.
unfoldable pub in_scope : Strategy → List ProcessSpec → Node → String → Bool
unfolding from_dead any_dead
in_scope one_for_one ps n j = contains_process_id (ids_of ps) j && is_dead j n
in_scope one_for_all ps n j = contains_process_id (ids_of ps) j && any_dead ps n
in_scope rest_for_one ps n j = contains_process_id (ids_of (from_dead ps n)) j

from_dead_none : (ps : List ProcessSpec) (n : Node) → any_dead ps n ≡ false → from_dead ps n ≡ []
unfolding from_dead any_dead
from_dead_none [] n e = refl
from_dead_none (p ∷ ps) n e = ground (arith, from_dead_none ps n)

from_first_dead-from_dead :
    (all before ps : List ProcessSpec) (n : Node)
    → all ≡ before ++ ps
    → from_first_dead (dead_processes all n) ps ≡ from_dead ps n
unfolding from_first_dead from_dead
from_first_dead-from_dead all before [] n e = refl
from_first_dead-from_dead all before (p ∷ ps) n e =
    let here : contains_process_id (ids_of all) p.id ≡ true = rw e (contains-middle before p ps) in
    ground (
      arith,
      here,
      contains-dead_processes p.id all n,
      from_first_dead-from_dead all (before ++ p ∷ []) ps n
          (e ∙ sym (append_assoc before (p ∷ []) ps)),
    )

chosen-rest :
    (j : String) (s : Supervisor) (n : Node)
    → s.strategy ≡ rest_for_one
    → contains_process_id (chosen s n) j ≡ contains_process_id (ids_of (from_dead s.processes n)) j
unfolding chosen to_restart contains_process_id ids_of
chosen-rest j s n e = elim (List-cases (dead_processes s.processes n)) [
  | inl h ↦ ground (arith, h, from_dead_none s.processes n (dead_processes_none s.processes n h))
  | inr (d, ds, h) ↦ ground (arith, h, from_first_dead-from_dead s.processes [] s.processes n refl)
]

chosen-in_scope :
    (k : Strategy) (j : String) (s : Supervisor) (n : Node)
    → s.strategy ≡ k
    → contains_process_id (chosen s n) j ≡ in_scope k s.processes n j
unfolding in_scope
chosen-in_scope one_for_one j s n e = chosen-one_for_one j s n e
chosen-in_scope one_for_all j s n e = chosen-one_for_all j s n e
chosen-in_scope rest_for_one j s n e = chosen-rest j s n e

-- On a running node that satisfies its invariant, with no limit on restarts, a tick of the
-- supervisor makes anew exactly those processes that its strategy names, and leaves every other one
-- as it is. OneForOne names the supervised processes that are dead; OneForAll all of them as soon
-- as one is dead; RestForOne the first dead one in the supervisor's order and all behind it.
pub check_processes-in_scope :
    (clock : ℕ → ℕ) (j : String) (s : Supervisor) {n : Node}
    → IsUnlimited s
    → n.stopped ≡ false
    → Inv n
    → find j (check_processes clock (s, n)).1
      ≡ (if in_scope s.strategy s.processes n j then renewed j s.processes (find j n) else find j n)
check_processes-in_scope clock j s {n} u running inv =
    rw (← chosen-in_scope s.strategy j s n refl) (check_processes-find clock j s u running inv)
