-- ===== src/Supervisor/Scope.antt =====
-- socket/distributed/node.go, `checkProcesses`: who gets a new process under each strategy and who
-- keeps the old one.
pub mod Whole
use socket_go.Base.{
  ℕ, String, ◌≡◌, refl, ap, inl, inr, Bool, true, false, ◌&&◌, ◌||◌, List, [], ◌∷◌, ◌++◌, arith,
  All, str_eq_refl, if◌then◌else◌,
}
use socket_go.Node.{Node}
use socket_go.Node.Invariant.{Inv}
use socket_go.Node.Registry.{find}
use socket_go.Supervisor.{
  Supervisor, ProcessSpec, one_for_one, one_for_all, rest_for_one, contains_process_id, is_dead,
  dead_processes, to_restart, ids_of, from_first_dead, check_processes,
}
use socket_go.Supervisor.Strategies.{
  IsUnlimited, List-cases, chosen, renewed, contains-dead_processes, check_processes-find,
}

unfoldable pub any_dead : List ProcessSpec → Node → Bool
any_dead [] n = false
any_dead (p ∷ ps) n = is_dead p.id n || any_dead ps n

pub dead_processes_none :
    (ps : List ProcessSpec) (n : Node) → dead_processes ps n ≡ [] → any_dead ps n ≡ false
unfolding dead_processes any_dead
dead_processes_none [] n e = refl
dead_processes_none (p ∷ ps) n e = ground (arith, dead_processes_none ps n)

dead_processes_some :
    (ps : List ProcessSpec) (n : Node) (d : String) (ds : List String)
    → dead_processes ps n ≡ d ∷ ds
    → any_dead ps n ≡ true
unfolding dead_processes any_dead
dead_processes_some [] n d ds e = cc
dead_processes_some (p ∷ ps) n d ds e = ground (arith, dead_processes_some ps n d ds)

pub chosen-one_for_one :
    (j : String) (s : Supervisor) (n : Node)
    → s.strategy ≡ one_for_one
    → contains_process_id (chosen s n) j ≡ contains_process_id (ids_of s.processes) j && is_dead j n
unfolding chosen to_restart
chosen-one_for_one j s n e = elim (List-cases (dead_processes s.processes n)) [
  | inl h ↦ ground (arith, h, contains-dead_processes j s.processes n)
  | inr (d, ds, h) ↦ ground (arith, h, contains-dead_processes j s.processes n)
]

pub chosen-one_for_all :
    (j : String) (s : Supervisor) (n : Node)
    → s.strategy ≡ one_for_all
    → contains_process_id (chosen s n) j
      ≡ contains_process_id (ids_of s.processes) j && any_dead s.processes n
unfolding chosen to_restart contains_process_id
chosen-one_for_all j s n e = elim (List-cases (dead_processes s.processes n)) [
  | inl h ↦ ground (arith, h, dead_processes_none s.processes n h)
  | inr (d, ds, h) ↦ ground (arith, h, dead_processes_some s.processes n d ds h)
]

-- The first dead entry is where the restarts begin.
from_first_dead-split :
    (dead : List String) (before : List ProcessSpec) (p : ProcessSpec) (after : List ProcessSpec)
    → All (λ q. contains_process_id dead q.id ≡ false) before
    → contains_process_id dead p.id ≡ true
    → from_first_dead dead (before ++ p ∷ after) ≡ p ∷ after
unfolding from_first_dead
from_first_dead-split dead [] p after h d = rw d
from_first_dead-split dead (q ∷ before) p after h d =
    rw h.0 (from_first_dead-split dead before p after h.1 d)

not_dead :
    (n : Node) (ps before : List ProcessSpec)
    → All (λ q. is_dead q.id n ≡ false) before
    → All (λ q. contains_process_id (dead_processes ps n) q.id ≡ false) before
not_dead n ps [] h = tt
not_dead n ps (q ∷ before) h =
    (ground (arith, h.0, contains-dead_processes q.id ps n), not_dead n ps before h.1)

pub contains-middle :
    (before : List ProcessSpec) (p : ProcessSpec) (after : List ProcessSpec)
    → contains_process_id (ids_of (before ++ p ∷ after)) p.id ≡ true
unfolding contains_process_id ids_of
contains-middle [] p after = rw (str_eq_refl p.id) refl
contains-middle (q ∷ before) p after = ground (arith, contains-middle before p after)

chosen-rest_for_one :
    (s : Supervisor) (n : Node) (before : List ProcessSpec) (p : ProcessSpec)
    (after : List ProcessSpec)
    → s.strategy ≡ rest_for_one
    → s.processes ≡ before ++ p ∷ after
    → All (λ q. is_dead q.id n ≡ false) before
    → is_dead p.id n ≡ true
    → chosen s n ≡ ids_of (p ∷ after)
unfolding chosen to_restart
chosen-rest_for_one s n before p after e split live dead =
    let ps = s.processes in
    let here : contains_process_id (dead_processes ps n) p.id ≡ true =
      ground (arith, contains-dead_processes p.id ps n, contains-middle before p after, split) in
    let tail : from_first_dead (dead_processes ps n) ps ≡ p ∷ after = rw split (
      from_first_dead-split _ before p after (rw split at (not_dead n ps before live))
        (rw split at here)) in
    elim (List-cases (dead_processes ps n)) [
      | inl h ↦ absurd (
          unfold contains_process_id in
          ground (arith, here, ap (λ xs. contains_process_id xs p.id) h))
      | inr (d, ds, h) ↦ ground (arith, h, tail)
    ]

-- OneForOne, on a running node that satisfies its invariant, with no limit on restarts: a tick
-- makes the dead supervised processes anew, and leaves every other one as it is.
one_for_one-scope :
    (clock : ℕ → ℕ) (j : String) (s : Supervisor) {n : Node}
    → s.strategy ≡ one_for_one
    → IsUnlimited s
    → n.stopped ≡ false
    → Inv n
    → find j (check_processes clock (s, n)).1 ≡ (
        if contains_process_id (ids_of s.processes) j && is_dead j n
        then renewed j s.processes (find j n)
        else find j n)
one_for_one-scope clock j s {n} e u running inv =
    rw (← chosen-one_for_one j s n e) (check_processes-find clock j s u running inv)

-- OneForAll, on a running node that satisfies its invariant, with no limit on restarts: as soon as
-- one supervised process is dead, a tick makes every supervised process anew.
one_for_all-scope :
    (clock : ℕ → ℕ) (j : String) (s : Supervisor) {n : Node}
    → s.strategy ≡ one_for_all
    → IsUnlimited s
    → n.stopped ≡ false
    → Inv n
    → find j (check_processes clock (s, n)).1 ≡ (
        if contains_process_id (ids_of s.processes) j && any_dead s.processes n
        then renewed j s.processes (find j n)
        else find j n)
one_for_all-scope clock j s {n} e u running inv =
    rw (← chosen-one_for_all j s n e) (check_processes-find clock j s u running inv)

-- RestForOne, on a running node that satisfies its invariant, with no limit on restarts: a tick
-- makes the first dead process in the supervisor's order and all those after it anew, and leaves
-- those before it as they are.
rest_for_one-scope :
    (clock : ℕ → ℕ) (j : String) (s : Supervisor) {n : Node} (before : List ProcessSpec)
    (p : ProcessSpec) (after : List ProcessSpec)
    → s.strategy ≡ rest_for_one
    → s.processes ≡ before ++ p ∷ after
    → All (λ q. is_dead q.id n ≡ false) before
    → is_dead p.id n ≡ true
    → IsUnlimited s
    → n.stopped ≡ false
    → Inv n
    → find j (check_processes clock (s, n)).1 ≡ (
        if contains_process_id (ids_of (p ∷ after)) j
        then renewed j s.processes (find j n)
        else find j n)
rest_for_one-scope clock j s {n} before p after e split live dead u running inv =
    rw (← chosen-rest_for_one s n before p after e split live dead)
      (check_processes-find clock j s u running inv)
