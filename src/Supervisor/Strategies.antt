-- ===== src/Supervisor/Strategies.antt =====
-- socket/distributed/node.go, `checkProcesses`: what a tick does under each strategy, when restarts
-- are not limited.
use socket_go.Base.{
  ℕ, ◌+◌, String, ◌≡◌, refl, ap, inl, inr, ◌⊎◌, true, false, not, ◌&&◌, List, [], ◌∷◌, Option, none,
  some, arith, is_some, str_eq, eq_iff, if◌then◌else◌, Option-cases,
}
use socket_go.Base.Int.{pos, ltb_ℤ}
use socket_go.Node.{Node, Process, new_process}
use socket_go.Node.Invariant.{Inv}
use socket_go.Node.Registry.{find}
use socket_go.Supervisor.{
  Supervisor, ProcessSpec, Strategy, one_for_one, one_for_all, rest_for_one, contains_process_id,
  is_dead, dead_processes, to_restart, ids_of, from_first_dead, check_processes, restart_process,
  restart_each, is_exhausted, find_spec,
}
use socket_go.Supervisor.Restart.{
  permits, find-replace, restart_process-node, restart_process-spec, restart_process-Inv,
}

-- `MaxRestarts` of zero or less sets no limit.
abbrev pub IsUnlimited : Supervisor → Type 0
IsUnlimited s = ltb_ℤ (pos 0) s.max_restarts ≡ false

permits_unlimited :
    (now : ℕ) (id : String) (s : Supervisor)
    → IsUnlimited s
    → permits now id s ≡ find_spec id s.processes
unfolding is_exhausted
permits_unlimited now id s u = ground arith

-- The process that a supervised id leads to after a restart.
abbrev pub renewed : String → List ProcessSpec → Option Process → Option Process
renewed j ps o = elim (find_spec j ps) [ none ↦ o | some p ↦ some (new_process j p.function 100) ]

restart_process-find :
    (now : ℕ) (id j : String) (s : Supervisor) {n : Node}
    → IsUnlimited s
    → Inv n
    → find j (restart_process now id (s, n)).1
      ≡ (if str_eq id j then renewed j s.processes (find j n) else find j n)
restart_process-find now id j s {n} u inv = elim (Option-cases (find_spec id s.processes)) [
  | inl e ↦
      rw (restart_process-node now id s n, permits_unlimited now id s u, e)
        (ground (arith, eq_iff id j))
  | inr (p, e) ↦
      rw (restart_process-node now id s n, permits_unlimited now id s u, e)
        (ground (arith, eq_iff id j, find-replace id j p.function inv))
]

restart_each-find :
    (clock : ℕ → ℕ) (k : ℕ) (ids : List String) (j : String) (s : Supervisor) {n : Node}
    → IsUnlimited s
    → Inv n
    → find j (restart_each clock k ids (s, n)).1
      ≡ (if contains_process_id ids j then renewed j s.processes (find j n) else find j n)
unfolding restart_each contains_process_id
restart_each-find clock k [] j s u inv = refl
restart_each-find clock k (id ∷ ids) j s {n} u inv =
    let r = restart_process (clock k) id (s, n) in
    let same : r.0.spec ≡ s.spec = restart_process-spec (clock k) id s n in
    let u' : IsUnlimited r.0 = rw same u in
    let rest =
      restart_each-find clock (k + 1) ids j r.0 u' (restart_process-Inv (clock k) id s inv) in
    ground (arith, rest, same, restart_process-find (clock k) id j s u inv)

-- What a tick restarts: nothing if nobody is dead.
unfoldable pub chosen : Supervisor → Node → List String
chosen s n = elim (dead_processes s.processes n) [
  | [] ↦ []
  | d ∷ ds ↦ to_restart s.strategy (d ∷ ds) s.processes
]

pub List-cases :
    (xs : List String) → (xs ≡ []) ⊎ ((d : String) × (ds : List String) × (xs ≡ d ∷ ds))
List-cases [] = inl refl
List-cases (d ∷ ds) = inr (d, ds, refl)

check_processes-chosen :
    (clock : ℕ → ℕ) (s : Supervisor) (n : Node)
    → n.stopped ≡ false
    → check_processes clock (s, n) ≡ restart_each clock 0 (chosen s n) (s, n)
unfolding check_processes chosen restart_each
check_processes-chosen clock s n running = elim (List-cases (dead_processes s.processes n)) [
  | inl e ↦ ground (arith, e)
  | inr (d, ds, e) ↦ ground (arith, e)
]

-- The state of every process after a tick.
pub check_processes-find :
    (clock : ℕ → ℕ) (j : String) (s : Supervisor) {n : Node}
    → IsUnlimited s
    → n.stopped ≡ false
    → Inv n
    → find j (check_processes clock (s, n)).1
      ≡ (if contains_process_id (chosen s n) j then renewed j s.processes (find j n) else find j n)
check_processes-find clock j s {n} u running inv =
    rw (check_processes-chosen clock s n running) (restart_each-find clock 0 (chosen s n) j s u inv)

pub contains-dead_processes :
    (j : String) (ps : List ProcessSpec) (n : Node)
    → contains_process_id (dead_processes ps n) j ≡ contains_process_id (ids_of ps) j && is_dead j n
unfolding contains_process_id dead_processes ids_of
contains-dead_processes j [] n = refl
contains-dead_processes j (p ∷ ps) n = ground (arith, eq_iff p.id j, contains-dead_processes j ps n)

contains-from_first_dead :
    (j : String) (dead : List String) (ps : List ProcessSpec)
    → contains_process_id dead j ≡ true
    → contains_process_id (ids_of ps) j ≡ true
    → contains_process_id (ids_of (from_first_dead dead ps)) j ≡ true
unfolding from_first_dead ids_of contains_process_id
contains-from_first_dead j dead [] d h = h
contains-from_first_dead j dead (p ∷ ps) d h =
    ground (arith, eq_iff p.id j, contains-from_first_dead j dead ps d)

-- Under every strategy the dead are among those that are restarted.
contains-to_restart :
    (j : String) (t : Strategy) (dead : List String) (ps : List ProcessSpec)
    → contains_process_id dead j ≡ true
    → contains_process_id (ids_of ps) j ≡ true
    → contains_process_id (to_restart t dead ps) j ≡ true
unfolding to_restart
contains-to_restart j one_for_one dead ps d h = d
contains-to_restart j one_for_all dead ps d h = h
contains-to_restart j rest_for_one dead ps d h = contains-from_first_dead j dead ps d h

find_spec-contains :
    (j : String) (ps : List ProcessSpec)
    → is_some (find_spec j ps) ≡ contains_process_id (ids_of ps) j
unfolding find_spec ids_of contains_process_id
find_spec-contains j [] = refl
find_spec-contains j (p ∷ ps) = ground (arith, find_spec-contains j ps)

is_dead-find :
    (j : String) (n : Node) → is_dead j n ≡ elim (find j n) [ none ↦ true | some p ↦ not p.alive ]
unfolding is_dead find
is_dead-find j n = ground arith

chosen-dead :
    (j : String) (s : Supervisor) (n : Node)
    → contains_process_id (ids_of s.processes) j ≡ true
    → is_dead j n ≡ true
    → contains_process_id (chosen s n) j ≡ true
unfolding chosen
chosen-dead j s n sup dead = elim (List-cases (dead_processes s.processes n)) [
  | inl e ↦ absurd (
      unfold contains_process_id in
      ground
        (arith, contains-dead_processes j s.processes n, ap (λ xs. contains_process_id xs j) e))
  | inr (d, ds, e) ↦
      rw (e, chosen)
        (contains-to_restart j s.strategy (d ∷ ds) s.processes
          (ground (arith, contains-dead_processes j s.processes n, e)) sup)
]

-- On a running node that satisfies its invariant, with no limit on restarts: after a tick every
-- supervised process is alive, whichever strategy is chosen.
pub check_processes_heals :
    (clock : ℕ → ℕ) (j : String) (s : Supervisor) {n : Node}
    → IsUnlimited s
    → n.stopped ≡ false
    → Inv n
    → contains_process_id (ids_of s.processes) j ≡ true
    → is_dead j (check_processes clock (s, n)).1 ≡ false
unfolding new_process
check_processes_heals clock j s {n} u running inv sup = ground (
  arith,
  is_dead-find j (check_processes clock (s, n)).1,
  is_dead-find j n,
  check_processes-find clock j s u running inv,
  chosen-dead j s n sup,
  find_spec-contains j s.processes,
)
