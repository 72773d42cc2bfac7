-- ===== src/Supervisor.antt =====
-- socket/distributed/node.go, supervisors (lines 43-62 and 290-491). A supervisor's context is done
-- exactly when its node is stopped: nothing else cancels the context of a supervisor that runs.
pub mod Restart
pub mod Strategies
pub mod Scope
pub mod Limits
use socket_go.Base.{
  ℕ, zero, suc, ◌+◌, ◌-◌, String, Bool, true, false, ◌&&◌, ◌||◌, not, List, [], ◌∷◌, ◌++◌, Option,
  none, some, ltb, str_eq, ◌==◌, if◌then◌else◌,
}
use socket_go.Base.Int.{ℤ, pos, negsuc, ltb_ℤ}
use socket_go.Base.Map.{Map, lookup, insert, delete, has}
use socket_go.Socket.{Error, Result, ok, err}
use socket_go.Node.{Node, Process, update, cancel, install, default_mailbox, spawn_process_with_id}

pub data Strategy : Type 0 where
  one_for_one one_for_all rest_for_one : Strategy

pub record ProcessSpec : Type 0 where
  pub id : String
  pub function : ℕ

pub record SupervisorSpec : Type 0 where
  pub id : String
  pub strategy : Strategy
  pub max_restarts : ℤ
  pub restart_period : ℕ
  pub processes : List ProcessSpec

pub record RestartTracker : Type 0 where
  pub count : ℕ
  pub last_time : ℕ

pub record Supervisor : Type 0 where
  pub spec : SupervisorSpec
  pub open spec use {strategy, max_restarts, restart_period, processes}
  pub restarts : Map RestartTracker

-- The loop of `NewSupervisor`: the first spawn that fails ends it.
unfoldable spawn_all : List ProcessSpec → Node → Option Error × Node
spawn_all [] n = (none, n)
spawn_all (p ∷ ps) n =
    let (r, n') = spawn_process_with_id p.id p.function n in
    elim r [ err e ↦ (some e, n') | ok id ↦ spawn_all ps n' ]

unfoldable pub new_supervisor : SupervisorSpec → Node → Result Supervisor × Node
unfolding spawn_all
new_supervisor spec n =
    let (e, n') = spawn_all spec.processes n in
    elim e [
      | some x ↦ (err x, n')
      | none ↦ (
        ok (record { spec = spec; restarts = [] }),
        record n' { supervisors = insert spec.id tt n'.supervisors },
      )
    ]

unfoldable pub contains_process_id : List String → String → Bool
contains_process_id [] id = false
contains_process_id (p ∷ pids) id = if str_eq p id then true else contains_process_id pids id

unfoldable pub is_dead : String → Node → Bool
is_dead id n = elim (lookup id n.processes) [ none ↦ true | some a ↦ not (n.heap a).alive ]

-- The first loop of `checkProcesses`.
unfoldable pub dead_processes : List ProcessSpec → Node → List String
unfolding is_dead
dead_processes [] n = []
dead_processes (p ∷ ps) n =
    if is_dead p.id n then p.id ∷ dead_processes ps n else dead_processes ps n

unfoldable pub find_spec : String → List ProcessSpec → Option ProcessSpec
find_spec id [] = none
find_spec id (p ∷ ps) = if str_eq p.id id then some p else find_spec id ps

-- The tracker as `restartProcess` uses it: a missing one is made, one whose period is over is reset.
unfoldable pub tracker_at : String → ℕ → Supervisor → RestartTracker
tracker_at id now s = elim (lookup id s.restarts) [
  | none ↦ record { count = 0; last_time = now }
  | some t ↦
      if ltb s.restart_period (now - t.last_time) then record { count = 0; last_time = now } else t
]

unfoldable pub is_exhausted : RestartTracker → Supervisor → Bool
is_exhausted t s = not (ltb_ℤ (pos t.count) s.max_restarts) && ltb_ℤ (pos 0) s.max_restarts

track : String → RestartTracker → Supervisor → Supervisor
track id t s = record s { restarts = insert id t s.restarts }

-- The part under the node's lock: the old process is cancelled, the new one stands in its place.
unfoldable pub replace : String → ℕ → Node → Node
replace id f n = elim (lookup id n.processes) [
  | none ↦ install id f default_mailbox n
  | some a ↦
      let n' = update a cancel n in
      install id f default_mailbox (record n' { processes = delete id n'.processes })
]

unfoldable pub restart_process : ℕ → String → Supervisor × Node → Supervisor × Node
unfolding tracker_at is_exhausted track find_spec
restart_process now id (s, n) =
    let t = tracker_at id now s in
    let s' = track id t s in
    if is_exhausted t s then (s', n) else elim (find_spec id s.processes) [
      | none ↦ (s', n)
      | some p ↦
          (track id (record { count = t.count + 1; last_time = now }) s', replace id p.function n)
    ]

-- `clock k` is what the k-th restart of a tick reads.
unfoldable pub restart_each : (ℕ → ℕ) → ℕ → List String → Supervisor × Node → Supervisor × Node
restart_each clock k [] sn = sn
restart_each clock k (id ∷ ids) sn =
    restart_each clock (k + 1) ids (restart_process (clock k) id sn)

unfoldable pub ids_of : List ProcessSpec → List String
ids_of [] = []
ids_of (p ∷ ps) = p.id ∷ ids_of ps

-- The entries from the first dead one on, as the loop with `index` finds them.
unfoldable pub from_first_dead : List String → List ProcessSpec → List ProcessSpec
from_first_dead dead [] = []
from_first_dead dead (p ∷ ps) =
    if contains_process_id dead p.id then p ∷ ps else from_first_dead dead ps

-- What the strategy restarts, in order.
unfoldable pub to_restart : Strategy → List String → List ProcessSpec → List String
unfolding ids_of from_first_dead contains_process_id
to_restart one_for_one dead ps = dead
to_restart one_for_all dead ps = ids_of ps
to_restart rest_for_one dead ps = ids_of (from_first_dead dead ps)

-- One tick of `monitor`.
unfoldable pub check_processes : (ℕ → ℕ) → Supervisor × Node → Supervisor × Node
unfolding dead_processes to_restart restart_each
check_processes clock (s, n) = if n.stopped then (s, n) else elim (dead_processes s.processes n) [
  | [] ↦ (s, n)
  | d ∷ ds ↦ restart_each clock 0 (to_restart s.strategy (d ∷ ds) s.processes) (s, n)
]
