-- ===== src/Balancer.antt =====
-- socket/distributed/node.go, load-balanced groups (lines 797-912). `rand.Intn(total)` is an argument
-- of the send, with what it promises, a number below `total`, as a hypothesis where that is needed.
pub mod Dealing
pub mod RoundRobin
pub mod Weighted
use socket_go.Base.{
  ℕ, zero, suc, ◌+◌, ◌%◌, String, Bool, true, false, ◌&&◌, not, List, [], ◌∷◌, ◌++◌, Option, none,
  some, length, get_elem?, str_eq, if◌then◌else◌,
}
use socket_go.Base.Int.{ℤ, pos, ltb_ℤ, ◌+ℤ◌}
use socket_go.Socket.{Error, text, Value}
use socket_go.Node.{Node, send}
use socket_go.Cluster.{Cluster, remote_call}

pub data Strategy : Type 0 where
  round_robin weighted_round_robin least_connections : Strategy

pub record Entry : Type 0 where
  pub node_id : String
  pub process_id : String
  pub weight : ℤ

pub record Group : Type 0 where
  pub id : String
  pub process_list : List Entry
  pub strategy : Strategy
  pub next_index : ℕ

unfoldable new_load_balanced_group : String → Strategy → Group
new_load_balanced_group id strategy = record {
  id = id;
  process_list = [];
  strategy = strategy;
  next_index = 0;
}

unfoldable add_process : String → String → ℤ → Group → Group
add_process node_id process_id weight g = record g {
  process_list =
      g.process_list ++ record { node_id = node_id; process_id = process_id; weight = weight } ∷ [];
}

-- The first entry that matches goes.
unfoldable pub remove_first : String → String → List Entry → List Entry
remove_first node_id process_id [] = []
remove_first node_id process_id (p ∷ ps) =
    if str_eq p.node_id node_id && str_eq p.process_id process_id
    then ps
    else p ∷ remove_first node_id process_id ps

unfoldable pub remove_process : String → String → Group → Group
unfolding remove_first
remove_process node_id process_id g = record g {
  process_list = remove_first node_id process_id g.process_list;
}

-- What the `switch` of `Send` comes to: a target, the error on an empty group, or the panic of an
-- index that is out of range.
pub data Pick : Type 0 where
  nobody : Pick
  out_of_range : Pick
  target : Entry → Pick

abbrev pub of_index : Option Entry → Pick
of_index none = out_of_range
of_index (some e) = target e

unfoldable pick_next : Group → Pick × Group
pick_next g = elim (get_elem? g.process_list g.next_index) [
  | none ↦ (out_of_range, g)
  | some e ↦ (target e, record g { next_index = (g.next_index + 1) % length g.process_list })
]

unfoldable pub total_weight : ℤ → List Entry → ℤ
total_weight acc [] = acc
total_weight acc (p ∷ ps) = total_weight (acc +ℤ p.weight) ps

-- The zero value of `target`.
abbrev pub no_entry : Entry
no_entry = record { node_id = ""; process_id = ""; weight = pos 0 }

-- The loop over running totals.
unfoldable pub select : ℤ → ℤ → List Entry → Entry
select selection running [] = no_entry
select selection running (p ∷ ps) =
    let running' = running +ℤ p.weight in
    if ltb_ℤ selection running' then p else select selection running' ps

unfoldable pick_by : Strategy → ℕ → Group → Pick × Group
unfolding pick_next total_weight select
pick_by round_robin r g = pick_next g
pick_by weighted_round_robin r g =
    if ltb_ℤ (pos 0) (total_weight (pos 0) g.process_list)
    then (target (select (pos r) (pos 0) g.process_list), g)
    else pick_next g
pick_by least_connections r g = (of_index (get_elem? g.process_list 0), g)

unfoldable pub pick : ℕ → Group → Pick × Group
unfolding pick_by
pick r g = elim g.process_list [ [] ↦ (nobody, g) | p ∷ ps ↦ pick_by g.strategy r g ]

-- `Send` itself: `panic` is the Go runtime's.
pub data Sent : Type 0 where
  panic : Sent
  answer : Option Error → Cluster → Sent

unfoldable pub route : Value → Entry → Cluster → Sent
route m e c =
    if str_eq e.node_id c.local_node.name
    then (let (x, n) = send e.process_id m c.local_node in answer x (record c { local_node = n }))
    else answer (remote_call e.node_id e.process_id m c) c

unfoldable pub send_group : ℕ → Value → Group → Cluster → Sent × Group
unfolding pick route
send_group r m g c =
    let (p, g') = pick r g in
    (
      elim p [
        | nobody ↦ answer (some (text "no processes available in load balanced group")) c
        | out_of_range ↦ panic
        | target e ↦ route m e c
      ],
      g',
    )
