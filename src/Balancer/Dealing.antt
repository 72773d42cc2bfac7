-- ===== src/Balancer/Dealing.antt =====
-- socket/distributed/node.go: a round-robin group over the processes of one node, from `Send` of the group
-- to the mailboxes.
use socket_go.Base.{
  ℕ, ◌+◌, ◌%◌, String, ◌≡◌, true, List, [], ◌∷◌, Option, none, some, length, get_elem?, str_eq,
  if◌then◌else◌,
}
use socket_go.Socket.{Value}
use socket_go.Node.{Process, Node}
use socket_go.Node.Registry.{after_send}
use socket_go.Cluster.{Cluster}
use socket_go.Balancer.{Group, Entry, panic, answer, send_group}

-- One send after the other, each with its random number; `none` is a panic.
unfoldable pub send_all : List (ℕ × Value) → Group → Cluster → Option (Group × Cluster)
unfolding send_group
send_all [] g c = some (g, c)
send_all ((r, m) ∷ ms) g c =
    let (s, g') = send_group r m g c in elim s [ panic ↦ none | answer e c' ↦ send_all ms g' c' ]

-- The messages that fall to a process when they are dealt out around the list, from a place on.
unfoldable pub hand_of : String → List Entry → ℕ → List (ℕ × Value) → List Value
hand_of id es i [] = []
hand_of id es i ((r, m) ∷ ms) =
    let rest = hand_of id es ((i + 1) % length es) ms in
    elim (get_elem? es i) [
      | none ↦ rest
      | some e ↦ if str_eq e.process_id id then m ∷ rest else rest
    ]

-- A process, if it is there, when these messages have been offered to it.
unfoldable pub offered : List Value → Option Process → Option Process
offered [] p = p
offered (m ∷ ms) p = offered ms (after_send m p)

abbrev IsAt : String → Entry → Type 0
IsAt name e = str_eq e.node_id name ≡ true
