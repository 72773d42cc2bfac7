-- ===== src/Examples/Nodes.antt =====
-- A node with two processes, whose mailboxes hold 100 messages and one.
use socket_go.Node.Registry.Refinement as Registry
use socket_go.Node.Registry.Refinement.{book, serve_all, answer_all, serve_all-refines}
use socket_go.Base.{◌≡◌, ◌++◌, List, [], ◌∷◌, arith}
use socket_go.Base.Int.{pos}
use socket_go.Socket.{Socket, nil, str}
use socket_go.Node.{
  Node, ProcessOptions, normal, new_node, spawn_process_with_id, spawn_process_with_id_and_options,
  install, subscribe,
}
use socket_go.Node.Invariant.{Inv}
use socket_go.Node.History.{
  Call, spawns, spawns_with, sends, subscribes, stops, receives, leaves, run, step,
  run-new_node-Inv,
}
use socket_go.Node.Mailbox.{traffic, Move, calls, delivers, run_moves, taken_all, run-traffic}

abbrev small : ProcessOptions
small = record { priority = normal; mailbox_size = pos 1; capabilities = [] }

abbrev start_up : List Call
start_up = spawns "log" 7 ∷ spawns_with "echo" 8 small ∷ subscribes "log" "red" ∷ []

abbrev node : Node
node = run start_up (new_node "here")

node-Inv : Inv node
node-Inv = run-new_node-Inv "here" start_up

run-new_node-Inv_example :
    Inv (
      run (spawns "log" 7 ∷ sends "log" nil ∷ receives 0 ∷ stops ∷ leaves 0 ∷ []) (new_node "here"))
run-new_node-Inv_example =
    run-new_node-Inv "here" (spawns "log" 7 ∷ sends "log" nil ∷ receives 0 ∷ stops ∷ leaves 0 ∷ [])

-- The mailbox of one takes a message, and refuses the next.
abbrev full : Node
full = run (sends "echo" nil ∷ []) node

full-Inv : Inv full
unfolding run new_node
full-Inv = run-new_node-Inv "here" (start_up ++ sends "echo" nil ∷ [])

abbrev moves : List Move
moves =
    calls (sends "log" nil)
    ∷ delivers "log" nil
    ∷ calls (receives 0)
    ∷ calls (sends "log" (str "x"))
    ∷ []

run-traffic_example :
    traffic ((run_moves moves node).heap 0) ≡ traffic (node.heap 0) ++ taken_all 0 moves node
unfolding run step spawn_process_with_id spawn_process_with_id_and_options subscribe install
    new_node
run-traffic_example = run-traffic 0 moves node (omega arith)

abbrev ann : Socket
ann = record { id = "ann"; addr = 1 }

abbrev requests : List Registry.Call
requests =
    Registry.spawns "new" 9
    ∷ Registry.sends "new" nil
    ∷ Registry.kills "log"
    ∷ Registry.stops
    ∷ Registry.sends "new" nil
    ∷ []

serve_all-refines_example :
    let (es, n) = serve_all requests node in
    let (es', b) = answer_all requests (book node) in (es ≡ es') × (book n ≡ b)
serve_all-refines_example = serve_all-refines requests node-Inv
