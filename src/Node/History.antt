-- ===== src/Node/History.antt =====
-- socket/distributed/node.go: histories of a node, `Stop` included, as sequences of calls and of
-- goroutines' rounds.
use socket_go.Base.{ℕ, String, ◌≡◌, refl, true, List, [], ◌∷◌, none, some, arith, ==_iff, eq_iff}
use socket_go.Base.Map.{Map, IsMap, lookup, delete, delete_absent}
use socket_go.Socket.{Value}
use socket_go.Node.{
  Node, ProcessOptions, new_node, update, cancel, spawn_process_with_id,
  spawn_process_with_id_and_options, send, kill, stop, stop_each, subscribe, unsubscribe, receive,
  leave,
}
use socket_go.Node.Invariant.Topics.{subscribe-Inv, unsubscribe-Inv}
use socket_go.Node.Invariant.{
  Inv, new_node-Inv, spawn-Inv, spawn_with_options-Inv, send-Inv, kill-Inv, receive-Inv, leave-Inv,
}

-- The loop of `Stop` empties the registry that it ranges over.
stop_each-processes :
    (m : Map ℕ) (n : Node) → IsMap m → n.processes ≡ m → (stop_each m n).processes ≡ []
unfolding stop_each
stop_each-processes [] n d e = e
stop_each-processes ((id, a) ∷ rest) n d e =
    stop_each-processes rest _ d.1
      (unfold update delete in ground (arith, eq_iff id id, delete_absent id rest d.0))

stop-processes : {n : Node} → Inv n → (stop n).processes ≡ []
unfolding stop
stop-processes {n} inv = stop_each-processes n.processes _ inv.distinct refl

-- What the loop of `Stop` leaves alone, and what it does to each process.
pub stop_each-frame :
    (m : Map ℕ) (n : Node)
    → ((stop_each m n).subscriptions ≡ n.subscriptions)
      × ((stop_each m n).stopped ≡ n.stopped)
      × ((a : ℕ)
          → (((stop_each m n).heap a).mailbox ≡ (n.heap a).mailbox)
            × (((stop_each m n).heap a).capacity ≡ (n.heap a).capacity)
            × (((stop_each m n).heap a).handled ≡ (n.heap a).handled))
      × ((stop_each m n).next ≡ n.next)
unfolding stop_each
stop_each-frame [] n = (refl, refl, λ a. (refl, refl, refl), refl)
stop_each-frame ((id, a) ∷ rest) n =
    let n' = update a cancel n in
    let later = stop_each-frame rest (record n' { processes = delete id n'.processes }) in
    (
      unfold update in later.0,
      unfold update in later.1,
      λ b. unfold update cancel in ground (arith, later.2 b, ==_iff b a),
      unfold update in later.3,
    )

pub stop-stopped : (n : Node) → (stop n).stopped ≡ true
unfolding stop
stop-stopped n = (stop_each-frame n.processes (record n { stopped = true })).1

pub lookup-stop : (id : String) {n : Node} → Inv n → lookup id (stop n).processes ≡ none
lookup-stop id inv = rw (stop-processes inv) (unfold lookup in refl)

-- With nobody registered, only the mailboxes and the subscriptions are left to speak of.
pub stop-Inv : {n : Node} → Inv n → Inv (stop n)
unfolding stop
stop-Inv {n} inv =
    let frame = stop_each-frame n.processes (record n { stopped = true }) in
    let empty = stop_each-processes n.processes (record n { stopped = true }) inv.distinct refl in
    record {
      fresh = λ id a h. absurd (no_entry id a (rw empty at h));
      named = λ id a h. absurd (no_entry id a (rw empty at h));
      live = λ id a h. absurd (no_entry id a (rw empty at h));
      distinct = rw empty tt;
      bounded = λ a. ground (arith, frame.2 a, inv.bounded a);
      topics = rw frame.0 inv.topics;
      nonempty = λ id rooms h. inv.nonempty id rooms (rw frame.0 at h);
    }
  where
    no_entry : (id : String) (a : ℕ) → lookup id [] ≡ some a → ⊥
    no_entry id a h = unfold lookup in cc

-- What callers and the processes' own goroutines do to a node.
pub data Call : Type 0 where
  spawns : String → ℕ → Call
  spawns_with : String → ℕ → ProcessOptions → Call
  sends : String → Value → Call
  kills : String → Call
  subscribes unsubscribes : String → String → Call
  stops : Call
  receives leaves : ℕ → Call

unfoldable pub step : Call → Node → Node
step (spawns id f) n = (spawn_process_with_id id f n).1
step (spawns_with id f opts) n = (spawn_process_with_id_and_options id f opts n).1
step (sends to m) n = (send to m n).1
step (kills id) n = (kill id n).1
step (subscribes id room) n = subscribe id room n
step (unsubscribes id room) n = unsubscribe id room n
step stops n = stop n
step (receives a) n = receive a n
step (leaves a) n = leave a n

unfoldable pub run : List Call → Node → Node
unfolding step
run [] n = n
run (c ∷ cs) n = run cs (step c n)

step-Inv : (c : Call) {n : Node} → Inv n → Inv (step c n)
unfolding step
step-Inv (spawns id f) inv = spawn-Inv id f inv
step-Inv (spawns_with id f opts) inv = spawn_with_options-Inv id f opts inv
step-Inv (sends to m) inv = send-Inv to m inv
step-Inv (kills id) inv = kill-Inv id inv
step-Inv (subscribes id room) inv = subscribe-Inv id room inv
step-Inv (unsubscribes id room) inv = unsubscribe-Inv id room inv
step-Inv stops inv = stop-Inv inv
step-Inv (receives a) inv = receive-Inv a inv
step-Inv (leaves a) inv = leave-Inv a inv

run-Inv : (cs : List Call) {n : Node} → Inv n → Inv (run cs n)
unfolding run
run-Inv [] inv = inv
run-Inv (c ∷ cs) inv = run-Inv cs (step-Inv c inv)

-- After any history of a new node: ids and pointers agree, registered processes are alive,
-- mailboxes are within their capacity, and no subscription set is empty.
pub run-new_node-Inv : (name : String) (cs : List Call) → Inv (run cs (new_node name))
run-new_node-Inv name cs = run-Inv cs (new_node-Inv name)
