-- ===== src/Node/Mailbox.antt =====
-- socket/distributed/node.go: what a process has been sent and what it has handled.
use socket_go.Base.{
  String, Option, ℕ, ◌<◌, ◌≡◌, refl, sym, ◌∙◌, true, ◌&&◌, not, is_some, List, [], ◌∷◌, ◌++◌, none,
  some, arith, ◌==◌, ==_iff, if◌then◌else◌,
}
use mathlib.Core.List.{append-nil, append_assoc}
use socket_go.Base.Map.{lookup}
use socket_go.Socket.{Value}
use socket_go.Node.{
  Process, Node, update, install, spawn_process_with_id, spawn_process_with_id_and_options, push,
  offer, send, kill, retire, stop, receive, leave, take_next, halt, subscribe, unsubscribe,
}
use socket_go.Node.Notify.{deliver}
use socket_go.Node.History.{
  Call, spawns, spawns_with, sends, kills, subscribes, unsubscribes, stops, receives, leaves, step,
  stop_each-frame,
}

-- What a process has handled and has still to handle.
abbrev pub traffic : Process → List Value
traffic p = p.handled ++ p.mailbox

-- The messages that a call has for the process at `a`: that of a `Send` to its id which answers no
-- error, and none else.
unfoldable pub accepted : ℕ → Call → Node → List Value
accepted a (sends to m) n = elim (lookup to n.processes) [
  | none ↦ []
  | some b ↦ if b == a && not (is_some (send to m n).0) then m ∷ [] else []
]
accepted a (spawns id f) n = []
accepted a (spawns_with id f opts) n = []
accepted a (kills id) n = []
accepted a (subscribes id room) n = []
accepted a (unsubscribes id room) n = []
accepted a stops n = []
accepted a (receives b) n = []
accepted a (leaves b) n = []

-- What happens to a node: a call or a goroutine's round, or one channel send of the handlers that the
-- node has on a server, which waits where the mailbox is full. A handler is a sequence of these.
pub data Move : Type 0 where
  calls : Call → Move
  delivers : String → Value → Move

or_same : Node → Option Node → Node
or_same n none = n
or_same n (some n') = n'

unfoldable pub move : Move → Node → Node
unfolding or_same
move (calls c) n = step c n
move (delivers pid m) n = or_same n (deliver pid m n)

-- The message of a channel send goes to the process that is registered, where it is alive and the send
-- does not wait.
unfoldable pub taken : ℕ → Move → Node → List Value
unfolding accepted
taken a (calls c) n = accepted a c n
taken a (delivers pid m) n = elim (lookup pid n.processes) [
  | none ↦ []
  | some b ↦ if b == a && (n.heap b).alive && is_some (deliver pid m n) then m ∷ [] else []
]

unfoldable pub run_moves : List Move → Node → Node
unfolding move
run_moves [] n = n
run_moves (v ∷ vs) n = run_moves vs (move v n)

unfoldable pub taken_all : ℕ → List Move → Node → List Value
unfolding taken move
taken_all a [] n = []
taken_all a (v ∷ vs) n = taken a v n ++ taken_all a vs (move v n)

take_next-traffic :
    (ms : List Value) (p : Process) → p.mailbox ≡ ms → traffic (take_next ms p) ≡ traffic p
unfolding take_next
take_next-traffic [] p e = refl
take_next-traffic (m ∷ ms) p e = rw e (append_assoc p.handled (m ∷ []) ms)

-- Every call keeps the object at `a`, if there is one, and appends what it accepts to its traffic.
step-traffic :
    (a : ℕ) (c : Call) (n : Node)
    → a < n.next
    → (traffic ((step c n).heap a) ≡ traffic (n.heap a) ++ accepted a c n) × (a < (step c n).next)
unfolding step accepted
step-traffic a (spawns id f) n h =
    unfold spawn_process_with_id install in
    ground (arith, append-nil (traffic (n.heap a)), ==_iff a n.next)
step-traffic a (spawns_with id f opts) n h =
    unfold spawn_process_with_id_and_options install in
    ground (arith, append-nil (traffic (n.heap a)), ==_iff a n.next)
step-traffic a (sends to m) n h =
    unfold send offer update push in
    ground (
      arith,
      append-nil (traffic (n.heap a)),
      append_assoc (n.heap a).handled (n.heap a).mailbox (m ∷ []),
      (λ (b : ℕ). ==_iff a b),
    )
step-traffic a (kills id) n h =
    unfold kill update retire in ground (arith, append-nil (traffic (n.heap a)))
step-traffic a (subscribes id room) n h = unfold subscribe in (sym (append-nil _), h)
step-traffic a (unsubscribes id room) n h =
    unfold unsubscribe in ground (arith, append-nil (traffic (n.heap a)))
step-traffic a stops n h =
    let frame = stop_each-frame n.processes (record n { stopped = true }) in
    unfold stop in ground (arith, frame.2 a, frame.3, append-nil (traffic (n.heap a)))
step-traffic a (receives b) n h =
    unfold receive update in
    ground (
      arith,
      take_next-traffic (n.heap a).mailbox (n.heap a) refl,
      ==_iff a b,
      append-nil (traffic (n.heap a)),
    )
step-traffic a (leaves b) n h =
    unfold leave update halt in ground (arith, append-nil (traffic (n.heap a)))

move-traffic :
    (a : ℕ) (v : Move) (n : Node)
    → a < n.next
    → (traffic ((move v n).heap a) ≡ traffic (n.heap a) ++ taken a v n) × (a < (move v n).next)
unfolding move taken
move-traffic a (calls c) n h = step-traffic a c n h
move-traffic a (delivers pid m) n h =
    unfold or_same deliver update push in
    ground (
      arith,
      append-nil (traffic (n.heap a)),
      append_assoc (n.heap a).handled (n.heap a).mailbox (m ∷ []),
      (λ (b : ℕ). ==_iff a b),
    )

-- Over any sequence of spawns, sends, kills, subscriptions, stops, rounds of the processes'
-- goroutines, and channel sends of the handlers for rooms and disconnects, for a process object that
-- exists: what it has handled, and then its mailbox, is what stood there before and then, in order,
-- the messages of the `Send` calls to it that answered no error and those of the handlers' sends to
-- it that did not wait. None is lost, doubled or overtaken.
pub run-traffic :
    (a : ℕ) (vs : List Move) (n : Node)
    → a < n.next
    → traffic ((run_moves vs n).heap a) ≡ traffic (n.heap a) ++ taken_all a vs n
unfolding run_moves taken_all
run-traffic a [] n h = sym (append-nil _)
run-traffic a (v ∷ vs) n h =
    let (now, later) = move-traffic a v n h in
    run-traffic a vs (move v n) later
    ∙ rw now (append_assoc (traffic (n.heap a)) (taken a v n) (taken_all a vs (move v n)))
