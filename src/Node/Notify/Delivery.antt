-- ===== src/Node/Notify/Delivery.antt =====
-- socket/distributed/node.go: one message to a list of processes, and when the handler is held up.
use socket_go.Base.{
  ℕ, String, ◌≡◌, refl, inl, inr, Bool, true, false, Option, none, some, arith, length,
  length-append, ltb, str_eq, str_eq_refl, eq_iff, if◌then◌else◌, Bool-cases, Option-cases, List,
  [], ◌∷◌,
}
use socket_go.Base.Map.{lookup, mem, Distinct}
use socket_go.Socket.{Value}
use socket_go.Node.{Process, Node, update, push}
use socket_go.Node.Invariant.{Inv, update-Inv}
use socket_go.Node.Registry.{find, find-none, find-some, find-update, after_send}
use socket_go.Node.Notify.{Outcome, through, blocked, deliver, deliver_each}

-- The mailbox takes another message, or there is nobody to send to.
abbrev pub fits : Option Process → Bool
fits none = true
fits (some p) = ltb (length p.mailbox) p.capacity

-- One send: the message is at the end of that mailbox and nothing else has changed.
abbrev Sent : String → Value → Node → Option Node → Type 0
Sent pid m n none = fits (find pid n) ≡ false
Sent pid m n (some n') =
    Inv n'
    × (fits (find pid n) ≡ true)
    × ((j : String) → find j n' ≡ (if str_eq pid j then after_send m (find pid n) else find j n))
    × (n'.subscriptions ≡ n.subscriptions)

push-Inv :
    (pid : String) (a : ℕ) (m : Value) {n : Node}
    → Inv n
    → ltb (length (n.heap a).mailbox) (n.heap a).capacity ≡ true
    → Inv (update a (push m) n)
push-Inv pid a m {n} inv free =
    update-Inv a (push m) inv
      (unfold push in (refl, refl, refl, ground (arith, length-append (n.heap a).mailbox (m ∷ []))))

Sent_free :
    (pid : String) (a : ℕ) (m : Value) {n : Node}
    → Inv n
    → lookup pid n.processes ≡ some a
    → ltb (length (n.heap a).mailbox) (n.heap a).capacity ≡ true
    → Sent pid m n (some (update a (push m) n))
Sent_free pid a m {n} inv e free = (
  push-Inv pid a m inv free,
  ground (arith, find-some pid n e),
  λ j. ground (arith, find-some pid n e, find-update pid j a (push m) inv e),
  unfold update in refl,
)

deliver-Sent : (pid : String) (m : Value) {n : Node} → Inv n → Sent pid m n (deliver pid m n)
unfolding deliver
deliver-Sent pid m {n} inv = elim (Option-cases (lookup pid n.processes)) [
  | inl e ↦
      rw (e, deliver)
        (
          inv,
          rw (find-none pid n e) refl,
          λ j. ground (arith, eq_iff pid j, find-none pid n e),
          refl,
        )
  | inr (a, e) ↦ elim (Bool-cases (ltb (length (n.heap a).mailbox) (n.heap a).capacity)) [
    | inl free ↦ rw (e, deliver, (inv.live pid a e).0, free) (Sent_free pid a m inv e free)
    | inr full ↦ rw (e, deliver, (inv.live pid a e).0, full) (ground (arith, find-some pid n e))
  ]
]

-- All sends: either every mailbox had room, and each process on the list has the message; or the
-- first full mailbox holds the handler up.
abbrev pub Delivered : List String → Value → Node → Outcome → Type 0
Delivered pids m n (through n') =
    (j : String)
    → (find j n' ≡ (if mem j pids then after_send m (find j n) else find j n))
      × (mem j pids ≡ true → fits (find j n) ≡ true)
Delivered pids m n (blocked pid n') = (mem pid pids ≡ true) × (fits (find pid n) ≡ false)

Delivered-later :
    (pid : String) (rest : List String) (m : Value) (n n' : Node) (o : Outcome)
    → mem pid rest ≡ false
    → Sent pid m n (some n')
    → Delivered rest m n' o
    → Delivered (pid ∷ rest) m n o
Delivered-later pid rest m n n' (through n'') out sent ih =
    λ j. ground (arith, eq_iff pid j, sent.1, sent.2 j, ih j)
Delivered-later pid rest m n n' (blocked q n'') out sent ih =
    ground (arith, eq_iff pid q, sent.2 q, ih.0, ih.1)

pub deliver_each-Delivered :
    (pids : List String) (m : Value) {n : Node}
    → Inv n
    → Distinct pids
    → Delivered pids m n (deliver_each pids m n)
unfolding deliver_each
deliver_each-Delivered [] m inv d = λ j. (refl, λ h. cc)
deliver_each-Delivered (pid ∷ rest) m {n} inv d = elim (Option-cases (deliver pid m n)) [
  | inl e ↦
      let full : fits (find pid n) ≡ false = rw e at (deliver-Sent pid m inv) in
      rw (e, deliver_each) (rw (str_eq_refl pid) refl, full)
  | inr (n', e) ↦
      let sent : Sent pid m n (some n') = rw e at (deliver-Sent pid m inv) in
      rw (e, deliver_each)
        (Delivered-later pid rest m n n' _ d.0 sent (deliver_each-Delivered rest m sent.0 d.1))
]
