-- ===== src/Node/Invariant/Topics.antt =====
-- socket/distributed/node.go: subscriptions keep the invariant of a node.
use socket_go.Base.{
  ◌<◌, String, ◌≡◌, inl, inr, Bool, true, [], some, arith, length, ◌==◌, Bool-cases, Option-cases,
}
use socket_go.Base.Map.{
  Map, IsMap, lookup, insert, delete, lookup-insert, lookup-delete, insert-IsMap, delete-IsMap,
  length-insert_pos,
}
use socket_go.Node.{Node, subscribe, unsubscribe}
use socket_go.Node.Invariant.{Inv}

topics-Inv :
    (t : Map (Map Bool)) {n : Node}
    → IsMap t
    → ((id : String) (rooms : Map Bool) → lookup id t ≡ some rooms → 0 < length rooms)
    → Inv n
    → Inv (record n { subscriptions = t })
topics-Inv t d h inv = record {
  fresh = inv.fresh;
  named = inv.named;
  live = inv.live;
  distinct = inv.distinct;
  bounded = inv.bounded;
  topics = d;
  nonempty = h;
}

-- Storing a set of rooms that is not empty.
store-Inv :
    (id : String) (rooms : Map Bool) {n : Node}
    → 0 < length rooms
    → Inv n
    → Inv (record n { subscriptions = insert id rooms n.subscriptions })
store-Inv id rooms {n} h inv =
    topics-Inv _ (insert-IsMap id rooms n.subscriptions inv.topics)
      (λ j left e. ground (arith, lookup-insert id j rooms n.subscriptions, inv.nonempty j left))
      inv

forget-Inv :
    (id : String) {n : Node} → Inv n → Inv (record n { subscriptions = delete id n.subscriptions })
forget-Inv id {n} inv =
    topics-Inv _ (delete-IsMap id n.subscriptions inv.topics)
      (λ j rooms e. ground (arith, lookup-delete id j n.subscriptions, inv.nonempty j rooms)) inv

pub subscribe-Inv : (id room : String) {n : Node} → Inv n → Inv (subscribe id room n)
unfolding subscribe
subscribe-Inv id room {n} inv = elim (Option-cases (lookup id n.subscriptions)) [
  | inl e ↦ rw (e, subscribe) (store-Inv id _ (length-insert_pos room true []) inv)
  | inr (rooms, e) ↦ rw (e, subscribe) (store-Inv id _ (length-insert_pos room true rooms) inv)
]

pub unsubscribe-Inv : (id room : String) {n : Node} → Inv n → Inv (unsubscribe id room n)
unfolding unsubscribe
unsubscribe-Inv id room {n} inv = elim (Option-cases (lookup id n.subscriptions)) [
  | inl e ↦ rw (e, unsubscribe) inv
  | inr (rooms, e) ↦ elim (Bool-cases (length (delete room rooms) == 0)) [
    | inl z ↦ rw (e, unsubscribe, z) (forget-Inv id inv)
    | inr z ↦ rw (e, unsubscribe, z) (store-Inv id _ (ground arith) inv)
  ]
]
