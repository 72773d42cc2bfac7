-- ===== src/Node/Subscriptions.antt =====
-- socket/distributed/node.go: room subscriptions as a relation between process ids and rooms.
use socket_go.Base.{
  String, ◌≡◌, refl, inl, inr, Bool, true, false, ◌&&◌, none, some, arith, length, str_eq, ==_iff,
  eq_iff, if◌then◌else◌, Option-cases, [], ◌∷◌,
}
use socket_go.Base.Map.{Map, lookup, lookup-insert, lookup-delete, insert, delete, has}
use socket_go.Node.{Node, update, kill, subscribe, unsubscribe}

-- A read `rooms[room]` of a `map[string]bool`.
unfoldable pub holds : String → Map Bool → Bool
holds room rooms = elim (lookup room rooms) [ none ↦ false | some b ↦ b ]

unfoldable pub subscribed : String → String → Node → Bool
unfolding holds
subscribed id room n = elim (lookup id n.subscriptions) [
  | none ↦ false
  | some rooms ↦ holds room rooms
]

subscribed-subscribe :
    (id room j r : String) (n : Node)
    → subscribed j r (subscribe id room n)
      ≡ (if str_eq id j && str_eq room r then true else subscribed j r n)
unfolding subscribed subscribe lookup insert
subscribed-subscribe id room j r n = elim (Option-cases (lookup id n.subscriptions)) [
  | inl e ↦ ground (
    arith,
    eq_iff id j,
    lookup-insert id j (insert room true []) n.subscriptions,
    lookup-insert room r true [],
  )
  | inr (rooms, e) ↦ ground (
    arith,
    eq_iff id j,
    lookup-insert id j (insert room true rooms) n.subscriptions,
    lookup-insert room r true rooms,
  )
]

lookup_empty : (r : String) (m : Map Bool) → length m ≡ 0 → lookup r m ≡ none
unfolding lookup
lookup_empty r [] h = refl
lookup_empty r (e ∷ m) h = absurd (omega arith)

subscribed-unsubscribe :
    (id room j r : String) (n : Node)
    → subscribed j r (unsubscribe id room n)
      ≡ (if str_eq id j && str_eq room r then false else subscribed j r n)
unfolding subscribed unsubscribe
subscribed-unsubscribe id room j r n = elim (Option-cases (lookup id n.subscriptions)) [
  | inl e ↦ ground (arith, eq_iff id j)
  | inr (rooms, e) ↦ ground (
    arith,
    eq_iff id j,
    lookup-insert id j (delete room rooms) n.subscriptions,
    lookup-delete id j n.subscriptions,
    lookup-delete room r rooms,
    ==_iff (length (delete room rooms)) 0,
    lookup_empty r (delete room rooms),
  )
]

subscribed-kill :
    (id j r : String) (n : Node)
    → subscribed j r (kill id n).1
      ≡ (if str_eq id j && has id n.processes then false else subscribed j r n)
unfolding subscribed kill update
subscribed-kill id j r n = ground (arith, eq_iff id j, lookup-delete id j n.subscriptions)

-- `Subscribe` adds one pair to the relation and `Unsubscribe` takes one out; a `Kill` that finds its
-- process takes all its pairs out, and one that does not takes none.
subscribed_lem :
    (id room j r : String) (n : Node)
    → (subscribed j r (subscribe id room n)
        ≡ (if str_eq id j && str_eq room r then true else subscribed j r n))
      × (subscribed j r (unsubscribe id room n)
          ≡ (if str_eq id j && str_eq room r then false else subscribed j r n))
      × (subscribed j r (kill id n).1
          ≡ (if str_eq id j && has id n.processes then false else subscribed j r n))
subscribed_lem id room j r n = (
  subscribed-subscribe id room j r n,
  subscribed-unsubscribe id room j r n,
  subscribed-kill id j r n,
)
