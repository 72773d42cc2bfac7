-- ===== src/Room/Laws.antt =====
-- socket/room.go: who is in which room, the abstract view of the manager, and what joining and
-- leaving do to it.
use socket_go.Base.{
  ◌∙◌, [], ◌∷◌, ℕ, String, ◌≡◌, refl, inl, inr, Option, none, some, arith, ==_iff, ◌&&◌, str_eq,
  length, if◌then◌else◌, eq_iff, Option-cases,
}
use socket_go.Base.Map.{lookup, lookup-insert, lookup-delete, Map}
use socket_go.Socket.{Socket}
use socket_go.Room.{
  RoomManager, add_socket, remove_socket, update, alloc, get_or_create, get_room, join_room,
  drop_if_empty, leave_room,
}
use socket_go.Room.Invariant.{Inv, get_room-Inv}

-- The socket with this id that is in the room with this name.
unfoldable pub member : String → String → RoomManager → Option Socket
member name id rm = elim (lookup name rm.rooms) [
  | none ↦ none
  | some a ↦ lookup id (rm.heap a).sockets
]

-- A registered name leads to one address: no other name shares its room.
unshared :
    (n m : String) (a : ℕ) {rm : RoomManager}
    → Inv rm
    → lookup n rm.rooms ≡ some a
    → lookup m rm.rooms ≡ some a
    → n ≡ m
unshared n m a inv p q = cc (inv.named n a p, inv.named m a q)

get_room-eq : (name : String) (rm : RoomManager) → get_room name rm ≡ get_or_create name rm
unfolding get_room get_or_create
get_room-eq name rm = ground arith

lookup-get_or_create :
    (name : String) (rm : RoomManager)
    → let (rm', a) = get_or_create name rm in lookup name rm'.rooms ≡ some a
unfolding get_or_create
lookup-get_or_create name rm =
    ground (arith, lookup-insert name name rm.next rm.rooms, eq_iff name name)

-- A new room has nobody in it, and moves nobody.
member-alloc :
    (name n id : String) {rm : RoomManager}
    → Inv rm
    → lookup name rm.rooms ≡ none
    → member n id (alloc name rm) ≡ member n id rm
unfolding alloc member lookup
member-alloc name n id {rm} inv absent = elim (Option-cases (lookup n rm.rooms)) [
  | inl e ↦ ground (arith, lookup-insert name n rm.next rm.rooms, eq_iff name n)
  | inr (a, e) ↦
      ground (arith, lookup-insert name n rm.next rm.rooms, eq_iff name n, inv.fresh n a e)
]

pub member-get_room :
    (name n id : String) {rm : RoomManager}
    → Inv rm
    → member n id (get_room name rm).0 ≡ member n id rm
unfolding get_room get_or_create
member-get_room name n id {rm} inv = ground (arith, member-alloc name n id inv)

lookup-get_room :
    (name : String) (rm : RoomManager)
    → lookup name (get_room name rm).0.rooms ≡ some (get_room name rm).1
lookup-get_room name rm = rw (get_room-eq name rm) (lookup-get_or_create name rm)

member-add :
    (n r id : String) (a : ℕ) (s : Socket) {rm : RoomManager}
    → Inv rm
    → lookup r rm.rooms ≡ some a
    → member n id (update a (add_socket s) rm)
      ≡ (if str_eq r n && str_eq s.id id then some s else member n id rm)
unfolding update add_socket member
member-add n r id a s {rm} inv e = elim (Option-cases (lookup n rm.rooms)) [
  | inl f ↦ ground (arith, eq_iff r n)
  | inr (b, f) ↦ ground (
    arith,
    eq_iff r n,
    lookup-insert s.id id s (rm.heap a).sockets,
    inv.named r a e,
    inv.named n b f,
    ==_iff b a,
  )
]

-- In a manager whose names and pointers agree, `JoinRoom` puts the socket into the room under its
-- id, and changes nobody else's place.
pub member-join_room :
    (n r id : String) (s : Socket) {rm : RoomManager}
    → Inv rm
    → member n id (join_room r s rm)
      ≡ (if str_eq r n && str_eq s.id id then some s else member n id rm)
unfolding join_room
member-join_room n r id s {rm} inv =
    rw (
      member-add n r id _ s (get_room-Inv r inv) (lookup-get_room r rm),
      member-get_room r n id inv,
    )

member-remove :
    (n r id j : String) (a : ℕ) {rm : RoomManager}
    → Inv rm
    → lookup r rm.rooms ≡ some a
    → member n j (update a (remove_socket id) rm)
      ≡ (if str_eq r n && str_eq id j then none else member n j rm)
unfolding update remove_socket member
member-remove n r id j a {rm} inv e = elim (Option-cases (lookup n rm.rooms)) [
  | inl f ↦ ground (arith, eq_iff r n)
  | inr (b, f) ↦ ground (
    arith,
    eq_iff r n,
    lookup-delete id j (rm.heap a).sockets,
    inv.named r a e,
    inv.named n b f,
    ==_iff b a,
  )
]

pub lookup_empty : (j : String) (m : Map Socket) → length m ≡ 0 → lookup j m ≡ none
unfolding lookup
lookup_empty j [] h = refl
lookup_empty j (e ∷ m) h = absurd (omega arith)

-- To drop an empty room changes nobody's place.
member-drop :
    (n r j : String) (a : ℕ) (rm : RoomManager)
    → lookup r rm.rooms ≡ some a
    → member n j (drop_if_empty a r rm) ≡ member n j rm
unfolding member drop_if_empty
member-drop n r j a rm e = ground (
  arith,
  eq_iff r n,
  lookup-delete r n rm.rooms,
  ==_iff (length (rm.heap a).sockets) 0,
  lookup_empty j (rm.heap a).sockets,
)

-- The removal and the drop that follows it, at a room that is registered under the name.
pub member-remove-drop :
    (n r id j : String) (a : ℕ) {rm : RoomManager}
    → Inv rm
    → lookup r rm.rooms ≡ some a
    → member n j (drop_if_empty a r (update a (remove_socket id) rm))
      ≡ (if str_eq r n && str_eq id j then none else member n j rm)
member-remove-drop n r id j a {rm} inv e =
    member-drop n r j a (update a (remove_socket id) rm) (unfold update in e)
    ∙ member-remove n r id j a inv e

-- In a manager whose names and pointers agree, `LeaveRoom` takes the socket out of that room, and
-- changes nobody else's place.
pub member-leave_room :
    (n r id j : String) {rm : RoomManager}
    → Inv rm
    → member n j (leave_room r id rm) ≡ (if str_eq r n && str_eq id j then none else member n j rm)
unfolding leave_room
member-leave_room n r id j {rm} inv = elim (Option-cases (lookup r rm.rooms)) [
  | inl f ↦ unfold member in ground (arith, eq_iff r n)
  | inr (b, f) ↦ rw (f, leave_room) (member-remove-drop n r id j b inv f)
]
