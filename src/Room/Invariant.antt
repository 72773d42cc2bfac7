-- ===== src/Room/Invariant.antt =====
-- socket/room.go: the invariant of the manager, on names and pointers.
use socket_go.Base.{
  ℕ, ◌<◌, String, ◌≡◌, refl, inl, inr, List, [], ◌∷◌, some, arith, ◌==◌, ==_iff, eq_iff, Bool-cases,
  Option-cases,
}
use socket_go.Base.Map.{IsMap, lookup, lookup-insert, lookup-delete, insert-IsMap, delete-IsMap}
use socket_go.Socket.{Socket}
use socket_go.Room.{
  Room, RoomManager, add_socket, remove_socket, new_room_manager, update, alloc, get_or_create,
  get_room, remove_room, join_room, drop_if_empty, leave_room, leave_one, leave_each,
  leave_all_rooms, has_socket,
}

-- A room's keys are distinct, and each key is the `ID()` of its socket.
pub record IsKeyed (r : Room) : Type 0 where
  pub distinct : IsMap r.sockets
  pub by_id : (id : String) (s : Socket) → lookup id r.sockets ≡ some s → s.id ≡ id

pub record Inv (rm : RoomManager) : Type 0 where
  pub fresh : (name : String) (a : ℕ) → lookup name rm.rooms ≡ some a → a < rm.next
  pub named : (name : String) (a : ℕ) → lookup name rm.rooms ≡ some a → (rm.heap a).name ≡ name
  pub distinct : IsMap rm.rooms
  pub keyed : (a : ℕ) → IsKeyed (rm.heap a)

pub new_room_manager-Inv : Inv new_room_manager
unfolding new_room_manager lookup
new_room_manager-Inv = record {
  fresh = λ name a h. cc;
  named = λ name a h. cc;
  distinct = tt;
  keyed = λ a. record { distinct = tt; by_id = λ id s h. cc };
}

add_socket-IsKeyed : (s : Socket) {r : Room} → IsKeyed r → IsKeyed (add_socket s r)
unfolding add_socket
add_socket-IsKeyed s {r} k = record {
  distinct = insert-IsMap s.id s r.sockets k.distinct;
  by_id = λ id t h. ground (arith, lookup-insert s.id id s r.sockets, eq_iff s.id id, k.by_id id t);
}

remove_socket-IsKeyed : (id : String) {r : Room} → IsKeyed r → IsKeyed (remove_socket id r)
unfolding remove_socket
remove_socket-IsKeyed id {r} k = record {
  distinct = delete-IsMap id r.sockets k.distinct;
  by_id = λ j t h. ground (arith, lookup-delete id j r.sockets, k.by_id j t);
}

-- A method that keeps the room's name and its keys keeps the manager's invariant.
pub update-Inv :
    (a : ℕ) (f : Room → Room) {rm : RoomManager}
    → (f (rm.heap a)).name ≡ (rm.heap a).name
    → IsKeyed (f (rm.heap a))
    → Inv rm
    → Inv (update a f rm)
unfolding update
update-Inv a f {rm} same keyed inv = record {
  fresh = inv.fresh;
  named = λ name b h. ground (arith, inv.named name b h, ==_iff b a);
  distinct = inv.distinct;
  keyed = λ b. elim (Bool-cases (b == a)) [
    | inl e ↦ rw (e, (==_iff b a).0 e) keyed
    | inr e ↦ rw e (inv.keyed b)
  ];
}

alloc-Inv : (name : String) {rm : RoomManager} → Inv rm → Inv (alloc name rm)
unfolding alloc lookup
alloc-Inv name {rm} inv = record {
  fresh = λ n a h. ground (arith, lookup-insert name n rm.next rm.rooms, inv.fresh n a);
  named = λ n a h.
      ground
        (arith, lookup-insert name n rm.next rm.rooms, eq_iff name n, inv.fresh n a, inv.named n a);
  distinct = insert-IsMap name rm.next rm.rooms inv.distinct;
  keyed = λ a. elim (Bool-cases (a == rm.next)) [
    | inl e ↦ rw e (record { distinct = tt; by_id = λ id s h. cc })
    | inr e ↦ rw e (inv.keyed a)
  ];
}

pub remove_room-Inv : (name : String) {rm : RoomManager} → Inv rm → Inv (remove_room name rm)
unfolding remove_room
remove_room-Inv name {rm} inv = record {
  fresh = λ n a h. ground (arith, lookup-delete name n rm.rooms, inv.fresh n a);
  named = λ n a h. ground (arith, lookup-delete name n rm.rooms, inv.named n a);
  distinct = delete-IsMap name rm.rooms inv.distinct;
  keyed = inv.keyed;
}

pub add-Inv : (a : ℕ) (s : Socket) {rm : RoomManager} → Inv rm → Inv (update a (add_socket s) rm)
add-Inv a s inv =
    update-Inv a (add_socket s) (unfold add_socket in refl) (add_socket-IsKeyed s (inv.keyed a)) inv

pub remove-Inv :
    (a : ℕ) (id : String) {rm : RoomManager} → Inv rm → Inv (update a (remove_socket id) rm)
remove-Inv a id inv =
    update-Inv a (remove_socket id) (unfold remove_socket in refl)
      (remove_socket-IsKeyed id (inv.keyed a)) inv

drop_if_empty-Inv :
    (a : ℕ) (name : String) {rm : RoomManager} → Inv rm → Inv (drop_if_empty a name rm)
unfolding drop_if_empty
drop_if_empty-Inv a name {rm} inv = ground (arith, inv, remove_room-Inv name inv)

pub get_or_create-Inv : (name : String) {rm : RoomManager} → Inv rm → Inv (get_or_create name rm).0
unfolding get_or_create
get_or_create-Inv name {rm} inv = elim (Option-cases (lookup name rm.rooms)) [
  | inl e ↦ rw (e, get_or_create) (alloc-Inv name inv)
  | inr (a, e) ↦ rw (e, get_or_create) inv
]

-- `GetRoom` keeps the invariant, and so do joining and leaving.
pub get_room-Inv : (name : String) {rm : RoomManager} → Inv rm → Inv (get_room name rm).0
unfolding get_room
get_room-Inv name {rm} inv = elim (Option-cases (lookup name rm.rooms)) [
  | inl e ↦ rw (e, get_room) (get_or_create-Inv name inv)
  | inr (a, e) ↦ rw (e, get_room) inv
]

pub join_room-Inv :
    (name : String) (s : Socket) {rm : RoomManager} → Inv rm → Inv (join_room name s rm)
unfolding join_room
join_room-Inv name s inv = add-Inv _ s (get_room-Inv name inv)

pub leave_room-Inv : (name id : String) {rm : RoomManager} → Inv rm → Inv (leave_room name id rm)
unfolding leave_room
leave_room-Inv name id {rm} inv = elim (Option-cases (lookup name rm.rooms)) [
  | inl e ↦ rw (e, leave_room) inv
  | inr (a, e) ↦ rw (e, leave_room) (drop_if_empty-Inv a name (remove-Inv a id inv))
]

pub leave_one-Inv : (id : String) (a : ℕ) {rm : RoomManager} → Inv rm → Inv (leave_one id a rm)
unfolding leave_one
leave_one-Inv id a {rm} inv = elim (Bool-cases (has_socket id (rm.heap a))) [
  | inl e ↦ rw e (drop_if_empty-Inv a (rm.heap a).name (remove-Inv a id inv))
  | inr e ↦ rw e inv
]

leave_each-Inv :
    (id : String) (copy : List ℕ) {rm : RoomManager} → Inv rm → Inv (leave_each id copy rm)
unfolding leave_each
leave_each-Inv id [] inv = inv
leave_each-Inv id (a ∷ copy) inv = leave_each-Inv id copy (leave_one-Inv id a inv)

pub leave_all_rooms-Inv : (id : String) {rm : RoomManager} → Inv rm → Inv (leave_all_rooms id rm)
unfolding leave_all_rooms
leave_all_rooms-Inv id {rm} inv = leave_each-Inv id _ inv
