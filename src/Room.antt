-- ===== src/Room.antt =====
-- socket/room.go. A `*Room` is an address in `heap`; the manager's map holds addresses, so that a
-- goroutine may still hold a room that the manager has already dropped.
pub mod Laws
pub mod Invariant
pub mod LeaveAll
pub mod Listing
pub mod Refinement
pub mod Vacancy
pub mod Threads
pub mod Races
pub mod Broadcast
use socket_go.Base.{
  ℕ, zero, suc, ◌+◌, String, Bool, true, false, List, [], ◌∷◌, map, Option, none, some, length,
  ◌==◌, if◌then◌else◌,
}
use socket_go.Base.Map.{Map, lookup, insert, delete, has, keys, values}
use socket_go.Base.Int.{ℤ, pos}
use socket_go.Socket.{Socket}
use socket_go.Workers.{Pool, start}

pub record Room : Type 0 where
  pub name : String
  pub sockets : Map Socket

unfoldable pub new_room : String → Room
new_room name = record { name = name; sockets = [] }

unfoldable pub add_socket : Socket → Room → Room
add_socket s r = record r { sockets = insert s.id s r.sockets }

unfoldable pub remove_socket : String → Room → Room
remove_socket id r = record r { sockets = delete id r.sockets }

unfoldable pub has_socket : String → Room → Bool
has_socket id r = has id r.sockets

unfoldable pub count : Room → ℕ
count r = length r.sockets

-- `socketsCopy`: the snapshot that `Broadcast`, `BroadcastParallel` and `GetSockets` take.
unfoldable pub get_sockets : Room → List Socket
get_sockets r = values r.sockets

-- The sockets that `Broadcast` starts a goroutine with a `Send` for.
unfoldable pub broadcast : Room → List Socket
unfolding get_sockets
broadcast r = get_sockets r

-- `none` is the early return of a room without sockets; else the pool that is waited for.
unfoldable pub broadcast_parallel : ℤ → Room → Option Pool
unfolding get_sockets
broadcast_parallel worker_limit r = elim (get_sockets r) [
  | [] ↦ none
  | s ∷ rest ↦ some (start (s ∷ rest) worker_limit)
]

pub record RoomManager : Type 0 where
  pub rooms : Map ℕ
  pub heap : ℕ → Room
  pub next : ℕ

unfoldable pub new_room_manager : RoomManager
unfolding new_room
new_room_manager = record { rooms = []; heap = λ a. new_room ""; next = 0 }

-- A method call on the room behind a pointer.
unfoldable pub update : ℕ → (Room → Room) → RoomManager → RoomManager
update a f rm = record rm { heap = λ b. if b == a then f (rm.heap b) else rm.heap b }

unfoldable pub alloc : String → RoomManager → RoomManager
unfolding new_room
alloc name rm = record {
  rooms = insert name rm.next rm.rooms;
  heap = λ b. if b == rm.next then new_room name else rm.heap b;
  next = rm.next + 1;
}

-- The part of `GetRoom` under the write lock, which looks again.
unfoldable pub get_or_create : String → RoomManager → RoomManager × ℕ
unfolding alloc
get_or_create name rm = elim (lookup name rm.rooms) [
  | some a ↦ (rm, a)
  | none ↦ (alloc name rm, rm.next)
]

-- `GetRoom` with nothing between its read and its write lock.
unfoldable pub get_room : String → RoomManager → RoomManager × ℕ
unfolding get_or_create
get_room name rm = elim (lookup name rm.rooms) [ some a ↦ (rm, a) | none ↦ get_or_create name rm ]

unfoldable pub has_room : String → RoomManager → Bool
has_room name rm = has name rm.rooms

unfoldable pub remove_room : String → RoomManager → RoomManager
remove_room name rm = record rm { rooms = delete name rm.rooms }

unfoldable get_rooms : RoomManager → List String
get_rooms rm = keys rm.rooms

unfoldable pub join_room : String → Socket → RoomManager → RoomManager
unfolding get_room update add_socket
join_room name s rm = let (rm', a) = get_room name rm in update a (add_socket s) rm'

-- The end of `LeaveRoom` and of the loop of `LeaveAllRooms`: an empty room is dropped.
unfoldable pub drop_if_empty : ℕ → String → RoomManager → RoomManager
unfolding count remove_room
drop_if_empty a name rm = if count (rm.heap a) == 0 then remove_room name rm else rm

unfoldable pub leave_room : String → String → RoomManager → RoomManager
unfolding drop_if_empty update remove_socket
leave_room name id rm = elim (lookup name rm.rooms) [
  | none ↦ rm
  | some a ↦ drop_if_empty a name (update a (remove_socket id) rm)
]

-- One round of the loop of `LeaveAllRooms`.
unfoldable pub leave_one : String → ℕ → RoomManager → RoomManager
unfolding drop_if_empty update remove_socket has_socket
leave_one id a rm =
    if has_socket id (rm.heap a)
    then drop_if_empty a (rm.heap a).name (update a (remove_socket id) rm)
    else rm

unfoldable pub leave_each : String → List ℕ → RoomManager → RoomManager
leave_each id [] rm = rm
leave_each id (a ∷ copy) rm = leave_each id copy (leave_one id a rm)

unfoldable pub leave_all_rooms : String → RoomManager → RoomManager
leave_all_rooms id rm = leave_each id (values rm.rooms) rm

-- The loop of `GetSocketRooms`.
unfoldable pub rooms_with : String → (ℕ → Room) → Map ℕ → List String
unfolding has_socket
rooms_with id heap [] = []
rooms_with id heap ((name, a) ∷ rest) =
    if has_socket id (heap a) then name ∷ rooms_with id heap rest else rooms_with id heap rest

unfoldable pub get_socket_rooms : String → RoomManager → List String
unfolding rooms_with
get_socket_rooms id rm = rooms_with id rm.heap rm.rooms

-- `none`: nobody is sent to.
unfoldable pub broadcast_to_room : String → RoomManager → Option Pool
unfolding broadcast_parallel
broadcast_to_room name rm = elim (lookup name rm.rooms) [
  | none ↦ none
  | some a ↦ broadcast_parallel (pos 10) (rm.heap a)
]
