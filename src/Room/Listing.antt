-- ===== src/Room/Listing.antt =====
-- socket/room.go, `GetSocketRooms` against the abstract view.
use socket_go.Base.{
  ℕ, String, ◌≡◌, refl, ◌↔◌, inl, inr, Bool, true, false, some, arith, is_some, [], ◌∷◌, At, here,
  there, if◌then◌else◌, Bool-cases, Option-cases,
}
use socket_go.Base.Map.{lookup, Map, At-entry, lookup-At}
use socket_go.Room.{Room, RoomManager, has_socket, rooms_with, get_socket_rooms}
use socket_go.Room.Invariant.{Inv}
use socket_go.Room.Laws.{member}

-- Some entry of the map has this name and a room with the socket.
Found : String → String → (ℕ → Room) → Map ℕ → Type 0
Found id n heap m = (a : ℕ) × At (n, a) m × (has_socket id (heap a) ≡ true)

Found-there :
    (id n : String) (heap : ℕ → Room) (e : String × ℕ) (m : Map ℕ)
    → Found id n heap m
    → Found id n heap (e ∷ m)
unfolding Found
Found-there id n heap e m (a, at, has) = (a, there at, has)

module _ (id n : String) (heap : ℕ → Room) where
  rooms_with-step :
      (k : String) (a : ℕ) (m : Map ℕ)
      → (At n (rooms_with id heap m) → Found id n heap m)
      → (b : Bool) → has_socket id (heap a) ≡ b
      → At n (if b then k ∷ rooms_with id heap m else rooms_with id heap m)
      → Found id n heap ((k, a) ∷ m)
  unfolding Found
  rooms_with-step k a m ih true e here = (a, here, e)
  rooms_with-step k a m ih true e (there at) = Found-there id n heap (k, a) m (ih at)
  rooms_with-step k a m ih false e at = Found-there id n heap (k, a) m (ih at)

  rooms_with-Found : (m : Map ℕ) → At n (rooms_with id heap m) → Found id n heap m
  unfolding rooms_with
  rooms_with-Found [] at = elim at [ ]
  rooms_with-Found ((k, a) ∷ m) at =
      rooms_with-step k a m (rooms_with-Found m) (has_socket id (heap a)) refl at

  At-rooms_with :
      (a : ℕ) (m : Map ℕ)
      → At (n, a) m
      → has_socket id (heap a) ≡ true
      → At n (rooms_with id heap m)
  unfolding rooms_with
  At-rooms_with a m here has = rw has here
  At-rooms_with a m (there {x = x} {xs = xs} at) has =
      elim (Bool-cases (has_socket id (heap x.1))) [
        | inl e ↦ rw e (there (At-rooms_with a xs at has))
        | inr e ↦ rw e (At-rooms_with a xs at has)
      ]

listed-member :
    (n id : String) {rm : RoomManager}
    → Inv rm
    → Found id n rm.heap rm.rooms
    → is_some (member n id rm) ≡ true
unfolding Found has_socket member
listed-member n id {rm} inv (a, at, has) =
    let e : lookup n rm.rooms ≡ some a = lookup-At inv.distinct at in rw (e, member) has

member-listed :
    (n id : String) (rm : RoomManager)
    → is_some (member n id rm) ≡ true
    → At n (rooms_with id rm.heap rm.rooms)
unfolding has_socket member
member-listed n id rm h = elim (Option-cases (lookup n rm.rooms)) [
  | inl e ↦ absurd (ground arith)
  | inr (a, e) ↦ At-rooms_with id n rm.heap a rm.rooms (At-entry n rm.rooms e) (ground arith)
]

-- In a manager whose names and pointers agree, `GetSocketRooms` lists a room exactly when the
-- socket is in it.
pub At-get_socket_rooms :
    (n id : String) {rm : RoomManager}
    → Inv rm
    → At n (get_socket_rooms id rm) ↔ (is_some (member n id rm) ≡ true)
unfolding get_socket_rooms
At-get_socket_rooms n id {rm} inv = (
  λ at. listed-member n id inv (rooms_with-Found id n rm.heap rm.rooms at),
  member-listed n id rm,
)
