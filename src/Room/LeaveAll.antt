-- ===== src/Room/LeaveAll.antt =====
-- socket/room.go, `LeaveAllRooms`: its loop against the abstract view.
use socket_go.Base.{
  ℕ, String, ◌≡◌, refl, ◌∙◌, ◌≢◌, ◌⊎◌, inl, inr, false, ◌&&◌, none, some, arith, List, [], ◌∷◌, All,
  At, here, there, str_eq, ==_iff, if◌then◌else◌, eq_iff, Bool-cases, Option-cases,
}
use socket_go.Base.Map.{lookup, lookup-delete, Map, values, At-values, lookup-At}
use socket_go.Room.{
  RoomManager, remove_socket, has_socket, update, drop_if_empty, leave_one, leave_each,
  leave_all_rooms, remove_room,
}
use socket_go.Room.Invariant.{Inv, leave_one-Inv}
use socket_go.Room.Laws.{member, member-remove-drop}

abbrev IsRegistered : RoomManager → ℕ → Type 0
IsRegistered rm a = lookup (rm.heap a).name rm.rooms ≡ some a

-- What holds of the pointers that the loop has still to visit.
abbrev pub Pending : String → RoomManager → ℕ → Type 0
Pending id rm a = IsRegistered rm a ⊎ (has_socket id (rm.heap a) ≡ false)

-- One round, at a room that is registered.
member-leave_one :
    (n id j : String) (a : ℕ) {rm : RoomManager}
    → Inv rm
    → IsRegistered rm a
    → member n j (leave_one id a rm)
      ≡ (if str_eq (rm.heap a).name n && str_eq id j then none else member n j rm)
unfolding leave_one
member-leave_one n id j a {rm} inv reg = elim (Bool-cases (has_socket id (rm.heap a))) [
  | inl e ↦ rw e (member-remove-drop n (rm.heap a).name id j a inv reg)
  | inr e ↦
      rw e (unfold member has_socket in ground (arith, eq_iff (rm.heap a).name n, eq_iff id j))
]

pub leave_one_absent :
    (id : String) (a : ℕ) (rm : RoomManager)
    → has_socket id (rm.heap a) ≡ false
    → leave_one id a rm ≡ rm
unfolding leave_one
leave_one_absent id a rm e = rw e

-- A round at `b` keeps what the loop knows of `a`.
leave_one-Pending :
    (id : String) (a b : ℕ) {rm : RoomManager}
    → Inv rm
    → Pending id rm b
    → Pending id rm a
    → Pending id (leave_one id b rm) a
unfolding leave_one drop_if_empty remove_socket update remove_room has_socket
leave_one-Pending id a b {rm} inv (inr e) p = rw e p
leave_one-Pending id a b {rm} inv (inl reg) p = ground (
  arith,
  ==_iff a b,
  eq_iff (rm.heap b).name (rm.heap a).name,
  eq_iff id id,
  lookup-delete id id (rm.heap b).sockets,
  lookup-delete (rm.heap b).name (rm.heap a).name rm.rooms,
)

pub leave_one-All :
    (id : String) (b : ℕ) (copy : List ℕ) {rm : RoomManager}
    → Inv rm
    → Pending id rm b
    → All (Pending id rm) copy
    → All (Pending id (leave_one id b rm)) copy
leave_one-All id b [] inv p h = h
leave_one-All id b (a ∷ copy) inv p h =
    (leave_one-Pending id a b inv p h.0, leave_one-All id b copy inv p h.1)

-- One round moves nobody but `id`.
leave_one_other :
    (n id j : String) (a : ℕ) {rm : RoomManager}
    → Inv rm
    → Pending id rm a
    → id ≢ j
    → member n j (leave_one id a rm) ≡ member n j rm
leave_one_other n id j a {rm} inv (inl reg) ne =
    ground (arith, member-leave_one n id j a inv reg, eq_iff id j)
leave_one_other n id j a {rm} inv (inr e) ne = rw (leave_one_absent id a rm e)

-- What the loop has still to do for one room: it comes up, or `id` is not in it.
Due : String → String → RoomManager → List ℕ → Type 0
Due n id rm copy = ((a : ℕ) × (lookup n rm.rooms ≡ some a) × At a copy) ⊎ (member n id rm ≡ none)

lookup-leave_one :
    (n id : String) (b : ℕ) (rm : RoomManager)
    → (rm.heap b).name ≢ n
    → lookup n (leave_one id b rm).rooms ≡ lookup n rm.rooms
unfolding leave_one drop_if_empty update remove_room
lookup-leave_one n id b rm ne =
    ground (arith, lookup-delete (rm.heap b).name n rm.rooms, eq_iff (rm.heap b).name n)

leave_one-gone :
    (n id : String) (b : ℕ) {rm : RoomManager}
    → Inv rm
    → Pending id rm b
    → member n id rm ≡ none
    → member n id (leave_one id b rm) ≡ none
leave_one-gone n id b {rm} inv (inl reg) gone = ground (arith, member-leave_one n id id b inv reg)
leave_one-gone n id b {rm} inv (inr e) gone = rw (leave_one_absent id b rm e) gone

-- The round at a room's own pointer takes `id` out of it.
leave_one_self :
    (n id : String) (b : ℕ) {rm : RoomManager}
    → Inv rm
    → lookup n rm.rooms ≡ some b
    → member n id (leave_one id b rm) ≡ none
leave_one_self n id b {rm} inv e = ground (
  arith,
  inv.named n b e,
  member-leave_one n id id b inv (rw (inv.named n b e) e),
  eq_iff n n,
  eq_iff id id,
)

-- The round at the room that `n` names, or at one without `id`.
leave_one-Due_same :
    (n id : String) (a b : ℕ) (copy : List ℕ) {rm : RoomManager}
    → Inv rm
    → (rm.heap b).name ≡ n
    → lookup n rm.rooms ≡ some a
    → At a copy
    → Pending id rm b
    → Due n id (leave_one id b rm) copy
unfolding Due
leave_one-Due_same n id a b copy inv same e m (inl reg) =
    inr (leave_one_self n id b inv (rw (← same) reg))
leave_one-Due_same n id a b copy {rm} inv same e m (inr lacks) =
    inl (a, rw (leave_one_absent id b rm lacks) e, m)

leave_one-Due :
    (n id : String) (b : ℕ) (copy : List ℕ) {rm : RoomManager}
    → Inv rm
    → Pending id rm b
    → Due n id rm (b ∷ copy)
    → Due n id (leave_one id b rm) copy
unfolding Due
leave_one-Due n id b copy inv p (inr gone) = inr (leave_one-gone n id b inv p gone)
leave_one-Due n id b copy inv p (inl (a, e, here)) = inr (leave_one_self n id b inv e)
leave_one-Due n id b copy {rm} inv p (inl (a, e, there m)) =
    elim (Bool-cases (str_eq (rm.heap b).name n)) [
      | inl same ↦ leave_one-Due_same n id a b copy inv ((eq_iff _ n).0 same) e m p
      | inr other ↦
          inl (a, lookup-leave_one n id b rm (ground (arith, eq_iff (rm.heap b).name n)) ∙ e, m)
    ]

leave_each-other :
    (n id j : String) (copy : List ℕ) {rm : RoomManager}
    → Inv rm
    → All (Pending id rm) copy
    → id ≢ j
    → member n j (leave_each id copy rm) ≡ member n j rm
unfolding leave_each
leave_each-other n id j [] inv h ne = refl
leave_each-other n id j (a ∷ copy) inv h ne =
    leave_each-other n id j copy (leave_one-Inv id a inv) (leave_one-All id a copy inv h.0 h.1) ne
    ∙ leave_one_other n id j a inv h.0 ne

leave_each_self :
    (n id : String) (copy : List ℕ) {rm : RoomManager}
    → Inv rm
    → All (Pending id rm) copy
    → Due n id rm copy
    → member n id (leave_each id copy rm) ≡ none
unfolding leave_each Due
leave_each_self n id [] inv h (inr gone) = gone
leave_each_self n id [] inv h (inl (a, e, m)) = absurd (no_entry m)
  where
    no_entry : {a : ℕ} → At a [] → ⊥
    no_entry m = elim m [ ]
leave_each_self n id (a ∷ copy) inv h d =
    leave_each_self n id copy (leave_one-Inv id a inv) (leave_one-All id a copy inv h.0 h.1)
      (leave_one-Due n id a copy inv h.0 d)

pub All-Pending :
    (id : String) (rm : RoomManager) (m : Map ℕ)
    → Inv rm
    → ((k : String) (a : ℕ) → At (k, a) m → lookup k rm.rooms ≡ some a)
    → All (Pending id rm) (values m)
All-Pending id rm [] inv sub = tt
All-Pending id rm ((k, a) ∷ m) inv sub =
    let e : lookup k rm.rooms ≡ some a = sub k a here in
    (inl (rw (inv.named k a e) e), All-Pending id rm m inv (λ j b at. sub j b (there at)))

start-Due : (n id : String) (rm : RoomManager) → Due n id rm (values rm.rooms)
unfolding Due member
start-Due n id rm = elim (Option-cases (lookup n rm.rooms)) [
  | inl e ↦ inr (rw (e, member))
  | inr (a, e) ↦ inl (a, e, At-values n rm.rooms e)
]

-- In a manager whose names and pointers agree (`Inv`), `LeaveAllRooms` takes `id` out of every
-- room, and changes nobody else's place.
pub member-leave_all_rooms :
    (n id j : String) {rm : RoomManager}
    → Inv rm
    → member n j (leave_all_rooms id rm) ≡ (if str_eq id j then none else member n j rm)
unfolding leave_all_rooms
member-leave_all_rooms n id j {rm} inv =
    let pending : All (Pending id rm) (values rm.rooms) =
      All-Pending id rm rm.rooms inv (λ k a at. lookup-At inv.distinct at) in
    elim (Bool-cases (str_eq id j)) [
      | inl same ↦
          rw (same, ← (eq_iff id j).0 same) (leave_each_self n id _ inv pending (start-Due n id rm))
      | inr other ↦ rw other (leave_each-other n id j _ inv pending (ground (arith, eq_iff id j)))
    ]
