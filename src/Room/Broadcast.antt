-- ===== src/Room/Broadcast.antt =====
-- socket/room.go, `BroadcastToRoom`: whom it reaches.
use socket_go.Base.{
  ℕ, ◌<◌, ◌+◌, String, ◌≡◌, refl, inl, inr, Bool, [], ◌∷◌, some, arith, tally, length, is_some,
  str_eq, eq_iff, if◌then◌else◌, Option-cases,
}
use socket_go.Base.Int.{ℤ, pos, pos_part}
use socket_go.Base.Map.{Map, IsMap, lookup, has, values}
use socket_go.Socket.{Socket}
use socket_go.Workers.{Pool, start, Steps, IsFinished}
use socket_go.Workers
use socket_go.Workers.Invariant.{finished_sent}
use socket_go.Room.{Room, RoomManager, get_sockets, broadcast_parallel, broadcast_to_room}
use socket_go.Room.Invariant.{Inv, IsKeyed}
use socket_go.Room.Laws.{member}

-- Who has this id.
abbrev pub named : String → Socket → Bool
named id s = str_eq s.id id

tally-values :
    (id : String) (m : Map Socket)
    → IsMap m
    → ((j : String) (s : Socket) → lookup j m ≡ some s → s.id ≡ j)
    → tally (named id) (values m) ≡ (if has id m then 1 else 0)
unfolding lookup
tally-values id [] d by_id = refl
tally-values id ((k, s) ∷ m) d by_id =
    let own : s.id ≡ k = by_id k s (ground (arith, eq_iff k k)) in
    let rest : tally (named id) (values m) ≡ (if has id m then 1 else 0) =
      tally-values id m d.1 (λ j t h. by_id j t (ground (arith, eq_iff k j, d.0))) in
    ground (arith, own, rest, eq_iff k id, d.0)

tally-get_sockets :
    (id : String) (r : Room)
    → IsKeyed r
    → tally (named id) (get_sockets r) ≡ (if has id r.sockets then 1 else 0)
unfolding get_sockets
tally-get_sockets id r k = tally-values id r.sockets k.distinct k.by_id

-- The pool of a broadcast starts on the room's members.
broadcast_parallel-start :
    (limit : ℤ) (r : Room) {p : Pool}
    → broadcast_parallel limit r ≡ some p
    → (p ≡ start (get_sockets r) limit) × (0 < length (get_sockets r))
unfolding broadcast_parallel
broadcast_parallel-start limit r h = ground arith

enough_workers : (n k : ℕ) → 0 < n → 0 < pos_part (Workers.min (pos n) (pos (k + 1)))
unfolding Workers.min
enough_workers n k h = ground arith

-- In a manager whose names and pointers agree: when `BroadcastToRoom` has started a pool and waited
-- for it, it has called `Send` once for each member of that room and for nobody else.
pub broadcast_to_room_sent :
    (name id : String) {rm : RoomManager} {p q : Pool}
    → Inv rm
    → broadcast_to_room name rm ≡ some p
    → Steps p q
    → IsFinished q
    → tally (named id) q.sent ≡ (if is_some (member name id rm) then 1 else 0)
unfolding broadcast_to_room member
broadcast_to_room_sent name id {rm} {p} {q} inv h r done =
    elim (Option-cases (lookup name rm.rooms)) [
      | inl e ↦ absurd (ground arith)
      | inr (a, e) ↦
          let room = rm.heap a in
          let (same, some_left) =
            broadcast_parallel-start (pos 10) room (rw (e, broadcast_to_room) at h) in
          let r' : Steps (start (get_sockets room) (pos 10)) q = rw (← same) r in
          rw
            (
              e,
              member,
              finished_sent (get_sockets room) (pos 10) (enough_workers _ 9 some_left) r' done
                  (named id),
            )
            (tally-get_sockets id room (inv.keyed a))
    ]
