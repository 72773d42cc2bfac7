-- ===== src/Workers/Invariant.antt =====
-- socket/room.go and socket/server.go, `BroadcastParallel`: where each socket of the snapshot is.
use socket_go.Base.{
  ap, ◌+◌, ◌≤◌, ◌<◌, ◌≡◌, ◌⊎◌, inl, inr, Bool, true, List, [], ◌∷◌, length, length-append, tally,
  tally-append, arith,
}
use socket_go.Base.Int.{ℤ, pos, pos_part}
use socket_go.Socket.{Socket}
use socket_go.Workers.{
  Pool, min, start, Step, put, close, take, send, exit, Steps, here, next, IsFinished,
}

pub record Inv (sockets : List Socket) (p : Pool) : Type 0 where
  pub once :
      (f : Socket → Bool)
      → tally f p.feeding + tally f p.jobs + tally f p.busy + tally f p.sent ≡ tally f sockets
  pub room : length p.feeding + length p.jobs ≤ p.capacity
  pub fed : p.closed ≡ true → p.feeding ≡ []
  pub workers : (0 < p.idle + length p.busy) ⊎ ((p.jobs ≡ []) × (p.closed ≡ true))

pub start-Inv :
    (sockets : List Socket) (limit : ℤ)
    → 0 < pos_part (min (pos (length sockets)) limit)
    → Inv sockets (start sockets limit)
unfolding start
start-Inv sockets limit h = record {
  once = λ f. omega arith;
  room = omega arith;
  fed = λ e. cc;
  workers = inl (omega arith);
}

pub Step-Inv : (sockets : List Socket) {p q : Pool} → Step p q → Inv sockets p → Inv sockets q
Step-Inv sockets {p} (put s rest e free now) inv = rw now (record {
  once = λ f. omega (arith, inv.once f, tally-append f p.jobs (s ∷ []), ap (tally f) e);
  room = omega (arith, inv.room, length-append p.jobs (s ∷ []), ap length e);
  fed = λ c. absurd (ground (arith, inv.fed c));
  workers = ground (arith, inv.workers, inv.fed);
})
Step-Inv sockets (close e unshut now) inv = rw now (record {
  once = inv.once;
  room = inv.room;
  fed = λ c. e;
  workers = ground (arith, inv.workers);
})
Step-Inv sockets {p} (take k s rest i e now) inv = rw now (record {
  once = λ f. omega (arith, inv.once f, ap (tally f) e);
  room = omega (arith, inv.room, ap length e);
  fed = inv.fed;
  workers = inl (omega arith);
})
Step-Inv sockets {p} (send s before after e now) inv = rw now (record {
  once = λ f. omega (
    arith,
    inv.once f,
    ap (tally f) e,
    tally-append f before (s ∷ after),
    tally-append f before after,
  );
  room = inv.room;
  fed = inv.fed;
  workers = inl (omega arith);
})
Step-Inv sockets {p} (exit k i e shut now) inv =
    rw now (record { once = inv.once; room = inv.room; fed = inv.fed; workers = inr (e, shut) })

pub Steps-Inv : (sockets : List Socket) {p q : Pool} → Inv sockets p → Steps p q → Inv sockets q
Steps-Inv sockets inv here = inv
Steps-Inv sockets inv (next r st) = Step-Inv sockets st (Steps-Inv sockets inv r)

-- When `wg.Wait()` returns, `Send` has been called once for each socket of the snapshot.
pub finished_sent :
    (sockets : List Socket) (limit : ℤ) {p : Pool}
    → 0 < pos_part (min (pos (length sockets)) limit)
    → Steps (start sockets limit) p
    → IsFinished p
    → (f : Socket → Bool) → tally f p.sent ≡ tally f sockets
finished_sent sockets limit {p} h r done f =
    let inv : Inv sockets p = Steps-Inv sockets (start-Inv sockets limit h) r in finish inv
  where
    finish : Inv sockets p → tally f p.sent ≡ tally f sockets
    finish inv = elim inv.workers [
      | inl w ↦ absurd (omega (arith, ap length done.busy_none, done.idle_none))
      | inr w ↦
          omega (
            arith,
            inv.once f,
            ap (tally f) done.fed,
            ap (tally f) w.0,
            ap (tally f) done.busy_none,
          )
    ]
