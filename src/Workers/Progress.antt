-- ===== src/Workers/Progress.antt =====
-- socket/room.go and socket/server.go, `BroadcastParallel`: which moves are left.
use socket_go.Base.{
  ℕ, zero, suc, ◌+◌, ◌*◌, ◌<◌, ◌≤◌, ◌≡◌, refl, ap, ◌⊎◌, inl, inr, List, [], ◌∷◌, length,
  length-append, arith, if◌then◌else◌, Bool-cases,
}
use socket_go.Base.Int.{ℤ, pos, pos_part}
use socket_go.Socket.{Socket}
use socket_go.Workers.{
  Pool, min, start, Step, put, close, take, send, exit, Steps, here, next, IsFinished,
}
use socket_go.Workers.Invariant.{Inv, start-Inv, Step-Inv, Steps-Inv}

-- How many moves are left at most.
abbrev moves_left : Pool → ℕ
moves_left p =
    4 * length p.feeding
    + 3 * length p.jobs
    + 2 * length p.busy
    + p.idle
    + (if p.closed then 0 else 1)

Step-moves_left : {p q : Pool} → Step p q → moves_left q < moves_left p
Step-moves_left {p} (put s rest e free now) =
    rw now (omega (arith, ap length e, length-append p.jobs (s ∷ [])))
Step-moves_left (close e unshut now) = rw (now, unshut) (omega arith)
Step-moves_left (take k s rest i e now) = rw now (omega (arith, i, ap length e))
Step-moves_left (send s before after e now) =
    rw now
      (omega (arith, ap length e, length-append before (s ∷ after), length-append before after))
Step-moves_left (exit k i e shut now) = rw now (omega (arith, i))

list_cases :
    (xs : List Socket) → (xs ≡ []) ⊎ ((s : Socket) × (rest : List Socket) × (xs ≡ s ∷ rest))
list_cases [] = inl refl
list_cases (s ∷ rest) = inr (s, rest, refl)

idle_cases : (n : ℕ) → (n ≡ 0) ⊎ ((k : ℕ) × (n ≡ suc k))
idle_cases zero = inl refl
idle_cases (suc k) = inr (k, refl)

abbrev Moves : Pool → Type 0
Moves p = IsFinished p ⊎ ((q : Pool) × Step p q)

-- An idle worker with nothing to feed: it takes a job, or leaves, once the channel is closed.
worker_moves : (k : ℕ) {p : Pool} → p.idle ≡ suc k → p.feeding ≡ [] → (q : Pool) × Step p q
worker_moves k {p} i fed = elim (list_cases p.jobs) [
  | inr (s, rest, e) ↦ (_, take k s rest i e refl)
  | inl e ↦ elim (Bool-cases p.closed) [
    | inl shut ↦ (_, exit k i e shut refl)
    | inr unshut ↦ (_, close fed unshut refl)
  ]
]

no_busy-Moves : (sockets : List Socket) {p : Pool} → Inv sockets p → p.busy ≡ [] → Moves p
no_busy-Moves sockets {p} inv b = elim (list_cases p.feeding) [
  | inr (s, rest, e) ↦ inr (_, put s rest e (omega (arith, inv.room, ap length e)) refl)
  | inl fed ↦ elim (idle_cases p.idle) [
    | inr (k, i) ↦ inr (worker_moves k i fed)
    | inl none_idle ↦ elim (Bool-cases p.closed) [
      | inl shut ↦ inl (record { fed = fed; shut = shut; idle_none = none_idle; busy_none = b })
      | inr unshut ↦ inr (_, close fed unshut refl)
    ]
  ]
]

Inv-Moves : (sockets : List Socket) {p : Pool} → Inv sockets p → Moves p
Inv-Moves sockets {p} inv = elim (list_cases p.busy) [
  | inl b ↦ no_busy-Moves sockets inv b
  | inr (s, rest, e) ↦ inr (_, send s [] rest e refl)
]

Steps-trans : {p q r : Pool} → Steps p q → Steps q r → Steps p r
Steps-trans way here = way
Steps-trans way (next more st) = next (Steps-trans way more) st

-- How many moves a schedule has made.
unfoldable pub count_moves : {p q : Pool} → Steps p q → ℕ
count_moves here = 0
count_moves (next r st) = count_moves r + 1

count_moves-le : {p q : Pool} (r : Steps p q) → count_moves r + moves_left q ≤ moves_left p
unfolding count_moves
count_moves-le here = omega arith
count_moves-le (next r st) = omega (arith, count_moves-le r, Step-moves_left st)

finish_from :
    (fuel : ℕ) (sockets : List Socket) {p : Pool}
    → moves_left p < fuel
    → Inv sockets p
    → (q : Pool) × Steps p q × IsFinished q
finish_from zero sockets h inv = absurd (omega arith)
finish_from (suc fuel) sockets h inv = elim (Inv-Moves sockets inv) [
  | inl done ↦ (_, here, done)
  | inr (q, st) ↦
      let (z, way, done) =
        finish_from fuel sockets (omega (arith, Step-moves_left st)) (Step-Inv sockets st inv) in
      (z, Steps-trans (next here st) way, done)
]

-- With at least one worker, whatever the schedule, `wg.Wait()` returns: from the start no schedule
-- makes more than four moves for each socket of the snapshot, one for each worker and one more; in
-- every state that the pool can be in it is at the end or has a move; and from every such state it
-- can get to the end.
pub pool_finishes :
    (sockets : List Socket) (limit : ℤ) {p : Pool}
    → 0 < pos_part (min (pos (length sockets)) limit)
    → (r : Steps (start sockets limit) p)
    → (count_moves r ≤ 4 * length sockets + pos_part (min (pos (length sockets)) limit) + 1)
      × (IsFinished p ⊎ ((q : Pool) × Step p q))
      × ((q : Pool) × Steps p q × IsFinished q)
pool_finishes sockets limit {p} h r = (
  unfold start in omega (arith, count_moves-le r),
  Inv-Moves sockets inv,
  finish_from (suc (moves_left p)) sockets (omega arith) inv,
)
  where
    inv : Inv sockets p
    inv = Steps-Inv sockets (start-Inv sockets limit h) r
