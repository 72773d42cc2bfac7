-- ===== src/Workers.antt =====
-- The worker pool that `BroadcastParallel` starts, in socket/room.go and again in socket/server.go:
-- a snapshot of sockets, a channel of jobs as long as the snapshot, and workers that send.
pub mod Invariant
pub mod Progress
use socket_go.Base.{
  ℕ, zero, suc, ◌+◌, ◌≤◌, ◌≡◌, Bool, true, false, List, [], ◌∷◌, ◌++◌, length, if◌then◌else◌,
}
use socket_go.Base.Int.{ℤ, pos, pos_part, ltb_ℤ}
use socket_go.Socket.{Socket}

-- `min` of server.go, on `int`.
unfoldable pub min : ℤ → ℤ → ℤ
min x y = if ltb_ℤ x y then x else y

pub record Pool : Type 0 where
  pub feeding : List Socket  -- the snapshot's entries that are not in the channel yet
  pub jobs : List Socket  -- the channel's buffer, oldest first
  pub capacity : ℕ
  pub closed : Bool
  pub idle : ℕ  -- workers at the head of their loop
  pub busy : List Socket  -- what the other workers are sending to
  pub sent : List Socket  -- the calls of `Send` that have returned

-- A `for i := 0; i < workerCount; i++` makes no round for a negative count.
unfoldable pub start : List Socket → ℤ → Pool
unfolding min
start sockets limit = record {
  feeding = sockets;
  jobs = [];
  capacity = length sockets;
  closed = false;
  idle = pos_part (min (pos (length sockets)) limit);
  busy = [];
  sent = [];
}

-- The goroutines' moves. `put` has the guard of a send on a buffered channel.
pub data Step (p : Pool) (q : Pool) : Type 0 where
  put :
      (s : Socket) (rest : List Socket)
      → p.feeding ≡ s ∷ rest
      → length p.jobs + 1 ≤ p.capacity
      → q ≡ record p { feeding = rest; jobs = p.jobs ++ s ∷ [] }
      → Step p q
  close : p.feeding ≡ [] → p.closed ≡ false → q ≡ record p { closed = true } → Step p q
  take :
      (k : ℕ) (s : Socket) (rest : List Socket)
      → p.idle ≡ suc k
      → p.jobs ≡ s ∷ rest
      → q ≡ record p { idle = k; jobs = rest; busy = s ∷ p.busy }
      → Step p q
  send :
      (s : Socket) (before after : List Socket)
      → p.busy ≡ before ++ s ∷ after
      → q ≡ record p { idle = p.idle + 1; busy = before ++ after; sent = s ∷ p.sent }
      → Step p q
  exit :
      (k : ℕ)
      → p.idle ≡ suc k
      → p.jobs ≡ []
      → p.closed ≡ true
      → q ≡ record p { idle = k }
      → Step p q

pub data Steps (p : Pool) : Pool → Type 0 where
  here : Steps p p
  next : {q r : Pool} → Steps p q → Step q r → Steps p r

-- `wg.Wait()` returns after the producer has closed the channel and every worker has left.
pub record IsFinished (p : Pool) : Type 0 where
  pub fed : p.feeding ≡ []
  pub shut : p.closed ≡ true
  pub idle_none : p.idle ≡ 0
  pub busy_none : p.busy ≡ []
