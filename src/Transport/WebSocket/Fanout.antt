-- ===== src/Transport/WebSocket/Fanout.antt =====
-- socket/transport/websocket.go, `ReceiveConcurrent` (lines 177-242): a goroutine that reads, workers
-- that call the handler, and one goroutine for the error.
pub mod Handled
use socket_go.Base.{
  ap, ℕ, suc, ◌+◌, ◌<◌, ◌≡◌, refl, ◌⊎◌, inl, inr, Bool, true, false, List, [], ◌∷◌, ◌++◌, none,
  some, length, tally, tally-append, arith, if◌then◌else◌,
}
use mathlib.Core.List.{append-nil, append_assoc}
use socket_go.Base.Int.{ℤ, pos, negsuc}
use socket_go.Socket.{Error, text, Bytes}
use socket_go.Socket.Impl.{ReadResult, got, failed}
use socket_go.Transport.WebSocket.{Transport, live}

-- Where the reading goroutine stands: at the head of its loop, at its send of a message or of an
-- error, or returned.
pub data Reader : Type 0 where
  reading : Reader
  holding : Bytes → Reader
  erring : Error → Reader
  stopped : Reader

pub record Fanout : Type 0 where
  pub reads : List ReadResult  -- what its reads are still going to give
  pub reader : Reader
  pub messages : List Bytes  -- the channel's buffer, oldest first
  pub capacity : ℕ
  pub shut : Bool
  pub idle : ℕ  -- workers at the head of their loop
  pub busy : List Bytes  -- what the other workers call the handler with
  pub handled : List Bytes  -- the calls that have returned
  pub errs : List Error  -- the error on its way to its goroutine, which is ready for it
  pub told : List Error  -- the errors that the handler was called with

unfoldable pub start : ℕ → List ReadResult → Fanout
start num_workers reads = record {
  reads = reads;
  reader = reading;
  messages = [];
  capacity = num_workers;
  shut = false;
  idle = num_workers;
  busy = [];
  handled = [];
  errs = [];
  told = [];
}

-- `refused`: the handler is called with the error, and the call returns. A negative number of workers
-- panics in `wg.Add`.
pub data Outcome : Type 0 where
  refused : Error → Outcome
  panics : Outcome
  started : Fanout → Outcome

unfoldable launch : ℤ → List ReadResult → Outcome
unfolding start
launch (pos n) reads = started (start n reads)
launch (negsuc n) reads = panics

unfoldable pub receive_concurrent : ℤ → List ReadResult → Transport → Outcome
unfolding live launch
receive_concurrent num_workers reads t = elim (live t) [
  | none ↦ refused (text "not connected")
  | some c ↦ launch num_workers reads
]

pub data Step (p : Fanout) (q : Fanout) : Type 0 where
  read :
      (m : Bytes) (rest : List ReadResult)
      → p.reader ≡ reading
      → p.reads ≡ got m ∷ rest
      → q ≡ record p { reader = holding m; reads = rest }
      → Step p q
  put :
      (m : Bytes)
      → p.reader ≡ holding m
      → length p.messages < p.capacity
      → q ≡ record p { reader = reading; messages = p.messages ++ m ∷ [] }
      → Step p q
  fail :
      (e : Error) (rest : List ReadResult)
      → p.reader ≡ reading
      → p.reads ≡ failed e ∷ rest
      → q ≡ record p { reader = erring e; reads = rest }
      → Step p q
  report :
      (e : Error)
      → p.reader ≡ erring e
      → q ≡ record p { reader = stopped; errs = p.errs ++ e ∷ []; shut = true }
      → Step p q
  tell :
      (e : Error) (rest : List Error)
      → p.errs ≡ e ∷ rest
      → q ≡ record p { errs = rest; told = p.told ++ e ∷ [] }
      → Step p q
  take :
      (k : ℕ) (m : Bytes) (rest : List Bytes)
      → p.idle ≡ suc k
      → p.messages ≡ m ∷ rest
      → q ≡ record p { idle = k; messages = rest; busy = m ∷ p.busy }
      → Step p q
  handle :
      (m : Bytes) (before after : List Bytes)
      → p.busy ≡ before ++ m ∷ after
      → q ≡ record p { idle = p.idle + 1; busy = before ++ after; handled = m ∷ p.handled }
      → Step p q
  exit :
      (k : ℕ)
      → p.idle ≡ suc k
      → p.messages ≡ []
      → p.shut ≡ true
      → q ≡ record p { idle = k }
      → Step p q

pub data Steps (p : Fanout) : Fanout → Type 0 where
  here : Steps p p
  next : {q r : Fanout} → Steps p q → Step q r → Steps p r

-- The messages before the first failure, and that failure.
unfoldable pub arriving : List ReadResult → List Bytes
arriving [] = []
arriving (got m ∷ reads) = m ∷ arriving reads
arriving (failed e ∷ reads) = []

unfoldable pub first_failure : List ReadResult → List Error
first_failure [] = []
first_failure (got m ∷ reads) = first_failure reads
first_failure (failed e ∷ reads) = e ∷ []
