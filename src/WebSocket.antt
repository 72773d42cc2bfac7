-- ===== src/WebSocket.antt =====
-- socket/transport/server_transport.go, the WebSocket transport (lines 26-155): the goroutine of
-- `writePump` and the callers of `Write` and `Close`, as moves on what they share. Whether a frame goes
-- out is the connection's choice; timeouts and `Read`, which only calls the connection and then
-- `Close`, are left to it too.
pub mod Delivery
pub mod Flush
pub mod Leak
pub mod Reading
use socket_go.Base.{ℕ, suc, ◌+◌, ◌<◌, ◌≡◌, Bool, true, false, List, [], ◌∷◌, ◌++◌, length}
use socket_go.Socket.{Bytes}

-- Where `writePump` stands: in its `select`; with a message; behind a write that failed; in `Close`,
-- where it waits for `writeWg`; or returned.
pub data Pump : Type 0 where
  selecting : Pump
  holding : Bytes → Pump
  failing : Bytes → Pump
  closing : Pump
  stopped : Pump

pub record Transport : Type 0 where
  pub send_ch : List Bytes  -- the channel's buffer, oldest first
  pub capacity : ℕ
  pub closed : Bool  -- `closeCh` is closed with it, under the same lock
  pub pump : Pump
  pub waiting : ℕ  -- the callers of `Close` at `writeWg.Wait()`, the pump itself aside
  pub conn_closed : Bool
  pub accepted : List Bytes  -- what `Write` has put into the channel
  pub written : List Bytes  -- the frames that have gone out

unfoldable pub new_transport : ℕ → Transport
new_transport buffer_size = record {
  send_ch = [];
  capacity = buffer_size;
  closed = false;
  pump = selecting;
  waiting = 0;
  conn_closed = false;
  accepted = [];
  written = [];
}

-- `put` is the end of a `Write` that found the transport open: it may be closed by then. A `Write`
-- that finds the channel full calls `Close`.
pub data Step (p : Transport) (q : Transport) : Type 0 where
  put :
      (m : Bytes)
      → length p.send_ch < p.capacity
      → q ≡ record p { send_ch = p.send_ch ++ m ∷ []; accepted = p.accepted ++ m ∷ [] }
      → Step p q
  close : p.closed ≡ false → q ≡ record p { closed = true; waiting = p.waiting + 1 } → Step p q
  close_conn :
      (k : ℕ)
      → p.waiting ≡ suc k
      → p.pump ≡ stopped
      → q ≡ record p { waiting = k; conn_closed = true }
      → Step p q
  take :
      (m : Bytes) (rest : List Bytes)
      → p.pump ≡ selecting
      → p.send_ch ≡ m ∷ rest
      → q ≡ record p { pump = holding m; send_ch = rest }
      → Step p q
  stop : p.pump ≡ selecting → p.closed ≡ true → q ≡ record p { pump = stopped } → Step p q
  drop :
      (m : Bytes)
      → p.pump ≡ holding m
      → p.closed ≡ true
      → q ≡ record p { pump = stopped }
      → Step p q
  write :
      (m : Bytes)
      → p.pump ≡ holding m
      → p.closed ≡ false
      → q ≡ record p { pump = selecting; written = p.written ++ m ∷ [] }
      → Step p q
  fail :
      (m : Bytes)
      → p.pump ≡ holding m
      → p.closed ≡ false
      → q ≡ record p { pump = failing m }
      → Step p q
  fail_close :
      (m : Bytes)
      → p.pump ≡ failing m
      → p.closed ≡ false
      → q ≡ record p { pump = closing; closed = true }
      → Step p q
  fail_closed :
      (m : Bytes)
      → p.pump ≡ failing m
      → p.closed ≡ true
      → q ≡ record p { pump = stopped }
      → Step p q

pub data Steps (p : Transport) : Transport → Type 0 where
  here : Steps p p
  next : {q r : Transport} → Steps p q → Step q r → Steps p r
