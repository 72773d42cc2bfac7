-- ===== src/Transport/WebSocket.antt =====
-- socket/transport/websocket.go: the client's WebSocket. gorilla/websocket is the parameter `Net`: it
-- acts on a world `W`, in which a number stands for a `*websocket.Conn`.
pub mod Batch
pub mod Fanout
pub mod Lifecycle
use socket_go.Base.{
  ℕ, String, Bool, true, false, ◌||◌, not, List, [], ◌∷◌, Option, none, some, if◌then◌else◌,
}
use socket_go.Base.Int.{ℤ, pos, ltb_ℤ}
use socket_go.Transport.{Header}
use socket_go.Socket.{Error, text, Result, ok, err, Bytes}
use socket_go.Socket.Impl.{ReadResult, got, failed}

-- A deadline is given as the time from now until then.
pub record Net (W : Type 0) : Type 0 where
  pub dial_context : String → Header → Bool → W → Result ℕ × W
  pub set_write_deadline : ℕ → ℤ → W → Option Error × W
  pub set_read_deadline : ℕ → ℤ → W → Option Error × W
  pub write_message : ℕ → Bytes → W → Option Error × W
  pub read_message : ℕ → W → ReadResult × W
  pub write_close : ℕ → W → Option Error × W
  pub close : ℕ → W → Option Error × W
  pub underlying : ℕ → W → Option (Bool → W → W)  -- the method `EnableWriteCompression`, if it is there

pub record Transport : Type 0 where
  pub conn : Option ℕ
  pub url : String
  pub headers : Header
  pub connected : Bool
  pub read_timeout : ℤ
  pub write_timeout : ℤ
  pub compression : Bool

pub data TransportOption : Type 0 where
  with_headers : Header → TransportOption
  with_read_timeout with_write_timeout : ℤ → TransportOption
  with_compression : Bool → TransportOption

unfoldable pub apply_option : TransportOption → Transport → Transport
apply_option (with_headers h) t = record t { headers = h }
apply_option (with_read_timeout d) t = record t { read_timeout = d }
apply_option (with_write_timeout d) t = record t { write_timeout = d }
apply_option (with_compression b) t = record t { compression = b }

unfoldable pub apply_options : List TransportOption → Transport → Transport
unfolding apply_option
apply_options [] t = t
apply_options (o ∷ os) t = apply_options os (apply_option o t)

unfoldable pub initial : String → Transport
initial url = record {
  conn = none;
  url = url;
  headers = [];
  connected = false;
  read_timeout = pos 30_000_000_000;
  write_timeout = pos 10_000_000_000;
  compression = false;
}

unfoldable pub new_transport : String → List TransportOption → Transport
unfolding apply_options initial
new_transport url os = apply_options os (initial url)

-- The connection that a call may use: `none` is `!t.connected || t.conn == nil`.
unfoldable pub live : Transport → Option ℕ
live t = if t.connected then t.conn else none

-- A transport and the world, which every method changes under the transport's lock.
abbrev pub State : Type 0 → Type 0
State W = Transport × W

module _ {W : Type 0} (net : Net W) where
  open net use {close as close_conn}

  unfoldable pub connect : State W → Option Error × State W
  connect (t, w) =
      if t.connected
      then (none, (t, w))
      else (let (r, w') = net.dial_context t.url t.headers t.compression w in
          elim r [
            | err x ↦ (some x, (t, w'))
            | ok c ↦ (none, (record t { conn = some c; connected = true }, w'))
          ])

  -- `if t.writeTimeout > 0`, and the same for reads.
  unfoldable pub write_deadline : ℕ → Transport → W → Option Error × W
  write_deadline c t w =
      if ltb_ℤ (pos 0) t.write_timeout
      then net.set_write_deadline c t.write_timeout w
      else (none, w)

  unfoldable pub read_deadline : ℕ → Transport → W → Option Error × W
  read_deadline c t w =
      if ltb_ℤ (pos 0) t.read_timeout then net.set_read_deadline c t.read_timeout w else (none, w)

  unfoldable pub send : Bytes → State W → Option Error × State W
  unfolding live write_deadline
  send m (t, w) = elim (live t) [
    | none ↦ (some (text "not connected"), (t, w))
    | some c ↦
        let (e, w₁) = write_deadline c t w in
        elim e [
          | some x ↦ (some x, (t, w₁))
          | none ↦ let (e', w₂) = net.write_message c m w₁ in (e', (t, w₂))
        ]
  ]

  -- The loop of `BatchSend`.
  unfoldable pub write_each : ℕ → List Bytes → W → Option Error × W
  write_each c [] w = (none, w)
  write_each c (m ∷ ms) w =
      let (e, w') = net.write_message c m w in
      elim e [ some x ↦ (some x, w') | none ↦ write_each c ms w' ]

  unfoldable pub batch_send : List Bytes → State W → Option Error × State W
  unfolding live write_deadline write_each
  batch_send ms (t, w) = elim (live t) [
    | none ↦ (some (text "not connected"), (t, w))
    | some c ↦
        let (e, w₁) = write_deadline c t w in
        elim e [
          | some x ↦ (some x, (t, w₁))
          | none ↦ let (e', w₂) = write_each c ms w₁ in (e', (t, w₂))
        ]
  ]

  -- One read; the lock is given back before it, and nothing else changes the transport meanwhile.
  unfoldable pub read_one : Error → State W → ReadResult × State W
  unfolding live read_deadline
  read_one closed (t, w) = elim (live t) [
    | none ↦ (failed closed, (t, w))
    | some c ↦
        let (e, w₁) = read_deadline c t w in
        elim e [
          | some x ↦ (failed x, (t, w₁))
          | none ↦ let (r, w₂) = net.read_message c w₁ in (r, (t, w₂))
        ]
  ]

  unfoldable pub receive : State W → ReadResult × State W
  unfolding read_one
  receive s = read_one (text "not connected") s

  -- The error of the close frame is printed, and that of the close is the answer.
  unfoldable pub close : State W → Option Error × State W
  unfolding live
  close (t, w) = elim (live t) [
    | none ↦ (none, (t, w))
    | some c ↦
        let (_, w₁) = net.write_close c w in
        let (e, w₂) = close_conn c w₁ in (e, (record t { connected = false; conn = none }, w₂))
  ]

  unfoldable pub enable_compression : Bool → State W → State W
  unfolding live
  enable_compression b (t, w) =
      let t' = record t { compression = b } in
      elim (live t) [
        | none ↦ (t', w)
        | some c ↦ elim (net.underlying c w) [ none ↦ (t', w) | some enable ↦ (t', enable b w) ]
      ]

  -- The goroutine of `ReceiveWithContext`, as far as the rounds go: each entry is `ctx.Err()` where
  -- the round's `select` finds the context done. What comes out is what the handler is called with.
  unfoldable pub receive_rounds : List (Option Error) → State W → List ReadResult × State W
  unfolding read_one
  receive_rounds [] s = ([], s)
  receive_rounds (some x ∷ rounds) s = (failed x ∷ [], s)
  receive_rounds (none ∷ rounds) s =
      let (r, s') = read_one (text "connection closed") s in
      elim r [
        | failed x ↦ (failed x ∷ [], s')
        | got m ↦ let (rs, s₂) = receive_rounds rounds s' in (got m ∷ rs, s₂)
      ]

  unfoldable pub receive_with_context : List (Option Error) → State W → List ReadResult × State W
  unfolding live receive_rounds
  receive_with_context rounds (t, w) = elim (live t) [
    | none ↦ (failed (text "not connected") ∷ [], (t, w))
    | some c ↦ receive_rounds rounds (t, w)
  ]
