-- ===== src/WebSocket/Reading.antt =====
-- socket/transport/server_transport.go: the deadline of a WebSocket's reads (lines 36-67 and 101-113), and
-- the loop of socket/socket_impl.go that reads.
use mathlib.Core.List.{map-append}
use socket_go.Base.{
  ℕ, suc, ◌+◌, ◌≤◌, ◌≡◌, ap, ◌∙◌, false, List, [], ◌∷◌, ◌++◌, map, Option, none, some, arith,
  if◌then◌else◌,
}
use socket_go.Base.Int.{ℤ, pos, pos_part, ltb_ℤ}
use socket_go.Socket.{Error}
use socket_go.Socket.Impl.{
  Codec, ServerTransport, SocketImpl, ReadResult, got, failed, close, receive_loop,
}

pub record Config : Type 0 where
  pub write_timeout : ℤ
  pub read_timeout : ℤ
  pub buffer_size : ℤ

unfoldable pub default_web_socket_config : Config
default_web_socket_config = record {
  write_timeout = pos 10_000_000_000;
  read_timeout = pos 30_000_000_000;
  buffer_size = pos 100;
}

-- The only deadline for reads that a connection ever gets, at the time it is made.
unfoldable pub read_deadline : Config → ℕ → Option ℕ
read_deadline config now =
    if ltb_ℤ (pos 0) config.read_timeout then some (now + pos_part config.read_timeout) else none

-- `ReadMessage` of gorilla/websocket, by the deadline that is set and the time.
abbrev Reads : Type 0
Reads = Option ℕ → ℕ → ReadResult

-- From the deadline on it fails.
abbrev pub IsTimed : Error → Reads → Type 0
IsTimed late read_message =
    (deadline now : ℕ) → deadline ≤ now → read_message (some deadline) now ≡ failed late

-- What `Read` gives at one time after the other; a failure closes the transport, too.
unfoldable pub reads_at : Reads → Config → ℕ → List ℕ → List ReadResult
unfolding read_deadline
reads_at read_message config created times = map (read_message (read_deadline config created)) times

read_deadline-some :
    (config : Config) (created n : ℕ)
    → config.read_timeout ≡ pos (suc n)
    → read_deadline config created ≡ some (created + suc n)
unfolding read_deadline
read_deadline-some config created n e = ground (arith, e)

reads_at-append :
    (read_message : Reads) (config : Config) (created : ℕ) (early : List ℕ) (t : ℕ) (later : List ℕ)
    (late : Error) (n : ℕ)
    → IsTimed late read_message
    → config.read_timeout ≡ pos (suc n)
    → created + suc n ≤ t
    → reads_at read_message config created (early ++ t ∷ later)
      ≡ reads_at read_message config created early
        ++ failed late ∷ reads_at read_message config created later
unfolding reads_at
reads_at-append read_message config created early t later late n timed e h =
    let f = read_message (read_deadline config created) in
    let overdue : f t ≡ failed late =
      rw (read_deadline-some config created n e) (timed (created + suc n) t h) in
    map-append f early (t ∷ later) ∙ ap (λ r. map f early ++ r ∷ map f later) overdue

module _ {H T : Type 0} (transport : ServerTransport T) where
  -- The loop ends at the first failure, whatever would come behind it.
  receive_loop-failed :
      (codec : Codec) (early : List ReadResult) (x : Error) (late : List ReadResult)
      (s : SocketImpl H T)
      → (receive_loop transport codec (early ++ failed x ∷ late) s
          ≡ receive_loop transport codec (early ++ failed x ∷ []) s)
        × ((receive_loop transport codec (early ++ failed x ∷ late) s).1.connected ≡ false)
  unfolding receive_loop close
  receive_loop-failed codec [] x late s = ground arith
  receive_loop-failed codec (got m ∷ early) x late s =
      ground (arith, receive_loop-failed codec early x late s)
  receive_loop-failed codec (failed y ∷ early) x late s = ground arith

  -- With a positive read timeout, as in the default of 30 seconds, a connection is not read from for
  -- longer than that, however much comes in: at the first read that is due when the timeout has gone
  -- by since the connection was made, the receiving loop is over and the connection is closed, and
  -- what comes later reaches no handler. No read puts the deadline off.
  pub reads_end :
      (codec : Codec) (read_message : Reads) (config : Config) (created : ℕ) (early : List ℕ)
      (t : ℕ) (later : List ℕ) (late : Error) (n : ℕ) (s : SocketImpl H T)
      → IsTimed late read_message
      → config.read_timeout ≡ pos (suc n)
      → created + suc n ≤ t
      → let (gos, s') =
          receive_loop transport codec
            (reads_at read_message config created (early ++ t ∷ later))
            s in
        let (first, closed) =
          receive_loop transport codec (reads_at read_message config created (early ++ t ∷ [])) s in
        (gos ≡ first) × (s' ≡ closed) × (s'.connected ≡ false)
  unfolding reads_at
  reads_end codec read_message config created early t later late n s timed e h =
      let reads = reads_at read_message config created in
      let all = receive_loop-failed codec (reads early) late (reads later) s in
      rw
        (
          reads_at-append read_message config created early t later late n timed e h,
          reads_at-append read_message config created early t [] late n timed e h,
        )
        (ap (λ r. r.0) all.0, ap (λ r. r.1) all.0, all.1)
