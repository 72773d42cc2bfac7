-- ===== src/Wire/Sending.antt =====
-- socket/client.go, `sendLoop`, over the WebSocket of socket/transport/websocket.go, and the server's
-- receiving loop behind it.
use socket_go.Base.{ℕ, ◌≡◌, refl, sym, List, [], ◌∷◌, ◌++◌, none, some, arith, All}
use mathlib.Core.List.{append-nil, append_assoc}
use socket_go.Socket.{Message, Bytes}
use socket_go.Socket.Impl.{Codec, ServerTransport, SocketImpl, receive_loop}
use socket_go.Socket.Impl.Lifecycle.{got_all, receive_all}
use socket_go.Client.{Client}
use socket_go.Client.Locking.{free}
use socket_go.Client.Batching.{encode, send_each}
use socket_go.Client.Loops.{send_loop}
use socket_go.Client.Loops.Sending.{send_loop-send_each}
use socket_go.Transport.WebSocket.{Net, Transport, State, live, send, write_each}
use socket_go.Transport.WebSocket.Batch.{IsTimely, send_each-write_each}
use socket_go.Wire.{Ends, Leaves-Ends, receive_loop-frames, Survives, due, triggered}

-- A connection on which no write fails: each frame stands behind those that were written before.
abbrev pub Carries : {W : Type 0} → Net W → (W → List Bytes) → ℕ → Type 0
Carries {W} net frames c =
    (m : Bytes) (w : W)
    → let (e, w') = net.write_message c m w in (e ≡ none) × (frames w' ≡ frames w ++ m ∷ [])

module _ {W : Type 0} (net : Net W) (frames : W → List Bytes) where
  write_each-Carries :
      (c : ℕ) (bs : List Bytes) (w : W)
      → Carries net frames c
      → let (e, w') = write_each net c bs w in (e ≡ none) × (frames w' ≡ frames w ++ bs)
  unfolding write_each
  write_each-Carries c [] w sure = (refl, sym (append-nil (frames w)))
  write_each-Carries c (b ∷ bs) w sure = ground (
    arith,
    sure b w,
    write_each-Carries c bs (net.write_message c b w).1 sure,
    append_assoc (frames w) (b ∷ []) bs,
  )

  pub send_each-Carries :
      (c : ℕ) (bs : List Bytes) (t : Transport) (w : W)
      → Carries net frames c
      → IsTimely net t
      → live t ≡ some c
      → let (e, (t', w')) = send_each (send net) bs (t, w) in
        (e ≡ none) × (t' ≡ t) × (frames w' ≡ frames w ++ bs)
  send_each-Carries c bs t w sure timely e =
      rw (send_each-write_each net bs c t w timely e)
        (let (good, fs) = write_each-Carries c bs w sure in (good, refl, fs))

  -- Whatever the server's transport: a client whose lock is free and whose WebSocket is connected
  -- sends messages that JSON gives back as they were, over a connection on which no write fails,
  -- with no deadline that passes. `sendLoop` sends what encodes, and is still connected if it was
  -- before. A server that reads all frames then starts what the frames before come to, and for each
  -- message that encodes the handlers of its event with its data, in order and each once.
  pub sent_is_handled :
      {H T : Type 0} (transport : ServerTransport T) (codec : Codec) (k : ℕ) (ms : List Message)
      (c : Client (State W)) (s : SocketImpl H T)
      → Carries net frames k
      → IsTimely net c.conn.0
      → live c.conn.0 ≡ some k
      → c.mutex ≡ free
      → All (Survives codec) ms
      → Ends
          (λ c'.
            (c'.connected ≡ c.connected)
            × (c'.mutex ≡ free)
            × ((receive_loop transport codec (got_all (frames c'.conn.1)) s).0
                ≡ receive_all transport codec (frames c.conn.1) s
                  ++ due codec (triggered transport s) ms))
          (send_loop codec (send net) ms c)
  sent_is_handled transport codec k ms c s sure timely up unlocked lossless =
      let bs = (encode codec ms).0 in
      let (good, _, fs) = send_each-Carries k bs c.conn.0 c.conn.1 sure timely up in
      Leaves-Ends
        (λ u.
          (receive_loop transport codec (got_all (frames u.1)) s).0
          ≡ receive_all transport codec (frames c.conn.1) s ++ due codec (triggered transport s) ms)
        (send_each (send net) bs c.conn).1 (send_loop codec (send net) ms c) c.connected
        (ground (arith, good, send_loop-send_each codec (send net) ms c unlocked))
        (receive_loop-frames transport codec ms (frames c.conn.1) _ s fs lossless)
