-- ===== src/Wire/Posted.antt =====
-- socket/client.go, `sendLoop`, over the long polling of socket/transport/longpolling.go, and the session of
-- socket/transport/server_transport.go that it posts to, with the server's receiving loop behind it.
use socket_go.Base.{
  ℕ, zero, suc, ◌+◌, ◌≡◌, refl, sym, ap, ◌∙◌, inl, inr, false, List, [], ◌∷◌, ◌++◌, Option, none,
  some, arith, All, length, length-append, take, ltb, is_some, str_eq, if◌then◌else◌, Option-cases,
}
use mathlib.Core.List.{append-nil, append_assoc}
use socket_go.Socket.{Error, ok, Message, Bytes}
use socket_go.Socket.Impl.{Codec, ServerTransport, SocketImpl, receive_loop}
use socket_go.Socket.Impl.Lifecycle.{got_all, receive_all}
use socket_go.LongPolling as Server
use socket_go.LongPolling.{handle_send}
use socket_go.Client.{Client}
use socket_go.Client.Locking.{free}
use socket_go.Client.Batching.{encode, send_each}
use socket_go.Client.Loops.{send_loop}
use socket_go.Client.Loops.Sending.{send_loop-send_each}
use socket_go.Transport.LongPolling.{Transport, Http, send, exchange, answer_of}
use socket_go.Transport.LongPolling.Queue.{answer}
use socket_go.Wire.{Survives, Ends, Leaves-Ends, due, triggered, receive_loop-frames}

-- A network that brings every request to `HandleSend` of one session.
unfoldable posting : ℕ → (List Bytes → Bytes) → Http Server.Transport
unfolding answer
posting now as_array = record {
  new_request = λ method url. none;
  round_trip = λ r s. let (a, s') = handle_send now (some r.body) s in (ok (answer as_array a), s');
}

-- The client's transport and the session.
abbrev pub Line : Type 0
Line = Transport × Server.Transport

unfoldable pub post : ℕ → (List Bytes → Bytes) → Bytes → Line → Option Error × Line
unfolding send posting
post now as_array m (t, s) = let (e, s') = send (posting now as_array) m t s in (e, (t, s'))

-- The messages among these that encode, so many of them at most.
unfoldable pub fitting : Codec → List Message → ℕ → List Message
fitting codec [] k = []
fitting codec (m ∷ ms) k = elim (codec.marshal m) [
  | none ↦ fitting codec ms k
  | some b ↦ elim k [ zero ↦ [] | suc j ↦ m ∷ fitting codec ms j ]
]

encode-fitting :
    (codec : Codec) (ms : List Message) (k : ℕ)
    → (encode codec (fitting codec ms k)).0 ≡ take k (encode codec ms).0
unfolding encode fitting
encode-fitting codec [] zero = refl
encode-fitting codec [] (suc k) = refl
encode-fitting codec (m ∷ ms) zero = elim (Option-cases (codec.marshal m)) [
  | inl e ↦ ground (arith, e, encode-fitting codec ms zero)
  | inr (b, e) ↦ ground (arith, e)
]
encode-fitting codec (m ∷ ms) (suc k) = elim (Option-cases (codec.marshal m)) [
  | inl e ↦ ground (arith, e, encode-fitting codec ms (suc k))
  | inr (b, e) ↦ ground (arith, e, encode-fitting codec ms k)
]

fitting-Survives :
    (codec : Codec) (ms : List Message) (k : ℕ)
    → All (Survives codec) ms
    → All (Survives codec) (fitting codec ms k)
unfolding fitting
fitting-Survives codec [] k lossless = tt
fitting-Survives codec (m ∷ ms) zero lossless = elim (Option-cases (codec.marshal m)) [
  | inl e ↦ rw (e, fitting, All) (fitting-Survives codec ms zero lossless.1)
  | inr (b, e) ↦ rw (e, fitting, All) tt
]
fitting-Survives codec (m ∷ ms) (suc k) lossless = elim (Option-cases (codec.marshal m)) [
  | inl e ↦ rw (e, fitting, All) (fitting-Survives codec ms (suc k) lossless.1)
  | inr (b, e) ↦ rw (e, fitting, All) (lossless.0, fitting-Survives codec ms k lossless.1)
]

-- The queue takes as many messages as there is room for, and the next one is refused.
send_each-post :
    (now k : ℕ) (as_array : List Bytes → Bytes) (bs : List Bytes) (t : Transport)
    (s : Server.Transport)
    → str_eq t.session_id "" ≡ false
    → s.closed ≡ false
    → k + length s.incoming_messages ≡ s.capacity
    → let (e, (_, s')) = send_each (post now as_array) bs (t, s) in
      (is_some e ≡ ltb k (length bs)) × (s'.incoming_messages ≡ s.incoming_messages ++ take k bs)
unfolding send_each post send posting exchange handle_send answer answer_of
send_each-post now zero as_array [] t s session open_ room =
    ground (arith, append-nil s.incoming_messages)
send_each-post now (suc k) as_array [] t s session open_ room =
    ground (arith, append-nil s.incoming_messages)
send_each-post now zero as_array (b ∷ bs) t s session open_ room =
    ground (arith, session, open_, room, append-nil s.incoming_messages)
send_each-post now (suc k) as_array (b ∷ bs) t s session open_ room =
    let s' : Server.Transport = record s {
      last_activity = now;
      incoming_messages = s.incoming_messages ++ b ∷ [];
    } in
    ground (
      arith,
      session,
      open_,
      send_each-post now k as_array bs t s' session open_
          (omega (arith, room, length-append s.incoming_messages (b ∷ []))),
      append_assoc s.incoming_messages (b ∷ []) (take k bs),
    )

-- A client whose lock is free and whose long polling has a session sends messages that JSON gives
-- back as they were, to a session that is open and has room for `k` messages more, over a network
-- that brings every request there. `sendLoop` comes to its end. The server's receiving loop, over
-- any transport, then starts, when it reads all that is queued, what was queued before and then,
-- for the first `k` messages that encode, the handlers of each one's event with its data, each once
-- and in order. Where no more than `k` of them encode, the client is connected as it was before;
-- where more do, it is not.
pub posted_is_handled :
    {H T : Type 0} (transport : ServerTransport T) (codec : Codec) (now k : ℕ)
    (as_array : List Bytes → Bytes) (ms : List Message) (c : Client Line) (s : SocketImpl H T)
    → c.mutex ≡ free
    → str_eq c.conn.0.session_id "" ≡ false
    → c.conn.1.closed ≡ false
    → k + length c.conn.1.incoming_messages ≡ c.conn.1.capacity
    → All (Survives codec) ms
    → Ends
        (λ c'.
          (c'.connected ≡ (if ltb k (length (encode codec ms).0) then false else c.connected))
          × (c'.mutex ≡ free)
          × ((receive_loop transport codec (got_all c'.conn.1.incoming_messages) s).0
              ≡ receive_all transport codec c.conn.1.incoming_messages s
                ++ due codec (triggered transport s) (fitting codec ms k)))
        (send_loop codec (post now as_array) ms c)
posted_is_handled transport codec now k as_array ms c s unlocked session open_ room lossless =
    let bs = (encode codec ms).0 in
    let (t, u) = c.conn in
    let (refused, queue) = send_each-post now k as_array bs t u session open_ room in
    Leaves-Ends
      (λ v.
        (receive_loop transport codec (got_all v.1.incoming_messages) s).0
        ≡ receive_all transport codec u.incoming_messages s
          ++ due codec (triggered transport s) (fitting codec ms k))
      (send_each (post now as_array) bs c.conn).1 (send_loop codec (post now as_array) ms c)
      (if ltb k (length bs) then false else c.connected)
      (rw (← refused) (send_loop-send_each codec (post now as_array) ms c unlocked))
      (receive_loop-frames transport codec (fitting codec ms k) u.incoming_messages _ s
        (queue ∙ ap (◌++◌ u.incoming_messages) (sym (encode-fitting codec ms k)))
        (fitting-Survives codec ms k lossless))
