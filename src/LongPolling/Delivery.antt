-- ===== src/LongPolling/Delivery.antt =====
-- socket/transport/server_transport.go: the messages of a long-polling session in both directions.
use socket_go.Base.{
  ℕ, ◌≡◌, sym, ap, ◌∙◌, List, [], ◌∷◌, ◌++◌, Option, none, some, arith, if◌then◌else◌,
}
use mathlib.Core.List.{append-nil, append_assoc}
use socket_go.Socket.{Bytes}
use socket_go.LongPolling.{
  Transport, Response, messages, accepted, gone, bad_request, unavailable, not_found, read, write,
  close, handle_poll, handle_send,
}

-- What the server, the client's requests and the reading goroutine do to a session.
pub data Call : Type 0 where
  writes : Bytes → Call
  polls : ℕ → Call
  sends : ℕ → Option Bytes → Call
  reads : Call
  closes : Call

after_read : Transport → Option (Bytes × Transport) → Transport
after_read t none = t
after_read t (some (m, t')) = t'

unfoldable pub step : Call → Transport → Transport
unfolding after_read
step (writes m) t = (write m t).1
step (polls now) t = (handle_poll now t).1
step (sends now body) t = (handle_send now body t).1
step reads t = after_read t (read t)
step closes t = (close t).1

-- The messages that one call hands to the client, and that it takes for the client.
polled_by : Response → List Bytes
polled_by (messages ms) = ms
polled_by accepted = []
polled_by gone = []
polled_by bad_request = []
polled_by unavailable = []
polled_by not_found = []

unfoldable pub polled : Call → Transport → List Bytes
unfolding polled_by
polled (polls now) t = polled_by (handle_poll now t).0
polled (writes m) t = []
polled (sends now body) t = []
polled reads t = []
polled closes t = []

unfoldable pub written : Call → Transport → List Bytes
written (writes m) t = if t.closed then [] else m ∷ []
written (polls now) t = []
written (sends now body) t = []
written reads t = []
written closes t = []

-- The messages that one call hands to the reading goroutine, and that it accepts with a 200.
read_out : Option (Bytes × Transport) → List Bytes
read_out none = []
read_out (some (m, t)) = m ∷ []

unfoldable pub received : Call → Transport → List Bytes
unfolding read_out
received reads t = read_out (read t)
received (writes m) t = []
received (polls now) t = []
received (sends now body) t = []
received closes t = []

taken : Response → Option Bytes → List Bytes
taken accepted (some m) = m ∷ []
taken accepted none = []
taken (messages ms) body = []
taken gone body = []
taken bad_request body = []
taken unavailable body = []
taken not_found body = []

unfoldable pub sent : Call → Transport → List Bytes
unfolding taken
sent (sends now body) t = taken (handle_send now body t).0 body
sent (writes m) t = []
sent (polls now) t = []
sent reads t = []
sent closes t = []

unfoldable pub run : List Call → Transport → Transport
run [] t = t
run (c ∷ cs) t = run cs (step c t)

unfoldable pub over : (Call → Transport → List Bytes) → List Call → Transport → List Bytes
over f [] t = []
over f (c ∷ cs) t = f c t ++ over f cs (step c t)

step-outbound :
    (c : Call) (t : Transport)
    → polled c t ++ (step c t).pending_messages ≡ t.pending_messages ++ written c t
unfolding step polled written
step-outbound (writes m) t = unfold write in ground (arith, append-nil t.pending_messages)
step-outbound (polls now) t = unfold handle_poll in ground (arith, append-nil t.pending_messages)
step-outbound (sends now body) t =
    unfold handle_send in ground (arith, append-nil t.pending_messages)
step-outbound reads t = unfold read in ground (arith, append-nil t.pending_messages)
step-outbound closes t = unfold close in ground (arith, append-nil t.pending_messages)

step-inbound :
    (c : Call) (t : Transport)
    → received c t ++ (step c t).incoming_messages ≡ t.incoming_messages ++ sent c t
unfolding step received sent
step-inbound (writes m) t = unfold write in ground (arith, append-nil t.incoming_messages)
step-inbound (polls now) t = unfold handle_poll in ground (arith, append-nil t.incoming_messages)
step-inbound (sends now body) t =
    unfold handle_send in ground (arith, append-nil t.incoming_messages)
step-inbound reads t = unfold read in ground (arith, append-nil t.incoming_messages)
step-inbound closes t = unfold close in ground (arith, append-nil t.incoming_messages)

-- From one call to a history.
over-run :
    (queue : Transport → List Bytes) (out in_ : Call → Transport → List Bytes)
    → ((c : Call) (t : Transport) → out c t ++ queue (step c t) ≡ queue t ++ in_ c t)
    → (cs : List Call) (t : Transport)
    → over out cs t ++ queue (run cs t) ≡ queue t ++ over in_ cs t
unfolding over run
over-run queue out in_ law [] t = sym (append-nil (queue t))
over-run queue out in_ law (c ∷ cs) t =
    append_assoc (out c t) (over out cs (step c t)) (queue (run cs (step c t)))
    ∙ ap (◌++◌ (out c t)) (over-run queue out in_ law cs (step c t))
    ∙ sym (append_assoc (out c t) (queue (step c t)) (over in_ cs (step c t)))
    ∙ ap (λ xs. xs ++ over in_ cs (step c t)) (law c t)
    ∙ append_assoc (queue t) (in_ c t) (over in_ cs (step c t))

-- Over any history of a session: what the polls have answered, and then what is pending, is what
-- was pending at first and then what was written while the session was open; what the reads have
-- given, and then the queue, is what was queued at first and then the bodies that were answered
-- with a 200. So each message comes out once, in order, in both directions.
pub run-delivery :
    (cs : List Call) (t : Transport)
    → (over polled cs t ++ (run cs t).pending_messages ≡ t.pending_messages ++ over written cs t)
      × (over received cs t ++ (run cs t).incoming_messages ≡ t.incoming_messages ++ over sent cs t)
run-delivery cs t = (
  over-run (λ u. u.pending_messages) polled written step-outbound cs t,
  over-run (λ u. u.incoming_messages) received sent step-inbound cs t,
)
