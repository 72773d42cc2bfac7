-- ===== src/Transport/LongPolling/Queue.antt =====
-- socket/transport/longpolling.go: what a round of `poll` does to the queue, and against the session of
-- the server that it polls.
use socket_go.Base.{
  ℕ, zero, suc, ◌+◌, ◌≤◌, ◌≡◌, false, List, [], ◌∷◌, ◌++◌, map, none, arith, length, length-append,
  take, str_eq,
}
use mathlib.Core.List.{append-nil, append_assoc}
use socket_go.Socket.{Result, ok, err, Bytes}
use socket_go.LongPolling as Server
use socket_go.LongPolling.{
  Response as Answer, messages, accepted, gone, bad_request, unavailable, not_found, handle_poll,
}
use socket_go.Transport.LongPolling.{
  Transport, Http, Json, Response, queue_size, enqueue, enqueue_each, fetch_messages, fetch_session,
  exchange, messages_of,
}

-- The queue takes the oldest messages, as many as there is room for.
enqueue_each-take :
    (ms : List Bytes) (k : ℕ) (t : Transport)
    → k + length t.incoming_queue ≡ queue_size
    → (enqueue_each ms t).incoming_queue ≡ t.incoming_queue ++ take k ms
unfolding enqueue_each enqueue
enqueue_each-take [] zero t h = ground (arith, append-nil t.incoming_queue)
enqueue_each-take [] (suc k) t h = ground (arith, append-nil t.incoming_queue)
enqueue_each-take (m ∷ ms) zero t h = ground (arith, enqueue_each-take ms zero t h)
enqueue_each-take (m ∷ ms) (suc k) t h = ground (
  arith,
  length-append t.incoming_queue (m ∷ []),
  enqueue_each-take ms k (record t { incoming_queue = t.incoming_queue ++ m ∷ [] }),
  append_assoc t.incoming_queue (m ∷ []) (take k ms),
)

-- The server's side of a poll, as net/http carries it: `encode` is `json.Marshal` on the messages.
unfoldable pub answer : (List Bytes → Bytes) → Answer → Response
answer encode (messages ms) = record { status_code = 200; status = "200 OK"; body = encode ms }
answer encode accepted = record { status_code = 200; status = "200 OK"; body = [] }
answer encode gone = record { status_code = 410; status = "410 Gone"; body = [] }
answer encode bad_request = record { status_code = 400; status = "400 Bad Request"; body = [] }
answer encode unavailable = record {
  status_code = 503;
  status = "503 Service Unavailable";
  body = [];
}
answer encode not_found = record { status_code = 404; status = "404 Not Found"; body = [] }

-- A network that brings every request to `HandlePoll` of one session.
unfoldable pub polling : ℕ → (List Bytes → Bytes) → Http Server.Transport
unfolding answer
polling now encode = record {
  new_request = λ method url. none;
  round_trip = λ r s. let (a, s') = handle_poll now s in (ok (answer encode a), s');
}

-- The body of `poll`'s `default` loop: the messages of a fetch that succeeds.
unfoldable pub delivered : Result (List Bytes) → Transport → Transport
delivered (ok ms) t = enqueue_each ms t
delivered (err x) t = t

-- A poll of an open session by a client that has one, whose queue has room for `k` messages more:
-- the server's pending messages are gone from it; the client's queue has taken the oldest `k` of
-- them, in order, each as the text that stands for it in the JSON array, and the others are lost.
pub fetch_messages-handle_poll :
    (now k : ℕ) (encode : List Bytes → Bytes) (quote : Bytes → Bytes) (json : Json) (t : Transport)
    (s : Server.Transport)
    → ((ms : List Bytes) → json.messages (encode ms) ≡ ok (map quote ms))
    → str_eq t.session_id "" ≡ false
    → s.closed ≡ false
    → k + length t.incoming_queue ≡ queue_size
    → let (r, s') = fetch_messages (polling now encode) json t s in
      (s'.pending_messages ≡ [])
      × ((delivered r t).incoming_queue ≡ t.incoming_queue ++ take k (map quote s.pending_messages))
      × (length (delivered r t).incoming_queue ≤ queue_size)
unfolding fetch_messages fetch_session polling exchange messages_of handle_poll delivered
fetch_messages-handle_poll now k encode quote json t s law session open_ room = ground (
  arith,
  law s.pending_messages,
  enqueue_each-take (map quote s.pending_messages) k t room,
  length-append t.incoming_queue (take k (map quote s.pending_messages)),
  length-take k (map quote s.pending_messages),
)
  where
    length-take : (n : ℕ) (xs : List Bytes) → length (take n xs) ≤ n
    length-take zero xs = omega arith
    length-take (suc n) [] = omega arith
    length-take (suc n) (x ∷ xs) = omega (arith, length-take n xs)
