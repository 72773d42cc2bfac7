-- ===== src/Transport/LongPolling.antt =====
-- socket/transport/longpolling.go: the client's long polling. net/http is the parameter `Http`, which
-- acts on a world `W`, and the decoding of JSON is `Json`; a timeout is an error of a request.
pub mod Queue
pub mod Pollers
use Prim.Native.String.{◌++◌ as cat}
use socket_go.Base.{
  ℕ, ◌+◌, String, Bool, true, false, ◌||◌, ◌&&◌, not, List, [], ◌∷◌, ◌++◌, map, Option, none, some,
  ◌==◌, ltb, length, str_eq, if◌then◌else◌,
}
use socket_go.Base.Map.{Map, insert}
use socket_go.Socket.{Error, text, bad_status, Result, ok, err, Bytes}
use socket_go.Socket.Impl.{ReadResult, got, failed}
use socket_go.Transport.{Header}

pub record Request : Type 0 where
  pub method : String
  pub url : String
  pub header : List (String × String)
  pub body : Bytes

pub record Response : Type 0 where
  pub status_code : ℕ
  pub status : String
  pub body : Bytes

-- `new_request` is the error of `http.NewRequestWithContext` on a method and a URL.
pub record Http (W : Type 0) : Type 0 where
  pub new_request : String → String → Option Error
  pub round_trip : Request → W → Result Response × W

pub record Json : Type 0 where
  pub session_id : Bytes → Result String
  pub messages : Bytes → Result (List Bytes)  -- the elements of an array, as they stand in it

-- Where a goroutine of `poll` stands: at the head of its loop; in its `select`, on the context that the
-- transport had then; in `fetchMessages`, with the session and the context that it has read first; in
-- `time.Sleep`; or returned.
pub data Poller : Type 0 where
  starting : Poller
  selecting : ℕ → Poller
  fetching : String → ℕ → Poller
  asleep : Poller
  returned : Poller

pub record Transport : Type 0 where
  pub base_url : String
  pub session_id : String
  pub connected : Bool
  pub incoming_queue : List Bytes  -- the channel's buffer, oldest first
  pub headers : Header
  pub ctx : ℕ
  pub next_ctx : ℕ
  pub is_done : ℕ → Bool  -- which contexts are cancelled
  pub poll_interval : ℕ
  pub timeout : ℕ
  pub pollers : List Poller  -- the goroutines of `poll`, the latest first

pub data TransportOption : Type 0 where
  with_long_polling_headers : Header → TransportOption
  with_poll_interval with_timeout : ℕ → TransportOption

-- The loop of `WithLongPollingHeaders`.
unfoldable set_headers : Header → Header → Header
set_headers [] h = h
set_headers ((k, v) ∷ more) h = set_headers more (insert k v h)

unfoldable pub apply_option : TransportOption → Transport → Transport
unfolding set_headers
apply_option (with_long_polling_headers h) t = record t { headers = set_headers h t.headers }
apply_option (with_poll_interval d) t = record t { poll_interval = d }
apply_option (with_timeout d) t = record t { timeout = d }

unfoldable pub apply_options : List TransportOption → Transport → Transport
unfolding apply_option
apply_options [] t = t
apply_options (o ∷ os) t = apply_options os (apply_option o t)

abbrev pub queue_size : ℕ
queue_size = 100

unfoldable pub new_transport : String → List TransportOption → Transport
unfolding apply_options
new_transport base_url os = apply_options os (record {
  base_url = base_url;
  session_id = "";
  connected = false;
  incoming_queue = [];
  headers = [];
  ctx = 0;
  next_ctx = 1;
  is_done = λ c. false;
  poll_interval = 1_000_000_000;
  timeout = 30_000_000_000;
  pollers = [];
})

-- The loops that add the transport's headers to those of a request.
unfoldable add_values : String → List String → List (String × String)
add_values k [] = []
add_values k (v ∷ vs) = (k, v) ∷ add_values k vs

unfoldable add_headers : Header → List (String × String)
unfolding add_values
add_headers [] = []
add_headers ((k, vs) ∷ h) = add_values k vs ++ add_headers h

unfoldable pub endpoint : String → String → Transport → String
endpoint path session t = cat t.base_url (cat path session)

-- The channel send of `poll`, whose default branch drops the message.
unfoldable pub enqueue : Bytes → Transport → Transport
enqueue m t =
    if ltb (length t.incoming_queue) queue_size
    then record t { incoming_queue = t.incoming_queue ++ m ∷ [] }
    else t

unfoldable pub enqueue_each : List Bytes → Transport → Transport
unfolding enqueue
enqueue_each [] t = t
enqueue_each (m ∷ ms) t = enqueue_each ms (enqueue m t)

unfoldable pub cancel : Transport → Transport
cancel t = record t { is_done = λ c. (c == t.ctx) || t.is_done c }

-- The first two lines of `Connect` behind its guard: a context of its own.
unfoldable renew : Transport → Transport
renew t = record t { ctx = t.next_ctx; next_ctx = t.next_ctx + 1 }

module _ {W : Type 0} (http : Http W) where
  open http use {new_request, round_trip}

  -- `NewRequestWithContext`, the headers, and `Do`.
  unfoldable pub exchange :
      String → String → List (String × String) → Bytes → Transport → W → Result Response × W
  unfolding add_headers
  exchange method url first body t w = elim (new_request method url) [
    | some x ↦ (err x, w)
    | none ↦
        round_trip
          (record {
            method = method;
            url = url;
            header = first ++ add_headers t.headers;
            body = body;
          })
          w
  ]

  -- What a `Connect` answers to the response: an error, or the session.
  unfoldable pub session_of : Json → Result Response → Result String
  session_of json (err x) = err x
  session_of json (ok r) =
      if r.status_code == 200
      then json.session_id r.body
      else err (text (cat "failed to connect: " r.status))

  unfoldable pub connect : Json → Transport → W → Option Error × Transport × W
  unfolding renew exchange session_of
  connect json t w =
      if t.connected
      then (none, t, w)
      else (let t' = renew t in
          let (r, w') = exchange "POST" (cat t.base_url "/connect") [] [] t' w in
          elim (session_of json r) [
            | err x ↦ (some x, t', w')
            | ok id ↦ (
              none,
              record t' { session_id = id; connected = true; pollers = starting ∷ t.pollers },
              w',
            )
          ])

  unfoldable pub messages_of : Json → Result Response → Result (List Bytes)
  messages_of json (err x) = err x
  messages_of json (ok r) =
      if r.status_code == 200
      then json.messages r.body
      else err (text (cat "failed to poll: " r.status))

  -- `fetchMessages`, from where it has read the session.
  unfoldable pub fetch_session : Json → String → Transport → W → Result (List Bytes) × W
  unfolding endpoint exchange messages_of
  fetch_session json session t w =
      if str_eq session ""
      then (err (text "not connected"), w)
      else (let (r, w') = exchange "GET" (endpoint "/poll?sessionId=" session t) [] [] t w in
          (messages_of json r, w'))

  unfoldable pub fetch_messages : Json → Transport → W → Result (List Bytes) × W
  unfolding fetch_session
  fetch_messages json t w = fetch_session json t.session_id t w

  unfoldable pub answer_of : Result Response → Option Error
  answer_of (err x) = some x
  answer_of (ok r) =
      if r.status_code == 200
      then none
      else some (bad_status "failed to send message: " r.status r.body)

  unfoldable pub send : Bytes → Transport → W → Option Error × W
  unfolding endpoint exchange answer_of
  send m t w =
      if str_eq t.session_id ""
      then (some (text "not connected"), w)
      else (let (r, w') =
            exchange "POST" (endpoint "/send?sessionId=" t.session_id t)
              (("Content-Type", "application/json") ∷ []) m t w in
          (answer_of r, w'))

  -- What the server answers is not looked at.
  unfoldable pub close : Transport → W → Transport × W
  unfolding endpoint exchange cancel
  close t w =
      if t.connected
      then (let (r, w') =
            exchange "POST" (endpoint "/disconnect?sessionId=" t.session_id t) [] [] t w in
          (record (cancel t) { connected = false; session_id = "" }, w'))
      else (t, w)

-- `none` is a call that waits. Where a message is there and the context is done, the `select` takes
-- either: `prefers_done` is its choice.
unfoldable pub receive : Bool → Transport → Option (ReadResult × Transport)
receive prefers_done t =
    if t.connected
    then elim t.incoming_queue [
      | [] ↦ if t.is_done t.ctx then some (failed (text "connection closed"), t) else none
      | m ∷ rest ↦
          if t.is_done t.ctx && prefers_done
          then some (failed (text "connection closed"), t)
          else some (got m, record t { incoming_queue = rest })
    ]
    else some (failed (text "not connected"), t)
