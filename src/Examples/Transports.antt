-- ===== src/Examples/Transports.antt =====
-- The client's two transports, over a network that answers everything.
use socket_go.Base.{
  ℕ, ◌≡◌, refl, Bool, true, List, [], ◌∷◌, ◌++◌, map, none, some, inr, arith, zero, suc, ap, ◌∙◌,
  tally,
}
use socket_go.Base.Int.{pos}
use socket_go.Socket.{Message, ok, foreign, nil, Bytes}
use socket_go.Socket.Impl.{Codec, ReadResult, got, failed}
use socket_go.Client.Batching.{process_batch}
use socket_go.LongPolling as Server
use socket_go.Transport.WebSocket as Web
use socket_go.Transport.WebSocket.{
  Net, send, batch_send, with_write_timeout, new_transport, initial,
}
use socket_go.Transport.WebSocket.Batch.{process_batch-batch_send}
use socket_go.Transport.WebSocket.Lifecycle.{
  Call, connects, sends, batches, receives, listens, closes, run, logging, IsTidy,
  run-new_transport-IsTidy,
}
use socket_go.Transport.WebSocket.Fanout as Fanout
use socket_go.Transport.WebSocket.Fanout.{Fanout, start, arriving, first_failure}
use socket_go.Transport.WebSocket.Fanout.Handled.{receive_concurrent-handled}
use socket_go.Transport.LongPolling as Polling
use socket_go.Transport.LongPolling.{Http, Json, fetch_messages, queue_size}
use socket_go.Transport.LongPolling.Pollers.{Steps}
use socket_go.Transport.LongPolling.Pollers.PileUp.{IsWilling, IsServed, pollers_pile_up}

-- Frames are kept in order, in the world; every read gives the byte 7.
abbrev pub wire : Net (List Bytes)
wire = record {
  dial_context = λ url h b w. (ok 1, w);
  set_write_deadline = λ c d w. (none, w);
  set_read_deadline = λ c d w. (none, w);
  write_message = λ c m w. (none, w ++ m ∷ []);
  read_message = λ c w. (got (7 ∷ []), w);
  write_close = λ c w. (none, w);
  close = λ c w. (none, w);
  underlying = λ c w. none;
}

abbrev pub online : Web.Transport
online = record (initial "ws://here") { conn = some 1; connected = true }

abbrev codec : Codec
codec = record { marshal = λ m. some (1 ∷ []); unmarshal = λ b. none; marshal_error = foreign 0 }

abbrev ping : Message
ping = record { event = "ping"; content = nil }

process_batch-batch_send_example :
    process_batch codec (send wire) (some (batch_send wire)) (ping ∷ ping ∷ []) (online, [])
    ≡ process_batch codec (send wire) none (ping ∷ ping ∷ []) (online, [])
process_batch-batch_send_example =
    process_batch-batch_send wire codec (ping ∷ ping ∷ []) online [] (inr (λ c d w. refl))

abbrev calls : List Call
calls =
    connects
    ∷ sends (1 ∷ [])
    ∷ listens (none ∷ none ∷ some (foreign 3) ∷ [])
    ∷ closes
    ∷ receives
    ∷ connects
    ∷ batches ((2 ∷ []) ∷ [])
    ∷ []

run-new_transport-IsTidy_example : IsTidy (
    run (logging wire) calls (
      new_transport "ws://here" (with_write_timeout (pos 0) ∷ []),
      record { world = []; opened = []; closed = [] },
    ))
run-new_transport-IsTidy_example =
    run-new_transport-IsTidy wire "ws://here" (with_write_timeout (pos 0) ∷ []) calls []

-- One worker, one message, and then a failure.
abbrev source : List ReadResult
source = got (5 ∷ []) ∷ failed (foreign 1) ∷ []

abbrev finished : Fanout
finished = record {
  reads = [];
  reader = Fanout.stopped;
  messages = [];
  capacity = 1;
  shut = true;
  idle = 0;
  busy = [];
  handled = (5 ∷ []) ∷ [];
  errs = foreign 1 ∷ [];
  told = [];
}

finished-Steps : Fanout.Steps (start 1 source) finished
unfolding start
finished-Steps =
    Fanout.next
      (Fanout.next
        (Fanout.next
          (Fanout.next
            (Fanout.next
              (Fanout.next (Fanout.next Fanout.here (Fanout.read (5 ∷ []) _ refl refl refl))
                (Fanout.put (5 ∷ []) refl (omega arith) refl))
              (Fanout.take 0 (5 ∷ []) [] refl refl refl))
            (Fanout.handle (5 ∷ []) [] [] refl refl))
          (Fanout.fail (foreign 1) [] refl refl refl))
        (Fanout.report (foreign 1) refl refl))
      (Fanout.exit 0 refl refl refl refl)

receive_concurrent-handled_example :
    ((f : Bytes → Bool) → tally f finished.handled ≡ tally f (arriving source))
    × (finished.told ++ finished.errs ≡ first_failure source)
receive_concurrent-handled_example = receive_concurrent-handled 0 source finished-Steps refl refl

-- An array is written with a 0 behind each of its elements, the bytes of which are one higher.
abbrev pub raised : Bytes → Bytes → Bytes
raised [] rest = 0 ∷ rest
raised (b ∷ m) rest = suc b ∷ raised m rest

abbrev pub as_array : List Bytes → Bytes
as_array [] = []
as_array (m ∷ ms) = raised m (as_array ms)

abbrev pub onto_first : ℕ → List Bytes → List Bytes
onto_first b [] = (b ∷ []) ∷ []
onto_first b (m ∷ ms) = (b ∷ m) ∷ ms

abbrev pub elements : Bytes → List Bytes
elements [] = []
elements (zero ∷ rest) = [] ∷ elements rest
elements (suc b ∷ rest) = onto_first b (elements rest)

elements-raised : (m rest : Bytes) → elements (raised m rest) ≡ m ∷ elements rest
elements-raised [] rest = refl
elements-raised (b ∷ m) rest = ap (onto_first b) (elements-raised m rest)

pub elements-as_array : (ms : List Bytes) → elements (as_array ms) ≡ ms
elements-as_array [] = refl
elements-as_array (m ∷ ms) = elements-raised m (as_array ms) ∙ ap (◌∷◌ m) (elements-as_array ms)

abbrev pub quote : Bytes → Bytes
quote m = 34 ∷ (m ++ 34 ∷ [])

abbrev pub json : Json
json = record { session_id = λ b. ok "s1"; messages = λ b. ok (map quote (elements b)) }

-- A session with two messages, and a client whose queue holds 99.
abbrev session : Server.Transport
session = record (Server.new_transport "s1" Server.default_config 0) {
  pending_messages = (1 ∷ []) ∷ (2 ∷ []) ∷ [];
}

abbrev repeated : ℕ → List Bytes
repeated zero = []
repeated (suc n) = (0 ∷ []) ∷ repeated n

abbrev full : Polling.Transport
full = record (Polling.new_transport "http://here" []) {
  session_id = "s1";
  connected = true;
  incoming_queue = repeated 99;
}

-- A server that says yes to everything.
abbrev yes_server : Http ℕ
yes_server = record {
  new_request = λ method url. none;
  round_trip = λ r w. (ok (record { status_code = 200; status = "200 OK"; body = [] }), suc w);
}

yes_server-IsWilling : IsWilling yes_server json
unfolding Polling.connect Polling.exchange Polling.session_of
yes_server-IsWilling t w = ground arith

abbrev offline : Polling.Transport
offline = Polling.new_transport "http://here" []

pollers_pile_up_example :
    (q : Polling.Transport × ℕ) × Steps yes_server json (offline, 0) q × IsServed 3 q.0
unfolding Polling.new_transport Polling.apply_options
pollers_pile_up_example =
    pollers_pile_up yes_server json 2 offline 0 yes_server-IsWilling refl refl (λ c h. refl)
