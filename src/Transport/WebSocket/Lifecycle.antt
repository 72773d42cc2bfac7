-- ===== src/Transport/WebSocket/Lifecycle.antt =====
-- socket/transport/websocket.go: the connections that a transport opens and closes over any sequence of
-- calls.
use socket_go.Base.{
  ℕ, ◌++◌, String, ◌≡◌, refl, inl, inr, Bool, false, List, [], ◌∷◌, Option, none, some, arith,
  is_some, Option-cases,
}
use socket_go.Socket.{Error, text, ok, err, Bytes}
use socket_go.Transport.WebSocket.{
  Net, Transport, TransportOption, State, apply_options, apply_option, initial, new_transport, live,
  write_deadline, read_deadline, connect, send, write_each, batch_send, read_one, receive, close,
  enable_compression, receive_rounds, receive_with_context,
}

-- A world with two logs, the latest first: the connections that the dials gave, and those that `Close`
-- was called on.
pub record Logged (W : Type 0) : Type 0 where
  pub world : W
  pub opened : List ℕ
  pub closed : List ℕ

-- Any connections, logged.
unfoldable pub logging : {W : Type 0} → Net W → Net (Logged W)
logging net = record {
  dial_context = λ url h b l.
      let (r, w) = net.dial_context url h b l.world in
      (
        r,
        elim r [
          | err x ↦ record l { world = w }
          | ok c ↦ record l { world = w; opened = c ∷ l.opened }
        ],
      );
  set_write_deadline =
      λ c d l. let (e, w) = net.set_write_deadline c d l.world in (e, record l { world = w });
  set_read_deadline =
      λ c d l. let (e, w) = net.set_read_deadline c d l.world in (e, record l { world = w });
  write_message =
      λ c m l. let (e, w) = net.write_message c m l.world in (e, record l { world = w });
  read_message = λ c l. let (r, w) = net.read_message c l.world in (r, record l { world = w });
  write_close = λ c l. let (e, w) = net.write_close c l.world in (e, record l { world = w });
  close =
      λ c l. let (e, w) = net.close c l.world in (e, record l { world = w; closed = c ∷ l.closed });
  underlying = λ c l. elim (net.underlying c l.world) [
    | none ↦ none
    | some enable ↦ some (λ b k. record k { world = enable b k.world })
  ];
}

-- The methods, as they are called one after the other.
pub data Call : Type 0 where
  connects : Call
  sends : Bytes → Call
  batches : List Bytes → Call
  receives : Call
  listens : List (Option Error) → Call
  compresses : Bool → Call
  closes : Call

module _ {W : Type 0} (net : Net W) where
  unfoldable pub step : Call → State W → State W
  step connects s = (connect net s).1
  step (sends m) s = (send net m s).1
  step (batches ms) s = (batch_send net ms s).1
  step receives s = (receive net s).1
  step (listens rounds) s = (receive_with_context net rounds s).1
  step (compresses b) s = enable_compression net b s
  step closes s = (close net s).1

  unfoldable pub run : List Call → State W → State W
  unfolding step
  run [] s = s
  run (c ∷ cs) s = run cs (step c s)

abbrev pub held : Option ℕ → List ℕ
held none = []
held (some c) = c ∷ []

-- A transport holds a connection exactly when it is connected; the connections that were dialled are
-- those that were closed, one for one, and the one that it holds.
abbrev pub IsTidy : {W : Type 0} → State (Logged W) → Type 0
IsTidy (t, l) = (t.connected ≡ is_some t.conn) × (l.opened ≡ held t.conn ++ l.closed)

module _ {W : Type 0} (net : Net W) where
  connect-IsTidy : (s : State (Logged W)) → IsTidy s → IsTidy (connect (logging net) s).1
  unfolding connect logging
  connect-IsTidy s h = ground arith

  send-IsTidy : (m : Bytes) (s : State (Logged W)) → IsTidy s → IsTidy (send (logging net) m s).1
  unfolding send write_deadline logging live
  send-IsTidy m s h = ground arith

  -- What a call does to the logs.
  abbrev Same : Logged W → Logged W → Type 0
  Same l k = (k.opened ≡ l.opened) × (k.closed ≡ l.closed)

  write_each-Same :
      (c : ℕ) (ms : List Bytes) (l : Logged W) → Same l (write_each (logging net) c ms l).1
  unfolding write_each logging
  write_each-Same c [] l = (refl, refl)
  write_each-Same c (m ∷ ms) l =
      ground (arith, write_each-Same c ms (record l { world = (net.write_message c m l.world).1 }))

  batch_send-IsTidy :
      (ms : List Bytes) (s : State (Logged W)) → IsTidy s → IsTidy (batch_send (logging net) ms s).1
  unfolding batch_send
  batch_send-IsTidy ms (t, l) h = elim (Option-cases (live t)) [
    | inl e ↦ ground (arith, e)
    | inr (c, e) ↦
        let (x, k) = write_deadline (logging net) c t l in
        let same : Same l k = unfold write_deadline logging in ground arith in
        ground (arith, e, write_each-Same c ms k)
  ]

  read_one-IsTidy :
      (x : Error) (s : State (Logged W)) → IsTidy s → IsTidy (read_one (logging net) x s).1
  unfolding read_one read_deadline logging live
  read_one-IsTidy x s h = ground arith

  receive_rounds-IsTidy :
      (rounds : List (Option Error)) (s : State (Logged W))
      → IsTidy s
      → IsTidy (receive_rounds (logging net) rounds s).1
  unfolding receive_rounds
  receive_rounds-IsTidy [] s h = h
  receive_rounds-IsTidy (some x ∷ rounds) s h = h
  receive_rounds-IsTidy (none ∷ rounds) s h =
      let next = read_one-IsTidy (text "connection closed") s h in
      ground (
        arith,
        next,
        receive_rounds-IsTidy rounds (read_one (logging net) (text "connection closed") s).1 next,
      )

  close-IsTidy : (s : State (Logged W)) → IsTidy s → IsTidy (close (logging net) s).1
  unfolding close logging live
  close-IsTidy s h = ground arith

  step-IsTidy : (c : Call) (s : State (Logged W)) → IsTidy s → IsTidy (step (logging net) c s)
  unfolding step
  step-IsTidy connects s h = connect-IsTidy s h
  step-IsTidy (sends m) s h = send-IsTidy m s h
  step-IsTidy (batches ms) s h = batch_send-IsTidy ms s h
  step-IsTidy receives s h = unfold receive in read_one-IsTidy (text "not connected") s h
  step-IsTidy (listens rounds) (t, l) h =
      unfold receive_with_context in ground (arith, receive_rounds-IsTidy rounds (t, l) h)
  step-IsTidy (compresses b) s h = unfold enable_compression logging in ground arith
  step-IsTidy closes s h = close-IsTidy s h

  run-IsTidy : (cs : List Call) (s : State (Logged W)) → IsTidy s → IsTidy (run (logging net) cs s)
  unfolding run
  run-IsTidy [] s h = h
  run-IsTidy (c ∷ cs) s h = run-IsTidy cs (step (logging net) c s) (step-IsTidy c s h)

apply_options-idle :
    (os : List TransportOption) (t : Transport)
    → t.connected ≡ false
    → t.conn ≡ none
    → let t' = apply_options os t in (t'.connected ≡ false) × (t'.conn ≡ none)
unfolding apply_options apply_option
apply_options-idle [] t h e = (h, e)
apply_options-idle (o ∷ os) t h e =
    apply_options-idle os (apply_option o t) (ground arith) (ground arith)

-- Over any connections and any sequence of calls on a new transport: it holds a connection exactly
-- when it is connected, and the connections that `Close` was called on are, in order and one for one,
-- those that were dialled, but for the last one where the transport holds it.
pub run-new_transport-IsTidy :
    {W : Type 0} (net : Net W) (url : String) (os : List TransportOption) (cs : List Call) (w : W)
    → IsTidy (
        run (logging net) cs (new_transport url os, record { world = w; opened = []; closed = [] }))
run-new_transport-IsTidy net url os cs w = run-IsTidy net cs _ (
    unfold new_transport in
    let (off, gone) =
      apply_options-idle os (initial url) (unfold initial in refl) (unfold initial in refl) in
    ground (arith, off, gone))
