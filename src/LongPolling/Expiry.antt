-- ===== src/LongPolling/Expiry.antt =====
-- socket/transport/server_transport.go: the bounds of a session, its expiry and its close.
use socket_go.Base.{
  ℕ, ◌+◌, ◌≤◌, ◌<◌, ◌≡◌, ◌↔◌, ◌⊎◌, refl, true, false, List, [], ◌∷◌, Option, none, some, length,
  length-append, arith,
}
use socket_go.Socket.{Bytes}
use socket_go.LongPolling.{Transport, read, write, close, handle_poll, handle_send, is_expired}
use socket_go.LongPolling.Delivery.{
  Call, writes, polls, sends, reads, closes, step, run, over, polled,
}

step-bounded :
    (c : Call) (t : Transport)
    → length t.incoming_messages ≤ t.capacity
    → (length (step c t).incoming_messages ≤ (step c t).capacity)
      × ((step c t).capacity ≡ t.capacity)
unfolding step
step-bounded (writes m) t h = unfold write in ground arith
step-bounded (polls now) t h = unfold handle_poll in ground arith
step-bounded (sends now none) t h = unfold handle_send in ground arith
step-bounded (sends now (some m)) t h =
    unfold handle_send in ground (arith, length-append t.incoming_messages (m ∷ []))
step-bounded reads t h = unfold read in ground arith
step-bounded closes t h = unfold close in ground arith

-- The queue of incoming messages never outgrows its buffer.
run-bounded :
    (cs : List Call) (t : Transport)
    → length t.incoming_messages ≤ t.capacity
    → length (run cs t).incoming_messages ≤ t.capacity
unfolding run
run-bounded [] t h = h
run-bounded (c ∷ cs) t h =
    let (now, same) = step-bounded c t h in omega (arith, run-bounded cs (step c t) now, same)

step-closed :
    (c : Call) (t : Transport)
    → t.closed ≡ true
    → ((step c t).closed ≡ true)
      × (polled c t ≡ [])
      × ((step c t).pending_messages ≡ t.pending_messages)
unfolding step polled
step-closed (writes m) t h = unfold write in ground arith
step-closed (polls now) t h = unfold handle_poll in ground arith
step-closed (sends now body) t h = unfold handle_send in ground arith
step-closed reads t h = unfold read in ground arith
step-closed closes t h = unfold close in ground arith

-- A close is final: no poll gets anything any more, and what was pending stays undelivered.
run-closed :
    (cs : List Call) (t : Transport)
    → t.closed ≡ true
    → (over polled cs t ≡ []) × ((run cs t).pending_messages ≡ t.pending_messages)
unfolding run over
run-closed [] t h = (refl, refl)
run-closed (c ∷ cs) t h =
    let (still, nothing, same) = step-closed c t h in
    let (later, kept) = run-closed cs (step c t) still in
    (rw (nothing, later) refl, rw (kept, same) refl)

-- A session is expired exactly when it is closed or its timeout has run out since the last request.
is_expired_iff :
    (now : ℕ) (t : Transport)
    → (is_expired now t ≡ true)
      ↔ ((t.closed ≡ true) ⊎ (t.disconnect_timeout + t.last_activity < now))
unfolding is_expired
is_expired_iff now t = ground arith

-- A poll, or a send with any body, that finds the session open keeps it for a whole timeout.
is_expired-handle :
    (now later : ℕ) (body : Option Bytes) (t : Transport)
    → t.closed ≡ false
    → later ≤ now + t.disconnect_timeout
    → (is_expired later (handle_poll now t).1 ≡ false)
      × (is_expired later (handle_send now body t).1 ≡ false)
unfolding is_expired handle_poll handle_send
is_expired-handle now later body t fresh soon = ground arith
