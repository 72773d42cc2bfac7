-- ===== src/Examples/WebSockets.antt =====
-- A WebSocket transport with room for two messages.
use socket_go.Base.{◌≡◌, refl, true, false, [], ◌∷◌, arith}
use socket_go.WebSocket.{
  closing, selecting, Transport, new_transport, put, take, write, fail, fail_close, Steps, here,
  next,
}
use socket_go.WebSocket.Leak.{write_failure_leaks}

-- Two messages were accepted, and the first has gone out.
abbrev pub busy : Transport
busy = record {
  send_ch = (2 ∷ []) ∷ [];
  capacity = 2;
  closed = false;
  pump = selecting;
  waiting = 0;
  conn_closed = false;
  accepted = (1 ∷ []) ∷ (2 ∷ []) ∷ [];
  written = (1 ∷ []) ∷ [];
}

pub busy-Steps : Steps (new_transport 2) busy
unfolding new_transport
busy-Steps =
    next
      (next (next (next here (put (1 ∷ []) (omega arith) refl)) (put (2 ∷ []) (omega arith) refl))
        (take (1 ∷ []) ((2 ∷ []) ∷ []) refl refl refl))
      (write (1 ∷ []) refl refl refl)

-- The second write has failed.
abbrev stuck : Transport
stuck = record busy { send_ch = []; closed = true; pump = closing }

stuck-Steps : Steps (new_transport 2) stuck
stuck-Steps =
    next (next (next busy-Steps (take (2 ∷ []) [] refl refl refl)) (fail (2 ∷ []) refl refl refl))
      (fail_close (2 ∷ []) refl refl refl)

write_failure_leaks_example : (stuck.pump ≡ closing) × (stuck.conn_closed ≡ false)
write_failure_leaks_example = write_failure_leaks 2 stuck-Steps refl here
