-- ===== src/WebSocket/Delivery.antt =====
-- socket/transport/server_transport.go: the order of the frames of a WebSocket.
use socket_go.Base.{ℕ, ◌≡◌, refl, ap, ◌∙◌, false, List, [], ◌∷◌, ◌++◌, arith}
use mathlib.Core.List.{append_assoc}
use socket_go.Socket.{Bytes}
use socket_go.WebSocket.{
  Pump, selecting, holding, failing, closing, stopped, Transport, new_transport, Step, put, close,
  close_conn, take, stop, drop, write, fail, fail_close, fail_closed, Steps, here, next,
}

-- What the pump has taken from the channel and not sent yet.
abbrev pub in_flight : Pump → List Bytes
in_flight selecting = []
in_flight (holding m) = m ∷ []
in_flight (failing m) = m ∷ []
in_flight closing = []
in_flight stopped = []

abbrev Ordered : Transport → Type 0
Ordered p = p.closed ≡ false → p.accepted ≡ p.written ++ (in_flight p.pump ++ p.send_ch)

Step-Ordered : {p q : Transport} → Step p q → Ordered p → Ordered q
Step-Ordered {p} (put m free now) inv = rw now (λ open_.
    ap (λ xs. xs ++ m ∷ []) (inv open_)
    ∙ append_assoc p.written (in_flight p.pump ++ p.send_ch) (m ∷ [])
    ∙ ap (λ xs. p.written ++ xs) (append_assoc (in_flight p.pump) p.send_ch (m ∷ [])))
Step-Ordered (close was now) inv = rw now (λ open_. absurd (ground arith))
Step-Ordered (close_conn k w s now) inv = rw now inv
Step-Ordered {p} (take m rest at e now) inv = rw now (λ open_. ground (arith, inv open_, at, e))
Step-Ordered (stop at shut now) inv = rw now (λ open_. absurd (ground arith))
Step-Ordered (drop m at shut now) inv = rw now (λ open_. absurd (ground arith))
Step-Ordered {p} (write m at was now) inv =
    rw now (λ open_. ground (arith, inv open_, at, append_assoc p.written (m ∷ []) p.send_ch))
Step-Ordered (fail m at was now) inv = rw now (λ open_. ground (arith, inv open_, at))
Step-Ordered (fail_close m at was now) inv = rw now (λ open_. absurd (ground arith))
Step-Ordered (fail_closed m at shut now) inv = rw now (λ open_. absurd (ground arith))

Steps-Ordered : {p q : Transport} → Ordered p → Steps p q → Ordered q
Steps-Ordered inv here = inv
Steps-Ordered inv (next r st) = Step-Ordered st (Steps-Ordered inv r)

-- While a transport is open: the frames that have gone out, the one that the pump holds and the
-- channel are together what `Write` has accepted, in order. None is lost, doubled or overtaken.
pub frames_in_order :
    (buffer_size : ℕ) {p : Transport}
    → Steps (new_transport buffer_size) p
    → p.closed ≡ false
    → p.accepted ≡ p.written ++ (in_flight p.pump ++ p.send_ch)
unfolding new_transport
frames_in_order buffer_size r = Steps-Ordered (λ open_. refl) r
