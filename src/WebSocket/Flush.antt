-- ===== src/WebSocket/Flush.antt =====
-- socket/transport/server_transport.go: what `writePump` still has to send, over a connection that takes
-- every frame.
use socket_go.Base.{ℕ, ◌≡◌, refl, sym, ◌∙◌, false, List, [], ◌∷◌, ◌++◌}
use mathlib.Core.List.{append-nil, append_assoc}
use socket_go.Socket.{Bytes}
use socket_go.WebSocket.{
  Pump, selecting, holding, failing, closing, stopped, Transport, new_transport, take, write, Steps,
  here, next,
}
use socket_go.WebSocket.Delivery.{in_flight, frames_in_order}

Steps-trans : {p q r : Transport} → Steps p q → Steps q r → Steps p r
Steps-trans way here = way
Steps-trans way (next more st) = next (Steps-trans way more) st

-- Some moves from an open transport to one where these messages have gone out as well, and nothing
-- is left to send.
abbrev Flushed : Transport → List Bytes → Type 0
Flushed p ms =
    (q : Transport) × Steps p q
    × (q.written ≡ p.written ++ ms)
    × (q.accepted ≡ p.accepted)
    × (q.send_ch ≡ [])
    × (q.closed ≡ false)

from_selecting :
    (ms : List Bytes) (p : Transport)
    → p.pump ≡ selecting
    → p.send_ch ≡ ms
    → p.closed ≡ false
    → Flushed p ms
from_selecting [] p at queue open_ = (p, here, sym (append-nil p.written), refl, queue, open_)
from_selecting (m ∷ ms) p at queue open_ =
    let p₁ : Transport = record p { pump = holding m; send_ch = ms } in
    let p₂ : Transport = record p₁ { pump = selecting; written = p.written ++ m ∷ [] } in
    let two : Steps p p₂ = next (next here (take m ms at queue refl)) (write m refl open_ refl) in
    let (q, way, out, same, none_left, up) = from_selecting ms p₂ refl refl open_ in
    (q, Steps-trans two way, out ∙ append_assoc p.written (m ∷ []) ms, same, none_left, up)

from_holding :
    (m : Bytes) (p : Transport) → p.pump ≡ holding m → p.closed ≡ false → Flushed p (m ∷ p.send_ch)
from_holding m p at open_ =
    let p' : Transport = record p { pump = selecting; written = p.written ++ m ∷ [] } in
    let (q, way, out, same, none_left, up) = from_selecting p.send_ch p' refl refl open_ in
    (
      q,
      Steps-trans (next here (write m at open_ refl)) way,
      out ∙ append_assoc p.written (m ∷ []) p.send_ch,
      same,
      none_left,
      up,
    )

-- No write has failed.
abbrev pub IsAtWork : Pump → Type 0
IsAtWork selecting = Unit
IsAtWork (holding m) = Unit
IsAtWork (failing m) = ⊥
IsAtWork closing = ⊥
IsAtWork stopped = ⊥

flush :
    (u : Pump) (p : Transport)
    → p.pump ≡ u
    → IsAtWork u
    → p.closed ≡ false
    → Flushed p (in_flight u ++ p.send_ch)
flush selecting p at works open_ = from_selecting p.send_ch p at refl open_
flush (holding m) p at works open_ = from_holding m p at open_
flush (failing m) p at works open_ = absurd works
flush closing p at works open_ = absurd works
flush stopped p at works open_ = absurd works

-- A transport that is open and where no write has failed, in whatever state it has come to: the pump
-- can go on from there, with nobody else moving and every frame taken by the connection, until all
-- that `Write` has accepted has gone out, in the order in which it was accepted, and the transport is
-- still open.
pub frames_go_out :
    (buffer_size : ℕ) {p : Transport}
    → Steps (new_transport buffer_size) p
    → p.closed ≡ false
    → IsAtWork p.pump
    → (q : Transport) × Steps p q
      × (q.written ≡ p.accepted)
      × (q.accepted ≡ p.accepted)
      × (q.closed ≡ false)
frames_go_out buffer_size {p} r open_ works =
    let (q, way, out, same, _, up) = flush p.pump p refl works open_ in
    (q, way, out ∙ sym (frames_in_order buffer_size r open_), same, up)
