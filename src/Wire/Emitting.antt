-- ===== src/Wire/Emitting.antt =====
-- socket/socket_impl.go, `Send`, and socket/client.go, `receiveLoop`, behind it.
use socket_go.Base.{
  ℕ, ◌≡◌, refl, sym, ap, ◌∙◌, inl, inr, true, false, List, [], ◌∷◌, ◌++◌, none, arith, All,
  Option-cases,
}
use mathlib.Core.List.{append-nil, append_assoc}
use socket_go.Socket.{Message, Bytes}
use socket_go.Socket.Impl.{Codec, ServerTransport, Go, SocketImpl, send}
use socket_go.Socket.Impl.Lifecycle.{got_all}
use socket_go.Client.{Client, done}
use socket_go.Client.Locking.{free}
use socket_go.Client.Batching.{encode}
use socket_go.Client.Loops.{bind, after, receive_loop, handlers_at}
use socket_go.Client.Loops.Receiving.{incoming, incoming_all, dispatch-free}
use socket_go.Wire.{Survives, due}

-- A transport that, while it is open, takes whatever is written and stays open: it stands behind what
-- was written before.
abbrev pub Accepts : {T : Type 0} → ServerTransport T → (T → Type 0) → (T → List Bytes) → Type 0
Accepts {T} transport IsOpen queue =
    (m : Bytes) (t : T)
    → IsOpen t
    → let (e, t') = transport.write m t in (e ≡ none) × (queue t' ≡ queue t ++ m ∷ []) × IsOpen t'

module _ {H T : Type 0} (transport : ServerTransport T) where
  -- `Send` for one message after the other; the caller goes on behind an error.
  unfoldable pub emit_each : Codec → List Message → SocketImpl H T → SocketImpl H T
  unfolding send
  emit_each codec [] s = s
  emit_each codec (m ∷ ms) s = emit_each codec ms (send transport codec m.event m.content s).1

  pub emit_each-Accepts :
      (codec : Codec) (IsOpen : T → Type 0) (queue : T → List Bytes) (ms : List Message)
      (s : SocketImpl H T)
      → Accepts transport IsOpen queue
      → s.connected ≡ true
      → IsOpen s.transport
      → let t = (emit_each codec ms s).transport in
        (queue t ≡ queue s.transport ++ (encode codec ms).0) × IsOpen t
  unfolding emit_each encode
  emit_each-Accepts codec IsOpen queue [] s law on open_ =
      (sym (append-nil (queue s.transport)), open_)
  emit_each-Accepts codec IsOpen queue (m ∷ ms) s law on open_ =
      elim (Option-cases (codec.marshal m)) [
        | inl e ↦ ground (arith, e, on, emit_each-Accepts codec IsOpen queue ms s law on open_)
        | inr (b, e) ↦
            let (good, taken, open') = law b s.transport open_ in
            let s' = record s { transport = (transport.write b s.transport).1 } in
            let (rest, end) = emit_each-Accepts codec IsOpen queue ms s' law on open' in
            ground (
              arith,
              e,
              on,
              taken,
              rest,
              end,
              append_assoc (queue s.transport) (b ∷ []) (encode codec ms).0,
            )
      ]

module _ {U : Type 0} where
  pub incoming_all-append :
      (codec : Codec) (bs ds : List Bytes) (c : Client U)
      → incoming_all codec (bs ++ ds) c ≡ incoming_all codec bs c ++ incoming_all codec ds c
  unfolding incoming_all
  incoming_all-append codec [] ds c = refl
  incoming_all-append codec (b ∷ bs) ds c =
      ap (◌++◌ (incoming codec b c)) (incoming_all-append codec bs ds c)
      ∙ sym (append_assoc (incoming codec b c) (incoming_all codec bs c) (incoming_all codec ds c))

  abbrev pub handled : Client U → Message → List (Go ℕ)
  handled c m = handlers_at m.event m.content c

  pub incoming_all-encode :
      (codec : Codec) (ms : List Message) (c : Client U)
      → All (Survives codec) ms
      → incoming_all codec (encode codec ms).0 c ≡ due codec (handled c) ms
  unfolding incoming_all encode due
  incoming_all-encode codec [] c lossless = refl
  incoming_all-encode codec (m ∷ ms) c lossless = elim (Option-cases (codec.marshal m)) [
    | inl e ↦ ground (arith, e, incoming_all-encode codec ms c lossless.1)
    | inr (b, e) ↦ ground (arith, e, lossless.0 b e, incoming_all-encode codec ms c lossless.1)
  ]

  -- While the reads go well.
  pub receive_loop-incoming :
      (codec : Codec) (bs : List Bytes) (c : Client U)
      → c.mutex ≡ free
      → receive_loop codec (got_all bs) c ≡ done (incoming_all codec bs c, false) c
  unfolding receive_loop got_all incoming_all bind after
  receive_loop-incoming codec [] c h = refl
  receive_loop-incoming codec (b ∷ bs) c h =
      ground (arith, dispatch-free codec b c h, receive_loop-incoming codec bs c h)

  -- Whatever the two transports, where the server's is open and takes all that is written: a
  -- connected socket sends messages that JSON gives back as they were, and a client whose lock is
  -- free reads what the transport has taken. The client's loop then neither waits for a lock nor
  -- gives up: it starts what was there before comes to, and for each message that encodes the
  -- handlers of its event with its data, in order and each once. Those that do not encode are left
  -- out, and the others do not depend on them.
  pub emitted_is_handled :
      {H T : Type 0} (transport : ServerTransport T) (codec : Codec) (IsOpen : T → Type 0)
      (queue : T → List Bytes) (ms : List Message) (s : SocketImpl H T) (c : Client U)
      → Accepts transport IsOpen queue
      → s.connected ≡ true
      → IsOpen s.transport
      → c.mutex ≡ free
      → All (Survives codec) ms
      → receive_loop codec (got_all (queue (emit_each transport codec ms s).transport)) c
        ≡ done (incoming_all codec (queue s.transport) c ++ due codec (handled c) ms, false) c
  emitted_is_handled transport codec IsOpen queue ms s c law on open_ unlocked lossless =
      receive_loop-incoming codec _ c unlocked
      ∙ ap (λ bs. done (incoming_all codec bs c, false) c)
          (emit_each-Accepts transport codec IsOpen queue ms s law on open_).0
      ∙ ap (λ gos. done (gos, false) c)
          (incoming_all-append codec (queue s.transport) (encode codec ms).0 c
            ∙ ap (◌++◌ (incoming_all codec (queue s.transport) c))
                (incoming_all-encode codec ms c lossless))
