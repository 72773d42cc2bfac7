-- ===== src/Wire.antt =====
-- socket/client.go and socket/socket_impl.go: the two ends of a connection, and what an event that one
-- end sends starts at the other.
pub mod Sending
pub mod Batches
pub mod Emitting
pub mod Polled
pub mod Posted
pub mod Pumped
use socket_go.Base.{
  Bool, ◌≡◌, refl, ap, ◌∙◌, inl, inr, List, [], ◌∷◌, ◌++◌, none, some, arith, All, Option-cases,
}
use mathlib.Core.List.{append_assoc}
use socket_go.Socket.{Message, Bytes}
use socket_go.Socket.Impl.{
  Codec, ServerTransport, Go, SocketImpl, trigger_event, receive_one, receive_loop,
}
use socket_go.Socket.Impl.Lifecycle.{got_all, receive_all, receive_all-append, receive_loop-got_all}
use socket_go.Client.{Client, Run, done, waits, fatal}
use socket_go.Client.Locking.{free}
use socket_go.Client.Loops.{Started}
use socket_go.Client.Loops.Sending.{Leaves}
use socket_go.Client.Batching.{encode}

-- A message that comes out of JSON as it went in, if it goes in at all.
abbrev pub Survives : Codec → Message → Type 0
Survives codec m = (b : Bytes) → codec.marshal m ≡ some b → codec.unmarshal b ≡ some m

module _ {H : Type 0} where
  -- What messages come to whose events start `on`: those that do not encode are left out.
  unfoldable pub due : Codec → (Message → List (Go H)) → List Message → List (Go H)
  due codec on [] = []
  due codec on (m ∷ ms) = elim (codec.marshal m) [
    | none ↦ due codec on ms
    | some b ↦ on m ++ due codec on ms
  ]

  pub due-append :
      (codec : Codec) (on : Message → List (Go H)) (ms ns : List Message)
      → due codec on (ms ++ ns) ≡ due codec on ms ++ due codec on ns
  unfolding due
  due-append codec on [] ns = refl
  due-append codec on (m ∷ ms) ns =
      ground
        (arith, due-append codec on ms ns, append_assoc (on m) (due codec on ms) (due codec on ns))

  module _ {T : Type 0} (transport : ServerTransport T) where
    abbrev pub triggered : SocketImpl H T → Message → List (Go H)
    triggered s m = trigger_event m.event m.content s

    -- What the server makes of messages that a client has encoded.
    receive_all-encode :
        (codec : Codec) (ms : List Message) (s : SocketImpl H T)
        → All (Survives codec) ms
        → receive_all transport codec (encode codec ms).0 s ≡ due codec (triggered s) ms
    unfolding receive_all encode due receive_one
    receive_all-encode codec [] s lossless = refl
    receive_all-encode codec (m ∷ ms) s lossless = elim (Option-cases (codec.marshal m)) [
      | inl e ↦ ground (arith, e, receive_all-encode codec ms s lossless.1)
      | inr (b, e) ↦ ground (arith, e, lossless.0 b e, receive_all-encode codec ms s lossless.1)
    ]

    -- What a server makes of the frames, where those of the messages come last.
    pub receive_loop-frames :
        (codec : Codec) (ms : List Message) (fs gs : List Bytes) (s : SocketImpl H T)
        → gs ≡ fs ++ (encode codec ms).0
        → All (Survives codec) ms
        → (receive_loop transport codec (got_all gs) s).0
          ≡ receive_all transport codec fs s ++ due codec (triggered s) ms
    receive_loop-frames codec ms fs gs s e lossless =
        receive_loop-got_all transport codec gs s
        ∙ ap (λ bs. receive_all transport codec bs s) e
        ∙ receive_all-append transport codec fs (encode codec ms).0 s
        ∙ ap (◌++◌ (receive_all transport codec fs s)) (receive_all-encode codec ms s lossless)

-- A call that comes to its end, with the client that it leaves.
abbrev pub Ends : {T : Type 0} → (Client T → Type 0) → Run T Started → Type 0
Ends P (done r c) = P c
Ends P waits = ⊥
Ends P fatal = ⊥

pub Leaves-Ends :
    {T : Type 0} (P : T → Type 0) (t : T) (r : Run T Started) (on : Bool)
    → Leaves t on r
    → P t
    → Ends (λ c. (c.connected ≡ on) × (c.mutex ≡ free) × P c.conn) r
Leaves-Ends P t (done r c) on (at, same, unlocked) h = (same, unlocked, rw at h)
Leaves-Ends P t waits on h p = absurd h
Leaves-Ends P t fatal on h p = absurd h
