-- ===== src/Client/Loops/Sending.antt =====
-- socket/client.go: what `sendLoop` sends.
use socket_go.Base.{
  ℕ, ◌≡◌, refl, Bool, false, inl, inr, List, [], ◌∷◌, Option, arith, is_some, if◌then◌else◌,
  Option-cases, Bool-cases,
}
use socket_go.Socket.{Error, failure, event_error, Message, Bytes}
use socket_go.Socket.Impl.{Codec, Go}
use socket_go.Client.{Client, Run, done, waits, fatal}
use socket_go.Client.Locking.{free}
use socket_go.Client.Batching.{encode, send_each}
use socket_go.Client.Loops.{
  Started, bind, after, give_up, send_loop, handlers_at, trigger_event-free, give_up-free,
}

module _ {T : Type 0} where
  -- A call that is neither held up nor fatal, with the lock free behind it: the transport that it
  -- leaves, and whether the client is connected.
  abbrev pub Leaves : T → Bool → Run T Started → Type 0
  Leaves t on (done r c) = (c.conn ≡ t) × (c.connected ≡ on) × (c.mutex ≡ free)
  Leaves t on waits = ⊥
  Leaves t on fatal = ⊥

  after-Leaves :
      (gos : List (Go ℕ)) (t : T) (on : Bool) (r : Run T Started)
      → Leaves t on r
      → Leaves t on (after gos r)
  unfolding after
  after-Leaves gos t on (done s c) h = h
  after-Leaves gos t on waits h = h
  after-Leaves gos t on fatal h = h

  give_up-Leaves : (x : Error) (c : Client T) → c.mutex ≡ free → Leaves c.conn false (give_up x c)
  give_up-Leaves x c h = rw (give_up-free x c h) (elim (Bool-cases c.connected) [
    | inl on ↦ rw on (refl, refl, h)
    | inr off ↦ rw off (refl, refl, h)
  ])

  -- With the client's lock free, and no limit on how many messages come: `sendLoop` neither waits for
  -- a lock nor ends the program; it sends the messages that encode, in order, up to the first that
  -- the transport refuses, just as `processBatch` does without `BatchSend`, and leaves the transport
  -- the same; the client is then connected if it was before and no message was refused.
  pub send_loop-send_each :
      (codec : Codec) (send : Bytes → T → Option Error × T) (ms : List Message) (c : Client T)
      → c.mutex ≡ free
      → let (e, t) = send_each send (encode codec ms).0 c.conn in
        Leaves t (if is_some e then false else c.connected) (send_loop codec send ms c)
  unfolding send_loop send_each encode bind
  send_loop-send_each codec send [] c h = (refl, refl, h)
  send_loop-send_each codec send (m ∷ ms) c h = elim (Option-cases (codec.marshal m)) [
    | inl e ↦
        let c' = record c { send_ch = ms } in
        ground (
          arith,
          e,
          trigger_event-free event_error (failure codec.marshal_error) c' h,
          after-Leaves (handlers_at event_error (failure codec.marshal_error) c') _ _ _
              (send_loop-send_each codec send ms c' h),
        )
    | inr (b, e) ↦
        let c' = record c { send_ch = ms; conn = (send b c.conn).1 } in
        elim (Option-cases (send b c.conn).0) [
          | inl sent ↦ ground (arith, e, sent, send_loop-send_each codec send ms c' h)
          | inr (x, refused) ↦ ground (arith, e, refused, give_up-Leaves x c' h)
        ]
  ]
