-- ===== src/Client/Loops/Receiving.antt =====
-- socket/client.go: what comes in to a client, up to a failed read.
use socket_go.Base.{ℕ, ◌≡◌, true, inl, inr, List, [], ◌∷◌, ◌++◌, none, some, arith, Option-cases}
use mathlib.Core.List.{append_assoc}
use socket_go.Socket.{Error, invalid_message, failure, event_disconnect, event_error, Bytes}
use socket_go.Socket.Impl.{Codec, Go, ReadResult, failed}
use socket_go.Socket.Impl.Lifecycle.{got_all}
use socket_go.Client.{Client, done}
use socket_go.Client.Locking.{free}
use socket_go.Client.Loops.{
  bind, after, dispatch, receive_loop, handlers_at, lost, retries, trigger_event-free, give_up-free,
}

module _ {T : Type 0} where
  -- What one message that comes in starts, and what a sequence of them does.
  abbrev pub incoming : Codec → Bytes → Client T → List (Go ℕ)
  incoming codec b c = elim (codec.unmarshal b) [
    | none ↦ handlers_at event_error (failure invalid_message) c
    | some msg ↦ handlers_at msg.event msg.content c
  ]

  unfoldable pub incoming_all : Codec → List Bytes → Client T → List (Go ℕ)
  incoming_all codec [] c = []
  incoming_all codec (b ∷ bs) c = incoming codec b c ++ incoming_all codec bs c

  pub dispatch-free :
      (codec : Codec) (b : Bytes) (c : Client T)
      → c.mutex ≡ free
      → dispatch codec b c ≡ done (incoming codec b c) c
  unfolding dispatch
  dispatch-free codec b c h = elim (Option-cases (codec.unmarshal b)) [
    | inl e ↦ ground (arith, trigger_event-free event_error (failure invalid_message) c h, e)
    | inr (msg, e) ↦ ground (arith, trigger_event-free msg.event msg.content c h, e)
  ]

  -- On a connected client whose lock is free, messages come in and then a read fails: each message
  -- starts its event's handlers (or those for errors, if it does not decode), in order; then the
  -- error starts those for errors and those for a disconnect; the client is no longer connected,
  -- its lock is free, and `reconnect` is started unless the number of attempts is 0.
  pub receive_loop_ends :
      (codec : Codec) (bs : List Bytes) (x : Error) (rest : List ReadResult) (c : Client T)
      → c.mutex ≡ free
      → c.connected ≡ true
      → receive_loop codec (got_all bs ++ failed x ∷ rest) c
        ≡ done
            (
              incoming_all codec bs c
                  ++ (handlers_at event_error (failure x) c
                      ++ handlers_at event_disconnect (failure x) c),
              retries c,
            )
            (lost c)
  unfolding receive_loop got_all incoming_all bind after
  receive_loop_ends codec [] x rest c h on = ground (arith, give_up-free x c h, on)
  receive_loop_ends codec (b ∷ bs) x rest c h on = ground (
    arith,
    dispatch-free codec b c h,
    receive_loop_ends codec bs x rest c h on,
    append_assoc (incoming codec b c) (incoming_all codec bs c)
        (handlers_at event_error (failure x) c ++ handlers_at event_disconnect (failure x) c),
  )
