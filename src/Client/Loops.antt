-- ===== src/Client/Loops.antt =====
-- socket/client.go: `sendLoop`, `receiveLoop` and `setupTransport` (lines 139-177 and 394-401), each run by
-- its goroutine; the client's context is not cancelled meanwhile. What a loop answers is the handlers
-- that it has started, in order, and whether it has started `reconnect`.
pub mod Receiving
pub mod Sending
use socket_go.Base.{
  ℕ, String, ◌≡◌, refl, sym, ap, ◌∙◌, Bool, true, false, ◌||◌, ◌&&◌, not, inl, inr, List, [], ◌∷◌,
  ◌++◌, Option, none, some, arith, is_some, if◌then◌else◌, Option-cases, Bool-cases,
}
use mathlib.Core.List.{append-nil, append_assoc}
use socket_go.Base.Int.{ℤ, pos, ltb_ℤ}
use socket_go.Base.Map.{lookup}
use socket_go.Socket.{
  Error, invalid_message, Value, failure, Event, event_disconnect, event_error, Message, Bytes,
}
use socket_go.Socket.Impl.{Codec, Go, or_empty, go_all, ReadResult, got, failed}
use socket_go.Socket.Impl.Lifecycle.{got_all}
use socket_go.Client.{Client, Mutex, Run, done, waits, fatal, lock, unlock, r_lock, r_unlock}
use socket_go.Client.Methods.{trigger_event, handle_disconnect}
use socket_go.Client.Locking.{free}
use socket_go.Client.Batching.{encode, send_each}

abbrev pub Started : Type 0
Started = List (Go ℕ) × Bool

module _ {T : Type 0} where
  -- One call after the other.
  unfoldable pub bind : {A B : Type 0} → Run T A → (A → Client T → Run T B) → Run T B
  bind (done a c) k = k a c
  bind waits k = waits
  bind fatal k = fatal

  -- Handlers that were started before.
  unfoldable pub after : List (Go ℕ) → Run T Started → Run T Started
  after gos (done (more, again) c) = done (gos ++ more, again) c
  after gos waits = waits
  after gos fatal = fatal

  -- The end of both loops: an error of the transport.
  unfoldable pub give_up : Error → Client T → Run T Started
  unfolding bind trigger_event handle_disconnect after
  give_up x c₀ =
      bind (trigger_event event_error (failure x) c₀) (λ gos c. after gos (handle_disconnect x c))

  unfoldable pub send_loop :
      Codec → (Bytes → T → Option Error × T) → List Message → Client T → Run T Started
  unfolding bind trigger_event after give_up
  send_loop codec send [] c = done ([], false) c
  send_loop codec send (m ∷ ms) c₀ =
      let c = record c₀ { send_ch = ms } in
      elim (codec.marshal m) [
        | none ↦
            bind (trigger_event event_error (failure codec.marshal_error) c)
              (λ gos d. after gos (send_loop codec send ms d))
        | some b ↦
            let (e, t) = send b c.conn in
            let d = record c { conn = t } in
            elim e [ none ↦ send_loop codec send ms d | some x ↦ give_up x d ]
      ]

  -- What `receiveLoop` does with one message.
  unfoldable pub dispatch : Codec → Bytes → Client T → Run T (List (Go ℕ))
  unfolding trigger_event
  dispatch codec b c = elim (codec.unmarshal b) [
    | none ↦ trigger_event event_error (failure invalid_message) c
    | some msg ↦ trigger_event msg.event msg.content c
  ]

  unfoldable pub receive_loop : Codec → List ReadResult → Client T → Run T Started
  unfolding bind dispatch after give_up
  receive_loop codec [] c = done ([], false) c
  receive_loop codec (got b ∷ reads) c₀ =
      bind (dispatch codec b c₀) (λ gos c. after gos (receive_loop codec reads c))
  receive_loop codec (failed x ∷ reads) c = give_up x c

  -- `enable` is the transport's `EnableCompression`, if it has one.
  unfoldable setup_transport : Option (Bool → T → T) → Client T → T → T
  setup_transport enable c t =
      if c.compression_enabled then elim enable [ none ↦ t | some f ↦ f true t ] else t

  -- What runs for an event.
  unfoldable pub handlers_at : Event → Value → Client T → List (Go ℕ)
  handlers_at event v c = go_all (or_empty (lookup event c.handlers)) v

  free_same : (c : Client T) → c.mutex ≡ free → record c { mutex = free } ≡ c
  free_same c h = rw (← h) refl

  pub trigger_event-free :
      (event : Event) (v : Value) (c : Client T)
      → c.mutex ≡ free
      → trigger_event event v c ≡ done (handlers_at event v c) c
  unfolding trigger_event r_lock r_unlock handlers_at
  trigger_event-free event v c h = ground (arith, free_same c h)

  -- The client that an error leaves.
  abbrev pub lost : Client T → Client T
  lost c = record c { connected = false }

  abbrev pub retries : Client T → Bool
  retries c = ltb_ℤ c.reconnect_attempts (pos 0) || ltb_ℤ (pos 0) c.reconnect_attempts

  handle_disconnect-free :
      (x : Error) (c : Client T)
      → c.mutex ≡ free
      → handle_disconnect x c ≡ (
          if c.connected
          then done (handlers_at event_disconnect (failure x) c, retries c) (lost c)
          else done ([], false) c)
  unfolding handle_disconnect lock unlock trigger_event r_lock r_unlock handlers_at
  handle_disconnect-free x c h = rw (← free_same c h) (ground arith)

  pub give_up-free :
      (x : Error) (c : Client T)
      → c.mutex ≡ free
      → give_up x c ≡ (
          if c.connected
          then done
              (
                handlers_at event_error (failure x) c ++ handlers_at event_disconnect (failure x) c,
                retries c,
              )
              (lost c)
          else done (handlers_at event_error (failure x) c, false) c)
  unfolding give_up bind after
  give_up-free x c h = ground (
    arith,
    trigger_event-free event_error (failure x) c h,
    handle_disconnect-free x c h,
    append-nil (handlers_at event_error (failure x) c),
  )
