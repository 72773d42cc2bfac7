-- ===== src/Client/Methods.antt =====
-- socket/client.go: the methods of a client (lines 107-137, 179-194, 220-290 and 353-393), from the
-- first lock to the last unlock.
use socket_go.Base.{
  ℕ, ◌+◌, String, Bool, true, false, ◌||◌, List, [], ◌∷◌, ◌++◌, Option, none, some, ltb, length,
  if◌then◌else◌,
}
use socket_go.Base.Int.{pos, ltb_ℤ}
use socket_go.Base.Map.{lookup, insert, delete, has, keys}
use socket_go.Socket.{
  Error, connection_closed, text, Value, str, failure, Event, event_disconnect, Message,
}
use socket_go.Socket.Impl.{Go, or_empty, go_all}
use socket_go.Client.{
  Client, ClientTransport, Run, done, waits, fatal, lock, unlock, r_lock, r_unlock,
}

module _ {T : Type 0} where
  -- The part of `Send` under its lock; the channels hold 1000 and 100 messages.
  unfoldable pub enqueue : Event → Value → Client T → Option Error × Client T
  enqueue event v c =
      if c.connected
      then (let msg : Message = record { event = event; content = v } in
          if ltb_ℤ (pos 1) c.batch_size
          then (if ltb (length c.message_buffer_ch) 1000
              then (none, record c { message_buffer_ch = c.message_buffer_ch ++ msg ∷ [] })
              else (some (text "message buffer full"), c))
          else (if ltb (length c.send_ch) 100
              then (none, record c { send_ch = c.send_ch ++ msg ∷ [] })
              else (some (text "send buffer full"), c)))
      else (some connection_closed, c)

module _ {T A : Type 0} where
  -- `Send` behind its lock, and the whole.
  unfoldable pub send_locked :
      Event → Value → (Option Error → Client T → Run T A) → Client T → Run T A
  unfolding r_unlock enqueue
  send_locked event v k c = let (e, c') = enqueue event v c in r_unlock (k e) c'

  unfoldable pub send : Event → Value → (Option Error → Client T → Run T A) → Client T → Run T A
  unfolding r_lock send_locked
  send event v k c = r_lock (send_locked event v k) c

  -- The loop over `roomsToRejoin`.
  unfoldable pub rejoin : List String → (Client T → Run T A) → Client T → Run T A
  unfolding send
  rejoin [] k c = k c
  rejoin (room ∷ rooms) k c = send "join" (str room) (λ e. rejoin rooms k) c

module _ {T : Type 0} (transport : ClientTransport T) where
  -- `Connect` behind its lock; the deferred `Unlock` comes last on every path.
  unfoldable pub connect_locked : Client T → Run T (Option Error)
  unfolding unlock rejoin
  connect_locked c =
      if c.connected
      then unlock (done none) c
      else (let (e, t) = transport.connect c.conn in
          elim e [
            | some x ↦ unlock (unlock (done (some x))) (record c { conn = t })
            | none ↦
                unlock
                  (λ d.
                    rejoin (keys c.rooms) (unlock (done none)) (record d { loops = d.loops + 1 }))
                  (record c { conn = t; connected = true })
          ])

  unfoldable pub connect : Client T → Run T (Option Error)
  unfolding lock connect_locked
  connect c = lock connect_locked c

  unfoldable pub close : Client T → Run T (Option Error)
  unfolding lock unlock
  close c₀ =
      lock
        (λ c.
          if c.connected
          then (let (e, t) = transport.close c.conn in
              unlock (done e) (record c { cancelled = true; connected = false; conn = t }))
          else unlock (done none) c)
        c₀

module _ {T : Type 0} where
  -- `Join` and `Leave` behind their lock: the request goes out by `Send`, which locks again.
  unfoldable pub ask : Event → String → Client T → Run T (Unit {0})
  unfolding unlock send
  ask event room c =
      if c.connected then send event (str room) (λ e. unlock (done tt)) c else unlock (done tt) c

  unfoldable pub join : String → Client T → Run T (Unit {0})
  unfolding lock ask
  join room c₀ = lock (λ c. ask "join" room (record c { rooms = insert room true c.rooms })) c₀

  unfoldable pub leave : String → Client T → Run T (Unit {0})
  unfolding lock ask
  leave room c₀ = lock (λ c. ask "leave" room (record c { rooms = delete room c.rooms })) c₀

  unfoldable pub on : Event → ℕ → Client T → Run T (Unit {0})
  unfolding lock unlock
  on event f c₀ =
      lock
        (λ c. unlock (done tt) (record c {
          handlers = insert event (or_empty (lookup event c.handlers) ++ f ∷ []) c.handlers;
        }))
        c₀

  unfoldable pub off : Event → Client T → Run T (Unit {0})
  unfolding lock unlock
  off event c₀ = lock (λ c. unlock (done tt) (record c { handlers = delete event c.handlers })) c₀

  -- The goroutines that `triggerEvent` starts.
  unfoldable pub trigger_event : Event → Value → Client T → Run T (List (Go ℕ))
  unfolding r_lock r_unlock go_all
  trigger_event event v c₀ =
      r_lock (λ c. r_unlock (done (go_all (or_empty (lookup event c.handlers)) v)) c) c₀

  -- What `handleDisconnect` starts: handlers, and the goroutine of `reconnect`.
  unfoldable pub handle_disconnect : Error → Client T → Run T (List (Go ℕ) × Bool)
  unfolding lock unlock trigger_event
  handle_disconnect x c₀ =
      lock
        (λ c.
          if c.connected
          then unlock
              (λ d. elim (trigger_event event_disconnect (failure x) d) [
                | done gos d' ↦
                    done
                      (
                        gos,
                        ltb_ℤ d'.reconnect_attempts (pos 0) || ltb_ℤ (pos 0) d'.reconnect_attempts,
                      )
                      d'
                | waits ↦ waits
                | fatal ↦ fatal
              ])
              (record c { connected = false })
          else unlock (done ([], false)) c)
        c₀

  unfoldable in_room : String → Client T → Run T Bool
  unfolding r_lock r_unlock
  in_room room c₀ = r_lock (λ c. r_unlock (done (has room c.rooms)) c) c₀

  unfoldable pub rooms_of : Client T → Run T (List String)
  unfolding r_lock r_unlock
  rooms_of c₀ = r_lock (λ c. r_unlock (done (keys c.rooms)) c) c₀
