-- ===== src/Socket/Impl/Handlers.antt =====
-- socket/socket_impl.go, `On` and `Off`: the registry of handlers.
use socket_go.Base.{◌≡◌, [], ◌∷◌, ◌++◌, arith, str_eq, if◌then◌else◌}
use socket_go.Base.Map.{lookup, lookup-insert, lookup-delete}
use socket_go.Socket.{Event}
use socket_go.Socket.Impl.{SocketImpl, or_empty, handlers_of, on, off}

module _ {H T : Type 0} where
  -- `On` adds one handler at the end of its event's list, and `Off` empties that list; the handlers of
  -- every other event stay as they are.
  pub handlers_of-on-off :
      (event other : Event) (h : H) (s : SocketImpl H T)
      → (handlers_of other (on event h s)
          ≡ (if str_eq event other then handlers_of event s ++ h ∷ [] else handlers_of other s))
        × (handlers_of other (off event s)
            ≡ (if str_eq event other then [] else handlers_of other s))
  unfolding handlers_of on off
  handlers_of-on-off event other h s = ground (
    arith,
    lookup-insert event other (or_empty (lookup event s.handlers) ++ h ∷ []) s.handlers,
    lookup-delete event other s.handlers,
  )
