-- ===== src/LongPolling/Messages.antt =====
-- socket/transport/server_transport.go and socket/socket_impl.go: from the requests of a long-polling
-- client to the handlers of its connection.
use socket_go.Base.{◌≡◌, sym, ap, ◌∙◌, List, ◌++◌}
use socket_go.Socket.Impl.{Codec, ServerTransport, SocketImpl, receive_loop}
use socket_go.Socket.Impl.Lifecycle.{got_all, receive_all, receive_all-append, receive_loop-got_all}
use socket_go.LongPolling.{Transport}
use socket_go.LongPolling.Delivery.{Call, run, over, received, sent, run-delivery}

module _ {H T : Type 0} (transport : ServerTransport T) where
  -- Over any history of a long-polling session, whatever its codec: what the receiving loop has
  -- started for the messages that it has read, and then what the queued ones are going to start, is
  -- what the bodies that were queued at first and those that were answered with a 200 come to, each
  -- once and in order. So a message that the client was told is accepted starts the handlers of its
  -- event exactly once, or is still in the queue.
  pub session-receive_loop :
      (codec : Codec) (cs : List Call) (t : Transport) (s : SocketImpl H T)
      → (receive_loop transport codec (got_all (over received cs t)) s).0
          ++ receive_all transport codec (run cs t).incoming_messages s
        ≡ receive_all transport codec t.incoming_messages s
          ++ receive_all transport codec (over sent cs t) s
  session-receive_loop codec cs t s =
      ap (λ gos. gos ++ receive_all transport codec (run cs t).incoming_messages s)
        (receive_loop-got_all transport codec (over received cs t) s)
      ∙ sym (receive_all-append transport codec (over received cs t) (run cs t).incoming_messages s)
      ∙ ap (λ ms. receive_all transport codec ms s) (run-delivery cs t).1
      ∙ receive_all-append transport codec t.incoming_messages (over sent cs t) s
