-- ===== src/Transport/LongPolling/Pollers.antt =====
-- socket/transport/longpolling.go: the goroutines of `poll` (lines 133-159) next to `Connect`, `Close`
-- and `Receive`.
pub mod PileUp
pub mod Closing
use socket_go.Base.{
  ◌⊎◌, ℕ, zero, suc, ◌+◌, String, ◌≡◌, refl, sym, ap, ◌∙◌, inl, inr, Bool, true, false, ◌||◌, List,
  [], ◌∷◌, ◌++◌, none, some, arith, ◌==◌, ==_iff, All, if◌then◌else◌,
}
use mathlib.Core.List.{append-nil, append_assoc}
use socket_go.Socket.{Error, Result, ok, err, Bytes}
use socket_go.Socket.Impl.{ReadResult}
use socket_go.Transport.LongPolling.{
  Transport, TransportOption, Http, Json, Poller, starting, selecting, fetching, asleep, returned,
  enqueue, enqueue_each, fetch_session, connect, close, cancel, receive, new_transport,
  apply_options, apply_option,
}

-- One goroutine of `poll` moves on.
unfoldable pub moved : List Poller → Poller → List Poller → Transport → Transport
moved before x after t = record t { pollers = before ++ x ∷ after }

module _ {W : Type 0} (http : Http W) (json : Json) where
  -- `enter` evaluates the channels of the `select`; `fire` is its timer, which may win even against a
  -- context that is done. A fetch is under the context that was the transport's when it began.
  pub data Step (p : Transport × W) (q : Transport × W) : Type 0 where
    enter :
        (before after : List Poller)
        → p.0.pollers ≡ before ++ starting ∷ after
        → q ≡ (moved before (selecting p.0.ctx) after p.0, p.1)
        → Step p q
    quit :
        (before after : List Poller) (c : ℕ)
        → p.0.pollers ≡ before ++ selecting c ∷ after
        → p.0.is_done c ≡ true
        → q ≡ (moved before returned after p.0, p.1)
        → Step p q
    fire :
        (before after : List Poller) (c : ℕ)
        → p.0.pollers ≡ before ++ selecting c ∷ after
        → q ≡ (moved before (fetching p.0.session_id p.0.ctx) after p.0, p.1)
        → Step p q
    fetched :
        (before after : List Poller) (session : String) (c : ℕ) (ms : List Bytes)
        → p.0.pollers ≡ before ++ fetching session c ∷ after
        → p.0.is_done c ≡ false
        → (fetch_session http json session p.0 p.1).0 ≡ ok ms
        → q ≡ (
          enqueue_each ms (moved before starting after p.0),
          (fetch_session http json session p.0 p.1).1,
        )
        → Step p q
    fetch_failed :
        (before after : List Poller) (session : String) (c : ℕ) (x : Error)
        → p.0.pollers ≡ before ++ fetching session c ∷ after
        → (fetch_session http json session p.0 p.1).0 ≡ err x
        → q ≡ (moved before asleep after p.0, (fetch_session http json session p.0 p.1).1)
        → Step p q
    -- The request's context is done: the request fails, whether the server has seen it or not.
    aborted :
        (before after : List Poller) (session : String) (c : ℕ) (w : W)
        → p.0.pollers ≡ before ++ fetching session c ∷ after
        → p.0.is_done c ≡ true
        → (w ≡ p.1) ⊎ (w ≡ (fetch_session http json session p.0 p.1).1)
        → q ≡ (moved before asleep after p.0, w)
        → Step p q
    wake :
        (before after : List Poller)
        → p.0.pollers ≡ before ++ asleep ∷ after
        → q ≡ (moved before starting after p.0, p.1)
        → Step p q
    connects : q ≡ (let (e, t, w) = connect http json p.0 p.1 in (t, w)) → Step p q
    -- The context that some `Connect` was given is cancelled.
    expires :
        (done : ℕ → Bool)
        → q ≡ (record p.0 { is_done = λ c. done c || p.0.is_done c }, p.1)
        → Step p q
    closes : q ≡ close http p.0 p.1 → Step p q
    receives :
        (b : Bool) (r : ReadResult) (t : Transport)
        → receive b p.0 ≡ some (r, t)
        → q ≡ (t, p.1)
        → Step p q

  pub data Steps (p : Transport × W) : Transport × W → Type 0 where
    here : Steps p p
    next : {q r : Transport × W} → Steps p q → Step q r → Steps p r

  pub Steps-trans : {p q r : Transport × W} → Steps p q → Steps q r → Steps p r
  Steps-trans a here = a
  Steps-trans a (next b st) = next (Steps-trans a b) st

  -- A `Close` cancels the context that is the transport's, and no goroutine of `poll`.
  pub closed-pollers :
      (t : Transport) (w : W)
      → let t' = (close http t w).0 in
        (t.connected ≡ true → t'.is_done t'.ctx ≡ true)
        × (t'.connected ≡ false)
        × (t'.pollers ≡ t.pollers)
  unfolding close cancel
  closed-pollers t w = ground (arith, ==_iff t.ctx t.ctx)
