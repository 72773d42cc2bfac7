-- ===== src/Transport/WebSocket/Fanout/Handled.antt =====
-- socket/transport/websocket.go, `ReceiveConcurrent`: what the handler is called with.
use socket_go.Base.{
  ap, ℕ, suc, ◌+◌, ◌<◌, ◌≡◌, refl, ◌⊎◌, inl, inr, Bool, true, List, [], ◌∷◌, ◌++◌, length, tally,
  tally-append, arith,
}
use mathlib.Core.List.{append-nil, append_assoc}
use socket_go.Socket.{Error, Bytes}
use socket_go.Socket.Impl.{ReadResult}
use socket_go.Transport.WebSocket.Fanout.{
  Reader, reading, holding, erring, stopped, Fanout, start, Step, read, put, fail, report, tell,
  take, handle, exit, Steps, here, next, arriving, first_failure,
}

-- What the reading goroutine is still going to put into the two channels.
abbrev to_come : Reader → List ReadResult → List Bytes
to_come reading reads = arriving reads
to_come (holding m) reads = m ∷ arriving reads
to_come (erring e) reads = []
to_come stopped reads = []

abbrev to_fail : Reader → List ReadResult → List Error
to_fail reading reads = first_failure reads
to_fail (holding m) reads = first_failure reads
to_fail (erring e) reads = e ∷ []
to_fail stopped reads = []

record Inv (source : List ReadResult) (p : Fanout) : Type 0 where
  once :
      (f : Bytes → Bool)
      → tally f (to_come p.reader p.reads) + tally f p.messages + tally f p.busy + tally f p.handled
        ≡ tally f (arriving source)
  failure : p.told ++ (p.errs ++ to_fail p.reader p.reads) ≡ first_failure source
  ended : p.shut ≡ true → p.reader ≡ stopped
  workers : (0 < p.idle + length p.busy) ⊎ ((p.messages ≡ []) × (p.shut ≡ true))

start-Inv : (k : ℕ) (source : List ReadResult) → Inv source (start (suc k) source)
unfolding start
start-Inv k source = record {
  once = λ f. omega arith;
  failure = refl;
  ended = λ e. cc;
  workers = inl (omega arith);
}

Step-Inv : (source : List ReadResult) {p q : Fanout} → Step p q → Inv source p → Inv source q
unfolding arriving first_failure
Step-Inv source {p} (read m rest at e now) inv = rw now (record {
  once = λ f. ground (arith, inv.once f, at, e);
  failure = ground (arith, inv.failure, at, e);
  ended = λ h. absurd (ground (arith, inv.ended h, at));
  workers = ground (arith, inv.workers);
})
Step-Inv source {p} (put m at free now) inv = rw now (record {
  once = λ f. ground (arith, inv.once f, at, tally-append f p.messages (m ∷ []));
  failure = ground (arith, inv.failure, at);
  ended = λ h. absurd (ground (arith, inv.ended h, at));
  workers = ground (arith, inv.workers, inv.ended);
})
Step-Inv source {p} (fail x rest at e now) inv = rw now (record {
  once = λ f. ground (arith, inv.once f, at, e);
  failure = ground (arith, inv.failure, at, e);
  ended = λ h. absurd (ground (arith, inv.ended h, at));
  workers = ground (arith, inv.workers);
})
Step-Inv source {p} (report x at now) inv = rw now (record {
  once = λ f. ground (arith, inv.once f, at);
  failure = ground (arith, inv.failure, at, append-nil (p.errs ++ x ∷ []));
  ended = λ h. refl;
  workers = ground (arith, inv.workers);
})
Step-Inv source {p} (tell x rest e now) inv = rw now (record {
  once = inv.once;
  failure =
      ground
        (arith, inv.failure, e, append_assoc p.told (x ∷ []) (rest ++ to_fail p.reader p.reads));
  ended = inv.ended;
  workers = inv.workers;
})
Step-Inv source {p} (take k m rest i e now) inv = rw now (record {
  once = λ f. omega (arith, inv.once f, ap (tally f) e);
  failure = inv.failure;
  ended = inv.ended;
  workers = inl (omega arith);
})
Step-Inv source {p} (handle m before after e now) inv = rw now (record {
  once = λ f. omega (
    arith,
    inv.once f,
    ap (tally f) e,
    tally-append f before (m ∷ after),
    tally-append f before after,
  );
  failure = inv.failure;
  ended = inv.ended;
  workers = inl (omega arith);
})
Step-Inv source (exit k i e is_shut now) inv = rw now (record {
  once = inv.once;
  failure = inv.failure;
  ended = inv.ended;
  workers = inr (e, is_shut);
})

Steps-Inv : (source : List ReadResult) {p q : Fanout} → Inv source p → Steps p q → Inv source q
Steps-Inv source inv here = inv
Steps-Inv source inv (next r st) = Step-Inv source st (Steps-Inv source inv r)

-- With at least one worker: when `wg.Wait()` returns, that is when every worker has left, the handler
-- has been called once for each message that came before the first failed read, and the error of
-- that read has gone to the handler, or is on its way there, once.
pub receive_concurrent-handled :
    (k : ℕ) (source : List ReadResult) {p : Fanout}
    → Steps (start (suc k) source) p
    → p.idle ≡ 0
    → p.busy ≡ []
    → ((f : Bytes → Bool) → tally f p.handled ≡ tally f (arriving source))
      × (p.told ++ p.errs ≡ first_failure source)
receive_concurrent-handled k source {p} r idle busy =
    let inv : Inv source p = Steps-Inv source (start-Inv k source) r in
    elim inv.workers [
      | inl w ↦ absurd (omega (arith, ap length busy, idle))
      | inr (none_left, is_shut) ↦ (
        λ f. ground (arith, inv.once f, none_left, busy, inv.ended is_shut),
        ground (arith, inv.failure, inv.ended is_shut, append-nil p.errs),
      )
    ]
