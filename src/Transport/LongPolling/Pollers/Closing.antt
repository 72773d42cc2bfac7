-- ===== src/Transport/LongPolling/Pollers/Closing.antt =====
-- socket/transport/longpolling.go: how the goroutines of `poll` end.
use socket_go.Base.{
  ℕ, false, inl, inr, Bool-cases, String, ◌≡◌, refl, sym, ◌∙◌, true, List, [], ◌∷◌, ◌++◌, arith,
  All,
}
use mathlib.Core.List.{append-nil, append_assoc}
use socket_go.Socket.{Result, ok, err, Bytes}
use socket_go.Transport.LongPolling.{
  Transport, Http, Json, Poller, starting, selecting, fetching, asleep, returned, enqueue,
  enqueue_each, fetch_session, close,
}
use socket_go.Transport.LongPolling.Pollers.{
  moved, enter, quit, fire, fetched, fetch_failed, aborted, wake, Steps, Steps-trans, here, next,
  closed-pollers,
}

abbrev IsReturned : Poller → Type 0
IsReturned x = x ≡ returned

module _ {W : Type 0} (http : Http W) (json : Json) where
  -- A run that ends with one more goroutine returned.
  abbrev Ends : List Poller → List Poller → Transport × W → Type 0
  Ends before after p =
      (q : Transport × W) × Steps http json p q
      × (q.0.pollers ≡ before ++ returned ∷ after)
      × (q.0.is_done q.0.ctx ≡ true)

  starting-Ends :
      (before after : List Poller) {p₀ p : Transport × W}
      → Steps http json p₀ p
      → p.0.pollers ≡ before ++ starting ∷ after
      → p.0.is_done p.0.ctx ≡ true
      → Ends before after p₀
  unfolding moved
  starting-Ends before after {p = p} r e d = (
    _,
    next (next r (enter before after e refl)) (quit before after p.0.ctx refl d refl),
    refl,
    d,
  )

  asleep-Ends :
      (before after : List Poller) {p₀ p : Transport × W}
      → Steps http json p₀ p
      → p.0.pollers ≡ before ++ asleep ∷ after
      → p.0.is_done p.0.ctx ≡ true
      → Ends before after p₀
  asleep-Ends before after r e d =
      starting-Ends before after (next r (wake before after e refl)) (unfold moved in refl)
        (unfold moved in d)

  enqueue_each-keeps :
      (ms : List Bytes) (t : Transport)
      → let t' = enqueue_each ms t in
        (t'.pollers ≡ t.pollers) × (t'.ctx ≡ t.ctx) × (t'.is_done ≡ t.is_done)
  unfolding enqueue_each enqueue
  enqueue_each-keeps [] t = (refl, refl, refl)
  enqueue_each-keeps (m ∷ ms) t = ground (arith, enqueue_each-keeps ms (enqueue m t))

  fetching-Ends :
      (session : String) (c : ℕ) (before after : List Poller) {p₀ p : Transport × W}
      → Steps http json p₀ p
      → p.0.pollers ≡ before ++ fetching session c ∷ after
      → p.0.is_done p.0.ctx ≡ true
      → Ends before after p₀
  fetching-Ends session c before after {p₀} {p} r e d = elim (Bool-cases (p.0.is_done c)) [
    | inl over ↦
        asleep-Ends before after
          (next r (aborted before after session c p.1 e over (inl refl) refl))
          (unfold moved in refl) (unfold moved in d)
    | inr live ↦ go live (fetch_session http json session p.0 p.1).0 refl
  ]
    where
      go :
          p.0.is_done c ≡ false
          → (f : Result (List Bytes)) → (fetch_session http json session p.0 p.1).0 ≡ f
          → Ends before after p₀
      go live (err x) h =
          asleep-Ends before after (next r (fetch_failed before after session c x e h refl))
            (unfold moved in refl) (unfold moved in d)
      go live (ok ms) h =
          let (same, k, done) = enqueue_each-keeps ms (moved before starting after p.0) in
          starting-Ends before after (next r (fetched before after session c ms e live h refl))
            (same ∙ (unfold moved in refl)) (rw (done, k) (unfold moved in d))

  one-Ends :
      (x : Poller) (before after : List Poller) {p : Transport × W}
      → p.0.pollers ≡ before ++ x ∷ after
      → p.0.is_done p.0.ctx ≡ true
      → Ends before after p
  one-Ends starting before after e d = starting-Ends before after here e d
  one-Ends (selecting c) before after {p} e d =
      fetching-Ends p.0.session_id p.0.ctx before after (next here (fire before after c e refl))
        (unfold moved in refl) (unfold moved in d)
  one-Ends (fetching session c) before after e d = fetching-Ends session c before after here e d
  one-Ends asleep before after e d = asleep-Ends before after here e d
  one-Ends returned before after e d = (_, here, e, d)

  All-snoc : (xs : List Poller) → All IsReturned xs → All IsReturned (xs ++ returned ∷ [])
  All-snoc [] h = (refl, tt)
  All-snoc (x ∷ xs) h = (h.0, All-snoc xs h.1)

  All-Ends :
      (before after : List Poller) {p : Transport × W}
      → p.0.pollers ≡ before ++ after
      → All IsReturned before
      → p.0.is_done p.0.ctx ≡ true
      → (q : Transport × W) × Steps http json p q × All IsReturned q.0.pollers
  All-Ends before [] {p} e h d = (p, here, rw (e, append-nil before) h)
  All-Ends before (x ∷ after) e h d =
      let (q, r, e', d') = one-Ends x before after e d in
      let (z, r', h') =
        All-Ends (before ++ returned ∷ []) after
          (e' ∙ sym (append_assoc before (returned ∷ []) after)) (All-snoc before h) d' in
      (z, Steps-trans http json r r', h')

  -- After a `Close` of a transport that is connected, every goroutine of `poll`, wherever it stands,
  -- can come to its end, and they all can.
  close_ends_polls :
      (t : Transport) (w : W)
      → t.connected ≡ true
      → (q : Transport × W) × Steps http json (close http t w) q × All IsReturned q.0.pollers
  close_ends_polls t w on =
      let (done, _, _) = closed-pollers http json t w in
      All-Ends [] (close http t w).0.pollers refl tt (done on)
