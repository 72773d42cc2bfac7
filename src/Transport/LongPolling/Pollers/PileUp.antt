-- ===== src/Transport/LongPolling/Pollers/PileUp.antt =====
-- socket/transport/longpolling.go: goroutines of `poll` that outlive their connection.
use socket_go.Base.{
  ℕ, zero, suc, ◌+◌, ◌≤◌, ◌<◌, String, ◌≡◌, refl, ap, ◌∙◌, inl, true, false, ◌||◌, List, [], ◌∷◌,
  ◌++◌, none, arith, ◌==◌, ==_iff,
}
use mathlib.Core.List.{append_assoc}
use socket_go.Transport.LongPolling.{
  Transport, Http, Json, Poller, starting, selecting, fetching, connect, close, cancel,
}
use socket_go.Transport.LongPolling.Pollers.{
  moved, enter, fire, aborted, wake, connects, closes, Steps, Steps-trans, here, next,
}

-- `n` goroutines that stand at one place.
abbrev pub crowd : ℕ → Poller → List Poller
crowd zero x = []
crowd (suc n) x = x ∷ crowd n x

-- No context that is still to come is done.
abbrev IsAhead : Transport → Type 0
IsAhead t = (c : ℕ) → t.next_ctx ≤ c → t.is_done c ≡ false

-- A transport that is connected, and `n` goroutines of `poll` in their `select`, all of them on the
-- context that is the transport's, which is not done.
abbrev pub IsServed : ℕ → Transport → Type 0
IsServed n t =
    (t.connected ≡ true) × (t.pollers ≡ crowd n (selecting t.ctx)) × (t.is_done t.ctx ≡ false)

module _ {W : Type 0} (http : Http W) (json : Json) where
  -- The server accepts every connection.
  abbrev pub IsWilling : Type 0
  IsWilling = (t : Transport) (w : W) → (connect http json t w).0 ≡ none

  -- One goroutine can go from one place to another, and nothing else changes.
  abbrev Goes : Transport → W → Poller → Poller → Type 0
  Goes t w x y =
      (before after : List Poller)
      → Steps http json (record t { pollers = before ++ x ∷ after }, w)
          (record t { pollers = before ++ y ∷ after }, w)

  fetching-Goes :
      (t : Transport) (w : W) (c : ℕ) → Goes t w (selecting c) (fetching t.session_id t.ctx)
  unfolding moved
  fetching-Goes t w c before after = next here (fire before after c refl refl)

  starting-Goes : (t : Transport) (w : W) → Goes t w starting (selecting t.ctx)
  unfolding moved
  starting-Goes t w before after = next here (enter before after refl refl)

  -- A goroutine whose fetch is cut off goes on with the context that is the transport's by then.
  selecting-Goes :
      (t : Transport) (w : W) (session : String) (c : ℕ)
      → t.is_done c ≡ true
      → Goes t w (fetching session c) (selecting t.ctx)
  unfolding moved
  selecting-Goes t w session c over before after =
      next
        (next (next here (aborted before after session c w refl over (inl refl) refl))
          (wake before after refl refl))
        (enter before after refl refl)

  all_go :
      (n : ℕ) (before : List Poller) (t : Transport) (w : W) (x y : Poller)
      → Goes t w x y
      → Steps http json
          (record t { pollers = before ++ crowd n x }, w)
          (record t { pollers = before ++ crowd n y }, w)
  all_go zero before t w x y goes = here
  all_go (suc n) before t w x y goes =
      let rest = all_go n (before ++ y ∷ []) t w x y goes in
      Steps-trans http json (goes before (crowd n x)) (
        rw (append_assoc before (y ∷ []) (crowd n x), append_assoc before (y ∷ []) (crowd n y)) at
          rest)

  connect_renews :
      (t : Transport) (w : W)
      → t.connected ≡ false
      → (connect http json t w).0 ≡ none
      → let t' = (connect http json t w).1 in
        (t'.connected ≡ true)
        × (t'.pollers ≡ starting ∷ t.pollers)
        × (t'.ctx ≡ t.next_ctx)
        × (t'.next_ctx ≡ t.next_ctx + 1)
        × (t'.is_done ≡ t.is_done)
  unfolding connect
  connect_renews t w off e = ground arith

  close_cancels :
      (t : Transport) (w : W)
      → t.connected ≡ true
      → let t' = (close http t w).0 in
        (t'.connected ≡ false)
        × (t'.pollers ≡ t.pollers)
        × (t'.next_ctx ≡ t.next_ctx)
        × ((c : ℕ) → t'.is_done c ≡ (c == t.ctx) || t.is_done c)
  unfolding close cancel
  close_cancels t w on = (ground arith, ground arith, ground arith, λ c. ground arith)

  -- The transport is the one that has these pollers.
  same_pollers : (t : Transport) (ps : List Poller) → t.pollers ≡ ps → t ≡ record t { pollers = ps }
  same_pollers t ps e = rw (← e) refl

  from_pollers :
      (t : Transport) (w : W) (ps : List Poller) {q : Transport × W}
      → t.pollers ≡ ps
      → Steps http json (record t { pollers = ps }, w) q
      → Steps http json (t, w) q
  from_pollers t w ps e r = rw (same_pollers t ps e) r

  -- A new connection: those that were in a fetch under a context that is done, and the one that is
  -- started, come to their `select` on the new context.
  reconnected :
      (n : ℕ) (t : Transport) (w : W) (session : String) (c : ℕ)
      → IsWilling
      → t.connected ≡ false
      → t.pollers ≡ crowd n (fetching session c)
      → t.is_done c ≡ true
      → t.is_done t.next_ctx ≡ false
      → (q : Transport × W) × Steps http json (t, w) q
        × IsServed (suc n) q.0
        × (q.0.next_ctx ≡ t.next_ctx + 1)
        × (q.0.ctx ≡ t.next_ctx)
        × (q.0.is_done ≡ t.is_done)
  reconnected n t w session c willing off ps over live =
      let t₁ = (connect http json t w).1 in
      let w₁ = (connect http json t w).2 in
      let (on, more, now, next_, same) = connect_renews t w off (willing t w) in
      let start : Steps http json (t, w) (t₁, w₁) = next here (connects refl) in
      let up =
        all_go n (starting ∷ []) t₁ w₁ (fetching session c) (selecting t₁.ctx)
          (selecting-Goes t₁ w₁ session c (rw same over)) in
      let last = starting-Goes t₁ w₁ [] (crowd n (selecting t₁.ctx)) in
      (
        (record t₁ { pollers = crowd (suc n) (selecting t₁.ctx) }, w₁),
        Steps-trans http json start (
            from_pollers t₁ w₁ (starting ∷ crowd n (fetching session c))
              (more ∙ ap (◌∷◌ starting) ps) (Steps-trans http json up last)),
        (on, refl, rw (same, now) live),
        next_,
        now,
        same,
      )

  again :
      (n : ℕ) (t : Transport) (w : W)
      → IsWilling
      → IsServed n t
      → IsAhead t
      → t.ctx < t.next_ctx
      → (q : Transport × W) × Steps http json (t, w) q
        × IsServed (suc n) q.0
        × IsAhead q.0
        × (q.0.ctx < q.0.next_ctx)
  again n t w willing (on, ps, live) ahead below =
      let t₁ : Transport = record t { pollers = crowd n (fetching t.session_id t.ctx) } in
      let t₂ = (close http t₁ w).0 in
      let w₂ = (close http t₁ w).1 in
      let (off, same, next_, done) = close_cancels t₁ w on in
      let fetches = all_go n [] t w _ _ (fetching-Goes t w t.ctx) in
      let (q, way, served, next_q, now, done_q) =
        reconnected n t₂ w₂ t.session_id t.ctx willing off same
          (ground (arith, done t.ctx, ==_iff t.ctx t.ctx))
          (ground
            (arith, done t₂.next_ctx, ahead t.next_ctx, next_, below, ==_iff t.next_ctx t.ctx)) in
      (
        q,
        Steps-trans http json (from_pollers t w (crowd n (selecting t.ctx)) ps fetches)
            (Steps-trans http json (next here (closes refl)) way),
        served,
        λ c h. rw done_q (
            done c
            ∙ ground (
              arith,
              ahead c (omega (arith, h, next_q, next_)),
              below,
              next_q,
              next_,
              h,
              ==_iff c t.ctx,
            )),
        omega (arith, next_q, now),
      )

  -- With a server that accepts every connection: from a transport that is not connected, has no
  -- goroutines of `poll` and none of whose contexts to come is done, there is for every `n` a schedule
  -- to a state in which it is connected and has `n + 1` of them, none of which has returned: they all
  -- wait in their `select`, and on the context that the transport has then, which is not done.
  pub pollers_pile_up :
      (n : ℕ) (t : Transport) (w : W)
      → IsWilling
      → t.connected ≡ false
      → t.pollers ≡ []
      → IsAhead t
      → (q : Transport × W) × Steps http json (t, w) q × IsServed (suc n) q.0
  pollers_pile_up n t w willing off none_yet ahead =
      let (q, way, served, _, _) = pile n in (q, way, served)
    where
      pile :
          (m : ℕ)
          → (q : Transport × W) × Steps http json (t, w) q
            × IsServed (suc m) q.0
            × IsAhead q.0
            × (q.0.ctx < q.0.next_ctx)
      pile zero =
          let t₁ = (connect http json t w).1 in
          let w₁ = (connect http json t w).2 in
          let (on, more, now, next_, same) = connect_renews t w off (willing t w) in
          let last = starting-Goes t₁ w₁ [] [] in
          (
            (record t₁ { pollers = selecting t₁.ctx ∷ [] }, w₁),
            Steps-trans http json (next here (connects refl))
                (from_pollers t₁ w₁ (starting ∷ []) (more ∙ ap (◌∷◌ starting) none_yet) last),
            (on, refl, rw (same, now) (ahead t.next_ctx (omega arith))),
            λ c h. rw same (ahead c (omega (arith, h, next_))),
            omega (arith, next_, now),
          )
      pile (suc m) =
          let (q, way, served, ahead_q, below) = pile m in
          let (z, way', served', ahead', below') =
            again (suc m) q.0 q.1 willing served ahead_q below in
          (z, Steps-trans http json way way', served', ahead', below')
