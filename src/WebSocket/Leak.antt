-- ===== src/WebSocket/Leak.antt =====
-- socket/transport/server_transport.go: what becomes of the connection when a transport is closed.
use socket_go.Base.{◌≢◌, ℕ, zero, suc, ◌<◌, ◌≡◌, refl, true, false, arith}
use socket_go.WebSocket.{
  Pump, selecting, holding, failing, closing, stopped, Transport, new_transport, Step, put, close,
  close_conn, take, stop, drop, write, fail, fail_close, fail_closed, Steps, here, next,
}

-- The connection is closed only behind the pump's end; who waits has closed the transport, and then
-- the pump is not in its own `Close`.
record Inv (p : Transport) : Type 0 where
  behind : p.conn_closed ≡ true → p.pump ≡ stopped
  shut : p.closed ≡ false → p.waiting ≡ 0
  alone : p.pump ≡ closing → (p.closed ≡ true) × (p.waiting ≡ 0)

Step-Inv : {p q : Transport} → Step p q → Inv p → Inv q
Step-Inv (put m free now) inv =
    rw now (record { behind = inv.behind; shut = inv.shut; alone = inv.alone })
Step-Inv (close was now) inv = rw now (record {
  behind = inv.behind;
  shut = λ open_. absurd (ground arith);
  alone = λ h. absurd (ground (arith, inv.alone));
})
Step-Inv (close_conn k w s now) inv = rw now (record {
  behind = λ h. s;
  shut = λ h. ground (arith, inv.shut);
  alone = λ h. absurd (ground (arith, s));
})
Step-Inv (take m rest at e now) inv = rw now (record {
  behind = λ h. ground (arith, inv.behind);
  shut = λ h. ground (arith, inv.shut);
  alone = λ h. ground (arith, inv.alone);
})
Step-Inv (stop at is_shut now) inv = rw now (record {
  behind = λ h. ground (arith, inv.behind);
  shut = λ h. ground (arith, inv.shut);
  alone = λ h. ground (arith, inv.alone);
})
Step-Inv (drop m at is_shut now) inv = rw now (record {
  behind = λ h. ground (arith, inv.behind);
  shut = λ h. ground (arith, inv.shut);
  alone = λ h. ground (arith, inv.alone);
})
Step-Inv (write m at was now) inv = rw now (record {
  behind = λ h. ground (arith, inv.behind);
  shut = λ h. ground (arith, inv.shut);
  alone = λ h. ground (arith, inv.alone);
})
Step-Inv (fail m at was now) inv = rw now (record {
  behind = λ h. ground (arith, inv.behind);
  shut = λ h. ground (arith, inv.shut);
  alone = λ h. ground (arith, inv.alone);
})
Step-Inv (fail_close m at was now) inv = rw now (record {
  behind = λ h. ground (arith, inv.behind);
  shut = λ h. ground (arith, inv.shut);
  alone = λ h. ground (arith, inv.alone);
})
Step-Inv (fail_closed m at is_shut now) inv = rw now (record {
  behind = λ h. ground (arith, inv.behind);
  shut = λ h. ground (arith, inv.shut);
  alone = λ h. ground (arith, inv.alone);
})

Steps-Inv : {p q : Transport} → Inv p → Steps p q → Inv q
Steps-Inv inv here = inv
Steps-Inv inv (next r st) = Step-Inv st (Steps-Inv inv r)

start-Inv : (buffer_size : ℕ) → Inv (new_transport buffer_size)
unfolding new_transport
start-Inv buffer_size = record {
  behind = λ h. absurd (ground arith);
  shut = λ h. refl;
  alone = λ h. absurd (ground arith);
}

-- A pump in its own `Close` stays there.
Step-closing : {p q : Transport} → Step p q → p.pump ≡ closing → q.pump ≡ closing
Step-closing (put m free now) h = rw now h
Step-closing (close was now) h = rw now h
Step-closing (close_conn k w s now) h = absurd (ground (arith, h, s))
Step-closing (take m rest at e now) h = absurd (ground (arith, h, at))
Step-closing (stop at shut now) h = absurd (ground (arith, h, at))
Step-closing (drop m at shut now) h = absurd (ground (arith, h, at))
Step-closing (write m at was now) h = absurd (ground (arith, h, at))
Step-closing (fail m at was now) h = absurd (ground (arith, h, at))
Step-closing (fail_close m at was now) h = absurd (ground (arith, h, at))
Step-closing (fail_closed m at shut now) h = absurd (ground (arith, h, at))

Steps-closing : {p q : Transport} → Steps p q → p.pump ≡ closing → q.pump ≡ closing
Steps-closing here h = h
Steps-closing (next r st) h = Step-closing st (Steps-closing r h)

-- Once the pump has called `Close` because a write failed, it waits for itself: whatever happens
-- later, it does not return, and the connection is never closed.
pub write_failure_leaks :
    (buffer_size : ℕ) {p q : Transport}
    → Steps (new_transport buffer_size) p
    → p.pump ≡ closing
    → Steps p q
    → (q.pump ≡ closing) × (q.conn_closed ≡ false)
write_failure_leaks buffer_size {p} {q} r h later =
    let inv : Inv q = Steps-Inv (Steps-Inv (start-Inv buffer_size) r) later in
    let still : q.pump ≡ closing = Steps-closing later h in (still, ground (arith, inv.behind))

-- The pump of a transport that somebody has closed comes to its end, unless it is in its own `Close`.
stops :
    {p : Transport} (u : Pump)
    → p.pump ≡ u
    → p.closed ≡ true
    → u ≢ closing
    → (q : Transport) × Steps p q × (q.pump ≡ stopped) × (q.waiting ≡ p.waiting)
stops selecting at shut ne = (_, next here (stop at shut refl), refl, refl)
stops (holding m) at shut ne = (_, next here (drop m at shut refl), refl, refl)
stops (failing m) at shut ne = (_, next here (fail_closed m at shut refl), refl, refl)
stops closing at shut ne = absurd (ne refl)
stops stopped at shut ne = (_, here, at, refl)

-- Where a caller of `Close` waits for the pump, at most two moves of the goroutines are between it and
-- the end: the pump can return, and the connection is closed.
close_closes :
    (buffer_size : ℕ) {p : Transport}
    → Steps (new_transport buffer_size) p
    → 0 < p.waiting
    → (q : Transport) × Steps p q × (q.conn_closed ≡ true)
close_closes buffer_size {p} r h =
    let inv : Inv p = Steps-Inv (start-Inv buffer_size) r in
    let shut : p.closed ≡ true = ground (arith, inv.shut) in
    let (q, way, at, same) = stops p.pump refl shut (λ e. absurd (ground (arith, inv.alone))) in
    let (k, w) = positive q.waiting (omega (arith, same, h)) in
    (_, next way (close_conn k w at refl), refl)
  where
    positive : (n : ℕ) → 0 < n → (k : ℕ) × (n ≡ suc k)
    positive zero h = absurd (omega arith)
    positive (suc k) h = (k, refl)
