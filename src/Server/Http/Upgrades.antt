-- ===== src/Server/Http/Upgrades.antt =====
-- socket/server.go, `tryWebSocketUpgrade` (lines 144-187) of several requests at the same time: one step for
-- its send to the semaphore, and one for the handshake with the receive that is deferred.
use socket_go.Base.{
  ℕ, zero, suc, ◌+◌, ◌≤◌, String, ◌≡◌, inl, inr, Bool, true, false, List, [], ◌∷◌, Option, none,
  some, arith, str_eq, leb, if◌then◌else◌, Option-cases,
}
use socket_go.Socket.{Socket}
use socket_go.Server.{Server}
use socket_go.Server.Sessions.{new_connection}
use socket_go.Server.Http.{Request, acquire, release, release_at, establish, try_web_socket_upgrade}

-- Where a request stands: before the send, in the handshake, or behind the call, with whether a 503 was
-- written and the connection that it has opened.
pub data Upgrade (W : Type 0) : Type 0 where
  arriving : Request W → String → Upgrade W
  shaking : Request W → String → Upgrade W
  over : Bool → Option Socket → Upgrade W

module _ {W : Type 0} where
  -- The deferred receive, which is there where there is a semaphore.
  unfoldable give_back : Server W → Server W
  unfolding release
  give_back s = elim s.semaphore [
    | none ↦ s
    | some sem ↦ record s { semaphore = some (release sem) }
  ]

  unfoldable pub step : Upgrade W → Server W → Upgrade W × Server W
  unfolding acquire give_back establish
  step (arriving r id) s =
      if str_eq r.upgrade "websocket"
      then elim s.semaphore [
        | none ↦ (shaking r id, s)
        | some sem ↦ elim (acquire sem) [
          | none ↦ (over true none, s)
          | some held ↦ (shaking r id, record s { semaphore = some held })
        ]
      ]
      else (over false none, s)
  step (shaking r id) s = let (k, s') = establish r.handshake id s in (over false k, give_back s')
  step (over refused k) s = (over refused k, s)

  -- The request at a place of the list makes its step.
  unfoldable pub step_at : ℕ → List (Upgrade W) → Server W → List (Upgrade W) × Server W
  unfolding step
  step_at i [] s = ([], s)
  step_at zero (u ∷ us) s = let (u', s') = step u s in (u' ∷ us, s')
  step_at (suc i) (u ∷ us) s = let (us', s') = step_at i us s in (u ∷ us', s')

  unfoldable pub run : List ℕ → List (Upgrade W) → Server W → List (Upgrade W) × Server W
  unfolding step_at
  run [] us s = (us, s)
  run (i ∷ order) us s = let (us', s') = step_at i us s in run order us' s'

  abbrev pub place : Upgrade W → ℕ
  place (arriving r id) = 0
  place (shaking r id) = 1
  place (over refused k) = 0

  -- How many handshakes are under way.
  abbrev pub handshakes : List (Upgrade W) → ℕ
  handshakes [] = 0
  handshakes (u ∷ us) = place u + handshakes us

  -- So many places of the semaphore are taken, and that is within its capacity.
  abbrev Holds : ℕ → ℕ → Server W → Type 0
  Holds capacity n s =
      (s.semaphore ≡ some (record { capacity = capacity; used = n })) × (n ≤ capacity)

  step-Holds :
      (capacity k : ℕ) (u : Upgrade W) (s : Server W)
      → Holds capacity (place u + k) s
      → let (u', s') = step u s in Holds capacity (place u' + k) s'
  unfolding step acquire give_back release establish new_connection
  step-Holds capacity k (arriving r id) s h = ground arith
  step-Holds capacity k (shaking r id) s h = ground arith
  step-Holds capacity k (over refused c) s h = h

  Holds-eq :
      (capacity : ℕ) (s : Server W) {n m : ℕ} → Holds capacity n s → n ≡ m → Holds capacity m s
  Holds-eq capacity s h e = rw (← e) h

  step_at-Holds :
      (capacity k i : ℕ) (us : List (Upgrade W)) (s : Server W)
      → Holds capacity (handshakes us + k) s
      → let (us', s') = step_at i us s in Holds capacity (handshakes us' + k) s'
  unfolding step_at
  step_at-Holds capacity k i [] s h = h
  step_at-Holds capacity k zero (u ∷ us) s h =
      Holds-eq capacity (step u s).1
        (step-Holds capacity (handshakes us + k) u s (Holds-eq capacity s h (omega arith)))
        (omega arith)
  step_at-Holds capacity k (suc i) (u ∷ us) s h =
      Holds-eq capacity (step_at i us s).1
        (step_at-Holds capacity (place u + k) i us s (Holds-eq capacity s h (omega arith)))
        (omega arith)

  run-Holds :
      (capacity : ℕ) (order : List ℕ) (us : List (Upgrade W)) (s : Server W)
      → Holds capacity (handshakes us) s
      → let (us', s') = run order us s in Holds capacity (handshakes us') s'
  unfolding run
  run-Holds capacity [] us s h = h
  run-Holds capacity (i ∷ order) us s h =
      let (us', s') = step_at i us s in
      run-Holds capacity order us' s' (
        Holds-eq capacity s' (step_at-Holds capacity 0 i us s (Holds-eq capacity s h (omega arith)))
          (omega arith))

  -- One request by itself makes what `try_web_socket_upgrade` makes in one step.
  step_twice :
      (r : Request W) (id : String) (s : Server W)
      → let (refused, k, s') = try_web_socket_upgrade r id s in
        let (u, s₁) = step (arriving r id) s in step u s₁ ≡ (over refused k, s')
  unfolding step try_web_socket_upgrade acquire give_back release release_at establish
      new_connection
  step_twice r id s = elim (Option-cases s.semaphore) [
    | inl e ↦ elim (Option-cases r.handshake) [
      | inl f ↦ ground (arith, e, f)
      | inr (w, f) ↦ ground (arith, e, f)
    ]
    | inr (sem, e) ↦ elim (Option-cases r.handshake) [
      | inl f ↦ ground (arith, e, f)
      | inr (w, f) ↦ ground (arith, e, f)
    ]
  ]

  -- On a server whose semaphore has as many places taken as handshakes are under way, such as a new
  -- one with no requests: however the steps of any requests for an upgrade are ordered, the places
  -- that are taken are those of the handshakes that are under way, and never more than the capacity;
  -- connections that have been opened hold none. A request that arrives when all are taken is
  -- refused with a 503. And one request by itself comes to what `tryWebSocketUpgrade` comes to as a
  -- whole.
  pub run-limit :
      (capacity : ℕ) (order : List ℕ) (us : List (Upgrade W)) (r : Request W) (id : String)
      (s : Server W)
      → s.semaphore ≡ some (record { capacity = capacity; used = handshakes us })
      → handshakes us ≤ capacity
      → str_eq r.upgrade "websocket" ≡ true
      → let (us', s') = run order us s in
        let (refused, k, alone) = try_web_socket_upgrade r id s' in
        (s'.semaphore ≡ some (record { capacity = capacity; used = handshakes us' }))
        × (handshakes us' ≤ capacity)
        × ((step (arriving r id) s').0
            ≡ (if leb capacity (handshakes us') then over true none else shaking r id))
        × (step (step (arriving r id) s').0 (step (arriving r id) s').1 ≡ (over refused k, alone))
  run-limit capacity order us r id s held room up =
      let (us', s') = run order us s in
      let (held', room') = run-Holds capacity order us s (held, room) in
      (held', room', unfold step acquire in ground (arith, held', up), step_twice r id s')
