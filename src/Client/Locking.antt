-- ===== src/Client/Locking.antt =====
-- socket/client.go: which of the client's methods return.
use socket_go.Base.{
  ◌∙◌, ◌+◌, String, ◌≡◌, refl, inl, inr, true, false, List, [], ◌∷◌, Option, none, some, arith,
  if◌then◌else◌, Option-cases,
}
use socket_go.Base.Map.{delete, insert, keys}
use socket_go.Socket.{Error, Value, Event, str}
use socket_go.Client.{
  Client, Mutex, ClientTransport, Run, done, waits, fatal, lock, unlock, r_lock, r_unlock,
}
use socket_go.Client.Methods.{
  enqueue, send, send_locked, ask, rejoin, connect, connect_locked, join, leave,
}

-- Nobody holds the client's lock.
abbrev pub free : Mutex
free = record { writer = false; readers = 0 }

-- Its writer is at work; a reader is.
abbrev held : Mutex
held = record { writer = true; readers = 0 }

abbrev shared : Mutex
shared = record { writer = false; readers = 1 }

module _ {T A : Type 0} where
  lock-free :
      (k : Client T → Run T A) (c : Client T)
      → c.mutex ≡ free
      → lock k c ≡ k (record c { mutex = held })
  unfolding lock
  lock-free k c h = rw h refl

  unlock-held :
      (k : Client T → Run T A) (c : Client T)
      → c.mutex ≡ held
      → unlock k c ≡ k (record c { mutex = free })
  unfolding unlock
  unlock-held k c h = rw h refl

  unlock-free : (k : Client T → Run T A) (c : Client T) → c.mutex ≡ free → unlock k c ≡ fatal
  unfolding unlock
  unlock-free k c h = rw h refl

  r_lock-held : (k : Client T → Run T A) (c : Client T) → c.mutex ≡ held → r_lock k c ≡ waits
  unfolding r_lock
  r_lock-held k c h = rw h refl

  r_lock-free :
      (k : Client T → Run T A) (c : Client T)
      → c.mutex ≡ free
      → r_lock k c ≡ k (record c { mutex = shared })
  unfolding r_lock
  r_lock-free k c h = rw h refl

  r_unlock-shared :
      (k : Client T → Run T A) (c : Client T)
      → c.mutex ≡ shared
      → r_unlock k c ≡ k (record c { mutex = free })
  unfolding r_unlock
  r_unlock-shared k c h = rw h refl

enqueue-mutex :
    {T : Type 0} (event : Event) (v : Value) (c : Client T) → (enqueue event v c).1.mutex ≡ c.mutex
unfolding enqueue
enqueue-mutex event v c = ground arith

-- A `Send` that finds the lock free goes on with the lock free.
send-free :
    {T A : Type 0} (event : Event) (v : Value) (k : Option Error → Client T → Run T A)
    (c : Client T)
    → c.mutex ≡ free
    → (e : Option Error) × (c' : Client T) × (c'.mutex ≡ free) × (send event v k c ≡ k e c')
unfolding send send_locked
send-free event v k c h =
    let reading = record c { mutex = shared } in
    let sent = enqueue event v reading in
    (
      sent.0,
      record sent.1 { mutex = free },
      refl,
      r_lock-free (send_locked event v k) c h
          ∙ r_unlock-shared (k sent.0) sent.1 (enqueue-mutex event v reading),
    )

-- The rooms are asked for again, and then the lock is free.
rejoin-free :
    {T A : Type 0} (rooms : List String) (k : Client T → Run T A) (c : Client T)
    → c.mutex ≡ free
    → (c' : Client T) × (c'.mutex ≡ free) × (rejoin rooms k c ≡ k c')
unfolding rejoin
rejoin-free [] k c h = (c, h, refl)
rejoin-free (room ∷ rooms) k c h =
    let (e, c₁, h₁, same) = send-free "join" (str room) (λ e. rejoin rooms k) c h in
    let (c₂, h₂, rest) = rejoin-free rooms k c₁ h₁ in (c₂, h₂, same ∙ rest)

-- The two ways on behind the transport's answer.
connected_fatal :
    {T : Type 0} (rooms : List String) (c : Client T)
    → c.mutex ≡ held
    → unlock {A = Option Error}
        (λ d. rejoin rooms (unlock (done none)) (record d { loops = d.loops + 1 }))
        c
      ≡ fatal
connected_fatal rooms c h =
    let (c', h', same) =
      rejoin-free rooms (unlock (done none)) (record c { mutex = free; loops = c.loops + 1 })
        refl in
    unlock-held (λ d. rejoin rooms (unlock (done none)) (record d { loops = d.loops + 1 })) c h
    ∙ same
    ∙ unlock-free (done none) c' h'

refused_fatal :
    {T : Type 0} (x : Error) (c : Client T)
    → c.mutex ≡ held
    → unlock (unlock (done (some x))) c ≡ fatal
refused_fatal x c h =
    unlock-held (unlock (done (some x))) c h
    ∙ unlock-free (done (some x)) (record c { mutex = free }) refl

connect_locked_fatal :
    {T : Type 0} (transport : ClientTransport T) (c : Client T)
    → c.mutex ≡ held
    → c.connected ≡ false
    → connect_locked transport c ≡ fatal
unfolding connect_locked
connect_locked_fatal transport c h off = elim (Option-cases (transport.connect c.conn).0) [
  | inl e ↦ ground (
    arith,
    connected_fatal (keys c.rooms)
        (record c { conn = (transport.connect c.conn).1; connected = true }) h,
  )
  | inr (x, e) ↦
      ground (arith, refused_fatal x (record c { conn = (transport.connect c.conn).1 }) h)
]

-- `Connect` on a client whose lock is free and that is not connected ends the program, whatever the
-- transport answers: the lock is given back by hand, and then again by the deferred `Unlock`.
pub connect_fatal :
    {T : Type 0} (transport : ClientTransport T) (c : Client T)
    → c.mutex ≡ free
    → c.connected ≡ false
    → connect transport c ≡ fatal
unfolding connect
connect_fatal transport c h off =
    lock-free (connect_locked transport) c h
    ∙ connect_locked_fatal transport (record c { mutex = held }) refl off

ask-held :
    {T : Type 0} (event : Event) (room : String) (c : Client T)
    → c.mutex ≡ held
    → ask event room c ≡ (if c.connected then waits else done tt (record c { mutex = free }))
unfolding ask send
ask-held event room c h = ground (
  arith,
  r_lock-held (send_locked event (str room) (λ e. unlock (done tt))) c h,
  unlock-held (done tt) c h,
)

-- With the client's lock free, `Join` and `Leave` on a connected client never return: they hold the
-- lock that their own `Send` waits for. On a client that is not connected they return, with the
-- room entered or left.
pub join_waits :
    {T : Type 0} (room : String) (c : Client T)
    → c.mutex ≡ free
    → (join room c ≡ (
        if c.connected
        then waits
        else done tt (record c { rooms = insert room true c.rooms; mutex = free })))
      × (leave room c ≡ (
          if c.connected
          then waits
          else done tt (record c { rooms = delete room c.rooms; mutex = free })))
unfolding join leave
join_waits room c h = (
  lock-free (λ d. ask "join" room (record d { rooms = insert room true d.rooms })) c h
      ∙ ask-held "join" room (record c { mutex = held; rooms = insert room true c.rooms }) refl,
  lock-free (λ d. ask "leave" room (record d { rooms = delete room d.rooms })) c h
      ∙ ask-held "leave" room (record c { mutex = held; rooms = delete room c.rooms }) refl,
)
