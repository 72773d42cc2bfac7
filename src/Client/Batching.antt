-- ===== src/Client/Batching.antt =====
-- socket/client.go: `batchProcessingLoop` and `processBatch` (lines 292-351), and what a batch holds.
use socket_go.Base.{
  ℕ, ◌+◌, ◌≤◌, ◌<◌, ◌≡◌, refl, sym, ap, ◌∙◌, List, [], ◌∷◌, ◌++◌, Option, none, some, arith, length,
  length-append, ltb, All, if◌then◌else◌,
}
use mathlib.Core.List.{append-nil, append_assoc}
use socket_go.Base.Int.{ℤ, pos, ltb_ℤ}
use socket_go.Socket.{Error, Message, Bytes}
use socket_go.Socket.Impl.{Codec}

-- What the loop's `select` takes: a message from the channel, or a tick.
pub data Round : Type 0 where
  message : Message → Round
  tick : Round

-- What `processBatch` is called with in this round, if it is, and the batch that is left.
unfoldable pub step : ℤ → Round → List Message → List (List Message) × List Message
step batch_size (message m) batch =
    let batch' = batch ++ m ∷ [] in
    if ltb_ℤ (pos (length batch')) batch_size then ([], batch') else (batch' ∷ [], [])
step batch_size tick batch = if ltb 0 (length batch) then (batch ∷ [], []) else ([], batch)

unfoldable pub run : ℤ → List Round → List Message → List (List Message) × List Message
unfolding step
run batch_size [] batch = ([], batch)
run batch_size (r ∷ rs) batch =
    let (out, batch') = step batch_size r batch in
    let (more, rest) = run batch_size rs batch' in (out ++ more, rest)

-- The loop of `batchProcessingLoop`, which ends at once where batches are off.
unfoldable pub batch_processing_loop : ℤ → List Round → List (List Message) × List Message
unfolding run
batch_processing_loop batch_size rs =
    if ltb_ℤ (pos 1) batch_size then run batch_size rs [] else ([], [])

-- The first loop of `processBatch`: what encodes, in order, and how many errors were triggered.
unfoldable pub encode : Codec → List Message → List Bytes × ℕ
encode codec [] = ([], 0)
encode codec (m ∷ ms) =
    let (out, errors) = encode codec ms in
    elim (codec.marshal m) [ none ↦ (out, errors + 1) | some b ↦ (b ∷ out, errors) ]

-- The last loop: messages go out one by one until one fails.
unfoldable pub send_each :
    {T : Type 0} → (Bytes → T → Option Error × T) → List Bytes → T → Option Error × T
send_each send [] t = (none, t)
send_each send (b ∷ bs) t =
    let (e, t') = send b t in elim e [ some x ↦ (some x, t') | none ↦ send_each send bs t' ]

-- `BatchSend` of a transport that has it, or one `Send` after the other.
unfoldable pub send_batch :
    {T : Type 0}
    → (Bytes → T → Option Error × T)
    → Option (List Bytes → T → Option Error × T)
    → List Bytes
    → T
    → Option Error × T
unfolding send_each
send_batch send none bs t = send_each send bs t
send_batch send (some all) bs t = if ltb 0 (length bs) then all bs t else send_each send bs t

-- How many `error` events were triggered for messages that do not encode, and the error that
-- `handleDisconnect` is called with.
unfoldable pub process_batch :
    {T : Type 0}
    → Codec
    → (Bytes → T → Option Error × T)
    → Option (List Bytes → T → Option Error × T)
    → List Message
    → T
    → ℕ × Option Error × T
unfolding encode send_batch
process_batch codec send batch ms t =
    let (bs, errors) = encode codec ms in
    let (e, t') = send_batch send batch bs t in (errors, e, t')

unfoldable pub concat : List (List Message) → List Message
concat [] = []
concat (ms ∷ batches) = ms ++ concat batches

-- What came out of the channel.
unfoldable pub received : List Round → List Message
received [] = []
received (message m ∷ rs) = m ∷ received rs
received (tick ∷ rs) = received rs

concat-append : (xs ys : List (List Message)) → concat (xs ++ ys) ≡ concat xs ++ concat ys
unfolding concat
concat-append [] ys = refl
concat-append (ms ∷ xs) ys =
    ap (◌++◌ ms) (concat-append xs ys) ∙ sym (append_assoc ms (concat xs) (concat ys))

step-concat :
    (batch_size : ℤ) (r : Round) (batch : List Message)
    → let (out, batch') = step batch_size r batch in
      concat out ++ batch' ≡ batch ++ received (r ∷ [])
unfolding step concat received
step-concat batch_size (message m) batch = ground (arith, append-nil (batch ++ m ∷ []))
step-concat batch_size tick batch = ground (arith, append-nil batch)

received-cons : (r : Round) (rs : List Round) → received (r ∷ rs) ≡ received (r ∷ []) ++ received rs
unfolding received
received-cons (message m) rs = refl
received-cons tick rs = refl

run-concat :
    (batch_size : ℤ) (rs : List Round) (batch : List Message)
    → let (out, rest) = run batch_size rs batch in concat out ++ rest ≡ batch ++ received rs
unfolding run
run-concat batch_size [] batch = unfold concat received in sym (append-nil batch)
run-concat batch_size (r ∷ rs) batch =
    let (out, batch') = step batch_size r batch in
    let (more, rest) = run batch_size rs batch' in
    ap (λ xs. xs ++ rest) (concat-append out more)
    ∙ append_assoc (concat out) (concat more) rest
    ∙ ap (◌++◌ (concat out)) (run-concat batch_size rs batch')
    ∙ sym (append_assoc (concat out) batch' (received rs))
    ∙ ap (λ xs. xs ++ received rs) (step-concat batch_size r batch)
    ∙ append_assoc batch (received (r ∷ [])) (received rs)
    ∙ ap (◌++◌ batch) (sym (received-cons r rs))

-- A batch that goes out is not empty and not above the size.
abbrev IsFit : ℕ → List Message → Type 0
IsFit size ms = (0 < length ms) × (length ms ≤ size)

run-IsFit :
    (size : ℕ) (rs : List Round) (batch : List Message)
    → length batch < size
    → All (IsFit size) (run (pos size) rs batch).0 × (length (run (pos size) rs batch).1 < size)
unfolding run step
run-IsFit size [] batch h = (tt, h)
run-IsFit size (message m ∷ rs) batch h = ground (
  arith,
  length-append batch (m ∷ []),
  run-IsFit size rs [] (omega arith),
  run-IsFit size rs (batch ++ m ∷ []),
)
run-IsFit size (tick ∷ rs) batch h =
    ground (arith, run-IsFit size rs [] (omega arith), run-IsFit size rs batch h)

-- With batches of more than one message: the batches that go out, and then the one that is being
-- filled, are the messages in the order in which they came; every batch that goes out holds between
-- one and `batchSize` messages, and the one being filled fewer than that.
pub batch_processing_loop_lem :
    (size : ℕ) (rs : List Round)
    → 1 < size
    → let (out, rest) = batch_processing_loop (pos size) rs in
      (concat out ++ rest ≡ received rs) × All (IsFit size) out × (length rest < size)
unfolding batch_processing_loop
batch_processing_loop_lem size rs h =
    ground (arith, run-concat (pos size) rs [], run-IsFit size rs [] (omega arith))
