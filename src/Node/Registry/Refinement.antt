-- ===== src/Node/Registry/Refinement.antt =====
-- socket/distributed/node.go: the node as a book of processes by id, over any sequence of calls.
use mathlib.Core.Path.{fun_ext}
use socket_go.Base.{
  ℕ, String, ◌≡◌, refl, ap, ◌∙◌, Bool, true, List, [], ◌∷◌, Option, none, some, arith, is_some,
  str_eq, if◌then◌else◌,
}
use socket_go.Socket.{Value, Result, ok, err, Error, process_not_found, node_stopped}
use socket_go.Node.{
  Process, Node, ProcessOptions, default_process_options, new_process, spawn_process_with_id,
  spawn_process_with_id_and_options, install, mailbox_size_of, send, offer, kill, update, stop,
}
use socket_go.Node.Invariant.{Inv, spawn-Inv, spawn_with_options-Inv, send-Inv, kill-Inv}
use socket_go.Node.History.{stop-Inv, stop-stopped}
use socket_go.Node.Registry.{
  find, find-spawn, find-send, find-kill, find-stop, send_error, after_send,
}

-- Whether the node is stopped, and who is registered.
abbrev Book : Type 0
Book = Bool × (String → Option Process)

abbrev pub book : Node → Book
book n = (n.stopped, λ id. find id n)

abbrev pub put : String → Option Process → (String → Option Process) → String → Option Process
put id o entry j = if str_eq id j then o else entry j

pub data Call : Type 0 where
  spawns : String → ℕ → Call
  spawns_with : String → ℕ → ProcessOptions → Call
  sends : String → Value → Call
  kills : String → Call
  stops : Call

error_of : Result String → Option Error
error_of (ok id) = none
error_of (err x) = some x

-- The error of a call, and the node behind it.
unfoldable pub serve : Call → Node → Option Error × Node
unfolding error_of
serve (spawns id f) n = let (r, n') = spawn_process_with_id id f n in (error_of r, n')
serve (spawns_with id f opts) n =
    let (r, n') = spawn_process_with_id_and_options id f opts n in (error_of r, n')
serve (sends to m) n = send to m n
serve (kills id) n = kill id n
serve stops n = (none, stop n)

enlist : String → ℕ → ℕ → Book → Option Error × Book
enlist id f size (stopped, entry) =
    if stopped
    then (some node_stopped, (stopped, entry))
    else (none, (stopped, put id (some (new_process id f size)) entry))

-- The same on the book.
unfoldable pub answer : Call → Book → Option Error × Book
unfolding enlist
answer (spawns id f) b = enlist id f 100 b
answer (spawns_with id f opts) b = enlist id f (mailbox_size_of opts.mailbox_size) b
answer (sends to m) (stopped, entry) =
    (send_error (entry to), (stopped, put to (after_send m (entry to)) entry))
answer (kills id) (stopped, entry) =
    (if is_some (entry id) then none else some process_not_found, (stopped, put id none entry))
answer stops (stopped, entry) = (none, (true, λ j. none))

unfoldable pub serve_all : List Call → Node → List (Option Error) × Node
serve_all [] n = ([], n)
serve_all (c ∷ cs) n = let (e, n') = serve c n in let (es, n'') = serve_all cs n' in (e ∷ es, n'')

unfoldable pub answer_all : List Call → Book → List (Option Error) × Book
answer_all [] b = ([], b)
answer_all (c ∷ cs) b =
    let (e, b') = answer c b in let (es, b'') = answer_all cs b' in (e ∷ es, b'')

serve-Inv : (c : Call) {n : Node} → Inv n → Inv (serve c n).1
unfolding serve
serve-Inv (spawns id f) inv = spawn-Inv id f inv
serve-Inv (spawns_with id f opts) inv = spawn_with_options-Inv id f opts inv
serve-Inv (sends to m) inv = send-Inv to m inv
serve-Inv (kills id) inv = kill-Inv id inv
serve-Inv stops inv = stop-Inv inv

-- One call: its error, whether the node is stopped, and every entry of the book.
serve-answer :
    (c : Call) {n : Node}
    → Inv n
    → let (e, n') = serve c n in
      let (e', b) = answer c (book n) in
      (e ≡ e') × (n'.stopped ≡ b.0) × ((j : String) → find j n' ≡ b.1 j)
unfolding serve answer enlist error_of
serve-answer (spawns id f) {n} inv = (
  unfold spawn_process_with_id in ground arith,
  unfold spawn_process_with_id install in ground arith,
  λ j. ground (arith, find-spawn id j f default_process_options inv),
)
serve-answer (spawns_with id f opts) {n} inv = (
  unfold spawn_process_with_id_and_options in ground arith,
  unfold spawn_process_with_id_and_options install in ground arith,
  λ j. ground (arith, find-spawn id j f opts inv),
)
serve-answer (sends to m) {n} inv = (
  (find-send to to m inv).0,
  unfold send offer update in ground arith,
  λ j. (find-send to j m inv).1,
)
serve-answer (kills id) {n} inv =
    ((find-kill id id inv).0, unfold kill update in ground arith, λ j. (find-kill id j inv).1)
serve-answer stops {n} inv = (refl, stop-stopped n, λ j. find-stop j inv)

book-serve : (c : Call) {n : Node} → Inv n → book (serve c n).1 ≡ (answer c (book n)).1
book-serve c inv =
    let (_, same, every) = serve-answer c inv in
    let entries = fun_ext every in (λ i. (same i, entries i))

-- A node that satisfies its invariant, such as a new one, is a book of processes: over any sequence
-- of spawns, sends, kills and stops, its errors are those that the book gives, and the processes that
-- it has in the end, with what is in their mailboxes, are those of the book. There a spawn enters a
-- process in place of any other of that id, a send puts its message last into that mailbox if there
-- is room, a kill strikes one out, a stop all, and behind it nothing succeeds.
pub serve_all-refines :
    (cs : List Call) {n : Node}
    → Inv n
    → let (es, n') = serve_all cs n in
      let (es', b) = answer_all cs (book n) in (es ≡ es') × (book n' ≡ b)
unfolding serve_all answer_all
serve_all-refines [] inv = (refl, refl)
serve_all-refines (c ∷ cs) {n} inv =
    let (es, rest) = serve_all-refines cs (serve-Inv c inv) in
    let same = book-serve c inv in
    let (e, _, _) = serve-answer c inv in
    (
      ap (λ x. x ∷ (serve_all cs (serve c n).1).0) e
          ∙ ap (◌∷◌ (answer c (book n)).0) (es ∙ ap (λ b. (answer_all cs b).0) same),
      rest ∙ ap (λ b. (answer_all cs b).1) same,
    )
