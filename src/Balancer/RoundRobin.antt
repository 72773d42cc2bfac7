-- ===== src/Balancer/RoundRobin.antt =====
-- socket/distributed/node.go, `Send` of a load-balanced group: the order of round robin.
use socket_go.Base.{
  ℕ, zero, suc, ◌+◌, ◌%◌, ◌≤◌, ◌<◌, String, ◌≡◌, refl, ap, ◌∙◌, List, [], ◌∷◌, none, some, arith,
  length, get_elem?,
}
use native.Mathlib.Nat.{mod-lt, mod-eq_of_lt, mod-add-mod}
use socket_go.Socket.{Value}
use socket_go.Cluster.{Cluster}
use socket_go.Balancer.{
  Group, Entry, round_robin, pick, of_index, panic, send_group, remove_process, remove_first,
}

-- The index is within the list, or both are empty.
abbrev pub IsValid : Group → Type 0
IsValid g = (g.next_index < length g.process_list)

pub get_elem?-lt :
    (xs : List Entry) (i : ℕ) → i < length xs → (e : Entry) × (get_elem? xs i ≡ some e)
get_elem?-lt [] i h = absurd (omega arith)
get_elem?-lt (x ∷ xs) zero h = (x, refl)
get_elem?-lt (x ∷ xs) (suc i) h = get_elem?-lt xs i (omega arith)

get_elem?-ge : (xs : List Entry) (i : ℕ) → length xs ≤ i → get_elem? xs i ≡ none
get_elem?-ge [] i h = refl
get_elem?-ge (x ∷ xs) zero h = absurd (omega arith)
get_elem?-ge (x ∷ xs) (suc i) h = get_elem?-ge xs i (omega arith)

-- The group after so many picks; round robin does not read the random numbers.
unfoldable pub after : List ℕ → Group → Group
after [] g = g
after (r ∷ rs) g = after rs (pick r g).1

pub pick-round_robin :
    (r : ℕ) (g : Group)
    → g.strategy ≡ round_robin
    → IsValid g
    → pick r g ≡ (
      of_index (get_elem? g.process_list g.next_index),
      record g { next_index = (g.next_index + 1) % length g.process_list },
    )
unfolding pick
pick-round_robin r g s v =
    let (e, h) = get_elem?-lt g.process_list g.next_index v in ground (arith, h, s)

-- In a round-robin group whose index is within its list, the k-th pick from now takes the entry `k`
-- places further on, around the list: everybody in turn, and the list stays as it is.
round_robin-turn :
    (rs : List ℕ) (r : ℕ) (g : Group)
    → g.strategy ≡ round_robin
    → IsValid g
    → let place = (g.next_index + length rs) % length g.process_list in
      ((pick r (after rs g)).0 ≡ of_index (get_elem? g.process_list place))
      × ((after rs g).next_index ≡ place)
      × ((after rs g).process_list ≡ g.process_list)
unfolding after
round_robin-turn [] r g s v =
    let here : (g.next_index + 0) % length g.process_list ≡ g.next_index =
      ground (arith, mod-eq_of_lt v) in
    ground (arith, here, pick-round_robin r g s v)
round_robin-turn (r' ∷ rs) r g s v =
    let n = length g.process_list in
    let g' : Group = record g { next_index = (g.next_index + 1) % n } in
    let on : (pick r' g).1 ≡ g' = ground (arith, pick-round_robin r' g s v) in
    let rest = round_robin-turn rs r g' s (mod-lt (g.next_index + 1) (omega (arith, v))) in
    let place : ((g.next_index + 1) % n + length rs) % n ≡ (g.next_index + suc (length rs)) % n =
      mod-add-mod (g.next_index + 1) n (length rs) ∙ ap (λ x. x % n) (omega arith) in
    ground (arith, rest, on, place)

-- In a round-robin group, where a removal leaves some entries but not one at the index, the next
-- send runs out of the list and panics: the index is not moved.
pub remove_process-panics :
    (r : ℕ) (m : Value) (node_id process_id : String) (g : Group) (c : Cluster)
    → g.strategy ≡ round_robin
    → 0 < length (remove_process node_id process_id g).process_list
    → length (remove_process node_id process_id g).process_list ≤ g.next_index
    → (send_group r m (remove_process node_id process_id g) c).0 ≡ panic
unfolding send_group remove_process
remove_process-panics r m node_id process_id g c s some_left short =
    ground
      (arith, s, get_elem?-ge (remove_first node_id process_id g.process_list) g.next_index short)
