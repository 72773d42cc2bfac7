-- ===== src/Balancer/Weighted.antt =====
-- socket/distributed/node.go, `Send` of a load-balanced group: the loop over running totals.
use socket_go.Base.{
  ℕ, ◌+◌, ◌≤◌, ◌<◌, ◌≡◌, refl, inl, inr, true, false, List, [], ◌∷◌, ◌++◌, arith, At, here, there,
  All, Bool-cases,
}
use socket_go.Base.Int.{ℤ, pos, negsuc, pos_part, neg_part, ltb_ℤ, ◌+ℤ◌, +ℤ_parts}
use socket_go.Balancer.{Group, Entry, weighted_round_robin, target, pick, total_weight, select}

select-At :
    (selection acc : ℤ) (xs : List Entry)
    → ltb_ℤ selection (total_weight acc xs) ≡ true
    → ltb_ℤ selection acc ≡ false
    → At (select selection acc xs) xs
unfolding select total_weight
select-At selection acc [] below above = absurd (ground arith)
select-At selection acc (p ∷ ps) below above =
    elim (Bool-cases (ltb_ℤ selection (acc +ℤ p.weight))) [
      | inl hit ↦ rw hit here
      | inr miss ↦ rw miss (there (select-At selection (acc +ℤ p.weight) ps below miss))
    ]

-- In a weighted group with a positive total, and a random number below the total: the pick is an
-- entry of the list, never the zero value, and the group does not change, whatever the weights,
-- negative ones included.
pub pick-weighted :
    (r : ℕ) (g : Group)
    → g.strategy ≡ weighted_round_robin
    → ltb_ℤ (pos r) (total_weight (pos 0) g.process_list) ≡ true
    → (e : Entry) × (pick r g ≡ (target e, g)) × At e g.process_list
unfolding pick total_weight
pick-weighted r g s below = (
  select (pos r) (pos 0) g.process_list,
  ground (arith, s),
  select-At (pos r) (pos 0) g.process_list below (ground arith),
)

abbrev IsNonneg : Entry → Type 0
IsNonneg e = neg_part e.weight ≡ 0

total_weight_mono :
    (acc : ℤ) (xs : List Entry)
    → All IsNonneg xs
    → pos_part acc + neg_part (total_weight acc xs) ≤ pos_part (total_weight acc xs) + neg_part acc
unfolding total_weight
total_weight_mono acc [] h = omega arith
total_weight_mono acc (p ∷ ps) h =
    omega (arith, total_weight_mono (acc +ℤ p.weight) ps h.1, +ℤ_parts acc p.weight, h.0)

select-share :
    (selection acc : ℤ) (before : List Entry) (e : Entry) (after : List Entry)
    → All IsNonneg before
    → ltb_ℤ selection (total_weight acc before) ≡ false
    → ltb_ℤ selection (total_weight acc before +ℤ e.weight) ≡ true
    → select selection acc (before ++ e ∷ after) ≡ e
unfolding select total_weight
select-share selection acc [] e after h above below = rw below
select-share selection acc (p ∷ before) e after h above below = ground (
  arith,
  total_weight_mono (acc +ℤ p.weight) before h.1,
  select-share selection (acc +ℤ p.weight) before e after h.1 above below,
)

one_sided : (z : ℤ) → neg_part z ≤ pos_part z → neg_part z ≡ 0
one_sided (pos n) h = refl
one_sided (negsuc n) h = absurd (omega arith)

positive : (z : ℤ) → 0 < pos_part z → neg_part z ≡ 0
positive z h = ground (arith, one_sided z)

-- With no negative weight before it, an entry is picked by every number from the sum of the weights
-- before it up to that sum and its own weight.
select-interval :
    (r : ℕ) (before : List Entry) (e : Entry) (after : List Entry)
    → All IsNonneg before
    → pos_part (total_weight (pos 0) before) ≤ r
    → r < pos_part (total_weight (pos 0) before) + pos_part e.weight
    → select (pos r) (pos 0) (before ++ e ∷ after) ≡ e
select-interval r before e after h low high =
    let sum = total_weight (pos 0) before in
    let base : neg_part sum ≡ 0 =
      one_sided sum (omega (arith, total_weight_mono (pos 0) before h)) in
    select-share (pos r) (pos 0) before e after h (ground (arith, base))
      (ground (arith, base, +ℤ_parts sum e.weight, positive e.weight))
