-- ===== src/Client/Reconnect.antt =====
-- socket/client.go: `reconnect` (lines 196-218). The answers of its calls of `Connect` are an input,
-- as far as they go; the client's context is not cancelled meanwhile.
use socket_go.Base.{
  ℕ, zero, suc, ◌+◌, ◌*◌, ◌≤◌, ◌≡◌, refl, Bool, false, ◌||◌, not, List, [], ◌∷◌, arith, length, ltb,
  All, if◌then◌else◌,
}
use socket_go.Base.Int.{ℤ, pos, ltb_ℤ}

-- The condition of the loop.
unfoldable goes_on : ℤ → ℕ → Bool
goes_on limit attempts = not (ltb_ℤ (pos 0) limit) || ltb_ℤ (pos attempts) limit

unfoldable next_delay : ℕ → ℕ → ℕ
next_delay max delay = if ltb max (delay * 2) then max else delay * 2

-- The delays that are waited for, one before each call; `true` is a call that succeeds.
unfoldable pub reconnect : ℤ → ℕ → ℕ → ℕ → List Bool → List ℕ
unfolding goes_on next_delay
reconnect limit max delay attempts [] = []
reconnect limit max delay attempts (success ∷ answers) =
    let rest = reconnect limit max (next_delay max delay) (attempts + 1) answers in
    if goes_on limit attempts then delay ∷ (if success then [] else rest) else []

reconnect-length :
    (n max delay attempts : ℕ) (answers : List Bool)
    → attempts ≤ suc n
    → attempts + length (reconnect (pos (suc n)) max delay attempts answers) ≤ suc n
unfolding reconnect goes_on
reconnect-length n max delay attempts [] h = omega arith
reconnect-length n max delay attempts (success ∷ answers) h =
    ground (arith, reconnect-length n max (next_delay max delay) (attempts + 1) answers)

reconnect-All :
    (limit : ℤ) (max delay attempts : ℕ) (answers : List Bool)
    → delay ≤ max
    → All (λ d. d ≤ max) (reconnect limit max delay attempts answers)
unfolding reconnect goes_on
reconnect-All limit max delay attempts [] h = tt
reconnect-All limit max delay attempts (success ∷ answers) h =
    let next : next_delay max delay ≤ max = unfold next_delay in ground arith in
    ground (arith, reconnect-All limit max (next_delay max delay) (attempts + 1) answers next)

unfoldable failures : ℕ → List Bool
failures zero = []
failures (suc n) = false ∷ failures n

reconnect-failures :
    (k max delay attempts : ℕ) → length (reconnect (pos 0) max delay attempts (failures k)) ≡ k
unfolding reconnect goes_on failures
reconnect-failures zero max delay attempts = refl
reconnect-failures (suc k) max delay attempts =
    ground (arith, reconnect-failures k max (next_delay max delay) (attempts + 1))

-- With a positive limit, `Connect` is called that often at most; with the limit 0 it is called
-- again after every failure; and with a positive limit no wait is longer than the greatest delay,
-- if the first one is not.
reconnect_lem :
    (n k max delay : ℕ) (answers : List Bool)
    → delay ≤ max
    → (length (reconnect (pos (suc n)) max delay 0 answers) ≤ suc n)
      × (length (reconnect (pos 0) max delay 0 (failures k)) ≡ k)
      × All (λ d. d ≤ max) (reconnect (pos (suc n)) max delay 0 answers)
reconnect_lem n k max delay answers h = (
  omega (arith, reconnect-length n max delay 0 answers (omega arith)),
  reconnect-failures k max delay 0,
  reconnect-All (pos (suc n)) max delay 0 answers h,
)
