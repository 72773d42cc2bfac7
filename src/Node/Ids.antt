-- ===== src/Node/Ids.antt =====
-- socket/distributed/node.go: the ids that `SpawnProcess` makes up (lines 172-180 and 672-674). The
-- clock, formatted as `20060102-150405`, is an argument.
use Prim.Native.Nat.{◌/◌, ◌^◌}
use Prim.Native.Char.{Char, code}
use Prim.Native.String.{◌++◌ as cat, count, char_at}
use text.Mathlib.TextLemmas.{nil-append, cons-append, append_cancel_left, append_inj}
use socket_go.Base.{
  ℕ, zero, suc, ◌+◌, ◌-◌, ◌*◌, ◌%◌, ◌<◌, String, ◌≡◌, refl, sym, ap, ◌∙◌, arith, ltb, if◌then◌else◌,
}
use socket_go.Socket.{Result}
use socket_go.Node.{Node, ProcessOptions, spawn_process_with_id, spawn_process_with_id_and_options}

unfoldable pub digit : ℕ → Char
digit d = char_at "0123456789" d

-- `fmt.Sprint` on a number: as many digits as there is fuel for, and the number has no more.
unfoldable pub digits : ℕ → ℕ → String
unfolding digit
digits zero n = ""
digits (suc fuel) n =
    let high = digits fuel (n / 10) in
    if ltb n 10 then String.◌∷◌ (digit n) "" else cat high (String.◌∷◌ (digit (n % 10)) "")

unfoldable sprint : ℕ → String
unfolding digits
sprint n = digits (suc n) n

unfoldable generate_process_id : String → Node → String × Node
unfolding sprint
generate_process_id time n =
    let id = (n.next_process_id + 1) % 2 ^ 64 in
    (cat n.name (cat "-" (cat time (cat "-" (sprint id)))), record n { next_process_id = id })

unfoldable spawn_process : String → ℕ → Node → Result String × Node
unfolding generate_process_id
spawn_process time f n = let (id, n') = generate_process_id time n in spawn_process_with_id id f n'

unfoldable spawn_process_with_options : String → ℕ → ProcessOptions → Node → Result String × Node
unfolding generate_process_id
spawn_process_with_options time f opts n =
    let (id, n') = generate_process_id time n in spawn_process_with_id_and_options id f opts n'

-- Reading a number back.
value : ℕ → String → ℕ
value n String.[] = n
value n (String.◌∷◌ c s) = value (n * 10 + (code c - 48)) s

digit-code : (d : ℕ) → d < 10 → code (digit d) - 48 ≡ d
unfolding digit
digit-code zero h = refl
digit-code (suc zero) h = refl
digit-code (suc (suc zero)) h = refl
digit-code (suc (suc (suc zero))) h = refl
digit-code (suc (suc (suc (suc zero)))) h = refl
digit-code (suc (suc (suc (suc (suc zero))))) h = refl
digit-code (suc (suc (suc (suc (suc (suc zero)))))) h = refl
digit-code (suc (suc (suc (suc (suc (suc (suc zero))))))) h = refl
digit-code (suc (suc (suc (suc (suc (suc (suc (suc zero)))))))) h = refl
digit-code (suc (suc (suc (suc (suc (suc (suc (suc (suc zero))))))))) h = refl
digit-code (suc (suc (suc (suc (suc (suc (suc (suc (suc (suc d)))))))))) h = absurd (omega arith)

value-cat : (n : ℕ) (s t : String) → value n (cat s t) ≡ value (value n s) t
unfolding value
value-cat n String.[] t = ap (value n) (nil-append t)
value-cat n (String.◌∷◌ c s) t =
    ap (value n) (cons-append c s t) ∙ value-cat (n * 10 + (code c - 48)) s t

value-digits : (fuel n : ℕ) → n < fuel → value 0 (digits fuel n) ≡ n
unfolding digits value
value-digits zero n h = absurd (omega arith)
value-digits (suc fuel) n h = ground (
  arith,
  digit-code n,
  digit-code (n % 10) (omega arith),
  value-digits fuel (n / 10),
  value-cat 0 (digits fuel (n / 10)) (String.◌∷◌ (digit (n % 10)) ""),
)

value-sprint : (n : ℕ) → value 0 (sprint n) ≡ n
unfolding sprint
value-sprint n = value-digits (suc n) n (omega arith)

-- Two ids that the node makes up are the same only if both are of the same second and of the same
-- number: with a format that gives texts of one length, as long as the counter has not gone round.
generate_process_id_inj :
    (time time' : String) (n n' : Node)
    → n.name ≡ n'.name
    → count time ≡ count time'
    → n.next_process_id + 1 < 2 ^ 64
    → n'.next_process_id + 1 < 2 ^ 64
    → (generate_process_id time n).0 ≡ (generate_process_id time' n').0
    → (time ≡ time') × (n.next_process_id ≡ n'.next_process_id)
unfolding generate_process_id
generate_process_id_inj time time' n n' name len small small' e =
    let a = (n.next_process_id + 1) % 2 ^ 64 in
    let b = (n'.next_process_id + 1) % 2 ^ 64 in
    let (_, behind_name) = append_inj e (ap count name) in
    let (same_time, behind_time) = append_inj (append_cancel_left "-" _ _ behind_name) len in
    let same : a ≡ b =
      sym (value-sprint a)
      ∙ ap (value 0) (append_cancel_left "-" (sprint a) (sprint b) behind_time)
      ∙ value-sprint b in
    (same_time, omega (arith, same, small, small'))
