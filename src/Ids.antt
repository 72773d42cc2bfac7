-- ===== src/Ids.antt =====
-- socket/utils.go: the ids of connections, as texts of ASCII codes. What `crypto/rand` gives is an
-- argument: eight bytes, or an error.
use Prim.Native.Nat.{◌/◌, ◌^◌}
use socket_go.Base.{
  ℕ, ◌+◌, ◌-◌, ◌*◌, ◌%◌, ◌<◌, ◌≡◌, refl, sym, ap, ◌∙◌, List, [], ◌∷◌, ◌++◌, Option, none, some,
  arith, ltb, length, take, All, if◌then◌else◌,
}
use socket_go.Socket.{Bytes}

-- `hex.EncodeToString`.
unfoldable hex_digit : ℕ → ℕ
hex_digit d = if ltb d 10 then 48 + d else 87 + d

unfoldable pub encode_to_string : Bytes → List ℕ
unfolding hex_digit
encode_to_string [] = []
encode_to_string (b ∷ bs) = hex_digit (b / 16) ∷ hex_digit (b % 16) ∷ encode_to_string bs

-- The eight bytes of the counter, the highest first.
unfoldable counter_bytes : ℕ → Bytes
counter_bytes n =
    n / 2 ^ 56 % 256
    ∷ n / 2 ^ 48 % 256
    ∷ n / 2 ^ 40 % 256
    ∷ n / 2 ^ 32 % 256
    ∷ n / 2 ^ 24 % 256
    ∷ n / 2 ^ 16 % 256
    ∷ n / 2 ^ 8 % 256
    ∷ n % 256
    ∷ []

-- The id, and the global counter behind it.
unfoldable pub generate_id : Option Bytes → ℕ → List ℕ × ℕ
unfolding encode_to_string counter_bytes
generate_id random id_counter =
    let counter = (id_counter + 1) % 2 ^ 64 in
    elim random [
      | none ↦ (encode_to_string (counter_bytes counter), counter)
      | some id ↦
          (encode_to_string id ++ 45 ∷ take 4 (encode_to_string (counter_bytes counter)), counter)
    ]

-- Reading it back.
digit_of : ℕ → ℕ
digit_of c = if ltb c 58 then c - 48 else c - 87

unfoldable pub decode : List ℕ → Bytes
unfolding digit_of
decode [] = []
decode (a ∷ []) = []
decode (a ∷ b ∷ rest) = (digit_of a * 16 + digit_of b) ∷ decode rest

unfoldable number_of : ℕ → Bytes → ℕ
number_of high [] = high
number_of high (b ∷ bs) = number_of (high * 256 + b) bs

digit_of-hex_digit : (d : ℕ) → d < 16 → digit_of (hex_digit d) ≡ d
unfolding digit_of hex_digit
digit_of-hex_digit d h = ground arith

abbrev IsByte : ℕ → Type 0
IsByte b = b < 256

decode-encode_to_string : (bs : Bytes) → All IsByte bs → decode (encode_to_string bs) ≡ bs
unfolding decode encode_to_string
decode-encode_to_string [] h = refl
decode-encode_to_string (b ∷ bs) h = ground (
  arith,
  decode-encode_to_string bs h.1,
  digit_of-hex_digit (b / 16) (omega (arith, h.0)),
  digit_of-hex_digit (b % 16) (omega arith),
)

counter_bytes-All : (n : ℕ) → All IsByte (counter_bytes n)
unfolding counter_bytes
counter_bytes-All n = ground arith

number_of-counter_bytes : (n : ℕ) → n < 2 ^ 64 → number_of 0 (counter_bytes n) ≡ n
unfolding number_of counter_bytes
number_of-counter_bytes n h = omega arith

length-encode_to_string : (bs : Bytes) → length (encode_to_string bs) ≡ 2 * length bs
unfolding encode_to_string
length-encode_to_string [] = omega arith
length-encode_to_string (b ∷ bs) = omega (arith, length-encode_to_string bs)

take-append : (xs ys : List ℕ) → take (length xs) (xs ++ ys) ≡ xs
take-append [] ys = refl
take-append (x ∷ xs) ys = ap (◌∷◌ x) (take-append xs ys)

-- An id gives back what it was made of: its first sixteen digits are the random bytes, all eight of
-- them; without random bytes the digits are the counter, which is one more than before.
generate_id-decode :
    (random : Bytes) (counter : ℕ)
    → length random ≡ 8
    → All IsByte random
    → counter + 1 < 2 ^ 64
    → (decode (take 16 (generate_id (some random) counter).0) ≡ random)
      × (number_of 0 (decode (generate_id none counter).0) ≡ counter + 1)
unfolding generate_id
generate_id-decode random counter len bytes small = (
  ground (
    arith,
    length-encode_to_string random,
    take-append (encode_to_string random)
        (45 ∷ take 4 (encode_to_string (counter_bytes ((counter + 1) % 2 ^ 64)))),
    decode-encode_to_string random bytes,
  ),
  ground (
    arith,
    decode-encode_to_string (counter_bytes ((counter + 1) % 2 ^ 64))
        (counter_bytes-All ((counter + 1) % 2 ^ 64)),
    number_of-counter_bytes ((counter + 1) % 2 ^ 64),
  ),
)

suffix_zero :
    (n : ℕ)
    → n + 1 < 2 ^ 48
    → take 4 (encode_to_string (counter_bytes ((n + 1) % 2 ^ 64))) ≡ 48 ∷ 48 ∷ 48 ∷ 48 ∷ []
unfolding encode_to_string counter_bytes hex_digit
suffix_zero n h =
    let high : (n + 1) % 2 ^ 64 / 2 ^ 56 % 256 ≡ 0 = omega arith in
    let low : (n + 1) % 2 ^ 64 / 2 ^ 48 % 256 ≡ 0 = omega arith in rw (high, low) refl

-- Below 2^48 calls, the counter's part of every id is "-0000": two calls with the same random bytes
-- give the same id, whatever the counter has come to.
pub generate_id_same :
    (random : Bytes) (a b : ℕ)
    → a + 1 < 2 ^ 48
    → b + 1 < 2 ^ 48
    → ((generate_id (some random) a).0 ≡ encode_to_string random ++ 45 ∷ 48 ∷ 48 ∷ 48 ∷ 48 ∷ [])
      × ((generate_id (some random) a).0 ≡ (generate_id (some random) b).0)
unfolding generate_id
generate_id_same random a b ha hb = (
  ap (λ xs. encode_to_string random ++ 45 ∷ xs) (suffix_zero a ha),
  ap (λ xs. encode_to_string random ++ 45 ∷ xs) (suffix_zero a ha ∙ sym (suffix_zero b hb)),
)
