-- ===== src/Examples/Ids.antt =====
-- Eight random bytes.
use socket_go.Base.{◌++◌, ◌≡◌, [], ◌∷◌, some, arith}
use socket_go.Socket.{Bytes}
use socket_go.Ids.{generate_id, encode_to_string, generate_id_same}

abbrev random : Bytes
random = 0 ∷ 255 ∷ 16 ∷ 171 ∷ 205 ∷ 9 ∷ 160 ∷ 127 ∷ []

generate_id_same_example :
    ((generate_id (some random) 3).0 ≡ encode_to_string random ++ 45 ∷ 48 ∷ 48 ∷ 48 ∷ 48 ∷ [])
    × ((generate_id (some random) 3).0 ≡ (generate_id (some random) 70000).0)
generate_id_same_example = generate_id_same random 3 70000 (omega arith) (omega arith)
