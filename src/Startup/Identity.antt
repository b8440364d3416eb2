-- ===== src/Startup/Identity.antt =====
-- `makeId` of main.go.
pub mod Distinct
use webrtc_cdn.Prelude.{
  ℕ, ◌+◌, ◌*◌, ◌-◌, ◌/◌, ◌%◌, ◌<◌, List, [], ◌∷◌, ◌++◌, Option, none, some, Str, ltb, if◌then◌else◌,
}

-- A digit of `encoding/hex`.
unfoldable pub hex_digit : ℕ → ℕ
hex_digit n = if ltb n 10 then b'0' + n else b'a' + (n - 10)

-- `hex.EncodeToString`
unfoldable pub encode_to_string : List ℕ → Str
unfolding hex_digit
encode_to_string [] = []
encode_to_string (b ∷ bytes) = hex_digit (b / 16) ∷ hex_digit (b % 16) ∷ encode_to_string bytes

-- `rand.Read` of a slice of a length: the bytes, or an error.
abbrev pub Read : Type 0
Read = ℕ → Option (List ℕ)

-- `makeId`, and the ID that `main` gives the node: the empty text where it failed.
unfoldable pub make_id : Read → ℕ → Option Str
unfolding encode_to_string
make_id read n = elim (read n) [ none ↦ none | some bytes ↦ some (encode_to_string bytes) ]

unfoldable pub node_id : Read → Str
unfolding make_id
node_id read = elim (make_id read 20) [ none ↦ [] | some id ↦ id ]
