-- ===== src/Startup/Identity/Distinct.antt =====
-- The IDs of nodes.
use webrtc_cdn.Prelude.{
  ℕ, ◌*◌, ◌/◌, ◌%◌, ◌<◌, List, [], ◌∷◌, some, ◌≡◌, ◌≢◌, ◌↔◌, refl, ap, ap₂, arith, length,
}
use webrtc_cdn.Messages.Redis.{redis_broadcast_channel}
use webrtc_cdn.Startup.Identity.{Read, hex_digit, encode_to_string, make_id, node_id}

-- Each is a byte.
abbrev pub AllBytes : List ℕ → Type 0
AllBytes [] = Unit {0}
AllBytes (b ∷ bytes) = (b < 256) × AllBytes bytes

hex_digit-injective : (a b : ℕ) → a < 16 → b < 16 → hex_digit a ≡ hex_digit b → a ≡ b
unfolding hex_digit
hex_digit-injective a b p q e = ground arith

encode-injective :
    (a b : List ℕ) → AllBytes a → AllBytes b → encode_to_string a ≡ encode_to_string b → a ≡ b
unfolding encode_to_string
encode-injective [] [] p q e = refl
encode-injective [] (y ∷ b) p q e = cc
encode-injective (x ∷ a) [] p q e = cc
encode-injective (x ∷ a) (y ∷ b) p q e =
    let high = hex_digit-injective (x / 16) (y / 16) (omega arith) (omega arith) (cc) in
    let low = hex_digit-injective (x % 16) (y % 16) (omega arith) (omega arith) (cc) in
    ap₂ ◌∷◌ (omega (arith, high, low)) (encode-injective a b p.1 q.1 (cc))

length-encode : (a : List ℕ) → length (encode_to_string a) ≡ 2 * length a
unfolding encode_to_string
length-encode [] = refl
length-encode (x ∷ a) = omega (arith, length-encode a)

-- What `rand.Read` documents: it fills the whole slice with bytes, or fails.
abbrev pub Fills : Read → Type 0
Fills read = (n : ℕ) (bytes : List ℕ) → read n ≡ some bytes → (length bytes ≡ n) × AllBytes bytes

node_id-drawn :
    (read : Read) (bytes : List ℕ) → read 20 ≡ some bytes → node_id read ≡ encode_to_string bytes
unfolding node_id make_id
node_id-drawn read bytes e = rw (node_id, make_id, e) refl

-- Where `rand.Read` fills the slices of two nodes, the ID of a node has 40 characters, its channel is
-- not the one that all nodes listen on, and the two nodes have the same channel exactly when both drew
-- the same bytes.
pub node_id_distinct :
    (read_a read_b : Read) (a b : List ℕ)
    → Fills read_a
    → Fills read_b
    → read_a 20 ≡ some a
    → read_b 20 ≡ some b
    → (length (node_id read_a) ≡ 40)
      × (node_id read_a ≢ redis_broadcast_channel)
      × ((node_id read_a ≡ node_id read_b) ↔ (a ≡ b))
node_id_distinct read_a read_b a b fill_a fill_b drew_a drew_b =
    let (n, p) = fill_a 20 a drew_a in
    let (m, q) = fill_b 20 b drew_b in
    rw (node_id-drawn read_a a drew_a, node_id-drawn read_b b drew_b)
      (
        omega (arith, length-encode a, n),
        (λ e. omega (arith, length-encode a, n, ap (length {A = ℕ}) e)),
        ((λ e. encode-injective a b p q e), λ e. ap encode_to_string e),
      )
