-- ===== src/Tests/Text.antt =====
-- Messages, printed and parsed.
use webrtc_cdn.Prelude.{
  [], ◌∷◌, inr, Str, codes, ◌≡◌, refl, lookup, insert, IsUnique, str_key, arith,
}
use webrtc_cdn.Strings.{trim, split, to_upper, to_lower, index}
use webrtc_cdn.Signaling.{SignalingMessage, parse_signaling_message, serialize}
use webrtc_cdn.Signaling.RoundTrip.{IsParam, IsWire, lower_keys, parse-serialize_fields}
use webrtc_cdn.Tests.Data.{tables}

-- An offer as a node sends it.
abbrev offer : SignalingMessage
offer = record {
  method = codes "OFFER";
  params = (codes "Stream-ID", codes "cam") ∷ (codes "Request-ID", codes "a") ∷ [];
  body = codes "{\n1}";
}

serialize-offer : serialize tables offer ≡ codes "OFFER\nStream-ID:cam\nRequest-ID:a\n\n{\n1}"
unfolding serialize to_upper
serialize-offer = refl

parse-spaced :
    parse_signaling_message tables (codes " play \r\nRequest-ID :  v\n:x\nno\n\na\n\nb") ≡ record {
      method = codes "PLAY";
      params = (codes "request-id", codes "v") ∷ [];
      body = codes "a\nb";
    }
unfolding parse_signaling_message trim to_upper to_lower index insert
parse-spaced = refl

stream_id-IsParam : IsParam (codes "Stream-ID") (codes "cam")
unfolding trim
stream_id-IsParam = record {
  key_ne_nil = λ e. cc;
  no_colon = ground arith;
  key_line = ground arith;
  val_line = ground arith;
  key_trimmed = refl;
  val_trimmed = refl;
}

request_id-IsParam : IsParam (codes "Request-ID") (codes "a")
unfolding trim
request_id-IsParam = record {
  key_ne_nil = λ e. cc;
  no_colon = ground arith;
  key_line = ground arith;
  val_line = ground arith;
  key_trimmed = refl;
  val_trimmed = refl;
}

offer-IsWire : IsWire tables offer
unfolding trim split to_upper
offer-IsWire = record {
  is_upper = refl;
  method_line = ground arith;
  method_trimmed = refl;
  params = (stream_id-IsParam, (request_id-IsParam, tt));
  body = inr ((λ e. cc), ((λ e. cc), tt));
}

offer_keys-IsUnique : IsUnique (lower_keys tables offer.params)
unfolding IsUnique lookup to_lower
offer_keys-IsUnique = (refl, (refl, tt))

parse-serialize_fields_example :
    let back = parse_signaling_message tables (serialize tables offer) in
    (back.method ≡ offer.method)
    × (back.body ≡ offer.body)
    × ((key : Str) → lookup key back.params ≡ lookup key (lower_keys tables offer.params))
parse-serialize_fields_example =
    parse-serialize_fields tables offer offer-IsWire offer_keys-IsUnique
