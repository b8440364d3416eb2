-- ===== src/Signaling.antt =====
-- signaling_parse.go: the messages between a client and a node, their parser and their printer.
pub mod Body
pub mod RoundTrip
use webrtc_cdn.Prelude.{
  ℕ, zero, suc, Bool, true, false, List, [], ◌∷◌, ◌++◌, Option, none, some, Str, Map, if◌then◌else◌,
  insert, str_key,
}
use webrtc_cdn.Strings.{Unicode, to_upper, to_lower, split, trim, index, take, drop}

pub record SignalingMessage : Type 0 where
  pub method : Str
  pub params : Map Str Str
  pub body : Str

-- The variables of the loop of `parseSignalingMessage`.
pub record Parsing : Type 0 where
  pub msg : SignalingMessage
  pub is_body : Bool
  pub first_line_body : Bool

-- A line of the body.
unfoldable pub body_line : Parsing → Str → Parsing
body_line p line =
    if p.first_line_body
    then record p { msg = record msg { body = line }; first_line_body = false }
    else record p { msg = record msg { body = msg.body ++ (b'\n' ∷ line) } }
  where
    open p use {msg}

-- A line of the parameters, with the index of its colon. (Index 0 is no parameter.)
unfoldable pub param_at : Unicode → Parsing → Str → Option ℕ → Parsing
param_at u p line none = p
param_at u p line (some zero) = p
param_at u p line (some (suc i)) =
    let key = to_lower u (trim (take (suc i) line)) in
    let val = trim (drop (suc (suc i)) line) in
    record p { msg = record msg { params = insert key val msg.params } }
  where
    open p use {msg}

-- One round of the loop.
unfoldable pub parse_line : Unicode → Parsing → Str → Parsing
unfolding body_line param_at
parse_line u p [] = record p { is_body = true }
parse_line u p (c ∷ cs) =
    if p.is_body then body_line p (c ∷ cs) else param_at u p (c ∷ cs) (index b':' (c ∷ cs))

unfoldable pub parse_lines : Unicode → Parsing → List Str → Parsing
parse_lines u p [] = p
parse_lines u p (line ∷ lines) = parse_lines u (parse_line u p line) lines

-- The method, from the first line, and the loop over the others.
unfoldable pub parse_all : Unicode → List Str → SignalingMessage
parse_all u [] = record { method = []; params = []; body = [] }
parse_all u (first ∷ lines) =
    (parse_lines u
      (record {
        msg = record { method = to_upper u (trim first); params = []; body = [] };
        is_body = false;
        first_line_body = true;
      })
      lines).msg

-- `parseSignalingMessage`
unfoldable pub parse_signaling_message : Unicode → Str → SignalingMessage
unfolding parse_all parse_lines parse_line split
parse_signaling_message u raw = parse_all u (split b'\n' raw)

unfoldable pub serialize_params : Map Str Str → Str
serialize_params [] = []
serialize_params ((key, val) ∷ m) = key ++ (b':' ∷ (val ++ (b'\n' ∷ serialize_params m)))

unfoldable pub serialize_body : Str → Str
serialize_body [] = []
serialize_body (c ∷ cs) = b'\n' ∷ c ∷ cs

-- `SignalingMessage.serialize`
unfoldable pub serialize : Unicode → SignalingMessage → Str
unfolding serialize_params serialize_body
serialize u s =
    to_upper u s.method ++ (b'\n' ∷ (serialize_params s.params ++ serialize_body s.body))
