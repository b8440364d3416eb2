-- ===== src/Redis.antt =====
-- `receiveRedisMessage` of redis_srv.go. A message is the map that `json.Unmarshal` makes of it.
pub mod Journey
pub mod Replies
pub mod Handshake
pub mod Delivery
pub mod Candidates
pub mod Negotiation
pub mod Listener
use webrtc_cdn.Prelude.{
  true, false, [], none, some, Str, codes, Map, if◌then◌else◌, str_eq, lookup, str_key,
}
use webrtc_cdn.Strings.{Unicode, to_upper}
use webrtc_cdn.Machine.Op.{Op, when, skip, ◌>>=◌}
use webrtc_cdn.Messages.Redis.{send_info_message}
use webrtc_cdn.Node.Sources.{resolve_source}
use webrtc_cdn.Node.Remote.{
  receive_info_message, receive_connect_message, receive_offer_message, node_receive_answer,
  node_receive_candidate,
}

-- `msgData[key]`; an absent key reads as the empty text.
unfoldable pub field : Str → Map Str Str → Str
field key m = elim (lookup key m) [ none ↦ [] | some v ↦ v ]

-- The type of a message, as the `switch` sees it.
pub data MsgType : Type 0 where
  resolve info connect offer answer candidate unknown : MsgType

unfoldable pub msg_type : Str → MsgType
msg_type t =
    if str_eq t (codes "RESOLVE")
    then resolve
    else if str_eq t (codes "INFO")
    then info
    else if str_eq t (codes "CONNECT")
    then connect
    else if str_eq t (codes "OFFER")
    then offer
    else if str_eq t (codes "ANSWER")
    then answer
    else if str_eq t (codes "CANDIDATE")
    then candidate
    else unknown

-- The cases of the `switch`, with `msgSource`.
unfoldable pub receive_typed : MsgType → Str → Map Str Str → Op
receive_typed resolve src m = do
  found ← resolve_source (field (codes "sid") m)
  when found (send_info_message src (field (codes "sid") m))
receive_typed info src m = receive_info_message src (field (codes "sid") m)
receive_typed connect src m = receive_connect_message src (field (codes "sid") m)
receive_typed offer src m =
    receive_offer_message (field (codes "sid") m) (field (codes "data") m)
      (str_eq (field (codes "video") m) (codes "true"))
      (str_eq (field (codes "audio") m) (codes "true"))
receive_typed answer src m =
    node_receive_answer src (field (codes "sid") m) (field (codes "data") m)
receive_typed candidate src m =
    node_receive_candidate src (field (codes "sid") m) (field (codes "data") m)
receive_typed unknown src m = skip

-- `receiveRedisMessage`
unfoldable pub receive_redis_message : Unicode → Map Str Str → Op
receive_redis_message u m = do
  id ← λ s. s.node.id
  when (if str_eq (field (codes "src") m) id then false else true)
      (receive_typed (msg_type (to_upper u (field (codes "type") m))) (field (codes "src") m) m)
