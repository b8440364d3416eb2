-- ===== src/Messages/Redis.antt =====
-- The Redis messages that a node sends. A message is its map; the JSON encoding of a map of strings
-- cannot fail, and a failure to publish is only logged.
use webrtc_cdn.Prelude.{ℕ, Bool, [], Str, codes, Map, insert, str_key, if◌then◌else◌}
use webrtc_cdn.Machine.State.{State, WrtcSourceSender, published, emit}
use webrtc_cdn.Machine.Op.{Op, change}

-- `REDIS_BROADCAST_CHANNEL`
abbrev pub redis_broadcast_channel : Str
redis_broadcast_channel = codes "webrtc_cdn"

-- `sendRedisMessage`, as a change of the state.
abbrev pub publish : Str → Map Str Str → State → State
publish channel msg s = if s.node.stand_alone then s else emit (published channel msg) s

unfoldable pub send_redis_message : Str → Map Str Str → Op
send_redis_message channel msg = change (publish channel msg)

unfoldable pub info_message : Str → Str → Map Str Str
info_message src sid =
    insert (codes "sid") sid (insert (codes "src") src (insert (codes "type") (codes "INFO") []))

-- `sendInfoMessage`
unfoldable pub send_info_message : Str → Str → Op
unfolding send_redis_message info_message
send_info_message channel sid held s =
    send_redis_message channel (info_message s.node.id sid) held s

unfoldable pub resolve_message : Str → Str → Map Str Str
resolve_message src sid =
    insert (codes "sid") sid (insert (codes "src") src (insert (codes "type") (codes "RESOLVE") []))

-- `sendResolveMessage`
unfoldable pub send_resolve_message : Str → Op
unfolding send_redis_message resolve_message
send_resolve_message sid held s =
    send_redis_message redis_broadcast_channel (resolve_message s.node.id sid) held s

abbrev addressed : Str → Str → Str → Str → Map Str Str
addressed type src dst sid =
    insert (codes "sid") sid
      (insert (codes "dst") dst (insert (codes "src") src (insert (codes "type") type [])))

unfoldable pub connect_message : Str → Str → Str → Map Str Str
connect_message src dst sid = addressed (codes "CONNECT") src dst sid

-- `sendConnectMessage`
unfoldable pub send_connect_message : Str → Str → Op
unfolding send_redis_message connect_message
send_connect_message dst sid held s =
    send_redis_message dst (connect_message s.node.id dst sid) held s

abbrev flag : Str → Bool → Map Str Str → Map Str Str
flag key b m = if b then insert key (codes "true") m else m

-- The map of `WRTC_Source_Sender.sendOffer`.
unfoldable pub offer_message : Str → WrtcSourceSender → Str → Map Str Str
offer_message src sender offer = insert (codes "data") offer (
    flag (codes "audio") sender.has_audio (
      flag (codes "video") sender.has_video
        (addressed (codes "OFFER") src sender.remote_id sender.sid)))

-- `WRTC_Source_Sender.sendOffer`
unfoldable pub send_sender_offer : ℕ → Str → Op
unfolding send_redis_message offer_message
send_sender_offer p offer held s =
    let sender = s.sender_at p in
    send_redis_message sender.remote_id (offer_message s.node.id sender offer) held s

-- The map of `sendICECandidate` (of a sender and of a relay) and of `sendAnswer`.
unfoldable pub data_message : Str → Str → Str → Str → Str → Map Str Str
data_message type src dst sid payload = insert (codes "data") payload (addressed type src dst sid)

-- `WRTC_Source_Sender.sendICECandidate`
unfoldable pub send_sender_candidate : ℕ → Str → Op
unfolding send_redis_message data_message
send_sender_candidate p candidate held s =
    let sender = s.sender_at p in
    send_redis_message sender.remote_id
      (data_message (codes "CANDIDATE") s.node.id sender.remote_id sender.sid candidate) held s

-- `WRTC_Relay.sendICECandidate`
unfoldable pub send_relay_candidate : ℕ → Str → Op
unfolding send_redis_message data_message
send_relay_candidate p candidate held s =
    let relay = s.relay_at p in
    send_redis_message relay.remote_id
      (data_message (codes "CANDIDATE") s.node.id relay.remote_id relay.sid candidate) held s

-- `WRTC_Relay.sendAnswer`
unfoldable pub send_relay_answer : ℕ → Str → Op
unfolding send_redis_message data_message
send_relay_answer p answer held s =
    let relay = s.relay_at p in
    send_redis_message relay.remote_id
      (data_message (codes "ANSWER") s.node.id relay.remote_id relay.sid answer) held s
