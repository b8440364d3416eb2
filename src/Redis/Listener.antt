-- ===== src/Redis/Listener.antt =====
-- The loop of `setupRedisListener` of redis_srv.go.
use webrtc_cdn.Prelude.{List, [], ◌∷◌, Str, Map}
use webrtc_cdn.Strings.{Unicode}
use webrtc_cdn.Machine.Op.{Op, skip, ◌>>◌}
use webrtc_cdn.Redis.{receive_redis_message}

-- What `ReceiveMessage` returns: an error, or a message with its payload.
pub data Reception : Type 0 where
  receive_failed : Reception
  payload : Str → Reception

-- The map that `json.Unmarshal` leaves for a payload, whether or not it reports an error.
abbrev pub Decode : Type 0
Decode = Str → Map Str Str

-- After an error the loop only waits; a message is handled before the next one is received.
unfoldable pub listen : Decode → Unicode → List Reception → Op
listen decode u [] = skip
listen decode u (receive_failed ∷ rest) = listen decode u rest
listen decode u (payload text ∷ rest) =
    receive_redis_message u (decode text) >> listen decode u rest
