-- ===== src/Tests/Publish.antt =====
-- Streams published, replaced and closed.
use webrtc_cdn.Prelude.{[], ◌∷◌, codes, refl, arith, lookup}
use webrtc_cdn.Auth.{check_authentication, parse}
use webrtc_cdn.Machine.Op.{node_status, handler_status, source_status}
use webrtc_cdn.Connection.Requests.{param, request_type, receive_publish_message}
use webrtc_cdn.Connection.Accept.{IsValid, HasRoom}
use webrtc_cdn.Connection.Deadlock.{BlocksOn, publish_twice_blocks}
use webrtc_cdn.Tests.Data.{tables, trusting, publishing, publish_cam}

again-IsValid : IsValid trusting (codes "key") (codes "stream_publish") (publish_cam (codes "b"))
unfolding param lookup check_authentication parse
again-IsValid = record { good_request = refl; good_stream = refl; authentic = refl }

again-HasRoom : HasRoom 0 (param (codes "request-id") (publish_cam (codes "b"))) publishing
unfolding param lookup request_type
again-HasRoom = record { unused = refl; below_limit = refl }

publish_twice_blocks_example :
    BlocksOn (handler_status 0) (source_status 1 ∷ node_status ∷ handler_status 0 ∷ []) (
      receive_publish_message tables trusting
        (codes "key")
        0
        (publish_cam (codes "b"))
        []
        publishing)
unfolding param lookup
publish_twice_blocks_example =
    publish_twice_blocks tables trusting (codes "key") 0 (publish_cam (codes "b")) publishing 1
      again-IsValid again-HasRoom refl (omega arith) refl refl
