-- ===== src/Connection/Limit.antt =====
-- The limit on the requests of one connection.
use webrtc_cdn.Prelude.{ℕ, ◌+◌, ◌-◌, ◌^◌, ◌<◌, [], Str, codes, ◌≡◌, ap, ◌∙◌, arith, lookup, str_key}
use webrtc_cdn.Strings.{Unicode}
use webrtc_cdn.Signaling.{SignalingMessage}
use webrtc_cdn.Auth.{Jwt}
use webrtc_cdn.Machine.State.{State, ConnectionHandler}
use webrtc_cdn.Machine.Op.{done}
use webrtc_cdn.Messages.Client.{inc32}
use webrtc_cdn.Connection.Requests.{param, request_type, note_source, receive_publish_message}
use webrtc_cdn.Connection.Accept.{IsValid, HasRoom}
use webrtc_cdn.Connection.Publish.{FromOther, receive_publish_message-IsPublished}

-- A valid PUBLISH under a new request ID, of a stream that has no source or one that another handler
-- made before, is accepted also where the handler has as many requests as the limit, which is below
-- the greatest uint32, and then it has one more than the limit.
pub receive_publish_message_over_limit :
    (u : Unicode) (jwt : Jwt) (secret : Str) (h : ℕ) (msg : SignalingMessage) (s : State)
    → IsValid jwt secret (codes "stream_publish") msg
    → request_type (param (codes "request-id") msg) (s.handler_at h) ≡ 0
    → (s.handler_at h).request_count ≡ s.node.request_limit
    → s.node.request_limit < 2 ^ 32 - 1
    → FromOther h (lookup (param (codes "stream-id") msg) s.node.sources) s
    → (t : State) × (receive_publish_message u jwt secret h msg [] s ≡ done t)
      × ((t.handler_at h).request_count ≡ s.node.request_limit + 1)
unfolding note_source
receive_publish_message_over_limit u jwt secret h msg s valid unused full wide other =
    let room : HasRoom h (param (codes "request-id") msg) s = record {
      unused = unused;
      below_limit = ground (arith, full);
    } in
    let (t, run, p) = receive_publish_message-IsPublished u jwt secret h msg s valid room other in
    let one_more : inc32 (s.handler_at h).request_count ≡ s.node.request_limit + 1 =
      omega (arith, full, wide) in
    (t, run, ap (λ (c : ConnectionHandler). c.request_count) p.handler ∙ one_more)
