-- ===== src/Connection/Accept.antt =====
-- PUBLISH and PLAY messages that pass the checks of their handler.
use webrtc_cdn.Prelude.{ℕ, false, List, ◌∷◌, Str, codes, ◌≡◌, ltb}
use webrtc_cdn.Signaling.{SignalingMessage}
use webrtc_cdn.Auth.{Jwt, allowed, check_authentication}
use webrtc_cdn.Machine.State.{State}
use webrtc_cdn.Machine.Op.{Op, Mutex, handler_status, holds}
use webrtc_cdn.Connection.Requests.{param, request_type, is_bad_id, validated, within_limits}

-- The IDs have 1 to 255 bytes, and the authentication passes for the subject and the stream.
pub record IsValid (jwt : Jwt) (secret subject : Str) (msg : SignalingMessage) : Type 0 where
  pub good_request : is_bad_id (param (codes "request-id") msg) ≡ false
  pub good_stream : is_bad_id (param (codes "stream-id") msg) ≡ false
  pub authentic :
      check_authentication jwt secret
        (param (codes "auth") msg)
        subject
        (param (codes "stream-id") msg)
      ≡ allowed

-- The request ID is not in use, and the handler has at most as many requests as the limit.
pub record HasRoom (h : ℕ) (request_id : Str) (s : State) : Type 0 where
  pub unused : request_type request_id (s.handler_at h) ≡ 0
  pub below_limit : ltb s.node.request_limit (s.handler_at h).request_count ≡ false

pub validated_lem :
    (jwt : Jwt) (secret subject : Str) (h : ℕ) (msg : SignalingMessage) (body : Op)
    → IsValid jwt secret subject msg
    → validated jwt secret subject h msg body ≡ body
unfolding validated
validated_lem jwt secret subject h msg body v = rw (v.good_request, v.good_stream, v.authentic)

pub within_limits_lem :
    (h : ℕ) (request_id : Str) (body : Op) (held : List Mutex) (s : State)
    → holds (handler_status h) held ≡ false
    → HasRoom h request_id s
    → within_limits h request_id body held s ≡ body (handler_status h ∷ held) s
unfolding within_limits
within_limits_lem h request_id body held s free room = rw (free, room.unused, room.below_limit)
