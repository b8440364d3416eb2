-- ===== src/Connection/Crash.antt =====
-- A PUBLISH or PLAY whose token makes `checkAuthentication` panic, in `run` of connection_handler.go.
use webrtc_cdn.Prelude.{ℕ, false, [], Str, codes, ◌≡◌, ◌≢◌, refl}
use webrtc_cdn.Machine.State.{State}
use webrtc_cdn.Machine.Op.{Op, panicked}
use webrtc_cdn.Signaling.{SignalingMessage, parse_signaling_message}
use webrtc_cdn.Auth.{Jwt, Token, crash, check_authentication}
use webrtc_cdn.Auth.Decision.{HoldsOther, check_authentication-crash}
use webrtc_cdn.Connection.Requests.{param, is_bad_id, validated, receive_publish_message}
use webrtc_cdn.Connection.Lifecycle.{Surroundings, text, dispatch, end_run, run_round}

validated-panics :
    (jwt : Jwt) (secret subject : Str) (h : ℕ) (msg : SignalingMessage) (body : Op) (s : State)
    → is_bad_id (param (codes "request-id") msg) ≡ false
    → is_bad_id (param (codes "stream-id") msg) ≡ false
    → check_authentication jwt secret
        (param (codes "auth") msg)
        subject
        (param (codes "stream-id") msg)
      ≡ crash
    → validated jwt secret subject h msg body [] s ≡ panicked s
unfolding validated
validated-panics jwt secret subject h msg body s id stream crashes = rw (id, stream, crashes) refl

-- With a JWT secret, a PUBLISH with good IDs, and with a token that passes the checks of the library but
-- whose subject, or stream under the right subject, is JSON of a kind other than text, panics.
publish-panics :
    (e : Surroundings) (h : ℕ) (msg : SignalingMessage) (t : Token) (s : State)
    → msg.method ≡ codes "PUBLISH"
    → is_bad_id (param (codes "request-id") msg) ≡ false
    → is_bad_id (param (codes "stream-id") msg) ≡ false
    → e.jwt_secret ≢ []
    → HoldsOther e.jwt e.jwt_secret (param (codes "auth") msg) (codes "stream_publish") t
    → dispatch e h msg [] s ≡ panicked s
unfolding dispatch receive_publish_message param
publish-panics e h msg t s method id stream secret holds = rw method (
    validated-panics e.jwt e.jwt_secret (codes "stream_publish") h
      (record msg { method = codes "PUBLISH" }) _ s id stream
      (check_authentication-crash e.jwt e.jwt_secret (param (codes "auth") msg)
        (codes "stream_publish") (param (codes "stream-id") msg) t secret holds))

-- Where a text frame is a PUBLISH with good IDs, there is a JWT secret, and the token passes the checks
-- of the library, but its subject, or its stream under the right subject, is JSON of a kind other than
-- text, the handler panics: the frame ends the connection by the deferred end of `run`, in the state
-- before it, so that no ERROR is sent.
pub publish_crash_ends_run :
    (e : Surroundings) (h : ℕ) (raw : Str) (msg : SignalingMessage) (t : Token) (s : State)
    → parse_signaling_message e.unicode raw ≡ msg
    → msg.method ≡ codes "PUBLISH"
    → is_bad_id (param (codes "request-id") msg) ≡ false
    → is_bad_id (param (codes "stream-id") msg) ≡ false
    → e.jwt_secret ≢ []
    → HoldsOther e.jwt e.jwt_secret (param (codes "auth") msg) (codes "stream_publish") t
    → run_round e h (text raw) s ≡ end_run h [] s
unfolding run_round
publish_crash_ends_run e h raw msg t s read method id stream secret holds =
    rw (read, publish-panics e h msg t s method id stream secret holds) refl
