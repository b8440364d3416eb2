-- ===== src/Connection/Dispatch.antt =====
-- The `switch` of `run` in connection_handler.go, and the maps of the handler.
use webrtc_cdn.Prelude.{ℕ, true, [], codes, ◌≡◌, ◌≢◌, inl, inr, Bool-cases, lookup, str_key, str_eq}
use webrtc_cdn.Signaling.{SignalingMessage}
use webrtc_cdn.Auth.{crash, check_authentication}
use webrtc_cdn.Machine.State.{State}
use webrtc_cdn.Machine.Op.{Op, skip}
use webrtc_cdn.Connection.Requests.{
  param, receive_publish_message, receive_play_message, receive_answer_message,
  receive_candidate_message, receive_close_message,
}
use webrtc_cdn.Connection.Lifecycle.{Surroundings, dispatch, receive_heartbeat}
use webrtc_cdn.Connection.Coherent.{IsCoherent}
use webrtc_cdn.Connection.Publish.{FromOther}
use webrtc_cdn.Connection.Invariant.{
  StaysCoherent, publish-StaysCoherent, play-StaysCoherent, close-StaysCoherent,
  answer-StaysCoherent, candidate-StaysCoherent, heartbeat-StaysCoherent,
}

-- The authentication of a PUBLISH or PLAY does not crash, and the stream of a PUBLISH has no source,
-- or one that another handler made before.
pub record IsSafe (e : Surroundings) (h : ℕ) (msg : SignalingMessage) (s : State) : Type 0 where
  pub publish_sound :
      str_eq msg.method (codes "PUBLISH") ≡ true
      → check_authentication e.jwt e.jwt_secret
          (param (codes "auth") msg)
          (codes "stream_publish")
          (param (codes "stream-id") msg)
        ≢ crash
  pub publish_other :
      str_eq msg.method (codes "PUBLISH") ≡ true
      → FromOther h (lookup (param (codes "stream-id") msg) s.node.sources) s
  pub play_sound :
      str_eq msg.method (codes "PLAY") ≡ true
      → check_authentication e.jwt e.jwt_secret
          (param (codes "auth") msg)
          (codes "stream_play")
          (param (codes "stream-id") msg)
        ≢ crash

-- What holds of the handling of each kind of message holds of the `switch`.
pub dispatch-cases :
    (P : Op → Type 0) (e : Surroundings) (h : ℕ) (msg : SignalingMessage)
    → P (receive_heartbeat e.now h)
    → (str_eq msg.method (codes "PUBLISH") ≡ true
        → P (receive_publish_message e.unicode e.jwt e.jwt_secret h msg))
    → (str_eq msg.method (codes "PLAY") ≡ true → P (receive_play_message e.jwt e.jwt_secret h msg))
    → P (receive_answer_message h msg)
    → P (receive_candidate_message h msg)
    → P (receive_close_message h msg)
    → P skip
    → P (dispatch e h msg)
unfolding dispatch
dispatch-cases P e h msg heartbeat publish play answer candidate close other =
    elim (Bool-cases (str_eq msg.method (codes "HEARTBEAT"))) [
      | inl a ↦ rw a heartbeat
      | inr a ↦ elim (Bool-cases (str_eq msg.method (codes "PUBLISH"))) [
        | inl b ↦ rw (a, b) (publish b)
        | inr b ↦ elim (Bool-cases (str_eq msg.method (codes "PLAY"))) [
          | inl c ↦ rw (a, b, c) (play c)
          | inr c ↦ elim (Bool-cases (str_eq msg.method (codes "ANSWER"))) [
            | inl d ↦ rw (a, b, c, d) answer
            | inr d ↦ elim (Bool-cases (str_eq msg.method (codes "CANDIDATE"))) [
              | inl f ↦ rw (a, b, c, d, f) candidate
              | inr f ↦ elim (Bool-cases (str_eq msg.method (codes "CLOSE"))) [
                | inl g ↦ rw (a, b, c, d, f, g) close
                | inr g ↦ rw (a, b, c, d, f, g) other
              ]
            ]
          ]
        ]
      ]
    ]

-- Whatever message a client sends, where the authentication of a PUBLISH or PLAY does not crash and
-- the stream of a PUBLISH has no source or one that another handler made before, and the requests of
-- the handler agree with its sources and sinks, its handling ends with no panic and no wait, and
-- they agree again.
pub dispatch-StaysCoherent :
    (e : Surroundings) (h : ℕ) (msg : SignalingMessage) (s : State)
    → IsCoherent (s.handler_at h)
    → IsSafe e h msg s
    → StaysCoherent h (dispatch e h msg [] s)
dispatch-StaysCoherent e h msg s ok safe =
    dispatch-cases (λ op. StaysCoherent h (op [] s)) e h msg
      (heartbeat-StaysCoherent h msg s ok e.now)
      (λ b. publish-StaysCoherent e h msg s ok (safe.publish_sound b) (safe.publish_other b))
      (λ b. play-StaysCoherent e h msg s ok (safe.play_sound b)) (answer-StaysCoherent h msg s ok)
      (candidate-StaysCoherent h msg s ok) (close-StaysCoherent e h msg s ok) ok
