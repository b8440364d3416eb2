-- ===== src/Service/Ending.antt =====
-- The rounds of the two loops of a handler, and the end of its connection.
use webrtc_cdn.Prelude.{ℕ, [], Str, refl, inl, inr, Bool-cases, leb, ◌+◌}
use webrtc_cdn.Signaling.{SignalingMessage, parse_signaling_message}
use webrtc_cdn.Machine.State.{State}
use webrtc_cdn.Messages.Client.{send}
use webrtc_cdn.Connection.Requests.{request_type}
use webrtc_cdn.Connection.Dispatch.{dispatch-cases}
use webrtc_cdn.Connection.Lifecycle.{
  Surroundings, text, dispatch, begin_run, end_run, run_round, heartbeat_round,
  heartbeat_timeout_ms, check_heartbeat,
}
use webrtc_cdn.Registry.{registry}
use webrtc_cdn.Registry.Consistent.{IsConsistent}
use webrtc_cdn.Registry.Consistent.Handlers.{touch_handler-IsConsistent}
use webrtc_cdn.Service.{IsTakeable}
use webrtc_cdn.Service.Keeps.{Keeps, Keeps-done}
use webrtc_cdn.Service.Closing.{Ends-Keeps, end_run-Ends}
use webrtc_cdn.Service.Client.{publish-Keeps, play-Keeps}
use webrtc_cdn.Service.Requests.{answer-Keeps, candidate-Keeps, close-Keeps, heartbeat-Keeps}

pub end_run-Keeps : (h : ℕ) (s : State) → IsConsistent (registry s) → Keeps (end_run h [] s)
end_run-Keeps h s c = Ends-Keeps h s _ (end_run-Ends h s c)

module _ (e : Surroundings) (h : ℕ) (s : State) (c : IsConsistent (registry s)) where
  dispatch-Keeps : (msg : SignalingMessage) → IsTakeable e h msg s → Keeps (dispatch e h msg [] s)
  dispatch-Keeps msg can =
      dispatch-cases (λ op. Keeps (op [] s)) e h msg (heartbeat-Keeps h e.now s c)
        (λ b. publish-Keeps e h msg s c can.known (can.publish_other b) (can.publish_sound b))
        (λ b. play-Keeps e h msg s c can.known (can.play_sound b)) (answer-Keeps h msg s c)
        (candidate-Keeps h msg s c) (close-Keeps h msg s c) c

  pub run_round_text-Keeps :
      (raw : Str)
      → IsTakeable e h (parse_signaling_message e.unicode raw) s
      → Keeps (run_round e h (text raw) s)
  unfolding run_round
  run_round_text-Keeps raw can =
      let (t, run, d) = Keeps-done _ (dispatch-Keeps (parse_signaling_message e.unicode raw) can) in
      rw run d

  pub heartbeat_round-Keeps : Keeps (heartbeat_round e.now h [] s)
  unfolding heartbeat_round check_heartbeat send
  heartbeat_round-Keeps = elim (Bool-cases (s.handler_at h).closed) [
    | inl shut ↦ rw shut c
    | inr opened ↦
        elim (Bool-cases (leb ((s.handler_at h).last_heartbeat + heartbeat_timeout_ms) e.now)) [
          | inl late ↦ rw (opened, late) c
          | inr timely ↦ rw (opened, timely) c
        ]
  ]

pub begin_run-Keeps :
    (h now : ℕ) (s : State) → IsConsistent (registry s) → Keeps (begin_run now h [] s)
unfolding begin_run request_type
begin_run-Keeps h now s c =
    let ok = c.coherent h in
    touch_handler-IsConsistent h (record (s.handler_at h) { last_heartbeat = now }) (registry s)
      refl refl (record { known = ok.known; published = ok.published; played = ok.played }) c
