-- ===== src/Connection/Heartbeat.antt =====
-- The heartbeat of a connection, from both sides.
use webrtc_cdn.Prelude.{
  ℕ, ◌+◌, false, [], ◌∷◌, codes, leb, if◌then◌else◌, ◌≡◌, refl, inl, inr, Bool-cases,
}
use webrtc_cdn.Signaling.{SignalingMessage}
use webrtc_cdn.Machine.State.{State, to_client, websocket_closed, emit, set_handler, update_self}
use webrtc_cdn.Machine.Op.{done}
use webrtc_cdn.Messages.Client.{send}
use webrtc_cdn.Connection.Lifecycle.{receive_heartbeat, heartbeat_round, check_heartbeat}

abbrev pub heartbeat_message : SignalingMessage
heartbeat_message = record { method = codes "HEARTBEAT"; params = []; body = [] }

-- After a HEARTBEAT of the client of an open connection, at one time in milliseconds, a round of
-- `sendHeartbeatMessages` at another time sends the client a HEARTBEAT, and closes the websocket exactly
-- if 60 seconds have passed since the first.
pub heartbeat_timeout :
    (seen now h : ℕ) (s : State)
    → (s.handler_at h).closed ≡ false
    → (t u : State) × (receive_heartbeat seen h [] s ≡ done t)
      × (heartbeat_round now h [] t ≡ done u)
      × (u.out ≡ (
          if leb (seen + 60000) now
          then websocket_closed h ∷ to_client h heartbeat_message ∷ s.out
          else to_client h heartbeat_message ∷ s.out))
unfolding receive_heartbeat heartbeat_round check_heartbeat send
heartbeat_timeout seen now h s opened =
    let c = record (s.handler_at h) { last_heartbeat = seen } in
    let own = update_self s.handler_at h c in
    let t = set_handler h c s in
    let sent = emit (to_client h heartbeat_message) t in
    elim (Bool-cases (leb (seen + 60000) now)) [
      | inl late ↦
          (t, emit (websocket_closed h) sent, refl, rw (own, opened, late) refl, rw late refl)
      | inr timely ↦ (t, sent, refl, rw (own, opened, timely) refl, rw timely refl)
    ]
