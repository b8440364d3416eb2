-- ===== src/Service.antt =====
-- What happens to a node, one goroutine at a time: HTTP requests, what clients send, Redis messages,
-- and what the WebRTC library reports of peer connections.
pub mod Keeps
pub mod Client
pub mod Closing
pub mod Requests
pub mod Ending
pub mod Peers
pub mod Remote
pub mod Messages
pub mod Http
pub mod Reach
pub mod Streams
pub mod Idle
pub mod Sparing
pub mod Listening
pub mod Conflict
pub mod Takeover
use webrtc_cdn.Prelude.{
  ℕ, ◌<◌, Bool, true, [], Option, Str, codes, Map, ◌≡◌, ◌≢◌, some, lookup, str_key, str_eq,
}
use webrtc_cdn.Signaling.{SignalingMessage, parse_signaling_message}
use webrtc_cdn.Auth.{crash, check_authentication}
use webrtc_cdn.Machine.State.{State}
use webrtc_cdn.Machine.Op.{Outcome}
use webrtc_cdn.Peer.Api.{PeerResults}
use webrtc_cdn.Peer.Source.{source_run, source_candidate_found}
use webrtc_cdn.Peer.Sink.{sink_run_after_tracks_ready, sink_candidate_found, sink_reconnect}
use webrtc_cdn.Peer.Sender.{sender_run_after_tracks_ready, sender_candidate_found}
use webrtc_cdn.Peer.Relay.{relay_on_offer, relay_candidate_found}
use webrtc_cdn.Node.Sources.{Kind, source_on_close, source_on_track}
use webrtc_cdn.Node.Remote.{relay_on_close, relay_on_track, sender_on_close}
use webrtc_cdn.Node.Limits.{Ranges, Request, serve_http}
use webrtc_cdn.Connection.Requests.{param}
use webrtc_cdn.Connection.Lifecycle.{
  Surroundings, Frame, text, binary, failed, begin_run, run_round, heartbeat_round,
}
use webrtc_cdn.Redis.{receive_redis_message}
use webrtc_cdn.Registry.{started_sources}
use webrtc_cdn.Registry.Consistent.{includes}

-- The libraries and the configuration of a node.
pub record Setting : Type 0 where
  pub around : Surroundings
  pub contains : Ranges
  pub whitelist : Str

pub data Happening : Type 0 where
  http_request : Request → Happening
  -- The start of `run`, at a time, of a handler.
  handler_starts : ℕ → ℕ → Happening
  -- A round of the loop of `run`, with what `ReadMessage` returns, and a round of the loop of
  -- `sendHeartbeatMessages`, of a handler.
  frame_read : ℕ → Frame → Happening
  heartbeat_due : ℕ → Happening
  redis_message : Map Str Str → Happening
  -- The goroutine of a source, and the callbacks of its peer connection.
  source_starts : PeerResults → ℕ → Happening
  source_track_found : ℕ → Kind → Option ℕ → Happening
  source_candidate : ℕ → Str → Happening
  source_lost : ℕ → Happening
  -- Those of a sink, of a sender and of a relay.
  sink_starts : PeerResults → ℕ → Happening
  sink_candidate : ℕ → Str → Happening
  sink_lost : ℕ → Happening
  sender_starts : PeerResults → ℕ → Happening
  sender_candidate : ℕ → Str → Happening
  sender_lost : ℕ → Happening
  relay_offered : PeerResults → ℕ → Bool → Bool → Happening
  relay_track_found : ℕ → Kind → Option ℕ → Happening
  relay_candidate : ℕ → Str → Happening
  relay_lost : ℕ → Happening

unfoldable pub happen : Setting → Happening → State → Outcome
happen w (http_request r) = serve_http w.contains w.whitelist r []
happen w (handler_starts now h) = begin_run now h []
happen w (frame_read h frame) = run_round w.around h frame
happen w (heartbeat_due h) = heartbeat_round w.around.now h []
happen w (redis_message m) = receive_redis_message w.around.unicode m []
happen w (source_starts results p) = source_run results p []
happen w (source_track_found p kind made) = source_on_track p kind made []
happen w (source_candidate p json) = source_candidate_found p json []
happen w (source_lost p) = source_on_close p []
happen w (sink_starts results p) = sink_run_after_tracks_ready results p []
happen w (sink_candidate p json) = sink_candidate_found p json []
happen w (sink_lost p) = sink_reconnect p []
happen w (sender_starts results p) = sender_run_after_tracks_ready results p []
happen w (sender_candidate p json) = sender_candidate_found p json []
happen w (sender_lost p) = sender_on_close p []
happen w (relay_offered results p video audio) = relay_on_offer results p video audio []
happen w (relay_track_found p kind made) = relay_on_track p kind made []
happen w (relay_candidate p json) = relay_candidate_found p json []
happen w (relay_lost p) = relay_on_close p []

-- A message that its handler can take: the handler is in memory, the check of the authentication does
-- not crash, and the handler does not publish the stream of a PUBLISH already.
pub record IsTakeable (e : Surroundings) (h : ℕ) (msg : SignalingMessage) (s : State) : Type 0 where
  pub known : h < s.next_ref
  pub publish_sound :
      str_eq msg.method (codes "PUBLISH") ≡ true
      → check_authentication e.jwt e.jwt_secret
          (param (codes "auth") msg)
          (codes "stream_publish")
          (param (codes "stream-id") msg)
        ≢ crash
  pub publish_other :
      str_eq msg.method (codes "PUBLISH") ≡ true
      → (old : ℕ) → lookup (param (codes "stream-id") msg) s.node.sources ≡ some old
      → (s.source_at old).connection ≢ h
  pub play_sound :
      str_eq msg.method (codes "PLAY") ≡ true
      → check_authentication e.jwt e.jwt_secret
          (param (codes "auth") msg)
          (codes "stream_play")
          (param (codes "stream-id") msg)
        ≢ crash

-- The source was started.
abbrev pub IsStarted : ℕ → State → Type 0
IsStarted p s = includes p (started_sources s.tasks) ≡ true

-- What may happen next: a message that its handler can take, and anything else, where a source that
-- loses its peer connection was started.
abbrev pub CanHappen : Setting → Happening → State → Type 0
CanHappen w (frame_read h (text raw)) s =
    IsTakeable w.around h (parse_signaling_message w.around.unicode raw) s
CanHappen w (source_lost p) s = IsStarted p s
CanHappen w _ s = Unit {0}

-- A node just started: no stream has a source, a relay or a sink, no goroutine runs, and no handler has a request.
pub record IsFresh (s : State) : Type 0 where
  pub streams : s.node.sources ≡ []
  pub relays : s.node.relays ≡ []
  pub groups : s.node.sinks ≡ []
  pub idle : s.tasks ≡ []
  pub requests : (h : ℕ) → (s.handler_at h).requests ≡ []
  pub sources : (h : ℕ) → (s.handler_at h).sources ≡ []
  pub sinks : (h : ℕ) → (s.handler_at h).sinks ≡ []

-- The states that a node comes to.
pub data Reachable (w : Setting) : State → Type 0 where
  fresh : {s : State} → IsFresh s → Reachable w s
  next :
      {s t : State} (x : Happening)
      → Reachable w s
      → CanHappen w x s
      → happen w x s ≡ Outcome.done t
      → Reachable w t
