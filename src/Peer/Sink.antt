-- ===== src/Peer/Sink.antt =====
-- wrtc_sink.go, but for `close`.
use webrtc_cdn.Prelude.{ℕ, false, not, ◌&&◌, Option, none, some, Str}
use webrtc_cdn.Machine.State.{set_sink, close_peer, spawn, run_sink}
use webrtc_cdn.Machine.Op.{Op, sink_status, locked, change, when, skip, ◌>>=◌, ◌>>◌}
use webrtc_cdn.Messages.Client.{send_standby_message, send_offer, send_ice_candidate}
use webrtc_cdn.Peer.Api.{PeerResults, outgoing_offer, same_ref, is_some, add_candidate, set_answer}

-- `onTracksReady`
unfoldable pub sink_on_tracks_ready : ℕ → Option ℕ → Option ℕ → Op
sink_on_tracks_ready p video audio = locked (sink_status p) do
  sink ← λ s. s.sink_at p
  change (close_peer sink.peer_connection)
  change (
      set_sink p (record sink {
        local_track_video = video;
        has_video = is_some video;
        local_track_audio = audio;
        has_audio = is_some audio;
        peer_connection = none;
      }))
  change (spawn (run_sink p))

-- `onTracksClosed`
unfoldable pub sink_on_tracks_closed : ℕ → Option ℕ → Option ℕ → Op
unfolding send_standby_message
sink_on_tracks_closed p video audio = locked (sink_status p) do
  sink ← λ s. s.sink_at p
  when (same_ref sink.local_track_audio audio && same_ref sink.local_track_video video) do
    change (close_peer sink.peer_connection)
    change (
        set_sink p (record sink {
          local_track_audio = none;
          local_track_video = none;
          has_audio = false;
          has_video = false;
          peer_connection = none;
        }))
    send_standby_message sink.connection sink.request_id

-- `runAfterTracksReady`
unfoldable pub sink_run_after_tracks_ready : PeerResults → ℕ → Op
unfolding outgoing_offer send_offer
sink_run_after_tracks_ready r p = locked (sink_status p) do
  sink ← λ s. s.sink_at p
  when (not (not sink.has_video && not sink.has_audio)) (elim r.new_peer_connection [
    | none ↦ skip
    | some c ↦ do
      change (set_sink p (record sink { peer_connection = some c }))
      elim (outgoing_offer r sink.has_audio sink.has_video) [
        | none ↦ skip
        | some offer ↦ send_offer sink.connection sink.request_id sink.sid offer
      ]
  ])

-- The handler of `OnICECandidate`; the empty text is the end of the candidates.
unfoldable pub sink_candidate_found : ℕ → Str → Op
unfolding send_ice_candidate
sink_candidate_found p candidate = locked (sink_status p) do
  sink ← λ s. s.sink_at p
  send_ice_candidate sink.connection sink.request_id sink.sid candidate

-- `onICECandidate`
unfoldable pub sink_on_ice_candidate : ℕ → Str → Op
unfolding add_candidate
sink_on_ice_candidate p json =
    locked (sink_status p)
      do sink ← λ s. s.sink_at p; change (add_candidate sink.peer_connection json)

-- `onAnswer`
unfoldable pub sink_on_answer : ℕ → Str → Op
unfolding set_answer
sink_on_answer p json =
    locked (sink_status p) do sink ← λ s. s.sink_at p; change (set_answer sink.peer_connection json)

-- `reconnect`
unfoldable pub sink_reconnect : ℕ → Op
sink_reconnect p = locked (sink_status p) do
  sink ← λ s. s.sink_at p
  change (set_sink p (record sink { peer_connection = none }))
  when (not sink.closed) (change (spawn (run_sink p)))
