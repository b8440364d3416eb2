-- ===== src/Tests/Connections.antt =====
-- The loops of a connection, and the tracks of its source.
use webrtc_cdn.Prelude.{ℕ, true, List, [], ◌∷◌, ◌++◌, some, codes, ◌≡◌, refl}
use webrtc_cdn.Machine.State.{State, run_pipe, request_key_frames, to_client, websocket_closed}
use webrtc_cdn.Machine.Op.{done, values}
use webrtc_cdn.Node.Sinks.{sinks_of}
use webrtc_cdn.Node.Sources.{video, audio, senders_of, source_on_track}
use webrtc_cdn.Node.Ready.{among, SinkHas, SenderHas}
use webrtc_cdn.Node.Tracks.{both_tracks_reach_all}
use webrtc_cdn.Connection.Lifecycle.{
  Frame, text, binary, failed, receive_heartbeat, heartbeat_round, run_loop,
}
use webrtc_cdn.Connection.Heartbeat.{heartbeat_message, heartbeat_timeout}
use webrtc_cdn.Connection.Loop.{Ends, run_loop-Ends}
use webrtc_cdn.Tests.Data.{publishing}
use webrtc_cdn.Tests.Requests.{around}

heartbeat_timeout_example :
    (t u : State) × (receive_heartbeat 7 0 [] publishing ≡ done t)
    × (heartbeat_round 60007 0 [] t ≡ done u)
    × (u.out ≡ websocket_closed 0 ∷ to_client 0 heartbeat_message ∷ [])
heartbeat_timeout_example = heartbeat_timeout 7 60007 0 publishing refl

abbrev two_frames : List (ℕ × Frame)
two_frames = (1, binary) ∷ (2, text (codes "CLOSE\nrequest-id:a\n")) ∷ []

run_loop-Ends_example :
    Ends around 0
      (two_frames ++ (3, failed) ∷ [])
      publishing
      (run_loop around 0 (two_frames ++ (3, failed) ∷ []) publishing)
run_loop-Ends_example = run_loop-Ends around 0 two_frames [] 3 publishing

-- The sink at 0 waits for "cam", and so does the sender at 0.
abbrev awaiting : State
awaiting = record publishing {
  node = record (publishing.node) {
    sinks = (codes "cam", (1, 0) ∷ []) ∷ [];
    senders = (codes "cam", (codes "far", 0) ∷ []) ∷ [];
  };
}

both_tracks_reach_all_example :
    (t u : State) × (source_on_track 1 video (some 8) [] awaiting ≡ done t)
    × (t.tasks ≡ request_key_frames 1 ∷ run_pipe (some 8) ∷ [])
    × (source_on_track 1 audio (some 9) [] t ≡ done u)
    × ((k : ℕ)
        → among k (values (sinks_of (codes "cam") awaiting.node)) ≡ true
        → SinkHas (some 8) (some 9) k u)
    × ((k : ℕ)
        → among k (values (senders_of (codes "cam") awaiting.node)) ≡ true
        → SenderHas (some 8) (some 9) k u)
both_tracks_reach_all_example = both_tracks_reach_all 1 8 9 awaiting refl refl refl refl
