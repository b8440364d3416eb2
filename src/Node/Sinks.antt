-- ===== src/Node/Sinks.antt =====
-- node_sinks.go, and `close` of wrtc_sink.go.
use webrtc_cdn.Prelude.{
  ℕ, ◌+◌, ◌%◌, ◌^◌, true, false, [], ◌∷◌, Option, none, some, Str, Map, if◌then◌else◌, lookup,
  insert, delete, nat_key, str_key,
}
use webrtc_cdn.Machine.State.{State, WebrtcCdnNode, WrtcSink, set_node, set_sink, close_peer}
use webrtc_cdn.Machine.Op.{Op, node_status, sink_status, locked, change, when, skip, ◌>>=◌, ◌>>◌}
use webrtc_cdn.Messages.Redis.{send_resolve_message}
use webrtc_cdn.Peer.Api.{is_some}
use webrtc_cdn.Peer.Sink.{sink_on_tracks_ready}
use webrtc_cdn.Peer.Relay.{relay_close}

-- `c++` on a uint64.
abbrev pub inc64 : ℕ → ℕ
inc64 c = (c + 1) % 2 ^ 64

-- `getSinkID`
unfoldable pub get_sink_id : WebrtcCdnNode → WebrtcCdnNode × ℕ
get_sink_id n = (record n { sink_count = inc64 n.sink_count }, inc64 n.sink_count)

-- The tracks of a ready source, or of a ready relay, of a stream: video, then audio.
unfoldable pub ready_source : Str → State → Option (Option ℕ × Option ℕ)
ready_source sid s = elim (lookup sid s.node.sources) [
  | none ↦ none
  | some r ↦
      if (s.source_at r).ready
      then some ((s.source_at r).local_track_video, (s.source_at r).local_track_audio)
      else none
]

unfoldable pub ready_relay : Str → State → Option (Option ℕ × Option ℕ)
ready_relay sid s = elim (lookup sid s.node.relays) [
  | none ↦ none
  | some r ↦
      if (s.relay_at r).ready
      then some ((s.relay_at r).local_track_video, (s.relay_at r).local_track_audio)
      else none
]

-- The inner map of a stream; an absent one reads as empty.
unfoldable pub sinks_of : Str → WebrtcCdnNode → Map ℕ ℕ
sinks_of sid n = elim (lookup sid n.sinks) [ none ↦ [] | some g ↦ g ]

unfoldable pub add_sink : ℕ → WrtcSink → WebrtcCdnNode → WebrtcCdnNode
add_sink p sink n = record n {
  sinks = insert sink.sid (insert sink.sink_id p (sinks_of sink.sid n)) n.sinks;
}

-- A sink gets these tracks, if there are any.
unfoldable pub give_tracks : ℕ → Option (Option ℕ × Option ℕ) → Op → Op
give_tracks p (some (video, audio)) otherwise = sink_on_tracks_ready p video audio
give_tracks p none otherwise = otherwise

-- The tracks that a new sink gets: those of a ready source, or of a ready relay; with neither, the
-- other nodes are asked.
unfoldable pub find_tracks : ℕ → Str → Op
find_tracks p sid = do
  from_source ← ready_source sid
  from_relay ← ready_relay sid
  give_tracks p from_source (give_tracks p from_relay (send_resolve_message sid))

-- `registerSink`
unfoldable pub register_sink : ℕ → Op
register_sink p = locked node_status do
  sink ← λ s. s.sink_at p
  change (λ s. set_node (add_sink p sink s.node) s)
  find_tracks p sink.sid

-- `node.relays[sid].close(); delete(node.relays, sid)`, if there is one.
unfoldable pub drop_relay : Str → Op
drop_relay sid = do
  relay ← λ s. lookup sid s.node.relays
  elim relay [
    | none ↦ skip
    | some r ↦ do
      relay_close r
      change (λ s. set_node (record (s.node) { relays = delete sid s.node.relays }) s)
  ]

-- The end of `removeSink`, on the inner map without the sink.
unfoldable pub leave_sinks : Str → Map ℕ ℕ → Op
leave_sinks sid [] = do
  change (λ s. set_node (record (s.node) { sinks = delete sid s.node.sinks }) s)
  drop_relay sid
leave_sinks sid (e ∷ g) =
    change (λ s. set_node (record (s.node) { sinks = insert sid (e ∷ g) s.node.sinks }) s)

-- The tests of `removeSink`, on the inner map of the stream, if there is one.
unfoldable pub leave_stream : WrtcSink → Option (Map ℕ ℕ) → Op
leave_stream sink none = skip
leave_stream sink (some g) =
    when (is_some (lookup sink.sink_id g)) (leave_sinks sink.sid (delete sink.sink_id g))

-- `removeSink`
unfoldable pub remove_sink : ℕ → Op
remove_sink p =
    locked node_status
      do sink ← λ s. s.sink_at p; group ← λ s. lookup sink.sid s.node.sinks; leave_stream sink group

-- The writes of `WRTC_Sink.close` to the sink.
abbrev pub closed_sink : WrtcSink → WrtcSink
closed_sink sink = record sink {
  closed = true;
  peer_connection = none;
  has_audio = false;
  has_video = false;
  local_track_audio = none;
  local_track_video = none;
}

-- `WRTC_Sink.close`
unfoldable pub sink_close : ℕ → Op
sink_close p = locked (sink_status p) do
  sink ← λ s. s.sink_at p
  change (close_peer sink.peer_connection)
  change (set_sink p (closed_sink sink))
  remove_sink p
