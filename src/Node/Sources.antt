-- ===== src/Node/Sources.antt =====
-- node_sources.go, and `close`, `onClose` and the handler of `OnTrack` of wrtc_source.go.
use webrtc_cdn.Prelude.{
  ℕ, Bool, true, false, not, ◌&&◌, ◌||◌, List, [], ◌∷◌, Option, none, some, Str, Map, if◌then◌else◌,
  lookup, insert, delete, nat_key, str_key,
}
use webrtc_cdn.Machine.State.{
  State, WebrtcCdnNode, WrtcSource, Task, run_pipe, request_key_frames, set_node, set_source,
  close_peer,
}
use webrtc_cdn.Machine.Op.{
  Op, node_status, source_status, locked, change, when, skip, for_each, values, ◌>>=◌, ◌>>◌,
}
use webrtc_cdn.Messages.Redis.{send_info_message, redis_broadcast_channel}
use webrtc_cdn.Messages.Client.{send_source_close}
use webrtc_cdn.Peer.Api.{is_some}
use webrtc_cdn.Peer.Sink.{sink_on_tracks_ready, sink_on_tracks_closed}
use webrtc_cdn.Peer.Sender.{sender_on_tracks_ready, sender_close}
use webrtc_cdn.Node.Sinks.{sinks_of, drop_relay}

unfoldable pub senders_of : Str → WebrtcCdnNode → Map Str ℕ
senders_of sid n = elim (lookup sid n.senders) [ none ↦ [] | some g ↦ g ]

-- `resolveSource`
unfoldable pub resolve_source : Str → State → Bool
resolve_source sid s = is_some (lookup sid s.node.sources)

-- Close all the senders of a stream and remove them.
unfoldable pub drop_senders : Str → Op
drop_senders sid = do
  group ← λ s. senders_of sid s.node
  for_each sender_close (values group)
  change (λ s. set_node (record (s.node) { senders = delete sid s.node.senders }) s)

-- `onSourceClosed`
unfoldable pub on_source_closed : ℕ → Op
on_source_closed p = locked node_status do
  source ← λ s. s.source_at p
  change (λ s. set_node (record (s.node) { sources = delete source.sid s.node.sources }) s)
  drop_senders source.sid
  waiting ← λ s. sinks_of source.sid s.node
  for_each (λ k. sink_on_tracks_closed k source.local_track_video source.local_track_audio)
      (values waiting)

-- `WRTC_Source.close`
unfoldable pub source_close : ℕ → Bool → Bool → Op
source_close p notify_connection deregister = locked (source_status p) do
  source ← λ s. s.source_at p
  when (not source.closed) do
    change (close_peer source.peer_connection)
    change (set_source p (record source { closed = true; peer_connection = none }))
    when notify_connection (send_source_close source.connection source.request_id source.sid)
    when deregister (on_source_closed p)

-- `WRTC_Source.onClose`
unfoldable pub source_on_close : ℕ → Op
source_on_close p = locked (source_status p) do
  source ← λ s. s.source_at p
  when (not source.closed) do
    change (set_source p (record source { closed = true }))
    send_source_close source.connection source.request_id source.sid
    on_source_closed p

-- `registerSource`
unfoldable pub register_source : ℕ → Op
register_source p = locked node_status do
  source ← λ s. s.source_at p
  old ← λ s. lookup source.sid s.node.sources
  elim old [ none ↦ skip | some r ↦ source_close r true false ]
  change (λ s. set_node (record (s.node) { sources = insert source.sid p s.node.sources }) s)
  drop_relay source.sid
  drop_senders source.sid
  send_info_message redis_broadcast_channel source.sid

-- `onSourceReady`
unfoldable pub on_source_ready : ℕ → Op
on_source_ready p = locked node_status do
  source ← λ s. s.source_at p
  change (set_source p (record source { ready = true }))
  waiting ← λ s. sinks_of source.sid s.node
  for_each (λ k. sink_on_tracks_ready k source.local_track_video source.local_track_audio)
      (values waiting)
  remote ← λ s. senders_of source.sid s.node
  for_each (λ k. sender_on_tracks_ready k source.local_track_video source.local_track_audio)
      (values remote)

-- `remoteTrack.Kind()`
pub data Kind : Type 0 where
  video audio unknown : Kind

-- The track that the handler of `OnTrack` stores; `none` where it returns early. `made` is the new
-- local track, or `none` where it could not be made.
unfoldable pub source_track : Kind → Option ℕ → WrtcSource → Option WrtcSource
source_track video made source =
    if is_some source.local_track_video || not (is_some made)
    then none
    else some (record source { local_track_video = made })
source_track audio made source =
    if is_some source.local_track_audio || not (is_some made)
    then none
    else some (record source { local_track_audio = made })
source_track unknown made source = none

-- All the tracks that the source has are there.
abbrev pub has_all_tracks : WrtcSource → Bool
has_all_tracks source =
    (not source.has_audio || is_some source.local_track_audio)
    && (not source.has_video || is_some source.local_track_video)

-- The goroutines that the handler starts for a track that it stores.
unfoldable pub track_tasks : ℕ → Kind → Option ℕ → List Task → List Task
track_tasks p video made tasks = request_key_frames p ∷ run_pipe made ∷ tasks
track_tasks p audio made tasks = run_pipe made ∷ tasks
track_tasks p unknown made tasks = tasks

abbrev pub follow_track : ℕ → Kind → Option ℕ → State → State
follow_track p kind made s = record s { tasks = track_tasks p kind made s.tasks }

-- The end of the handler, from the store of the track on.
unfoldable pub store_track : ℕ → Kind → Option ℕ → Option WrtcSource → Op
unfolding track_tasks
store_track p kind made none = skip
store_track p kind made (some source) = do
  change (set_source p source)
  change (follow_track p kind made)
  when (has_all_tracks source) (on_source_ready p)

-- The handler of `OnTrack`.
unfoldable pub source_on_track : ℕ → Kind → Option ℕ → Op
source_on_track p kind made =
    locked (source_status p)
      do stored ← λ s. source_track kind made (s.source_at p); store_track p kind made stored
