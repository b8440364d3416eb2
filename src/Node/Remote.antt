-- ===== src/Node/Remote.antt =====
-- node_sender_relay.go, `onClose` of wrtc_source_sender.go, and `onClose` and the handler of `OnTrack`
-- of wrtc_relay.go.
use webrtc_cdn.Prelude.{
  ℕ, suc, Bool, true, false, not, ◌&&◌, ◌||◌, List, [], ◌∷◌, Option, none, some, Str, Map,
  if◌then◌else◌, lookup, insert, delete, nat_key, str_key,
}
use webrtc_cdn.Machine.State.{
  State, WebrtcCdnNode, WrtcRelay, WrtcSourceSender, set_node, set_sender, set_relay, close_peer,
  spawn, relay_offer, run_pipe, update,
}
use webrtc_cdn.Machine.Op.{
  Op, node_status, sender_status, relay_status, locked, change, when, skip, if_found, for_each,
  values, ◌>>=◌, ◌>>◌,
}
use webrtc_cdn.Messages.Redis.{send_resolve_message, send_connect_message}
use webrtc_cdn.Peer.Api.{is_some}
use webrtc_cdn.Peer.Sink.{sink_on_tracks_ready, sink_on_tracks_closed}
use webrtc_cdn.Peer.Sender.{
  sender_on_tracks_ready, sender_on_answer, sender_on_ice_candidate, sender_close,
}
use webrtc_cdn.Peer.Relay.{relay_on_ice_candidate}
use webrtc_cdn.Node.Sinks.{sinks_of, ready_source, drop_relay}
use webrtc_cdn.Node.Sources.{senders_of, source_close, Kind, video, audio, unknown}

-- The sender of a stream to a node.
unfoldable pub sender_to : Str → Str → WebrtcCdnNode → Option ℕ
sender_to sid from n = lookup from (senders_of sid n)

-- A sender as `receiveConnectMessage` makes it.
unfoldable pub new_sender : Str → Str → WrtcSourceSender
new_sender sid from = record {
  sid = sid;
  remote_id = from;
  closed = false;
  peer_connection = none;
  has_audio = false;
  local_track_audio = none;
  has_video = false;
  local_track_video = none;
}

-- `node.senders[sid][from] = &sender`, with a new inner map where there is none.
unfoldable pub add_sender : Str → Str → ℕ → State → State
add_sender sid from p s = record s {
  sender_at = update s.sender_at p (new_sender sid from);
  next_ref = suc p;
  node = record (s.node) {
    senders = insert sid (insert from p (senders_of sid s.node)) s.node.senders;
  };
}

-- The old sender to a node closes, if there is one.
unfoldable pub close_sender : Option ℕ → Op
close_sender none = skip
close_sender (some r) = sender_close r

-- A new sender gets the tracks of a ready source.
unfoldable pub start_sender : ℕ → Option (Option ℕ × Option ℕ) → Op
start_sender p none = skip
start_sender p (some t) = sender_on_tracks_ready p t.0 t.1

-- `receiveConnectMessage`, with the source of the stream, if there is one.
unfoldable pub connect_from : Str → Str → Option ℕ → Op
connect_from from sid none = skip
connect_from from sid (some _) = do
  old ← λ s. sender_to sid from s.node
  close_sender old
  p ← λ s. s.next_ref
  change (add_sender sid from p)
  ready ← ready_source sid
  start_sender p ready

-- `receiveConnectMessage`
unfoldable pub receive_connect_message : Str → Str → Op
receive_connect_message from sid =
    locked node_status do source ← λ s. lookup sid s.node.sources; connect_from from sid source

-- The inner map of senders without one of them; an empty one goes too.
unfoldable pub leave_senders : Str → Map Str ℕ → WebrtcCdnNode → WebrtcCdnNode
leave_senders sid [] n = record n { senders = delete sid n.senders }
leave_senders sid (e ∷ g) n = record n { senders = insert sid (e ∷ g) n.senders }

-- `onSenderClosed`
unfoldable pub on_sender_closed : ℕ → Op
on_sender_closed p = locked node_status do
  sender ← λ s. s.sender_at p
  present ← λ s. sender_to sender.sid sender.remote_id s.node
  when (is_some present) (
      change (λ s.
        set_node
          (leave_senders sender.sid (delete sender.remote_id (senders_of sender.sid s.node)) s.node)
          s))

-- `WRTC_Source_Sender.onClose`
unfoldable pub sender_on_close : ℕ → Op
sender_on_close p = locked (sender_status p) do
  sender ← λ s. s.sender_at p
  change (set_sender p (record sender { peer_connection = none }))
  on_sender_closed p

-- `receiveAnswerMessage` of the node
unfoldable pub node_receive_answer : Str → Str → Str → Op
node_receive_answer from sid sdp =
    locked node_status
      do sender ← λ s. sender_to sid from s.node; if_found sender (λ p. sender_on_answer p sdp)

-- `receiveCandidateMessage` of the node
unfoldable pub node_receive_candidate : Str → Str → Str → Op
node_receive_candidate from sid candidate = locked node_status do
  sender ← λ s. sender_to sid from s.node
  if_found sender (λ p. sender_on_ice_candidate p candidate)
  relay ← λ s. lookup sid s.node.relays
  if_found relay (λ p. relay_on_ice_candidate p candidate)

-- A relay as `receiveInfoMessage` makes it.
unfoldable pub new_relay : Str → Str → WrtcRelay
new_relay sid from = record {
  sid = sid;
  remote_id = from;
  ready = false;
  peer_connection = none;
  has_audio = false;
  has_video = false;
  local_track_video = none;
  local_track_audio = none;
}

unfoldable pub add_relay : Str → Str → State → State
add_relay sid from s = record s {
  relay_at = update s.relay_at s.next_ref (new_relay sid from);
  next_ref = suc s.next_ref;
  node = record (s.node) { relays = insert sid s.next_ref s.node.relays };
}

-- Close the local source of a stream, if there is one, tell its client, and remove it.
unfoldable pub drop_found : Str → Option ℕ → Op
drop_found sid none = skip
drop_found sid (some p) = do
  source_close p true false
  change (λ s. set_node (record (s.node) { sources = delete sid s.node.sources }) s)

unfoldable pub drop_source : Str → Op
drop_source sid = do source ← λ s. lookup sid s.node.sources; drop_found sid source

abbrev pub is_empty {ℓ} : {A : Type ℓ} → List A → Bool
is_empty [] = true
is_empty (x ∷ xs) = false

-- `receiveInfoMessage`
unfoldable pub receive_info_message : Str → Str → Op
receive_info_message from sid = locked node_status do
  drop_source sid
  waiting ← λ s. sinks_of sid s.node
  when (not (is_empty waiting))
      do drop_relay sid; change (add_relay sid from); send_connect_message from sid

-- `receiveOfferMessage`
unfoldable pub receive_offer_message : Str → Str → Bool → Bool → Op
receive_offer_message sid offer has_video has_audio = locked node_status do
  relay ← λ s. lookup sid s.node.relays
  if_found relay (λ p. change (spawn (relay_offer p offer has_video has_audio)))

-- `onRelayReady`
unfoldable pub on_relay_ready : ℕ → Op
on_relay_ready p = locked node_status do
  relay ← λ s. s.relay_at p
  change (set_relay p (record relay { ready = true }))
  waiting ← λ s. sinks_of relay.sid s.node
  for_each (λ k. sink_on_tracks_ready k relay.local_track_video relay.local_track_audio)
      (values waiting)

-- `onRelayClosed`
unfoldable pub on_relay_closed : ℕ → Op
on_relay_closed p = locked node_status do
  relay ← λ s. s.relay_at p
  change (λ s. set_node (record (s.node) { relays = delete relay.sid s.node.relays }) s)
  waiting ← λ s. sinks_of relay.sid s.node
  for_each (λ k. sink_on_tracks_closed k relay.local_track_video relay.local_track_audio)
      (values waiting)
  when (not (is_empty waiting)) (send_resolve_message relay.sid)

-- `WRTC_Relay.onClose`
unfoldable pub relay_on_close : ℕ → Op
relay_on_close p = locked (relay_status p) do
  relay ← λ s. s.relay_at p
  change (close_peer relay.peer_connection)
  change (set_relay p (record relay { peer_connection = none }))
  on_relay_closed p

-- The track that the handler of `OnTrack` stores, where it does not return early. A track that
-- could not be made is stored as nil.
unfoldable pub relay_track : Kind → Option ℕ → WrtcRelay → Option WrtcRelay
relay_track video made relay =
    if is_some relay.local_track_video
    then none
    else some (record relay { local_track_video = made })
relay_track audio made relay =
    if is_some relay.local_track_audio
    then none
    else some (record relay { local_track_audio = made })
relay_track unknown made relay = none

-- The handler of `OnTrack` of a relay.
unfoldable pub relay_on_track : ℕ → Kind → Option ℕ → Op
relay_on_track p kind made = locked (relay_status p) do
  stored ← λ s. relay_track kind made (s.relay_at p)
  elim stored [
    | none ↦ skip
    | some relay ↦ do
      change (set_relay p relay)
      change (spawn (run_pipe made))
      when
          ((not relay.has_audio || is_some relay.local_track_audio)
            && (not relay.has_video || is_some relay.local_track_video))
          (on_relay_ready p)
  ]
