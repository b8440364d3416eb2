-- ===== src/Peer/Sender.antt =====
-- wrtc_source_sender.go, but for `onClose`.
use webrtc_cdn.Prelude.{ℕ, true, false, not, ◌&&◌, Option, none, some, Str}
use webrtc_cdn.Machine.State.{WrtcSourceSender, set_sender, close_peer, spawn, run_sender}
use webrtc_cdn.Machine.Op.{Op, sender_status, locked, change, when, skip, ◌>>=◌, ◌>>◌}
use webrtc_cdn.Messages.Redis.{send_sender_offer, send_sender_candidate}
use webrtc_cdn.Peer.Api.{PeerResults, outgoing_offer, is_some, add_candidate, set_answer}

-- `onTracksReady`
unfoldable pub sender_on_tracks_ready : ℕ → Option ℕ → Option ℕ → Op
sender_on_tracks_ready p video audio = locked (sender_status p) do
  sender ← λ s. s.sender_at p
  change (close_peer sender.peer_connection)
  change (
      set_sender p (record sender {
        local_track_video = video;
        has_video = is_some video;
        local_track_audio = audio;
        has_audio = is_some audio;
        peer_connection = none;
      }))
  change (spawn (run_sender p))

-- `runAfterTracksReady`
unfoldable pub sender_run_after_tracks_ready : PeerResults → ℕ → Op
unfolding outgoing_offer send_sender_offer
sender_run_after_tracks_ready r p = locked (sender_status p) do
  sender ← λ s. s.sender_at p
  when (not (not sender.has_video && not sender.has_audio)) (elim r.new_peer_connection [
    | none ↦ skip
    | some c ↦ do
      change (set_sender p (record sender { peer_connection = some c }))
      elim (outgoing_offer r sender.has_audio sender.has_video) [
        | none ↦ skip
        | some offer ↦ send_sender_offer p offer
      ]
  ])

-- The handler of `OnICECandidate`.
unfoldable pub sender_candidate_found : ℕ → Str → Op
unfolding send_sender_candidate
sender_candidate_found p candidate = locked (sender_status p) (send_sender_candidate p candidate)

-- `onICECandidate`
unfoldable pub sender_on_ice_candidate : ℕ → Str → Op
unfolding add_candidate
sender_on_ice_candidate p json =
    locked (sender_status p)
      do sender ← λ s. s.sender_at p; change (add_candidate sender.peer_connection json)

-- `onAnswer`
unfoldable pub sender_on_answer : ℕ → Str → Op
unfolding set_answer
sender_on_answer p json =
    locked (sender_status p)
      do sender ← λ s. s.sender_at p; change (set_answer sender.peer_connection json)

-- The writes of `close` to the sender.
abbrev pub closed_sender : WrtcSourceSender → WrtcSourceSender
closed_sender sender = record sender {
  closed = true;
  peer_connection = none;
  has_audio = false;
  has_video = false;
  local_track_audio = none;
  local_track_video = none;
}

-- `close`
unfoldable pub sender_close : ℕ → Op
sender_close p = locked (sender_status p) do
  sender ← λ s. s.sender_at p
  change (close_peer sender.peer_connection)
  change (set_sender p (closed_sender sender))
