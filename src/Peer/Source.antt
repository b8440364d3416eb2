-- ===== src/Peer/Source.antt =====
-- wrtc_source.go, but for `close`, `onClose` and the handler of `OnTrack`.
use webrtc_cdn.Prelude.{ℕ, none, some, Str}
use webrtc_cdn.Machine.State.{set_source}
use webrtc_cdn.Machine.Op.{Op, source_status, locked, change, skip, ◌>>=◌, ◌>>◌}
use webrtc_cdn.Messages.Client.{send_offer, send_ice_candidate}
use webrtc_cdn.Peer.Api.{PeerResults, incoming_offer, add_candidate, set_answer}

-- `run`
unfoldable pub source_run : PeerResults → ℕ → Op
unfolding incoming_offer send_offer
source_run r p = locked (source_status p) do
  source ← λ s. s.source_at p
  elim r.new_peer_connection [
    | none ↦ skip
    | some c ↦ do
      change (set_source p (record source { peer_connection = some c }))
      elim (incoming_offer r source.has_audio source.has_video) [
        | none ↦ skip
        | some offer ↦ send_offer source.connection source.request_id source.sid offer
      ]
  ]

-- The handler of `OnICECandidate`.
unfoldable pub source_candidate_found : ℕ → Str → Op
unfolding send_ice_candidate
source_candidate_found p candidate = locked (source_status p) do
  source ← λ s. s.source_at p
  send_ice_candidate source.connection source.request_id source.sid candidate

-- `onICECandidate`
unfoldable pub source_on_ice_candidate : ℕ → Str → Op
unfolding add_candidate
source_on_ice_candidate p json =
    locked (source_status p)
      do source ← λ s. s.source_at p; change (add_candidate source.peer_connection json)

-- `onAnswer`
unfoldable pub source_on_answer : ℕ → Str → Op
unfolding set_answer
source_on_answer p json =
    locked (source_status p)
      do source ← λ s. s.source_at p; change (set_answer source.peer_connection json)
