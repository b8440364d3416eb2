-- ===== src/Peer/Relay.antt =====
-- wrtc_relay.go, but for `onClose` and the handler of `OnTrack`.
use webrtc_cdn.Prelude.{ℕ, Bool, none, some, Str}
use webrtc_cdn.Machine.State.{set_relay, close_peer, spawn, relay_closes}
use webrtc_cdn.Machine.Op.{Op, relay_status, locked, change, skip, ◌>>=◌, ◌>>◌}
use webrtc_cdn.Messages.Redis.{send_relay_answer, send_relay_candidate}
use webrtc_cdn.Peer.Api.{PeerResults, relay_answer, add_candidate}

-- `onOffer`
unfoldable pub relay_on_offer : PeerResults → ℕ → Bool → Bool → Op
unfolding relay_answer send_relay_answer
relay_on_offer r p has_video has_audio = locked (relay_status p) do
  relay ← λ s. s.relay_at p
  change (set_relay p (record relay { has_video = has_video; has_audio = has_audio }))
  change (close_peer relay.peer_connection)
  elim r.new_peer_connection [
    | none ↦ change (spawn (relay_closes p))
    | some c ↦ do
      change (λ s. set_relay p (record (s.relay_at p) { peer_connection = some c }) s)
      elim (relay_answer r) [ none ↦ skip | some answer ↦ send_relay_answer p answer ]
  ]

-- The handler of `OnICECandidate`.
unfoldable pub relay_candidate_found : ℕ → Str → Op
unfolding send_relay_candidate
relay_candidate_found p candidate = locked (relay_status p) (send_relay_candidate p candidate)

-- `onICECandidate`
unfoldable pub relay_on_ice_candidate : ℕ → Str → Op
unfolding add_candidate
relay_on_ice_candidate p json =
    locked (relay_status p)
      do relay ← λ s. s.relay_at p; change (add_candidate relay.peer_connection json)

-- `close`
unfoldable pub relay_close : ℕ → Op
relay_close p = locked (relay_status p) do
  relay ← λ s. s.relay_at p
  change (close_peer relay.peer_connection)
  change (set_relay p (record relay { peer_connection = none }))
