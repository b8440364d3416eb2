-- ===== src/Tests/Network.antt =====
-- OFFER, ANSWER, CANDIDATE and a track between two nodes.
use webrtc_cdn.Prelude.{ℕ, true, none, [], ◌∷◌, some, codes, ◌≡◌, ◌≢◌, refl, lookup}
use webrtc_cdn.Machine.State.{State, candidate_added, emit, published}
use webrtc_cdn.Machine.Op.{done, values}
use webrtc_cdn.Redis.{receive_redis_message}
use webrtc_cdn.Peer.Api.{PeerResults, outgoing_offer, relay_answer}
use webrtc_cdn.Peer.Sender.{sender_candidate_found}
use webrtc_cdn.Peer.Relay.{relay_candidate_found}
use webrtc_cdn.Node.Sources.{senders_of, video}
use webrtc_cdn.Node.Sinks.{sinks_of}
use webrtc_cdn.Node.Ready.{among, SinkHas}
use webrtc_cdn.Node.Relayed.{relay_tracks_reach_sinks}
use webrtc_cdn.Node.Remote.{sender_to, new_relay, relay_track, relay_on_track}
use webrtc_cdn.Redis.Negotiation.{IsPaired, IsNegotiated, link-IsNegotiated}
use webrtc_cdn.Redis.Candidates.{IsConnected, message, candidates_delivered}
use webrtc_cdn.Tests.Data.{tables, idle_sender, quiet_node, quiet}

-- The node "node" sends the video of "cam", and the node "far" has the relay of it.
abbrev sending : State
sending = record quiet {
  node = record quiet_node { senders = (codes "cam", (codes "far", 0) ∷ []) ∷ [] };
  sender_at = λ _. record idle_sender { has_video = true };
}

abbrev relaying : State
relaying = record quiet {
  node = record quiet_node { id = codes "far"; relays = (codes "cam", 0) ∷ [] };
  relay_at = λ _. new_relay (codes "cam") (codes "node");
}

nodes-differ : sending.node.id ≢ relaying.node.id
nodes-differ e = cc

-- A peer connection on which every call works.
abbrev working : PeerResults
working = record {
  new_peer_connection = some 5;
  add_audio = true;
  add_video = true;
  unmarshal = true;
  set_remote_description = true;
  create_description = true;
  set_local_description = true;
  marshal = some (codes "{}");
}

nodes-IsPaired : IsPaired (codes "cam") 0 0 sending relaying
unfolding lookup sender_to senders_of new_relay
nodes-IsPaired = record {
  a_sender = refl;
  a_sid = refl;
  a_remote = refl;
  b_relay = refl;
  b_sid = refl;
  b_remote = refl;
}

link-IsNegotiated_example :
    IsNegotiated tables working working 0 0 5 5 (codes "{}") (codes "{}") sending relaying
unfolding outgoing_offer relay_answer
link-IsNegotiated_example =
    link-IsNegotiated tables working working 0 0 5 5 (codes "{}") (codes "{}") (codes "cam") sending
      relaying nodes-IsPaired nodes-differ refl refl refl refl refl refl refl

-- The two ends after that.
abbrev settled : State
settled = record sending {
  sender_at = λ _. record idle_sender { has_video = true; peer_connection = some 5 };
}

abbrev told : State
told = record relaying {
  relay_at = λ _. record (new_relay (codes "cam") (codes "node")) {
    has_video = true;
    peer_connection = some 5;
  };
}

ends-IsConnected : IsConnected (codes "cam") 0 0 5 5 settled told
unfolding lookup sender_to senders_of new_relay
ends-IsConnected = record {
  pair = record {
    a_sender = refl;
    a_sid = refl;
    a_remote = refl;
    b_relay = refl;
    b_sid = refl;
    b_remote = refl;
  };
  a_peer = refl;
  b_peer = refl;
}

candidates_delivered_example :
    (sender_candidate_found 0 (codes "{}") [] settled
      ≡ done (
          emit (published (codes "far") (message (codes "cam") (codes "{}") settled told)) settled))
    × (receive_redis_message tables (message (codes "cam") (codes "{}") settled told) [] told
        ≡ done (emit (candidate_added 5 (codes "{}")) told))
    × (relay_candidate_found 0 (codes "{}") [] told
        ≡ done (
            emit (published (codes "node") (message (codes "cam") (codes "{}") told settled)) told))
    × (receive_redis_message tables (message (codes "cam") (codes "{}") told settled) [] settled
        ≡ done (emit (candidate_added 5 (codes "{}")) settled))
unfolding lookup sender_to senders_of
candidates_delivered_example =
    candidates_delivered tables (codes "cam") 0 0 5 5 123 (125 ∷ []) settled told nodes-differ refl
      refl refl refl ends-IsConnected

-- A sink of the far node waits for the stream, and the video comes.
abbrev watched : State
watched = record told { node = record (told.node) { sinks = (codes "cam", (1, 0) ∷ []) ∷ [] } }

relay_tracks_reach_sinks_example :
    (t : State) × (relay_on_track 0 video (some 7) [] watched ≡ done t)
    × ((k : ℕ)
        → among k (values (sinks_of (codes "cam") watched.node)) ≡ true
        → SinkHas (some 7) none k t)
unfolding relay_track new_relay
relay_tracks_reach_sinks_example =
    relay_tracks_reach_sinks 0 video (some 7)
      (record (watched.relay_at 0) { local_track_video = some 7 }) watched refl refl
