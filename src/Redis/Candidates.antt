-- ===== src/Redis/Candidates.antt =====
-- The CANDIDATE messages between the two ends of a link.
use webrtc_cdn.Prelude.{
  ℕ, false, [], ◌∷◌, none, some, Str, codes, ◌≡◌, ◌≢◌, refl, sym, ◌∙◌, lookup, insert, delete,
  str_key, Map,
}
use webrtc_cdn.Strings.{Unicode, to_upper, is_ascii}
use webrtc_cdn.Machine.State.{State, published, candidate_added, emit}
use webrtc_cdn.Machine.Op.{done}
use webrtc_cdn.Messages.Redis.{data_message, send_redis_message}
use webrtc_cdn.Peer.Api.{PeerResults, add_candidate}
use webrtc_cdn.Peer.Sender.{sender_candidate_found, sender_on_ice_candidate}
use webrtc_cdn.Peer.Relay.{relay_candidate_found, relay_on_ice_candidate}
use webrtc_cdn.Node.Remote.{sender_to, node_receive_candidate}
use webrtc_cdn.Redis.{field, msg_type, receive_typed, receive_redis_message}
use webrtc_cdn.Redis.Negotiation.{IsPaired, IsNegotiated}
use webrtc_cdn.Redis.Replies.{str_eq_ne}

-- The two are set up, with the peer connections `ca` and `cb`.
pub record IsConnected (sid : Str) (p r ca cb : ℕ) (a b : State) : Type 0 where
  pub pair : IsPaired sid p r a b
  pub a_peer : (a.sender_at p).peer_connection ≡ some ca
  pub b_peer : (b.relay_at r).peer_connection ≡ some cb

received_candidate :
    (u : Unicode) (far dst sid json : Str) (s : State)
    → far ≢ s.node.id
    → receive_redis_message u (data_message (codes "CANDIDATE") far dst sid json) [] s
      ≡ node_receive_candidate far sid json [] s
unfolding receive_redis_message field data_message msg_type receive_typed to_upper is_ascii lookup
    insert delete
received_candidate u far dst sid json s other = rw (str_eq_ne far s.node.id other) refl

-- The CANDIDATE that the node `a` sends to `b`.
abbrev pub message : Str → Str → State → State → Map Str Str
message sid json a b = data_message (codes "CANDIDATE") a.node.id b.node.id sid json

-- Where the sender of a node and the relay of another, of one stream, name each other and have peer
-- connections, the IDs of the nodes differ and neither stands alone, the node of the sender has no relay
-- of the stream, and that of the relay no sender of it back: a candidate with some text that either of
-- them finds is sent to the other node, and the message makes that node give the same text to the
-- peer connection of its end, and do nothing else.
pub candidates_delivered :
    (u : Unicode) (sid : Str) (p r ca cb x : ℕ) (json : Str) (a b : State)
    → a.node.id ≢ b.node.id
    → a.node.stand_alone ≡ false
    → b.node.stand_alone ≡ false
    → lookup sid a.node.relays ≡ none
    → sender_to sid a.node.id b.node ≡ none
    → IsConnected sid p r ca cb a b
    → (sender_candidate_found p (x ∷ json) [] a
        ≡ done (emit (published b.node.id (message sid (x ∷ json) a b)) a))
      × (receive_redis_message u (message sid (x ∷ json) a b) [] b
          ≡ done (emit (candidate_added cb (x ∷ json)) b))
      × (relay_candidate_found r (x ∷ json) [] b
          ≡ done (emit (published a.node.id (message sid (x ∷ json) b a)) b))
      × (receive_redis_message u (message sid (x ∷ json) b a) [] a
          ≡ done (emit (candidate_added ca (x ∷ json)) a))
unfolding sender_candidate_found relay_candidate_found node_receive_candidate
    sender_on_ice_candidate relay_on_ice_candidate add_candidate send_redis_message
candidates_delivered u sid p r ca cb x json a b differ a_joined b_joined a_relay b_sender c = (
  rw (c.pair.a_sid, c.pair.a_remote, a_joined) refl,
  received_candidate u a.node.id b.node.id sid (x ∷ json) b differ
      ∙ rw (b_sender, c.pair.b_relay, c.b_peer) refl,
  rw (c.pair.b_sid, c.pair.b_remote, b_joined) refl,
  received_candidate u b.node.id a.node.id sid (x ∷ json) a (λ e. differ (sym e))
      ∙ rw (c.pair.a_sender, c.a_peer, a_relay) refl,
)

-- What IsNegotiated leaves is connected.
negotiated-IsConnected :
    (u : Unicode) (ra rb : PeerResults) (p r ca cb : ℕ) (offer answer sid : Str) (a b : State)
    → IsPaired sid p r a b
    → (n : IsNegotiated u ra rb p r ca cb offer answer a b)
    → IsConnected sid p r ca cb n.settled n.told
negotiated-IsConnected u ra rb p r ca cb offer answer sid a b l n = record {
  pair = record {
    a_sender = rw (n.settled_node, n.told_node) l.a_sender;
    a_sid = rw n.settled_sender l.a_sid;
    a_remote = rw (n.settled_sender, n.told_node) l.a_remote;
    b_relay = rw n.told_node l.b_relay;
    b_sid = rw n.told_relay l.b_sid;
    b_remote = rw (n.told_relay, n.settled_node) l.b_remote;
  };
  a_peer = rw n.settled_sender refl;
  b_peer = rw n.told_relay refl;
}
