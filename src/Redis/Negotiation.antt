-- ===== src/Redis/Negotiation.antt =====
-- The set-up of the connection from a sender of one node to the relay of another: OFFER and ANSWER.
use webrtc_cdn.Prelude.{
  ℕ, Bool, true, false, not, ◌&&◌, List, [], ◌∷◌, Option, none, some, Str, codes, ◌≡◌, ◌≢◌, refl,
  ap, ◌∙◌, sym, lookup, str_key,
}
use webrtc_cdn.Strings.{Unicode}
use webrtc_cdn.Machine.State.{
  WrtcRelay, WrtcSourceSender, State, Event, published, answer_set, emit, spawn, relay_offer,
  set_sender, set_relay, close_peer, update_self, update,
}
use webrtc_cdn.Machine.Op.{done, node_status}
use webrtc_cdn.Messages.Redis.{offer_message, data_message, send_sender_offer, send_redis_message}
use webrtc_cdn.Peer.Api.{PeerResults, outgoing_offer, relay_answer, set_answer}
use webrtc_cdn.Peer.Sender.{sender_run_after_tracks_ready, sender_on_answer}
use webrtc_cdn.Peer.Relay.{relay_on_offer}
use webrtc_cdn.Node.Remote.{sender_to, new_relay}
use webrtc_cdn.Redis.{receive_redis_message}
use webrtc_cdn.Redis.Handshake.{IsLinked}
use webrtc_cdn.Redis.Delivery.{offer_delivered, answer_delivered}

close_peer_lem :
    (c : Option ℕ) (s : State) → (rest : List Event) × (close_peer c s ≡ record s { out = rest })
close_peer_lem none s = (s.out, refl)
close_peer_lem (some c) s = (Event.peer_closed c ∷ s.out, refl)

module _ (r : PeerResults) (p c : ℕ) (offer : Str) (s : State) where
  abbrev connected : WrtcSourceSender
  connected = record (s.sender_at p) { peer_connection = some c }

  -- A sender with a track, whose peer connection can be made, sends its OFFER.
  pub sender_offers :
      not (not (s.sender_at p).has_video && not (s.sender_at p).has_audio) ≡ true
      → r.new_peer_connection ≡ some c
      → outgoing_offer r (s.sender_at p).has_audio (s.sender_at p).has_video ≡ some offer
      → s.node.stand_alone ≡ false
      → sender_run_after_tracks_ready r p [] s
        ≡ done (
            emit
              (published (s.sender_at p).remote_id (offer_message s.node.id connected offer))
              (set_sender p connected s))
  unfolding sender_run_after_tracks_ready send_sender_offer send_redis_message
  sender_offers track made described joined =
      rw (track, made, described, update_self s.sender_at p connected, joined) refl

-- A relay whose peer connection can be made answers the OFFER.
module _ (r : PeerResults) (p c : ℕ) (answer : Str) (video audio : Bool) (s : State) where
  abbrev told_tracks : WrtcRelay
  told_tracks = record (s.relay_at p) { has_video = video; has_audio = audio }

  abbrev replied : WrtcRelay
  replied = record told_tracks { peer_connection = some c }

  -- The state that the answer leaves, where the events before it are these.
  abbrev replying : List Event → State
  replying rest =
      emit
        (published replied.remote_id
          (data_message (codes "ANSWER") s.node.id replied.remote_id replied.sid answer))
        (set_relay p replied (set_relay p told_tracks (record s { out = rest })))

  pub relay_answers :
      r.new_peer_connection ≡ some c
      → relay_answer r ≡ some answer
      → s.node.stand_alone ≡ false
      → (rest : List Event) × (relay_on_offer r p video audio [] s ≡ done (replying rest))
  unfolding relay_on_offer
  relay_answers made answered joined =
      let (rest, left) =
        close_peer_lem (s.relay_at p).peer_connection (set_relay p told_tracks s) in
      let own = update_self s.relay_at p told_tracks in
      let again = update_self (λ _. told_tracks) p replied in
      (rest, rw (left, made, answered, own, again, joined) refl)

-- A sender gives the description of an ANSWER to its peer connection.
sender_takes_answer :
    (p c : ℕ) (json : Str) (s : State)
    → (s.sender_at p).peer_connection ≡ some c
    → sender_on_answer p json (node_status ∷ []) s ≡ done (emit (answer_set c json) s)
unfolding sender_on_answer set_answer
sender_takes_answer p c json s e = rw e refl

-- The sender at `p` of the node `a` and the relay at `r` of the node `b`, of one stream, name each other.
pub record IsPaired (sid : Str) (p r : ℕ) (a b : State) : Type 0 where
  pub a_sender : sender_to sid b.node.id a.node ≡ some p
  pub a_sid : (a.sender_at p).sid ≡ sid
  pub a_remote : (a.sender_at p).remote_id ≡ b.node.id
  pub b_relay : lookup sid b.node.relays ≡ some r
  pub b_sid : (b.relay_at r).sid ≡ sid
  pub b_remote : (b.relay_at r).remote_id ≡ a.node.id

-- The link that RESOLVE, INFO and CONNECT leave is one.
linked-IsPaired :
    (sid : Str) (a b : State) (l : IsLinked a.node.id b.node.id sid a b)
    → IsPaired sid l.sender l.relay a b
unfolding new_relay
linked-IsPaired sid a b l = record {
  a_sender = l.a_sender;
  a_sid = l.a_sid;
  a_remote = l.a_remote;
  b_relay = l.b_relay;
  b_sid = ap (λ (x : WrtcRelay). x.sid) l.b_remote;
  b_remote = ap (λ (x : WrtcRelay). x.remote_id) l.b_remote;
}

-- A sender of the node `a` at `p` and a relay of the node `b` at `r`, which settle on a connection.
pub record IsNegotiated (u : Unicode) (ra rb : PeerResults) (p r ca cb : ℕ) (offer answer : Str)
    (a b : State) : Type 0 where
  pub offered : State
  pub asked : State
  pub told : State
  pub settled : State
  pub rest : List Event
  pub sender_runs : sender_run_after_tracks_ready ra p [] a ≡ done offered
  pub sends_offer :
      offered.out
      ≡ published b.node.id (offer_message a.node.id (offered.sender_at p) offer) ∷ a.out
  pub receives_offer :
      receive_redis_message u (offer_message a.node.id (offered.sender_at p) offer) [] b
      ≡ done asked
  pub starts_answer :
      asked.tasks
      ≡ relay_offer r offer (a.sender_at p).has_video (a.sender_at p).has_audio ∷ b.tasks
  pub relay_runs :
      relay_on_offer rb r (a.sender_at p).has_video (a.sender_at p).has_audio [] asked ≡ done told
  pub sends_answer :
      told.out
      ≡ published a.node.id
          (data_message (codes "ANSWER") b.node.id a.node.id (a.sender_at p).sid answer)
        ∷ rest
  pub told_node : told.node ≡ b.node
  pub told_relay : told.relay_at r ≡ record (b.relay_at r) {
    has_video = (a.sender_at p).has_video;
    has_audio = (a.sender_at p).has_audio;
    peer_connection = some cb;
  }
  pub receives_answer :
      receive_redis_message u
        (data_message (codes "ANSWER") b.node.id a.node.id (a.sender_at p).sid answer)
        []
        offered
      ≡ done settled
  pub sets_answer : settled.out ≡ answer_set ca answer ∷ offered.out
  pub settled_node : settled.node ≡ a.node
  pub settled_sender : settled.sender_at p ≡ record (a.sender_at p) { peer_connection = some ca }

-- Where a node has a sender of a stream to another, and that a relay of the stream from it, their IDs
-- differ and neither stands alone, the sender has a track, both peer connections can be made, and the
-- calls of the WebRTC library on them give an offer and an answer: runAfterTracksReady of the sender
-- makes the one node send OFFER to the other, that starts onOffer of the relay with the same description
-- and the same flags of video and audio, this sends ANSWER back, and the sender gives its description to
-- its peer connection. After it each of the two has its new peer connection, the relay has the flags
-- of the sender, and nothing else of the two or of the maps of the nodes has changed.
pub link-IsNegotiated :
    (u : Unicode) (ra rb : PeerResults) (p r ca cb : ℕ) (offer answer sid : Str) (a b : State)
    → IsPaired sid p r a b
    → a.node.id ≢ b.node.id
    → a.node.stand_alone ≡ false
    → b.node.stand_alone ≡ false
    → not (not (a.sender_at p).has_video && not (a.sender_at p).has_audio) ≡ true
    → ra.new_peer_connection ≡ some ca
    → outgoing_offer ra (a.sender_at p).has_audio (a.sender_at p).has_video ≡ some offer
    → rb.new_peer_connection ≡ some cb
    → relay_answer rb ≡ some answer
    → IsNegotiated u ra rb p r ca cb offer answer a b
link-IsNegotiated u ra rb p r ca cb offer answer sid a b l differ a_joined b_joined track a_made
      described b_made replies =
    let v = connected ra p ca offer a in
    let sent =
      emit (published (a.sender_at p).remote_id (offer_message a.node.id v offer))
        (set_sender p v a) in
    let own = update_self a.sender_at p v in
    let asked = spawn (relay_offer r offer v.has_video v.has_audio) b in
    let (rest, run) =
      relay_answers rb r cb answer v.has_video v.has_audio asked b_made replies b_joined in
    let y = replied rb r cb answer v.has_video v.has_audio asked in
    let kept =
      update_self (update b.relay_at r (told_tracks rb r cb answer v.has_video v.has_audio asked)) r
        y in
    record {
      offered = sent;
      asked = asked;
      told = replying rb r cb answer v.has_video v.has_audio asked rest;
      settled = emit (answer_set ca answer) sent;
      rest = rest;
      sender_runs = sender_offers ra p ca offer a track a_made described a_joined;
      sends_offer = rw (own, l.a_remote) refl;
      receives_offer = rw own (
          offer_delivered u a.node.id offer v b r differ
            (ap (λ x. lookup x b.node.relays) l.a_sid ∙ l.b_relay));
      starts_answer = refl;
      relay_runs = run;
      sends_answer = rw (l.b_remote, l.b_sid, l.a_sid) refl;
      told_node = refl;
      told_relay = kept;
      receives_answer =
          answer_delivered u b.node.id a.node.id (a.sender_at p).sid answer sent p
            (λ e. differ (sym e)) (ap (λ x. sender_to x b.node.id a.node) l.a_sid ∙ l.a_sender)
          ∙ sender_takes_answer p ca answer sent
              (ap (λ (x : WrtcSourceSender). x.peer_connection) own);
      sets_answer = refl;
      settled_node = refl;
      settled_sender = own;
    }
