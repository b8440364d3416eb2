-- ===== src/Redis/Journey.antt =====
-- A client of one node plays a stream of another: PLAY, RESOLVE, INFO and CONNECT.
use webrtc_cdn.Prelude.{
  ℕ, false, List, [], ◌∷◌, Map, none, some, Str, codes, ◌≡◌, ◌≢◌, refl, ap, subst, delete, lookup,
  insert, str_key, nat_key, lookup-insert_self,
}
use webrtc_cdn.Strings.{Unicode}
use webrtc_cdn.Signaling.{SignalingMessage}
use webrtc_cdn.Auth.{Jwt}
use webrtc_cdn.Machine.State.{
  WrtcSink, WebrtcCdnNode, State, Event, published, emit, to_client, set_node, set_handler,
  update_self,
}
use webrtc_cdn.Machine.Op.{done, handler_status}
use webrtc_cdn.Messages.Client.{ok_message, standby_message, send_ok_message, send_standby_message}
use webrtc_cdn.Messages.Redis.{
  redis_broadcast_channel, resolve_message, info_message, connect_message, send_resolve_message,
  send_redis_message,
}
use webrtc_cdn.Node.Sinks.{
  add_sink, sinks_of, register_sink, find_tracks, ready_source, ready_relay, give_tracks,
  get_sink_id,
}
use webrtc_cdn.Connection.Requests.{
  param, new_sink, alloc_sink, note_sink, start_sink, receive_play_message,
}
use webrtc_cdn.Connection.Accept.{IsValid, HasRoom, validated_lem, within_limits_lem}
use webrtc_cdn.Redis.{receive_redis_message}
use webrtc_cdn.Redis.Handshake.{IsLinked, resolve_handshake}

-- A node with neither source nor relay of the stream of a new sink asks the others.
register_sink-asks :
    (h p : ℕ) (sid : Str) (s : State)
    → (s.sink_at p).sid ≡ sid
    → lookup sid s.node.sources ≡ none
    → lookup sid s.node.relays ≡ none
    → s.node.stand_alone ≡ false
    → register_sink p (handler_status h ∷ []) s
      ≡ done (
          emit
            (published redis_broadcast_channel (resolve_message s.node.id sid))
            (set_node (add_sink p (s.sink_at p) s.node) s))
unfolding register_sink find_tracks ready_source ready_relay give_tracks send_resolve_message
    send_redis_message add_sink
register_sink-asks h p sid s named absent unfed joined =
    rw (named, absent, ready_source, unfed, ready_relay, give_tracks, joined) refl

module _ (jwt : Jwt) (secret : Str) (h : ℕ) (msg : SignalingMessage) (s : State) where
  -- What a PLAY leaves before its sink is registered.
  abbrev accepted : State
  accepted =
      let id = param (codes "request-id") msg in
      emit (to_client h (standby_message id)) (
        emit (to_client h (ok_message id))
          (set_handler h (note_sink id s.next_ref (s.handler_at h)) (alloc_sink h msg s)))

  play-asks :
      IsValid jwt secret (codes "stream_play") msg
      → HasRoom h (param (codes "request-id") msg) s
      → lookup (param (codes "stream-id") msg) s.node.sources ≡ none
      → lookup (param (codes "stream-id") msg) s.node.relays ≡ none
      → s.node.stand_alone ≡ false
      → receive_play_message jwt secret h msg [] s
        ≡ done (
            emit
              (published redis_broadcast_channel
                (resolve_message s.node.id (param (codes "stream-id") msg)))
              (set_node (add_sink s.next_ref (accepted.sink_at s.next_ref) accepted.node) accepted))
  unfolding receive_play_message start_sink send_ok_message send_standby_message alloc_sink
      get_sink_id new_sink
  play-asks v room absent unfed joined =
      let id = param (codes "request-id") msg in
      let made = alloc_sink h msg s in
      rw
        (
          validated_lem jwt secret _ h msg _ v,
          within_limits_lem h id _ [] made refl
              (record { unused = room.unused; below_limit = room.below_limit }),
        )
        (register_sink-asks h s.next_ref _ accepted
          (ap (λ k. k.sid) (update_self s.sink_at s.next_ref _)) absent unfed joined)

-- The sink that was added is the first of those of its stream.
add_sink-waits :
    (p : ℕ) (k : WrtcSink) (n : WebrtcCdnNode)
    → (g : Map ℕ ℕ) × (sinks_of k.sid (add_sink p k n) ≡ (k.sink_id, p) ∷ g)
unfolding add_sink sinks_of insert
add_sink-waits p k n = (
  delete k.sink_id (sinks_of k.sid n),
  rw (lookup-insert_self k.sid (insert k.sink_id p (sinks_of k.sid n)) n.sinks, sinks_of) refl,
)

-- A PLAY at the node `b`, and the three messages that follow it between `b` and the node `a`.
pub record IsFetched (u : Unicode) (jwt : Jwt) (secret : Str) (h : ℕ) (msg : SignalingMessage)
    (a b : State) : Type 0 where
  pub asked : State
  pub told : State
  pub far : State
  pub linked : State
  pub before : List Event
  pub rest : List Event
  pub play : receive_play_message jwt secret h msg [] b ≡ done asked
  pub play_sends :
      asked.out
      ≡ published redis_broadcast_channel
          (resolve_message b.node.id (param (codes "stream-id") msg))
        ∷ before
  pub resolve :
      receive_redis_message u (resolve_message b.node.id (param (codes "stream-id") msg)) [] a
      ≡ done told
  pub resolve_sends :
      told.out
      ≡ published b.node.id (info_message a.node.id (param (codes "stream-id") msg)) ∷ a.out
  pub info :
      receive_redis_message u (info_message a.node.id (param (codes "stream-id") msg)) [] asked
      ≡ done far
  pub info_sends :
      far.out
      ≡ published a.node.id (connect_message b.node.id a.node.id (param (codes "stream-id") msg))
        ∷ rest
  pub connect :
      receive_redis_message u
        (connect_message b.node.id a.node.id (param (codes "stream-id") msg))
        []
        told
      ≡ done linked
  pub links : IsLinked a.node.id b.node.id (param (codes "stream-id") msg) linked far

-- Where the node `a` has the source of a stream, and the node `b` neither a source nor a relay of it,
-- their IDs differ and neither stands alone, a valid PLAY of the stream at `b`, with room, makes `b` ask
-- all nodes by RESOLVE; that makes `a` send INFO to `b`, that makes `b` send CONNECT to `a`, and after it
-- `b` has a relay of the stream from `a`, and `a` a sender of the stream to `b`. No run panics or blocks.
pub play_reaches_source :
    (u : Unicode) (jwt : Jwt) (secret : Str) (h : ℕ) (msg : SignalingMessage) (a b : State) (p : ℕ)
    → IsValid jwt secret (codes "stream_play") msg
    → HasRoom h (param (codes "request-id") msg) b
    → a.node.id ≢ b.node.id
    → a.node.stand_alone ≡ false
    → b.node.stand_alone ≡ false
    → lookup (param (codes "stream-id") msg) a.node.sources ≡ some p
    → lookup (param (codes "stream-id") msg) b.node.sources ≡ none
    → lookup (param (codes "stream-id") msg) b.node.relays ≡ none
    → IsFetched u jwt secret h msg a b
unfolding add_sink alloc_sink get_sink_id new_sink
play_reaches_source u jwt secret h msg a b p v room differ a_joined b_joined here absent unfed =
    let sid = param (codes "stream-id") msg in
    let t = accepted jwt secret h msg b in
    let k = t.sink_at b.next_ref in
    let named : k.sid ≡ sid = ap (λ (x : WrtcSink). x.sid) (update_self b.sink_at b.next_ref _) in
    let asked =
      emit (published redis_broadcast_channel (resolve_message b.node.id sid))
        (set_node (add_sink b.next_ref k t.node) t) in
    let (g, waits) = add_sink-waits b.next_ref k t.node in
    let (told, linked, far, rest, one, two, three, four, five, six) =
      resolve_handshake u sid a asked p (k.sink_id, b.next_ref) g differ a_joined b_joined here
        absent (subst (λ x. sinks_of x asked.node ≡ (k.sink_id, b.next_ref) ∷ g) named waits) in
    record {
      asked = asked;
      told = told;
      far = far;
      linked = linked;
      before = t.out;
      rest = rest;
      play = play-asks jwt secret h msg b v room absent unfed b_joined;
      play_sends = refl;
      resolve = one;
      resolve_sends = two;
      info = three;
      info_sends = four;
      connect = five;
      links = six;
    }
