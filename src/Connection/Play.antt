-- ===== src/Connection/Play.antt =====
-- A PLAY message that its handler accepts.
use webrtc_cdn.Prelude.{
  ℕ, [], ◌∷◌, some, Str, codes, ◌≡◌, refl, ap, sym, subst, arith, lookup, insert, nat_key, str_key,
  str_eq, ◌==◌, ◌&&◌, str_eq_iff, lookup-insert, lookup-insert_self, if◌then◌else◌,
}
use webrtc_cdn.Signaling.{SignalingMessage}
use webrtc_cdn.Auth.{Jwt}
use webrtc_cdn.Machine.State.{State, to_client, emit, set_handler, update_self}
use webrtc_cdn.Machine.Op.{handler_status, done}
use webrtc_cdn.Messages.Client.{
  request_type_play, ok_message, standby_message, send_ok_message, send_standby_message,
}
use webrtc_cdn.Node.Sinks.{inc64, get_sink_id, sinks_of}
use webrtc_cdn.Connection.Requests.{
  param, request_type, new_sink, alloc_sink, note_sink, start_sink, receive_play_message,
}
use webrtc_cdn.Connection.Accept.{IsValid, HasRoom, validated_lem, within_limits_lem}
use webrtc_cdn.Registry.{SinkName, name, Registry, registry, Yields, Yields-done}
use webrtc_cdn.Registry.Change.{with_sink}
use webrtc_cdn.Registry.Streams.{unlocked, NoLeaf-cons}
use webrtc_cdn.Registry.Sinks.{register_sink-Yields}

-- What an accepted PLAY leaves: the sink of the message, with the next ID, is that of its request and
-- one of those of its stream; every other sink of the node stays in its place, and so do the sources.
pub record IsPlaying (h p : ℕ) (k : SinkName) (r t : Registry) : Type 0 where
  pub made : t.sink_name p ≡ k
  pub listed :
      (sid : Str) (id : ℕ)
      → lookup id (sinks_of sid t.node) ≡ (
          if str_eq k.sid sid && (k.sink_id == id) then some p else lookup id (sinks_of sid r.node))
  pub sources : t.node.sources ≡ r.node.sources
  pub handler : t.handler_at h ≡ note_sink k.request_id p (r.handler_at h)
  pub request : request_type k.request_id (t.handler_at h) ≡ request_type_play
  pub slot : lookup k.request_id (t.handler_at h).sinks ≡ some p

-- The sink of a message, as the node names it: its ID is the next one.
abbrev pub asked : ℕ → SignalingMessage → State → SinkName
asked h msg s = record {
  sink_id = inc64 s.node.sink_count;
  request_id = param (codes "request-id") msg;
  sid = param (codes "stream-id") msg;
  connection = h;
}

pub with_sink-listed :
    (p : ℕ) (r : Registry) (sid : Str) (id : ℕ)
    → lookup id (sinks_of sid (with_sink p r).node) ≡ (
        if str_eq (r.sink_name p).sid sid && ((r.sink_name p).sink_id == id)
        then some p
        else lookup id (sinks_of sid r.node))
unfolding with_sink sinks_of
with_sink-listed p r sid id =
    let k = r.sink_name p in
    ground (
      arith,
      str_eq_iff k.sid sid,
      lookup-insert k.sid sid (insert k.sink_id p (sinks_of k.sid r.node)) r.node.sinks,
      lookup-insert k.sink_id id p (sinks_of k.sid r.node),
    )

with_sink-listed_as :
    (p : ℕ) (r : Registry) (k : SinkName) (sid : Str) (id : ℕ)
    → r.sink_name p ≡ k
    → lookup id (sinks_of sid (with_sink p r).node)
      ≡ (if str_eq k.sid sid && (k.sink_id == id) then some p else lookup id (sinks_of sid r.node))
with_sink-listed_as p r k sid id e =
    subst
      (λ (j : SinkName). lookup id (sinks_of sid (with_sink p r).node) ≡ (
        if str_eq j.sid sid && (j.sink_id == id) then some p else lookup id (sinks_of sid r.node)))
      e (with_sink-listed p r sid id)

module _ (jwt : Jwt) (secret : Str) (h : ℕ) (msg : SignalingMessage) (s : State) where
  pub receive_play_message-Yields :
      IsValid jwt secret (codes "stream_play") msg
      → HasRoom h (param (codes "request-id") msg) s
      → Yields
          (with_sink s.next_ref (
            registry (
              set_handler h
                (note_sink (param (codes "request-id") msg) s.next_ref (s.handler_at h))
                (alloc_sink h msg s))))
          (receive_play_message jwt secret h msg [] s)
  unfolding receive_play_message start_sink send_ok_message send_standby_message alloc_sink
      get_sink_id
  receive_play_message-Yields v room =
      let id = param (codes "request-id") msg in
      let made = alloc_sink h msg s in
      let still = NoLeaf-cons (handler_status h) [] refl unlocked in
      let noted = set_handler h (note_sink id s.next_ref (s.handler_at h)) made in
      rw
        (
          validated_lem jwt secret _ h msg _ v,
          within_limits_lem h id _ [] made refl
              (record { unused = room.unused; below_limit = room.below_limit }),
        )
        (register_sink-Yields (handler_status h ∷ []) still s.next_ref
          (emit (to_client h (standby_message id)) (emit (to_client h (ok_message id)) noted)) refl)

  -- A valid PLAY that its handler has room for ends, with no panic and no wait, and leaves its sink,
  -- with the next sink ID, in the place of its request and among those of its stream, where every
  -- other sink keeps its place, and the sources of the streams as they were.
  pub receive_play_message-IsPlaying :
      IsValid jwt secret (codes "stream_play") msg
      → HasRoom h (param (codes "request-id") msg) s
      → (t : State) × (receive_play_message jwt secret h msg [] s ≡ done t)
        × IsPlaying h s.next_ref (asked h msg s) (registry s) (registry t)
  unfolding alloc_sink get_sink_id new_sink with_sink sinks_of note_sink request_type
  receive_play_message-IsPlaying v room =
      let (t, run, same) = Yields-done _ (receive_play_message-Yields v room) in
      let id = param (codes "request-id") msg in
      let p = s.next_ref in
      let noted = set_handler h (note_sink id p (s.handler_at h)) (alloc_sink h msg s) in
      let mine = update_self s.handler_at h (note_sink id p (s.handler_at h)) in
      let named : (registry noted).sink_name p ≡ asked h msg s =
        ap name (update_self s.sink_at p _) in
      (
        t,
        run,
        subst (IsPlaying h p (asked h msg s) (registry s)) (sym same) (record {
          made = named;
          listed = λ sid i. with_sink-listed_as p (registry noted) _ sid i named;
          sources = refl;
          handler = mine;
          request =
              rw mine
                (ground (arith, lookup-insert_self id request_type_play (s.handler_at h).requests));
          slot = rw mine (lookup-insert_self id p (s.handler_at h).sinks);
        }),
      )
