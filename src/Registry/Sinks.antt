-- ===== src/Registry/Sinks.antt =====
-- The methods of sinks against their specification in Registry/Change: node_sinks.go, and `close` of
-- wrtc_sink.go.
use webrtc_cdn.Prelude.{
  ℕ, false, List, [], ◌∷◌, Option, none, some, Str, Map, ◌≡◌, refl, subst, inl, inr, Bool-cases,
  lookup, delete, str_key, nat_key,
}
use webrtc_cdn.Machine.State.{State, WrtcSink, set_node, set_sink, close_peer}
use webrtc_cdn.Machine.Op.{Op, Mutex, node_status, relay_status, sink_status, holds}
use webrtc_cdn.Messages.Redis.{send_resolve_message, send_redis_message}
use webrtc_cdn.Peer.Api.{is_some}
use webrtc_cdn.Node.Sinks.{
  add_sink, register_sink, give_tracks, find_tracks, leave_stream, ready_source, ready_relay,
  find_tracks, leave_stream, leave_sinks, remove_sink, sink_close, closed_sink,
}
use webrtc_cdn.Registry.{name, registry, Yields}
use webrtc_cdn.Registry.Leaf.{sink_on_tracks_ready-Yields, registry-set_sink}
use webrtc_cdn.Registry.Change.{with_sink, keep_sinks, leave_group, without_sink}
use webrtc_cdn.Registry.Streams.{NoLeaf, drop_relay-Yields}

pub send_resolve_message-Yields :
    (sid : Str) (held : List Mutex) (s : State)
    → Yields (registry s) (send_resolve_message sid held s)
unfolding send_resolve_message send_redis_message
send_resolve_message-Yields sid held s = elim (Bool-cases s.node.stand_alone) [
  | inl e ↦ rw e
  | inr e ↦ rw e
]

module _ (p : ℕ) (held : List Mutex) (s : State) (free : holds (sink_status p) held ≡ false) where
  give_tracks-Yields :
      (o : Option (Option ℕ × Option ℕ)) (otherwise : Op)
      → Yields (registry s) (otherwise held s)
      → Yields (registry s) (give_tracks p o otherwise held s)
  unfolding give_tracks
  give_tracks-Yields (some (video, audio)) otherwise y =
      sink_on_tracks_ready-Yields p held s video audio free
  give_tracks-Yields none otherwise y = y

  find_tracks-Yields : (sid : Str) → Yields (registry s) (find_tracks p sid held s)
  unfolding find_tracks
  find_tracks-Yields sid =
      give_tracks-Yields (ready_source sid s) _
        (give_tracks-Yields (ready_relay sid s) _ (send_resolve_message-Yields sid held s))

module _ (held : List Mutex) (leaf : NoLeaf held) (p : ℕ) (s : State) where
  pub register_sink-Yields :
      holds node_status held ≡ false → Yields (with_sink p (registry s)) (register_sink p held s)
  unfolding register_sink with_sink add_sink
  register_sink-Yields free =
      let noted = set_node (add_sink p (s.sink_at p) s.node) s in
      rw free (find_tracks-Yields p (node_status ∷ held) noted (leaf.sinks p) (s.sink_at p).sid)

module _ (held : List Mutex) (relays : (p : ℕ) → holds (relay_status p) held ≡ false) where
  leave_sinks-Yields :
      (sid : Str) (g : Map ℕ ℕ) (s : State)
      → Yields (keep_sinks sid g (registry s)) (leave_sinks sid g held s)
  unfolding leave_sinks
  leave_sinks-Yields sid [] s =
      drop_relay-Yields held relays sid
        (set_node (record (s.node) { sinks = delete sid s.node.sinks }) s)
  leave_sinks-Yields sid (e ∷ g) s = refl

  leave_stream-Yields :
      (k : WrtcSink) (o : Option (Map ℕ ℕ)) (s : State)
      → Yields (leave_group (name k) o (registry s)) (leave_stream k o held s)
  unfolding leave_stream
  leave_stream-Yields k none s = refl
  leave_stream-Yields k (some g) s = elim (Bool-cases (is_some (lookup k.sink_id g))) [
    | inl e ↦ rw e (leave_sinks-Yields k.sid (delete k.sink_id g) s)
    | inr e ↦ rw e
  ]

module _ (held : List Mutex) (relays : (p : ℕ) → holds (relay_status p) held ≡ false) (p : ℕ)
    (s : State) (free : holds node_status held ≡ false) where
  remove_sink-Yields : Yields (without_sink p (registry s)) (remove_sink p held s)
  unfolding remove_sink without_sink
  remove_sink-Yields = rw free (leave_stream-Yields (node_status ∷ held) relays (s.sink_at p) _ s)

module _ (held : List Mutex) (leaf : NoLeaf held) (p : ℕ) (s : State)
    (free : holds node_status held ≡ false) where
  -- `close` of a sink, where the mutexes of the node and of all sinks, senders and relays are free,
  -- ends, with no panic and no wait, in the registry of `without_sink`.
  pub sink_close-Yields : Yields (without_sink p (registry s)) (sink_close p held s)
  unfolding sink_close
  sink_close-Yields =
      let v = s.sink_at p in
      let marked = set_sink p (closed_sink v) (close_peer v.peer_connection s) in
      rw (leaf.sinks p) (
        subst (λ r. Yields (without_sink p r) (remove_sink p (sink_status p ∷ held) marked))
          (registry-set_sink v.peer_connection p (closed_sink v) s refl)
          (remove_sink-Yields (sink_status p ∷ held) leaf.relays p marked free))
