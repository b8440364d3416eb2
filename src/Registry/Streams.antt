-- ===== src/Registry/Streams.antt =====
-- The methods of sources against their specification in Registry/Change: node_sources.go, and `close`
-- and `onClose` of wrtc_source.go.
use webrtc_cdn.Prelude.{
  ℕ, Bool, true, false, List, [], ◌∷◌, Option, none, some, Str, ◌≡◌, refl, ap, ap₂, ◌∙◌, inl, inr,
  Option-cases, Bool-cases, lookup, delete, delete_absent, str_key,
}
use webrtc_cdn.Machine.State.{State, WrtcSource, set_node, set_source, close_peer, update_self}
use webrtc_cdn.Machine.Op.{
  Mutex, node_status, handler_status, source_status, sink_status, sender_status, relay_status,
  holds, values,
}
use webrtc_cdn.Messages.Client.{send_source_close}
use webrtc_cdn.Node.Sinks.{sinks_of, drop_relay}
use webrtc_cdn.Peer.Sender.{sender_close}
use webrtc_cdn.Node.Sources.{
  senders_of, drop_senders, on_source_closed, source_close, source_on_close,
}
use webrtc_cdn.Registry.{Registry, registry, Yields, Yields-done}
use webrtc_cdn.Registry.Leaf.{
  sink_on_tracks_closed-Yields, sender_close-Yields, relay_close-Yields, for_each-Yields,
}
use webrtc_cdn.Registry.Change.{
  without_senders, without_relay, forget_stream, put_source, forget_request, close_source,
  lose_source,
}

-- No status mutex of a sink, a sender or a relay is held.
pub record NoLeaf (held : List Mutex) : Type 0 where
  pub sinks : (p : ℕ) → holds (sink_status p) held ≡ false
  pub senders : (p : ℕ) → holds (sender_status p) held ≡ false
  pub relays : (p : ℕ) → holds (relay_status p) held ≡ false

pub unlocked : NoLeaf []
unlocked = record { sinks = λ p. refl; senders = λ p. refl; relays = λ p. refl }

module _ (held : List Mutex) (leaf : NoLeaf held) where
  pub drop_senders-Yields :
      (sid : Str) (s : State) → Yields (without_senders sid (registry s)) (drop_senders sid held s)
  unfolding drop_senders
  drop_senders-Yields sid s =
      let close = λ (p : ℕ) (t : State). sender_close-Yields p held t (leaf.senders p) in
      let group = values (senders_of sid s.node) in
      let (t, run, same) =
        Yields-done _ (for_each-Yields sender_close held (registry s) group s close refl) in
      rw run (ap (without_senders sid) same)

module _ (held : List Mutex) (free : (p : ℕ) → holds (relay_status p) held ≡ false) where
  pub drop_relay-Yields :
      (sid : Str) (s : State) → Yields (without_relay sid (registry s)) (drop_relay sid held s)
  unfolding drop_relay
  drop_relay-Yields sid s = elim (Option-cases (lookup sid s.node.relays)) [
    | inl e ↦ rw (e, Yields, delete_absent sid s.node.relays e)
    | inr (p, e) ↦
        let (t, run, same) = Yields-done _ (relay_close-Yields p held s (free p)) in
        rw (e, Yields, run) (ap (without_relay sid) same)
  ]

-- The mutexes of the node, of a source and of a handler are none of those.
abbrev pub is_leaf : Mutex → Bool
is_leaf (sink_status p) = true
is_leaf (sender_status p) = true
is_leaf (relay_status p) = true
is_leaf _ = false

pub NoLeaf-cons :
    (m : Mutex) (held : List Mutex) → is_leaf m ≡ false → NoLeaf held → NoLeaf (m ∷ held)
NoLeaf-cons node_status held h leaf = record {
  sinks = leaf.sinks;
  senders = leaf.senders;
  relays = leaf.relays;
}
NoLeaf-cons (source_status p) held h leaf = record {
  sinks = leaf.sinks;
  senders = leaf.senders;
  relays = leaf.relays;
}
NoLeaf-cons (handler_status p) held h leaf = record {
  sinks = leaf.sinks;
  senders = leaf.senders;
  relays = leaf.relays;
}
NoLeaf-cons _ held h leaf = absurd cc

module _ (held : List Mutex) (leaf : NoLeaf held) where
  -- `onSourceClosed`, where the mutexes of the node and of all sinks, senders and relays are free,
  -- ends, with no panic and no wait, and the registry changes only in that the stream of the source
  -- has no source and no senders.
  pub on_source_closed-Yields :
      (p : ℕ) (s : State)
      → holds node_status held ≡ false
      → Yields (forget_stream (s.source_at p).sid (registry s)) (on_source_closed p held s)
  unfolding on_source_closed
  on_source_closed-Yields p s free =
      let locks = node_status ∷ held in
      let still = NoLeaf-cons node_status held refl leaf in
      let v = s.source_at p in
      let (t, run, same) = Yields-done _ (
        drop_senders-Yields locks still v.sid
          (set_node (record (s.node) { sources = delete v.sid s.node.sources }) s)) in
      rw (free, run)
        (for_each-Yields _ locks _ (values (sinks_of v.sid t.node)) t
          (λ k u.
            sink_on_tracks_closed-Yields k locks u v.local_track_video v.local_track_audio
              (still.sinks k))
          same)

  pub send_source_close-Yields :
      (v : WrtcSource) (s : State)
      → holds (handler_status v.connection) held ≡ false
      → Yields
          (forget_request v (registry s))
          (send_source_close v.connection v.request_id v.sid held s)
  unfolding send_source_close
  send_source_close-Yields v s free = rw free

registry-put_source :
    (c : Option ℕ) (p : ℕ) (v : WrtcSource) (s : State)
    → registry (set_source p v (close_peer c s)) ≡ put_source p v (registry s)
registry-put_source none p v s = refl
registry-put_source (some c) p v s = refl

module _ (held : List Mutex) (leaf : NoLeaf held) (p : ℕ) (s : State)
    (free : holds (source_status p) held ≡ false) where
  -- `close` of a source that tells its client, as when a new source replaces it: where the mutexes of
  -- the source, of its handler and of all sinks, senders and relays are free, it ends, with no panic
  -- and no wait, in the registry of `close_source`.
  pub source_close-Yields_notify :
      holds (handler_status (s.source_at p).connection) held ≡ false
      → Yields (close_source p true false (registry s)) (source_close p true false held s)
  unfolding source_close close_source
  source_close-Yields_notify free_handler = elim (Bool-cases (s.source_at p).closed) [
    | inl closed ↦ rw (free, closed)
    | inr opened ↦
        let v = s.source_at p in
        let w = record v { closed = true; peer_connection = none } in
        let (t, run, same) = Yields-done _ (
          send_source_close-Yields (source_status p ∷ held)
            (NoLeaf-cons (source_status p) held refl leaf) v
            (set_source p w (close_peer v.peer_connection s)) free_handler) in
        rw (free, opened, run)
          (same ∙ ap (forget_request v) (registry-put_source v.peer_connection p w s))
  ]

  -- `close` of a source that its client closes: where the mutexes of the source, of the node and of
  -- all sinks, senders and relays are free, it ends, with no panic and no wait, in the registry of
  -- `close_source`.
  pub source_close-Yields_deregister :
      holds node_status held ≡ false
      → Yields (close_source p false true (registry s)) (source_close p false true held s)
  unfolding source_close close_source
  source_close-Yields_deregister free_node = elim (Bool-cases (s.source_at p).closed) [
    | inl closed ↦ rw (free, closed)
    | inr opened ↦
        let v = s.source_at p in
        let w = record v { closed = true; peer_connection = none } in
        let marked = set_source p w (close_peer v.peer_connection s) in
        let (t, run, same) = Yields-done _ (
          on_source_closed-Yields (source_status p ∷ held)
            (NoLeaf-cons (source_status p) held refl leaf) p marked free_node) in
        let own : (marked.source_at p).sid ≡ v.sid =
          ap (λ (x : WrtcSource). x.sid)
            (update_self (close_peer v.peer_connection s).source_at p w) in
        rw (free, opened, run)
          (same
            ∙ ap (λ sid. forget_stream sid (registry marked)) own
            ∙ ap (forget_stream v.sid) (registry-put_source v.peer_connection p w s))
  ]

  -- `onClose` of a source, whose peer connection failed or was closed: where the mutexes of the
  -- source, of the node, of its handler and of all sinks, senders and relays are free, it ends, with
  -- no panic and no wait, in the registry of `lose_source`.
  pub source_on_close-Yields :
      holds node_status held ≡ false
      → holds (handler_status (s.source_at p).connection) held ≡ false
      → Yields (lose_source p (registry s)) (source_on_close p held s)
  unfolding source_on_close lose_source
  source_on_close-Yields free_node free_handler = elim (Bool-cases (s.source_at p).closed) [
    | inl closed ↦ rw (free, closed)
    | inr opened ↦
        let v = s.source_at p in
        let w = record v { closed = true } in
        let locks = source_status p ∷ held in
        let still = NoLeaf-cons (source_status p) held refl leaf in
        let (t, run, same) =
          Yields-done _ (send_source_close-Yields locks still v (set_source p w s) free_handler) in
        let (u, run', same') = Yields-done _ (on_source_closed-Yields locks still p t free_node) in
        let own : (t.source_at p).sid ≡ v.sid =
          ap (λ (x : Registry). (x.source_at p).sid) same
          ∙ ap (λ (x : WrtcSource). x.sid) (update_self s.source_at p w) in
        rw (free, opened, run, run') (same' ∙ ap₂ forget_stream own same)
  ]
