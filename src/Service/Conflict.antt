-- ===== src/Service/Conflict.antt =====
-- Two nodes with a source of the same stream: INFO of redis_srv.go and node_sender_relay.go.
use webrtc_cdn.Prelude.{
  ℕ, true, false, [], ◌∷◌, none, some, Str, Map, ◌≡◌, ◌≢◌, ◌⊎◌, refl, ap, sym, ◌∙◌, arith, inl, inr,
  Bool-cases, lookup, delete, str_key, lookup-delete_self, lookup-insert_self,
}
use webrtc_cdn.Machine.State.{State, WebrtcCdnNode, set_node, update_self}
use webrtc_cdn.Machine.Op.{done, node_status}
use webrtc_cdn.Messages.Redis.{
  publish, info_message, connect_message, send_connect_message, send_redis_message,
}
use webrtc_cdn.Node.Sinks.{sinks_of}
use webrtc_cdn.Node.Remote.{receive_info_message, drop_source, drop_found, add_relay, new_relay}
use webrtc_cdn.Redis.{receive_redis_message}
use webrtc_cdn.Redis.Replies.{received_info}
use webrtc_cdn.Registry.{Registry, registry, Yields-done}
use webrtc_cdn.Registry.Change.{close_source, without_source}
use webrtc_cdn.Registry.Streams.{
  NoLeaf-cons, unlocked, source_close-Yields_notify, drop_relay-Yields,
}
use webrtc_cdn.Service.{Setting, Reachable}
use webrtc_cdn.Service.Reach.{Reachable-IsConsistent}

-- The node gave its source of a stream up, and kept its sinks; where there are any, they wait for a relay
-- from the other node.
pub record GaveUp (far sid : Str) (p : ℕ) (s t : State) : Type 0 where
  pub no_source : lookup sid t.node.sources ≡ none
  pub source_closed : (t.source_at p).closed ≡ true
  pub sinks : t.node.sinks ≡ s.node.sinks
  pub relayed :
      (sinks_of sid s.node ≡ [])
      ⊎ ((q : ℕ) × (lookup sid t.node.relays ≡ some q) × (t.relay_at q ≡ new_relay sid far))

-- What `close` of an open source and its removal leave.
removed :
    (p : ℕ) (sid : Str) (r : Registry)
    → (r.source_at p).closed ≡ false
    → let t = without_source sid (close_source p true false r) in
      (lookup sid t.node.sources ≡ none)
      × ((t.source_at p).closed ≡ true)
      × (t.node.sinks ≡ r.node.sinks)
unfolding close_source
removed p sid r opened = rw opened (lookup-delete_self sid r.node.sources, ground arith, refl)

-- A message published leaves the node.
published-keeps :
    (channel : Str) (m : Map Str Str) (s : State)
    → ((publish channel m s).node ≡ s.node)
      × ((publish channel m s).source_at ≡ s.source_at)
      × ((publish channel m s).relay_at ≡ s.relay_at)
published-keeps channel m s = elim (Bool-cases s.node.stand_alone) [
  | inl alone ↦ (rw alone refl, rw alone refl, rw alone refl)
  | inr joined ↦ (rw joined refl, rw joined refl, rw joined refl)
]

sinks_of_same :
    (sid : Str) (m n : WebrtcCdnNode) → m.sinks ≡ n.sinks → sinks_of sid m ≡ sinks_of sid n
unfolding sinks_of
sinks_of_same sid m n e = rw e refl

module _ (far sid : Str) (s : State) where
  -- The source is dropped, in the registry.
  dropped :
      (p : ℕ)
      → lookup sid s.node.sources ≡ some p
      → (t : State) × (drop_source sid (node_status ∷ []) s ≡ done t)
        × (registry t ≡ without_source sid (close_source p true false (registry s)))
  unfolding drop_source drop_found
  dropped p here =
      let (t, run, same) = Yields-done _ (
        source_close-Yields_notify (node_status ∷ []) (NoLeaf-cons node_status [] refl unlocked) p s
          refl refl) in
      (
        set_node (record (t.node) { sources = delete sid t.node.sources }) t,
        rw (here, drop_found, run) refl,
        ap (without_source sid) same,
      )

  -- The rest of `receiveInfoMessage`, by the sinks that wait.
  gave_up :
      (p : ℕ) (v : State) (g : Map ℕ ℕ)
      → drop_source sid (node_status ∷ []) s ≡ done v
      → lookup sid v.node.sources ≡ none
      → (v.source_at p).closed ≡ true
      → v.node.sinks ≡ s.node.sinks
      → sinks_of sid v.node ≡ g
      → (t : State) × (receive_info_message far sid [] s ≡ done t) × GaveUp far sid p s t
  unfolding receive_info_message send_connect_message send_redis_message add_relay
  gave_up p v [] run absent shut kept waiting = (
    v,
    rw (run, waiting) refl,
    record {
      no_source = absent;
      source_closed = shut;
      sinks = kept;
      relayed = inl (sinks_of_same sid s.node v.node (sym kept) ∙ waiting);
    },
  )
  gave_up p v (x ∷ g) run absent shut kept waiting =
      let (u, gone, same) =
        Yields-done _ (drop_relay-Yields (node_status ∷ []) (λ q. refl) sid v) in
      let made = add_relay sid far u in
      let m = connect_message u.node.id far sid in
      let (node, sources, relays) = published-keeps far m made in
      let u_sources : u.node.sources ≡ v.node.sources =
        ap (λ (r : Registry). r.node.sources) same in
      let u_sinks : u.node.sinks ≡ v.node.sinks = ap (λ (r : Registry). r.node.sinks) same in
      let u_at : u.source_at ≡ v.source_at = ap (λ (r : Registry). r.source_at) same in
      (
        publish far m made,
        rw (run, waiting, gone) refl,
        record {
          no_source = rw (node, u_sources) absent;
          source_closed = rw (sources, u_at) shut;
          sinks = rw (node, u_sinks) kept;
          relayed = inr (
            u.next_ref,
            rw node (lookup-insert_self sid u.next_ref u.node.relays),
            rw relays (update_self u.relay_at u.next_ref _),
          );
        },
      )

-- Where a node, in a state that it comes to from its start, has a source of a stream, and another node says
-- that it has one too, the first gives its source up: the run ends, the stream has no source there, the
-- source is closed, the sinks of the node stay, and if there are any for the stream, the node has a relay
-- of it from the other node.
pub newer_source_wins :
    (w : Setting) (far sid : Str) (s : State) (p : ℕ)
    → Reachable w s
    → far ≢ s.node.id
    → lookup sid s.node.sources ≡ some p
    → (t : State) × (receive_redis_message w.around.unicode (info_message far sid) [] s ≡ done t)
      × GaveUp far sid p s t
newer_source_wins w far sid s p r other here =
    let (v, run, same) = dropped far sid s p here in
    let opened = ((Reachable-IsConsistent w r).streams sid p here).opened in
    let (absent, shut, kept) = removed p sid (registry s) opened in
    let (t, end, left) =
      gave_up far sid s p v (sinks_of sid v.node) run
        (ap (λ (x : Registry). lookup sid x.node.sources) same ∙ absent)
        (ap (λ (x : Registry). (x.source_at p).closed) same ∙ shut)
        (ap (λ (x : Registry). x.node.sinks) same ∙ kept) refl in
    (t, received_info w.around.unicode far sid s other ∙ end, left)
