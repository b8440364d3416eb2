-- ===== src/Registry/Replace.antt =====
-- `registerSource` of node_sources.go against its specification in Registry/Change.
use webrtc_cdn.Prelude.{
  ℕ, false, List, ◌∷◌, Option, none, some, Str, ◌≡◌, refl, sym, ap, ◌∙◌, subst, inl, inr,
  Option-cases, Bool-cases, lookup, insert, str_key,
}
use webrtc_cdn.Machine.State.{State, Event, published, emit, set_node}
use webrtc_cdn.Machine.Op.{Mutex, node_status, handler_status, source_status, holds, done}
use webrtc_cdn.Messages.Redis.{
  info_message, send_info_message, send_redis_message, redis_broadcast_channel,
}
use webrtc_cdn.Node.Sinks.{drop_relay}
use webrtc_cdn.Node.Sources.{drop_senders, register_source}
use webrtc_cdn.Registry.{Registry, registry, Yields, Yields-done}
use webrtc_cdn.Registry.Change.{
  without_senders, without_relay, with_source, replace_source, close_old, close_source,
}
use webrtc_cdn.Registry.Streams.{
  NoLeaf, NoLeaf-cons, drop_senders-Yields, drop_relay-Yields, source_close-Yields_notify,
}

pub send_info_message-Yields :
    (channel sid : Str) (held : List Mutex) (s : State)
    → Yields (registry s) (send_info_message channel sid held s)
unfolding send_info_message send_redis_message
send_info_message-Yields channel sid held s = elim (Bool-cases s.node.stand_alone) [
  | inl e ↦ rw e
  | inr e ↦ rw e
]

-- The old source of a stream may be closed: there is none, or its own mutex and that of its handler
-- are free.
abbrev pub CanClose : List Mutex → Option ℕ → State → Type 0
CanClose held none s = Unit {0}
CanClose held (some old) s =
    (holds (source_status old) held ≡ false)
    × (holds (handler_status (s.source_at old).connection) held ≡ false)

abbrev note_place : Str → ℕ → State → State
note_place sid p s = set_node (record (s.node) { sources = insert sid p s.node.sources }) s

-- A node keeps its ID and its mode.
close_old_identity :
    (o : Option ℕ) (r : Registry)
    → ((close_old o r).node.id ≡ r.node.id)
      × ((close_old o r).node.stand_alone ≡ r.node.stand_alone)
unfolding close_source
close_old_identity none r = (refl, refl)
close_old_identity (some old) r = elim (Bool-cases (r.source_at old).closed) [
  | inl shut ↦ rw shut (refl, refl)
  | inr opened ↦ rw opened (refl, refl)
]

replace_source_identity :
    (p : ℕ) (r : Registry)
    → ((replace_source p r).node.id ≡ r.node.id)
      × ((replace_source p r).node.stand_alone ≡ r.node.stand_alone)
unfolding replace_source
replace_source_identity p r = close_old_identity (lookup (r.source_at p).sid r.node.sources) r

-- The second half of `registerSource`: the source takes its place.
take_place :
    (held : List Mutex) (leaf : NoLeaf held) (sid : Str) (p : ℕ) (r : Registry) (s : State)
    → registry s ≡ r
    → (t u : State) × (drop_relay sid held (note_place sid p s) ≡ done t)
      × (drop_senders sid held t ≡ done u)
      × (registry u ≡ without_senders sid (without_relay sid (with_source sid p r)))
take_place held leaf sid p r s e =
    let (t, run, same) =
      Yields-done _ (drop_relay-Yields held leaf.relays sid (note_place sid p s)) in
    let (u, run', same') = Yields-done _ (drop_senders-Yields held leaf sid t) in
    let placed = same ∙ ap (λ x. without_relay sid (with_source sid p x)) e in
    (t, u, run, run', same' ∙ ap (without_senders sid) placed)

module _ (held : List Mutex) (leaf : NoLeaf held) (p : ℕ) (s : State)
    (free : holds node_status held ≡ false)
    (can : CanClose held (lookup (s.source_at p).sid s.node.sources) s) where
  -- All of `registerSource` but the message to the other nodes.
  register_source-told :
      (u : State) × (register_source p held s
        ≡ send_info_message redis_broadcast_channel (s.source_at p).sid (node_status ∷ held) u)
      × (registry u ≡ replace_source p (registry s))
  unfolding register_source replace_source
  register_source-told =
      let locks = node_status ∷ held in
      let still = NoLeaf-cons node_status held refl leaf in
      let sid = (s.source_at p).sid in
      let placed = λ (o : Option ℕ).
        without_senders sid (without_relay sid (with_source sid p (close_old o (registry s)))) in
      elim (Option-cases (lookup (s.source_at p).sid s.node.sources)) [
        | inl e ↦
            let (t, u, run, run', same) =
              take_place locks still (s.source_at p).sid p (registry s) s refl in
            (u, rw (free, e, run, run') refl, same ∙ ap placed (sym e))
        | inr (old, e) ↦
            let (f, g) = subst (λ o. CanClose held o s) e can in
            let (v, close, closed) =
              Yields-done _ (source_close-Yields_notify locks still old s f g) in
            let (t, u, run, run', same) = take_place locks still (s.source_at p).sid p _ v closed in
            (u, rw (free, e, close, run, run') refl, same ∙ ap placed (sym e))
      ]

  -- `registerSource`, where the mutexes of the node and of all sinks, senders and relays are free,
  -- and the stream has no source or one whose own mutex and whose handler's are free, ends, with no
  -- panic and no wait, in the registry of `replace_source`.
  pub register_source-Yields : Yields (replace_source p (registry s)) (register_source p held s)
  register_source-Yields =
      let (u, run, same) = register_source-told in
      rw run (
        subst
          (λ r.
            Yields r (
              send_info_message redis_broadcast_channel (s.source_at p).sid (node_status ∷ held) u))
          same
          (send_info_message-Yields redis_broadcast_channel (s.source_at p).sid (node_status ∷ held)
            u))

  -- And it tells all nodes, last of all.
  pub register_source-announces :
      s.node.stand_alone ≡ false
      → (t : State) × (before : List Event) × (register_source p held s ≡ done t)
        × (t.out
            ≡ published redis_broadcast_channel (info_message s.node.id (s.source_at p).sid)
              ∷ before)
        × (registry t ≡ replace_source p (registry s))
  unfolding send_info_message send_redis_message
  register_source-announces joined =
      let (u, run, same) = register_source-told in
      let (name, alone) = replace_source_identity p (registry s) in
      let id : u.node.id ≡ s.node.id = ap (λ (r : Registry). r.node.id) same ∙ name in
      let still : u.node.stand_alone ≡ false =
        ap (λ (r : Registry). r.node.stand_alone) same ∙ alone ∙ joined in
      let m = info_message u.node.id (s.source_at p).sid in
      (emit (published redis_broadcast_channel m) u, u.out, rw (run, still) refl, rw id refl, same)
