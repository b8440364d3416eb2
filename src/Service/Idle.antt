-- ===== src/Service/Idle.antt =====
-- A node that no client uses.
use webrtc_cdn.Prelude.{
  ℕ, true, [], ◌∷◌, none, some, Option, Str, Map, ◌≡◌, ◌≢◌, refl, ap, arith, inl, inr, Option-cases,
  lookup, str_key, nat_key,
}
use webrtc_cdn.Machine.State.{State}
use webrtc_cdn.Peer.Api.{is_some}
use webrtc_cdn.Node.Sinks.{sinks_of}
use webrtc_cdn.Node.Remote.{is_empty}
use webrtc_cdn.Connection.Requests.{request_type}
use webrtc_cdn.Service.{Setting, Reachable}
use webrtc_cdn.Service.Reach.{Reachable-IsConsistent}

none_of_absurd : {o : Option ℕ} → ((p : ℕ) → o ≢ some p) → o ≡ none
none_of_absurd {o} never = elim (Option-cases o) [ inl e ↦ e | inr (p, e) ↦ absurd (never p e) ]

-- A map with an entry has one under a key.
empty_of_none : (m : Map ℕ ℕ) → ((id : ℕ) → lookup id m ≡ none) → is_empty m ≡ true
unfolding lookup
empty_of_none [] absent = refl
empty_of_none ((id, p) ∷ m) absent = absurd (ground (arith, absent id))

module _ (w : Setting) (s : State) (r : Reachable w s)
    (idle : (h : ℕ) (id : Str) → request_type id (s.handler_at h) ≡ 0) where
  no_source : (sid : Str) → lookup sid s.node.sources ≡ none
  no_source sid =
      let c = Reachable-IsConsistent w r in
      none_of_absurd λ p here.
        let v = s.source_at p in
        absurd (
          ground (
            arith,
            (c.streams sid p here).slot,
            (c.coherent v.connection).published v.request_id,
            idle v.connection v.request_id,
          ))

  no_sink : (sid : Str) (id : ℕ) → lookup id (sinks_of sid s.node) ≡ none
  no_sink sid id =
      let c = Reachable-IsConsistent w r in
      none_of_absurd λ k here.
        let v = s.sink_at k in
        absurd (
          ground (
            arith,
            (c.playing.waiting sid id k here).slot,
            (c.coherent v.connection).played v.request_id,
            idle v.connection v.request_id,
          ))

  no_relay : (sid : Str) → lookup sid s.node.relays ≡ none
  no_relay sid =
      let c = Reachable-IsConsistent w r in
      none_of_absurd λ p here. absurd (
        ground (
          arith,
          c.feeding.relayed sid (ap is_some here),
          empty_of_none (sinks_of sid s.node) (no_sink sid),
        ))

  -- Where no handler has a request, in a state that a node comes to from its start, no stream has a
  -- source, a sink or a relay at the node.
  pub idle_node_serves_none :
      (sid : Str)
      → (lookup sid s.node.sources ≡ none)
        × ((id : ℕ) → lookup id (sinks_of sid s.node) ≡ none)
        × (lookup sid s.node.relays ≡ none)
  idle_node_serves_none sid = (no_source sid, no_sink sid, no_relay sid)
