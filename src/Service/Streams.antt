-- ===== src/Service/Streams.antt =====
-- Streams and the requests that publish them, in the states that a node comes to.
use webrtc_cdn.Prelude.{
  ℕ, true, [], some, Str, ◌≡◌, ◌≢◌, refl, subst, arith, lookup, str_key, nat_key,
}
use webrtc_cdn.Machine.State.{State, emit, set_handler, websocket_closed, set_node, update_self}
use webrtc_cdn.Machine.Op.{done}
use webrtc_cdn.Connection.Coherent.{IsCoherent}
use webrtc_cdn.Connection.Requests.{request_type}
use webrtc_cdn.Connection.Lifecycle.{failed, run_round, end_run}
use webrtc_cdn.Node.Sinks.{sinks_of}
use webrtc_cdn.Node.Limits.{on_connection_close}
use webrtc_cdn.Connection.Shutdown.{on_close-ends}
use webrtc_cdn.Service.{Setting, frame_read, happen, Reachable, next}
use webrtc_cdn.Service.Reach.{Reachable-IsConsistent}

no_publish :
    (t : State) (h : ℕ) (id : Str) (p : ℕ)
    → IsCoherent (t.handler_at h)
    → request_type id (t.handler_at h) ≡ 0
    → lookup id (t.handler_at h).sources ≡ some p
    → ⊥
no_publish t h id p ok unused slot = absurd (ground (arith, ok.published id, unused, slot))

no_play :
    (t : State) (h : ℕ) (id : Str) (k : ℕ)
    → IsCoherent (t.handler_at h)
    → request_type id (t.handler_at h) ≡ 0
    → lookup id (t.handler_at h).sinks ≡ some k
    → ⊥
no_play t h id k ok unused slot = absurd (ground (arith, ok.played id, unused, slot))

-- The end of a connection, in a state that the node comes to from its start, comes to an end, and
-- then no stream has a source or a sink of that handler.
pub end_run_frees_streams :
    (w : Setting) (s : State) (h : ℕ)
    → Reachable w s
    → (t : State) × (end_run h [] s ≡ done t)
      × ((sid : Str) (p : ℕ) → lookup sid t.node.sources ≡ some p → (t.source_at p).connection ≢ h)
      × ((sid : Str) (id k : ℕ)
          → lookup id (sinks_of sid t.node) ≡ some k
          → (t.sink_at k).connection ≢ h)
unfolding end_run happen run_round request_type
end_run_frees_streams w s h r =
    let marked =
      set_handler h (record (s.handler_at h) { closed = true }) (emit (websocket_closed h) s) in
    let ok = (Reachable-IsConsistent w r).coherent h in
    let own = update_self s.handler_at h (record (s.handler_at h) { closed = true }) in
    let still : IsCoherent (marked.handler_at h) =
      rw own (record { known = ok.known; published = ok.published; played = ok.played }) in
    let (u, run, none_left) = on_close-ends h marked still in
    let d = u.handler_at h in
    let t = set_node (on_connection_close d.id d.ip u.node) u in
    let ends : end_run h [] s ≡ done t = rw run refl in
    let c = Reachable-IsConsistent w {s = t} (next (frame_read h failed) r tt ends) in
    (
      t,
      ends,
      (λ sid p here at.
          let slot = (c.streams sid p here).slot in
          no_publish t h (t.source_at p).request_id p (c.coherent h)
            (none_left (t.source_at p).request_id)
            (subst (λ k. lookup (t.source_at p).request_id (t.handler_at k).sources ≡ some p) at
              slot)),
      λ sid id k here at.
          let slot = (c.playing.waiting sid id k here).slot in
          no_play t h (t.sink_at k).request_id k (c.coherent h) (none_left (t.sink_at k).request_id)
            (subst (λ j. lookup (t.sink_at k).request_id (t.handler_at j).sinks ≡ some k) at slot),
    )
