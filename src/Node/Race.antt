-- ===== src/Node/Race.antt =====
-- Two goroutines that take the mutexes of the node and of one source or sink in opposite orders:
-- node_sources.go against `onClose` of wrtc_source.go and `close` of wrtc_sink.go.
use webrtc_cdn.Prelude.{
  ℕ, true, false, [], ◌∷◌, Option, Map, nat_key, some, ◌≡◌, refl, arith, lookup, str_key,
}
use webrtc_cdn.Machine.State.{
  State, set_source, set_handler, emit, to_client, update_ne, update, update_self, WrtcSource,
  set_sink, close_peer,
}
use webrtc_cdn.Machine.Op.{node_status, source_status, sink_status, holds}
use webrtc_cdn.Machine.Wait.{IsDeadlock}
use webrtc_cdn.Messages.Client.{send_source_close, forget_source, close_message}
use webrtc_cdn.Peer.Sink.{sink_on_tracks_ready}
use webrtc_cdn.Node.Sinks.{sinks_of, sink_close, remove_sink, closed_sink}
use webrtc_cdn.Node.Sources.{
  on_source_closed, source_close, source_on_close, register_source, Kind, follow_track,
  source_track, has_all_tracks, store_track, on_source_ready, source_on_track,
}

module _ (p q : ℕ) (s : State) where
  -- The state in which `onClose` waits: the source is closed, and its handler has forgotten it.
  abbrev half_closed : State
  half_closed =
      let v = s.source_at p in
      let c = s.handler_at v.connection in
      emit (to_client v.connection (close_message v.request_id v.sid)) (
        set_handler v.connection (forget_source v.request_id c)
          (set_source p (record v { closed = true }) s))

  -- Where the peer connection of the open source of a stream fails while another source of the stream
  -- is registered, the two goroutines can end up waiting for each other for ever: `onClose` holds the
  -- mutex of the old source and waits for that of the node, and `registerSource` the reverse.
  pub close_during_register-IsDeadlock :
      (p ≡ q → ⊥)
      → lookup (s.source_at q).sid s.node.sources ≡ some p
      → (s.source_at p).closed ≡ false
      → IsDeadlock (source_on_close p) (register_source q) s
  unfolding source_on_close send_source_close on_source_closed register_source source_close
  close_during_register-IsDeadlock other old opened =
      let kept = update_ne s.source_at p q (record (s.source_at p) { closed = true }) other in
      let busy : holds (source_status p) (source_status p ∷ []) ≡ true = ground arith in
      record {
        a_mutex = node_status;
        b_mutex = source_status p;
        a_own = source_status p ∷ [];
        b_own = node_status ∷ [];
        a_end = half_closed;
        b_end = half_closed;
        a_waits = rw opened refl;
        b_waits = rw (kept, old, busy) refl;
        b_has = refl;
        a_has = ground arith;
      }

module _ (p k i : ℕ) (g : Map ℕ ℕ) (kind : Kind) (made : Option ℕ) (w : WrtcSource)
    (s : State) where
  -- The state in which `onSourceReady` waits: the last track is stored, and the source is ready.
  abbrev half_ready : State
  half_ready =
      set_source p (record w { ready = true }) (follow_track p kind made (set_source p w s))

  -- And that in which `close` waits: the sink is closed too.
  abbrev half_left : State
  half_left =
      let sink = half_ready.sink_at k in
      set_sink k (closed_sink sink) (close_peer sink.peer_connection half_ready)

  -- Where the last track of a source comes while the sink that onSourceReady tells first is closed, as
  -- when its client leaves, the two goroutines can end up waiting for each other for ever:
  -- `onSourceReady` holds the mutexes of the source and of the node and waits for that of the sink, and
  -- `close` holds that of the sink and waits for that of the node.
  pub close_during_ready-IsDeadlock :
      source_track kind made (s.source_at p) ≡ some w
      → has_all_tracks w ≡ true
      → sinks_of w.sid s.node ≡ (i, k) ∷ g
      → IsDeadlock (source_on_track p kind made) (sink_close k) s
  unfolding source_on_track store_track on_source_ready sink_on_tracks_ready sink_close remove_sink
  close_during_ready-IsDeadlock last whole waits =
      let own : update s.source_at p w p ≡ w = update_self s.source_at p w in
      let busy : holds (sink_status k) (sink_status k ∷ []) ≡ true = ground arith in
      record {
        a_mutex = sink_status k;
        b_mutex = node_status;
        a_own = node_status ∷ source_status p ∷ [];
        b_own = sink_status k ∷ [];
        a_end = half_ready;
        b_end = half_left;
        a_waits = rw (last, whole, own, waits, busy) refl;
        b_waits = refl;
        b_has = busy;
        a_has = refl;
      }
