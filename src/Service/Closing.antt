-- ===== src/Service/Closing.antt =====
-- The end of the requests of a handler.
use webrtc_cdn.Prelude.{
  ℕ, List, [], ◌∷◌, some, Str, ◌≡◌, refl, sym, subst, arith, inl, inr, Bool-cases, lookup, str_key,
  true, ap, ◌∙◌, nat_key, leb,
}
use webrtc_cdn.Machine.State.{
  State, set_handler, emit, websocket_closed, set_node, ConnectionHandler, WebrtcCdnNode,
}
use webrtc_cdn.Machine.Op.{Outcome, done, handler_status}
use webrtc_cdn.Node.Limits.{on_connection_close, remove_ip, count_of}
use webrtc_cdn.Connection.Requests.{
  request_type, call, close_publish, close_play, end_source, end_sink,
}
use webrtc_cdn.Connection.Coherent.{
  request_type-cases, source_of_publish, sink_of_play, without_play, without_play-IsCoherent,
}
use webrtc_cdn.Connection.Close.{alone, without_sink_handlers}
use webrtc_cdn.Connection.Lifecycle.{close_requests, keys, on_close, end_run}
use webrtc_cdn.Registry.{Registry, registry, Yields-done}
use webrtc_cdn.Registry.Sparing.{
  Spares, Spares-refl, Spares-trans, end_publish-Spares, end_play-Spares,
}
use webrtc_cdn.Registry.Streams.{source_close-Yields_deregister}
use webrtc_cdn.Registry.Sinks.{sink_close-Yields}
use webrtc_cdn.Registry.Consistent.{IsConsistent, rewired-IsConsistent, unchanged-IsConsistent}
use webrtc_cdn.Registry.Consistent.Handlers.{
  put_handler, put_handler-IsConsistent, touch_handler-IsConsistent,
}
use webrtc_cdn.Registry.Consistent.Take.{end_publish, end_publish-IsConsistent}
use webrtc_cdn.Service.Keeps.{Keeps, done-Keeps}
use webrtc_cdn.Node.Sinks.{sinks_of}
use webrtc_cdn.Registry.Change.{without_sink}
use webrtc_cdn.Registry.Playing.Leave.{
  without_sink-elsewhere, without_sink-IsPlayed, without_play-IsPlayed,
}
use webrtc_cdn.Registry.Feeding.Sinks.{without_sink-IsFed}

without_sink-IsConsistent :
    (p : ℕ) (r : Registry) → IsConsistent r → IsConsistent (without_sink p r)
without_sink-IsConsistent p r c =
    let e = without_sink-elsewhere p r in
    rewired-IsConsistent r _ e.streams e.source_at e.handler_at e.started
      (omega (arith, e.next_ref)) (without_sink-IsPlayed p r c.playing)
      (without_sink-IsFed p r c.feeding) c

-- The handler of a client without a PLAY, whose sink has left its stream.
pub end_play-IsConsistent :
    (h p : ℕ) (id : Str) (r : Registry)
    → IsConsistent r
    → request_type id (r.handler_at h) ≡ 2
    → lookup id (r.handler_at h).sinks ≡ some p
    → IsConsistent
        (put_handler h (without_play id ((without_sink p r).handler_at h)) (without_sink p r))
end_play-IsConsistent h p id r c kind noted =
    let left = without_sink p r in
    let d = without_sink-IsConsistent p r c in
    put_handler-IsConsistent h _ left refl
      (without_play-IsCoherent id (left.handler_at h) (d.coherent h) (
        ap (λ (f : ℕ → ConnectionHandler). request_type id (f h)) (without_sink_handlers p r)
        ∙ kind))
      (without_play-IsPlayed h p id r noted c.playing) d

-- The run ends, with records that agree, and spares all but this handler.
abbrev pub Ends : ℕ → State → Outcome → Type 0
Ends h s o =
    (t : State) × (o ≡ done t) × IsConsistent (registry t) × Spares h (registry s) (registry t)

pub Ends-Keeps : (h : ℕ) (s : State) (o : Outcome) → Ends h s o → Keeps o
Ends-Keeps h s o (t, run, c, spared) = done-Keeps o t run c

module _ (h : ℕ) (id : Str) (s : State) (c : IsConsistent (registry s)) where
  pub close_publish-Ends :
      request_type id (s.handler_at h) ≡ 1
      → Ends h s (close_publish h id (s.handler_at h) (handler_status h ∷ []) s)
  unfolding close_publish call end_source
  close_publish-Ends kind =
      let (p, found) = source_of_publish id (s.handler_at h) (c.coherent h) kind in
      let (t, run, same) =
        Yields-done _
          (source_close-Yields_deregister (handler_status h ∷ []) (alone h) p s refl refl) in
      (
        end_source h id t,
        rw (found, call, run) refl,
        subst (λ r. IsConsistent (end_publish h id r)) (sym same)
            (end_publish-IsConsistent p h id (registry s) c found),
        subst (λ r. Spares h (registry s) (end_publish h id r)) (sym same)
            (end_publish-Spares p h id (registry s) c found),
      )

  pub close_play-Ends :
      request_type id (s.handler_at h) ≡ 2
      → Ends h s (close_play h id (s.handler_at h) (handler_status h ∷ []) s)
  unfolding close_play call end_sink
  close_play-Ends kind =
      let (p, found) = sink_of_play id (s.handler_at h) (c.coherent h) kind in
      let (t, run, same) =
        Yields-done _ (sink_close-Yields (handler_status h ∷ []) (alone h) p s refl) in
      (
        end_sink h id t,
        rw (found, call, run) refl,
        subst (λ (r : Registry). IsConsistent (put_handler h (without_play id (r.handler_at h)) r))
            (sym same) (end_play-IsConsistent h p id (registry s) c kind found),
        subst
            (λ (r : Registry).
              Spares h (registry s) (put_handler h (without_play id (r.handler_at h)) r))
            (sym same) (end_play-Spares p h id (registry s) c found),
      )

module _ (h : ℕ) where
  -- Two runs, one after the other.
  Ends-trans :
      (s t : State) (o : Outcome) → Spares h (registry s) (registry t) → Ends h t o → Ends h s o
  Ends-trans s t o spared (u, run, d, rest) = (u, run, d, Spares-trans h _ _ _ spared rest)

  close_requests-Ends :
      (ids : List Str) (s : State)
      → IsConsistent (registry s)
      → Ends h s (close_requests h ids (handler_status h ∷ []) s)
  unfolding close_requests
  close_requests-Ends [] s c = (s, refl, c, Spares-refl h (registry s))
  close_requests-Ends (id ∷ ids) s c =
      elim (request_type-cases id (s.handler_at h) (c.coherent h)) [
        | inl e ↦ rw e (s, refl, c, Spares-refl h (registry s))
        | inr (inl e) ↦
            let (t, run, d, spared) = close_publish-Ends h id s c e in
            rw (e, run) (Ends-trans s t _ spared (close_requests-Ends ids t d))
        | inr (inr e) ↦
            let (t, run, d, spared) = close_play-Ends h id s c e in
            rw (e, run) (Ends-trans s t _ spared (close_requests-Ends ids t d))
      ]

on_connection_close-streams :
    (id : ℕ) (ip : Str) (n : WebrtcCdnNode)
    → ((on_connection_close id ip n).sources ≡ n.sources)
      × ((on_connection_close id ip n).relays ≡ n.relays)
      × ((on_connection_close id ip n).sinks ≡ n.sinks)
unfolding on_connection_close remove_ip
on_connection_close-streams id ip n = elim (Bool-cases (leb (count_of ip n) 1)) [
  | inl last ↦ rw last (refl, refl, refl)
  | inr more ↦ rw more (refl, refl, refl)
]

-- A write to the handler itself, and the count of the connections of an address.
touch_handler-Spares :
    (h : ℕ) (d : ConnectionHandler) (r : Registry)
    → d.sinks ≡ (r.handler_at h).sinks
    → Spares h r (put_handler h d r)
touch_handler-Spares h d r sinks = record {
  handlers = λ k other. ground (arith, other);
  sources = λ q other. refl;
  streams = λ sid others. refl;
  names = refl;
  groups = λ sid id unnamed. refl;
  own_sinks = λ j p found. ground (arith, sinks, found);
}

close_count-Spares :
    (h id : ℕ) (ip : Str) (r : Registry)
    → Spares h r (record r { node = on_connection_close id ip r.node })
unfolding sinks_of
close_count-Spares h id ip r =
    let (sources, relays, sinks) = on_connection_close-streams id ip r.node in
    record {
      handlers = λ k other. refl;
      sources = λ q other. refl;
      streams = λ sid others. ap (lookup sid) sources;
      names = refl;
      groups = λ sid i unnamed. rw sinks refl;
      own_sinks = λ j p found. found;
    }

pub end_run-Ends : (h : ℕ) (s : State) → IsConsistent (registry s) → Ends h s (end_run h [] s)
unfolding end_run on_close request_type
end_run-Ends h s c =
    let shut = record (s.handler_at h) { closed = true } in
    let marked = set_handler h shut (emit (websocket_closed h) s) in
    let ok = c.coherent h in
    let still : IsConsistent (registry marked) =
      touch_handler-IsConsistent h shut (registry s) refl refl
        (record { known = ok.known; published = ok.published; played = ok.played }) c in
    let (t, run, d, spared) =
      close_requests-Ends h (keys (marked.handler_at h).requests) marked still in
    let gone = t.handler_at h in
    let (sources, relays, sinks) = on_connection_close-streams gone.id gone.ip t.node in
    let left = set_node (on_connection_close gone.id gone.ip t.node) t in
    (
      left,
      rw run refl,
      unchanged-IsConsistent (registry t) _ sources relays sinks refl refl refl refl (omega arith)
          d,
      Spares-trans h (registry s) (registry marked) _
          (touch_handler-Spares h shut (registry s) refl)
          (Spares-trans h (registry marked) (registry t) (registry left) spared
            (close_count-Spares h gone.id gone.ip (registry t))),
    )
