-- ===== src/Service/Reach.antt =====
-- What holds of every state that a node comes to.
use webrtc_cdn.Prelude.{◌≡◌, ap, subst, arith, lookup, str_key}
use webrtc_cdn.Machine.State.{State}
use webrtc_cdn.Machine.Op.{done}
use webrtc_cdn.Connection.Lifecycle.{text, binary, failed, run_round}
use webrtc_cdn.Node.Sinks.{sinks_of}
use webrtc_cdn.Registry.{registry}
use webrtc_cdn.Registry.Consistent.{IsConsistent}
use webrtc_cdn.Registry.Consistent.Handlers.{empty-IsCoherent}
use webrtc_cdn.Service.{
  Setting, Happening, http_request, handler_starts, frame_read, heartbeat_due, redis_message,
  source_starts, source_track_found, source_candidate, source_lost, sink_starts, sink_candidate,
  sink_lost, sender_starts, sender_candidate, sender_lost, relay_offered, relay_track_found,
  relay_candidate, relay_lost, happen, CanHappen, IsFresh, Reachable, fresh, next,
}
use webrtc_cdn.Service.Keeps.{Keeps, Keeps-done}
use webrtc_cdn.Service.Ending.{
  run_round_text-Keeps, end_run-Keeps, heartbeat_round-Keeps, begin_run-Keeps,
}
use webrtc_cdn.Service.Http.{serve_http-Keeps}
use webrtc_cdn.Service.Messages.{redis-Keeps}
use webrtc_cdn.Service.Peers.{
  source_starts-Keeps, source_track_found-Keeps, source_candidate-Keeps, source_lost-Keeps,
  sink_starts-Keeps, sink_candidate-Keeps, sink_lost-Keeps,
}
use webrtc_cdn.Service.Remote.{
  sender_starts-Keeps, sender_candidate-Keeps, sender_lost-Keeps, relay_offered-Keeps,
  relay_track_found-Keeps, relay_candidate-Keeps, relay_lost-Keeps,
}

module _ (w : Setting) where
  happen-Keeps :
      (x : Happening) (s : State)
      → IsConsistent (registry s)
      → CanHappen w x s
      → Keeps (happen w x s)
  unfolding happen run_round
  happen-Keeps (http_request r) s c can = serve_http-Keeps w.contains w.whitelist r s c
  happen-Keeps (handler_starts now h) s c can = begin_run-Keeps h now s c
  happen-Keeps (frame_read h (text raw)) s c can = run_round_text-Keeps w.around h s c raw can
  happen-Keeps (frame_read h binary) s c can = c
  happen-Keeps (frame_read h failed) s c can = end_run-Keeps h s c
  happen-Keeps (heartbeat_due h) s c can = heartbeat_round-Keeps w.around h s c
  happen-Keeps (redis_message m) s c can = redis-Keeps s c w.around.unicode m
  happen-Keeps (source_starts results p) s c can = source_starts-Keeps results p s c
  happen-Keeps (source_track_found p kind made) s c can = source_track_found-Keeps p s c kind made
  happen-Keeps (source_candidate p json) s c can = source_candidate-Keeps p json s c
  happen-Keeps (source_lost p) s c can = source_lost-Keeps p s c can
  happen-Keeps (sink_starts results p) s c can = sink_starts-Keeps results p s c
  happen-Keeps (sink_candidate p json) s c can = sink_candidate-Keeps p json s c
  happen-Keeps (sink_lost p) s c can = sink_lost-Keeps p s c
  happen-Keeps (sender_starts results p) s c can = sender_starts-Keeps results p s c
  happen-Keeps (sender_candidate p json) s c can = sender_candidate-Keeps p json s c
  happen-Keeps (sender_lost p) s c can = sender_lost-Keeps p s c
  happen-Keeps (relay_offered results p video audio) s c can =
      relay_offered-Keeps results p s c video audio
  happen-Keeps (relay_track_found p kind made) s c can = relay_track_found-Keeps p s c kind made
  happen-Keeps (relay_candidate p json) s c can = relay_candidate-Keeps p json s c
  happen-Keeps (relay_lost p) s c can = relay_lost-Keeps p s c

  fresh-IsConsistent : (s : State) → IsFresh s → IsConsistent (registry s)
  unfolding lookup sinks_of
  fresh-IsConsistent s f = record {
    coherent = λ h. empty-IsCoherent (s.handler_at h) (f.requests h) (f.sources h) (f.sinks h);
    streams = λ sid p found. absurd (ground (arith, ap (lookup sid) f.streams, found));
    playing = record {
      waiting = λ sid id k found. absurd (ground (arith, ap (lookup sid) f.groups, found));
    };
    feeding = record {
      relayed = λ sid relay. absurd (ground (arith, ap (lookup sid) f.relays, relay));
    };
    slots = λ h id p found. absurd (ground (arith, ap (lookup id) (f.sources h), found));
    begun = λ p began. absurd (ground (arith, f.idle, began));
  }

  -- In every state that a node comes to from its start, each source of a stream is open, in memory,
  -- and noted by its handler under its request; each source that a handler has noted is its own, under
  -- that request, and the source of its stream; a source that was started is closed or the source of
  -- its stream; a stream that the node has a relay of has a sink and no source; each sink of a stream is
  -- in memory under its stream and its ID, and noted by its handler under its request; and the requests of each handler agree with its sources and sinks.
  pub Reachable-IsConsistent : {s : State} → Reachable w s → IsConsistent (registry s)
  Reachable-IsConsistent (fresh {s = s} f) = fresh-IsConsistent s f
  Reachable-IsConsistent (next {s = s} {t = t} x r can run) =
      subst Keeps run (happen-Keeps x s (Reachable-IsConsistent r) can)

  -- In a state that a node comes to from its start, one goroutine run after another, what can happen next
  -- comes to an end, without a panic and without a wait for ever for a mutex, in a state that the node
  -- can come to: an HTTP request, a Redis message, a frame of a client, the heartbeat, and the goroutines
  -- and callbacks of peer connections. What can happen leaves out a message to a handler not in memory,
  -- a PUBLISH or PLAY whose authentication crashes, a PUBLISH of a stream that its handler already
  -- publishes, and the loss of a source that was never started.
  pub happen-ends :
      (x : Happening) (s : State)
      → Reachable w s
      → CanHappen w x s
      → (t : State) × (happen w x s ≡ done t) × Reachable w t
  happen-ends x s r can =
      let (t, run, c) = Keeps-done _ (happen-Keeps x s (Reachable-IsConsistent r) can) in
      (t, run, next x r can run)
