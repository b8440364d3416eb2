-- ===== src/Registry.antt =====
-- The part of the memory by which a node knows who publishes and who plays: its maps, the handlers,
-- the sources, the names of the sinks, and the sources whose goroutine was started. Peer connections,
-- tracks, senders, relays, events and the other goroutines are left out.
pub mod Leaf
pub mod Change
pub mod Streams
pub mod Replace
pub mod Sinks
pub mod Playing
pub mod Feeding
pub mod Sparing
pub mod Consistent
use webrtc_cdn.Prelude.{ℕ, Str, List, [], ◌∷◌, ◌≡◌, refl}
use webrtc_cdn.Machine.State.{
  State, WebrtcCdnNode, ConnectionHandler, WrtcSource, WrtcSink, Task, run_source,
}
use webrtc_cdn.Machine.Op.{Outcome, done, panicked, blocked}

pub record SinkName : Type 0 where
  pub sink_id : ℕ
  pub request_id : Str
  pub sid : Str
  pub connection : ℕ

abbrev pub name : WrtcSink → SinkName
name k = record {
  sink_id = k.sink_id;
  request_id = k.request_id;
  sid = k.sid;
  connection = k.connection;
}

pub record Registry : Type 0 where
  pub node : WebrtcCdnNode
  pub handler_at : ℕ → ConnectionHandler
  pub source_at : ℕ → WrtcSource
  pub sink_name : ℕ → SinkName
  pub next_ref : ℕ
  pub started : List ℕ

-- The sources whose `run` was started.
abbrev pub started_sources : List Task → List ℕ
started_sources [] = []
started_sources (run_source p ∷ tasks) = p ∷ started_sources tasks
started_sources (_ ∷ tasks) = started_sources tasks

abbrev pub registry : State → Registry
registry s = record {
  node = s.node;
  handler_at = s.handler_at;
  source_at = s.source_at;
  sink_name = λ p. name (s.sink_at p);
  next_ref = s.next_ref;
  started = started_sources s.tasks;
}

-- The run ends, neither in a panic nor blocked, with this registry.
abbrev pub Yields : Registry → Outcome → Type 0
Yields r (done s) = registry s ≡ r
Yields r (panicked s) = ⊥
Yields r (blocked m held s) = ⊥

-- The state in which such a run ends.
pub Yields-done :
    {r : Registry} (o : Outcome) → Yields r o → (t : State) × (o ≡ done t) × (registry t ≡ r)
Yields-done (done s) y = (s, refl, y)
Yields-done (panicked s) y = absurd y
Yields-done (blocked m held s) y = absurd y
