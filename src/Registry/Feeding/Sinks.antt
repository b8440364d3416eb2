-- ===== src/Registry/Feeding/Sinks.antt =====
-- Sinks that join and leave a stream.
use webrtc_cdn.Prelude.{
  ℕ, [], ◌∷◌, Option, none, some, Map, Str, arith, inl, inr, Bool-cases, lookup, delete, insert,
  lookup-delete, lookup-insert, str_key, nat_key,
}
use webrtc_cdn.Peer.Api.{is_some}
use webrtc_cdn.Node.Sinks.{sinks_of}
use webrtc_cdn.Registry.{Registry, SinkName}
use webrtc_cdn.Registry.Change.{keep_sinks, leave_group, with_sink, without_sink}
use webrtc_cdn.Registry.Feeding.{IsFed, IsLess-IsFed}

keep_sinks-IsFed :
    (sid : Str) (g : Map ℕ ℕ) (r : Registry) → IsFed r.node → IsFed (keep_sinks sid g r).node
unfolding sinks_of
keep_sinks-IsFed sid [] r = IsLess-IsFed r.node _ (record {
  sources = λ other free. free;
  relays = λ other relay. ground (arith, lookup-delete sid other r.node.relays, relay);
  sinks = λ other relay waiting. ground (
    arith,
    lookup-delete sid other r.node.relays,
    lookup-delete sid other r.node.sinks,
    relay,
    waiting,
  );
})
keep_sinks-IsFed sid (x ∷ g) r = IsLess-IsFed r.node _ (record {
  sources = λ other free. free;
  relays = λ other relay. relay;
  sinks =
      λ other relay waiting. ground (arith, lookup-insert sid other (x ∷ g) r.node.sinks, waiting);
})

leave_group-IsFed :
    (n : SinkName) (o : Option (Map ℕ ℕ)) (r : Registry)
    → IsFed r.node
    → IsFed (leave_group n o r).node
leave_group-IsFed n none r f = f
leave_group-IsFed n (some g) r f = elim (Bool-cases (is_some (lookup n.sink_id g))) [
  | inl there ↦ rw there (keep_sinks-IsFed n.sid (delete n.sink_id g) r f)
  | inr gone ↦ rw gone f
]

pub without_sink-IsFed : (p : ℕ) (r : Registry) → IsFed r.node → IsFed (without_sink p r).node
unfolding without_sink
without_sink-IsFed p r = leave_group-IsFed (r.sink_name p) _ r

pub with_sink-IsFed : (p : ℕ) (r : Registry) → IsFed r.node → IsFed (with_sink p r).node
unfolding with_sink sinks_of insert
with_sink-IsFed p r =
    let k = r.sink_name p in
    IsLess-IsFed r.node _ (record {
      sources = λ other free. free;
      relays = λ other relay. relay;
      sinks = λ other relay waiting. ground (
        arith,
        lookup-insert k.sid other (insert k.sink_id p (sinks_of k.sid r.node)) r.node.sinks,
        waiting,
      );
    })
