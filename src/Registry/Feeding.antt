-- ===== src/Registry/Feeding.antt =====
-- Which streams a node has a relay of.
pub mod Sinks
use webrtc_cdn.Prelude.{
  ℕ, Bool, true, false, [], ◌∷◌, Option, none, some, Map, Str, ◌≡◌, refl, ap, sym, subst, ◌∙◌,
  arith, if◌then◌else◌, inl, inr, Bool-cases, lookup, delete, insert, lookup-delete, lookup-insert,
  str_key, nat_key, str_eq, str_eq_iff,
}
use webrtc_cdn.Machine.State.{WebrtcCdnNode}
use webrtc_cdn.Peer.Api.{is_some}
use webrtc_cdn.Node.Sinks.{sinks_of}
use webrtc_cdn.Node.Remote.{is_empty}
use webrtc_cdn.Registry.{Registry}

-- A stream with a relay has no source, and has a sink.
pub record IsFed (n : WebrtcCdnNode) : Type 0 where
  pub relayed :
      (sid : Str)
      → is_some (lookup sid n.relays) ≡ true
      → (is_some (lookup sid n.sources) ≡ false) × (is_empty (sinks_of sid n) ≡ false)

-- Streams, each with no more sources and relays than before, and with a sink where it had one.
pub record IsLess (n m : WebrtcCdnNode) : Type 0 where
  pub sources :
      (sid : Str) → is_some (lookup sid n.sources) ≡ false → is_some (lookup sid m.sources) ≡ false
  pub relays :
      (sid : Str) → is_some (lookup sid m.relays) ≡ true → is_some (lookup sid n.relays) ≡ true
  pub sinks :
      (sid : Str)
      → is_some (lookup sid m.relays) ≡ true
      → is_empty (sinks_of sid n) ≡ false
      → is_empty (sinks_of sid m) ≡ false

pub IsLess-IsFed : (n m : WebrtcCdnNode) → IsLess n m → IsFed n → IsFed m
IsLess-IsFed n m e f = record {
  relayed = λ sid relay.
      let (free, waiting) = f.relayed sid (e.relays sid relay) in
      (e.sources sid free, e.sinks sid relay waiting);
}

-- The same sources, relays and sinks.
pub same-IsFed :
    (n m : WebrtcCdnNode)
    → m.sources ≡ n.sources
    → m.relays ≡ n.relays
    → m.sinks ≡ n.sinks
    → IsFed n
    → IsFed m
unfolding sinks_of
same-IsFed n m sources relays sinks = IsLess-IsFed n m (record {
  sources = λ sid free. rw sources free;
  relays = λ sid relay. rw⁻¹ relays relay;
  sinks = λ sid relay waiting. rw sinks waiting;
})

-- A stream without its source, and a stream without its relay.
pub without_source-IsFed :
    (sid : Str) (n : WebrtcCdnNode) → IsFed n → IsFed (record n { sources = delete sid n.sources })
unfolding sinks_of
without_source-IsFed sid n = IsLess-IsFed n _ (record {
  sources = λ other free. ground (arith, lookup-delete sid other n.sources, free);
  relays = λ other relay. relay;
  sinks = λ other relay waiting. waiting;
})

pub without_relay-IsFed :
    (sid : Str) (n : WebrtcCdnNode) → IsFed n → IsFed (record n { relays = delete sid n.relays })
unfolding sinks_of
without_relay-IsFed sid n = IsLess-IsFed n _ (record {
  sources = λ other free. free;
  relays = λ other relay. ground (arith, lookup-delete sid other n.relays, relay);
  sinks = λ other relay waiting. waiting;
})

-- A relay of a stream that waits for one.
pub with_relay-IsFed :
    (sid : Str) (p : ℕ) (n : WebrtcCdnNode)
    → is_some (lookup sid n.sources) ≡ false
    → is_empty (sinks_of sid n) ≡ false
    → IsFed n
    → IsFed (record n { relays = insert sid p n.relays })
unfolding sinks_of
with_relay-IsFed sid p n free waiting f = record {
  relayed = λ other relay. elim (Bool-cases (str_eq sid other)) [
    | inl same ↦ rw⁻¹ ((str_eq_iff sid other).0 same) (free, waiting)
    | inr apart ↦ f.relayed other (ground (arith, lookup-insert sid other p n.relays, apart, relay))
  ];
}

-- A source in place of the relay of its stream.
pub with_source-IsFed :
    (sid : Str) (p : ℕ) (n : WebrtcCdnNode)
    → IsFed n
    → IsFed (record n { sources = insert sid p n.sources; relays = delete sid n.relays })
unfolding sinks_of
with_source-IsFed sid p n f = record {
  relayed = λ other relay.
      let (free, waiting) =
        f.relayed other (ground (arith, lookup-delete sid other n.relays, relay)) in
      (
        ground (
          arith,
          lookup-insert sid other p n.sources,
          lookup-delete sid other n.relays,
          str_eq_iff sid other,
          relay,
          free,
        ),
        waiting,
      );
}
