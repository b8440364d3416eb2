-- ===== src/Registry/Consistent/Relays.antt =====
-- A stream without its relay, and with a new one.
use webrtc_cdn.Prelude.{ℕ, suc, ◌≤◌, false, Str, ◌≡◌, refl, arith, lookup, insert, str_key, nat_key}
use webrtc_cdn.Machine.State.{WebrtcCdnNode}
use webrtc_cdn.Peer.Api.{is_some}
use webrtc_cdn.Node.Sinks.{sinks_of}
use webrtc_cdn.Node.Remote.{is_empty}
use webrtc_cdn.Registry.{Registry}
use webrtc_cdn.Registry.Change.{without_relay}
use webrtc_cdn.Registry.Playing.{grown-IsPlayed}
use webrtc_cdn.Registry.Feeding.{IsFed, without_relay-IsFed, with_relay-IsFed}
use webrtc_cdn.Registry.Consistent.{IsConsistent, rewired-IsConsistent}

-- The same sources and sinks.
relays-IsConsistent :
    (n : WebrtcCdnNode) (m : ℕ) (r : Registry)
    → n.sources ≡ r.node.sources
    → n.sinks ≡ r.node.sinks
    → r.next_ref ≤ m
    → IsFed n
    → IsConsistent r
    → IsConsistent (record r { node = n; next_ref = m })
relays-IsConsistent n m r sources sinks grown feeding c =
    rewired-IsConsistent r _ sources refl refl refl grown
      (grown-IsPlayed r _ sinks (λ k low. refl) refl grown c.playing) feeding c

pub without_relay-IsConsistent :
    (sid : Str) (r : Registry) → IsConsistent r → IsConsistent (without_relay sid r)
without_relay-IsConsistent sid r c =
    relays-IsConsistent _ r.next_ref r refl refl (omega arith)
      (without_relay-IsFed sid r.node c.feeding) c

-- The new relay is at the next place of the memory.
pub with_relay-IsConsistent :
    (sid : Str) (r : Registry)
    → is_some (lookup sid r.node.sources) ≡ false
    → is_empty (sinks_of sid r.node) ≡ false
    → IsConsistent r
    → IsConsistent (record r {
      node = record (r.node) { relays = insert sid r.next_ref r.node.relays };
      next_ref = suc r.next_ref;
    })
with_relay-IsConsistent sid r free waiting c =
    relays-IsConsistent _ _ r refl refl (omega arith)
      (with_relay-IsFed sid r.next_ref r.node free waiting c.feeding) c
