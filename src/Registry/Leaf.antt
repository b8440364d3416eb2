-- ===== src/Registry/Leaf.antt =====
-- The operations of sinks, senders and relays, seen from the registry: wrtc_sink.go,
-- wrtc_source_sender.go and wrtc_relay.go.
use mathlib.Core.Path.{fun_ext}
use webrtc_cdn.Prelude.{
  ℕ, false, ◌&&◌, List, [], ◌∷◌, Option, none, some, ◌≡◌, refl, ap, ◌∙◌, inl, inr, arith,
  Bool-cases,
}
use webrtc_cdn.Machine.State.{State, WrtcSink, close_peer, set_sink, update}
use webrtc_cdn.Machine.Op.{Op, Mutex, sink_status, sender_status, relay_status, holds, for_each}
use webrtc_cdn.Registry.{SinkName, name, Registry, registry, Yields, Yields-done}
use webrtc_cdn.Peer.Api.{same_ref}
use webrtc_cdn.Peer.Sink.{sink_on_tracks_ready, sink_on_tracks_closed}
use webrtc_cdn.Peer.Sender.{sender_on_tracks_ready, sender_close}
use webrtc_cdn.Peer.Relay.{relay_close}

pub registry-close_peer : (p : Option ℕ) (s : State) → registry (close_peer p s) ≡ registry s
registry-close_peer none s = refl
registry-close_peer (some c) s = refl

name-update :
    (p : ℕ) (v : WrtcSink) (f : ℕ → WrtcSink)
    → name v ≡ name (f p)
    → ◌≡◌ {A = ℕ → SinkName} (λ q. name (update f p v q)) (λ q. name (f q))
name-update p v f e = fun_ext (λ q. ground (arith, e))

pub registry-set_sink :
    (c : Option ℕ) (p : ℕ) (v : WrtcSink) (s : State)
    → name v ≡ name (s.sink_at p)
    → registry (set_sink p v (close_peer c s)) ≡ registry s
registry-set_sink none p v s e =
    ap (λ (n : ℕ → SinkName). record (registry s) { sink_name = n }) (name-update p v s.sink_at e)
registry-set_sink (some c) p v s e =
    ap (λ (n : ℕ → SinkName). record (registry s) { sink_name = n }) (name-update p v s.sink_at e)

module _ (p : ℕ) (held : List Mutex) (s : State) where
  pub sink_on_tracks_ready-Yields :
      (video audio : Option ℕ)
      → holds (sink_status p) held ≡ false
      → Yields (registry s) (sink_on_tracks_ready p video audio held s)
  unfolding sink_on_tracks_ready
  sink_on_tracks_ready-Yields video audio free = rw free (registry-set_sink _ p _ s refl)

  pub sink_on_tracks_closed-Yields :
      (video audio : Option ℕ)
      → holds (sink_status p) held ≡ false
      → Yields (registry s) (sink_on_tracks_closed p video audio held s)
  unfolding sink_on_tracks_closed
  sink_on_tracks_closed-Yields video audio free =
      elim (Bool-cases (
        same_ref (s.sink_at p).local_track_audio audio
        && same_ref (s.sink_at p).local_track_video video)) [
          | inl same ↦ rw (free, same) (registry-set_sink _ p _ s refl)
          | inr differ ↦ rw (free, differ)
        ]

  pub sender_on_tracks_ready-Yields :
      (video audio : Option ℕ)
      → holds (sender_status p) held ≡ false
      → Yields (registry s) (sender_on_tracks_ready p video audio held s)
  unfolding sender_on_tracks_ready
  sender_on_tracks_ready-Yields video audio free = rw free (registry-close_peer _ s)

  pub sender_close-Yields :
      holds (sender_status p) held ≡ false → Yields (registry s) (sender_close p held s)
  unfolding sender_close
  sender_close-Yields free = rw free (registry-close_peer _ s)

  pub relay_close-Yields :
      holds (relay_status p) held ≡ false → Yields (registry s) (relay_close p held s)
  unfolding relay_close
  relay_close-Yields free = rw free (registry-close_peer _ s)

-- A loop over operations that keep the registry keeps it.
pub for_each-Yields :
    (f : ℕ → Op) (held : List Mutex) (r : Registry) (ps : List ℕ) (s : State)
    → ((p : ℕ) (t : State) → Yields (registry t) (f p held t))
    → registry s ≡ r
    → Yields r (for_each f ps held s)
for_each-Yields f held r [] s keeps e = e
for_each-Yields f held r (p ∷ ps) s keeps e =
    let (t, run, same) = Yields-done (f p held s) (keeps p s) in
    rw run (for_each-Yields f held r ps t keeps (same ∙ e))
