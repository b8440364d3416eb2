-- ===== src/Node/Relayed.antt =====
-- The tracks of a relay: the handler of `OnTrack` of wrtc_relay.go, and `onRelayReady`.
use webrtc_cdn.Prelude.{ℕ, true, not, ◌&&◌, ◌||◌, [], ◌∷◌, Option, some, ◌≡◌, refl, subst}
use webrtc_cdn.Machine.State.{State, WrtcRelay, set_relay, spawn, run_pipe, update_self}
use webrtc_cdn.Machine.Op.{◌>>=◌, done, node_status, relay_status, values}
use webrtc_cdn.Peer.Api.{is_some}
use webrtc_cdn.Peer.Sink.{sink_on_tracks_ready}
use webrtc_cdn.Node.Sinks.{sinks_of}
use webrtc_cdn.Node.Sources.{Kind}
use webrtc_cdn.Node.Remote.{on_relay_ready, relay_track, relay_on_track}
use webrtc_cdn.Node.Ready.{among, SinkHas, for_each-Gives, sink_round}

-- `onRelayReady` gives the tracks of the relay to all who wait.
on_relay_ready_reaches_sinks :
    (p : ℕ) (s : State)
    → let v = s.relay_at p in
      (t : State) × (on_relay_ready p (relay_status p ∷ []) s ≡ done t)
      × ((k : ℕ)
          → among k (values (sinks_of v.sid s.node)) ≡ true
          → SinkHas v.local_track_video v.local_track_audio k t)
unfolding on_relay_ready
on_relay_ready_reaches_sinks p s =
    let v = s.relay_at p in
    let video = v.local_track_video in
    let audio = v.local_track_audio in
    let locks = node_status ∷ relay_status p ∷ [] in
    let (t, run, node, sinks, kept) =
      for_each-Gives (λ k. sink_on_tracks_ready k video audio) (SinkHas video audio)
        (λ (u : State). u.node ≡ s.node) locks
        (λ k u e. sink_round video audio s.node locks k u refl e) (values (sinks_of v.sid s.node))
        (set_relay p (record v { ready = true }) s) refl in
    (t, run, sinks)

-- Where the handler of OnTrack of a relay stores a track, after which it has all that it should have,
-- it comes to an end, and every sink that waits for the stream has the tracks of the relay, and its
-- set-up is started.
pub relay_tracks_reach_sinks :
    (p : ℕ) (kind : Kind) (made : Option ℕ) (w : WrtcRelay) (s : State)
    → relay_track kind made (s.relay_at p) ≡ some w
    → (not w.has_audio || is_some w.local_track_audio)
        && (not w.has_video || is_some w.local_track_video)
      ≡ true
    → (t : State) × (relay_on_track p kind made [] s ≡ done t)
      × ((k : ℕ)
          → among k (values (sinks_of w.sid s.node)) ≡ true
          → SinkHas w.local_track_video w.local_track_audio k t)
unfolding relay_on_track
relay_tracks_reach_sinks p kind made w s stored whole =
    let (t, run, sinks) =
      on_relay_ready_reaches_sinks p (spawn (run_pipe made) (set_relay p w s)) in
    (
      t,
      rw (◌>>=◌, stored, whole) run,
      subst
          (λ (x : WrtcRelay).
            (k : ℕ)
            → among k (values (sinks_of x.sid s.node)) ≡ true
            → SinkHas x.local_track_video x.local_track_audio k t)
          (update_self s.relay_at p w) sinks,
    )
