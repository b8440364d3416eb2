-- ===== src/Service/Peers.antt =====
-- What the WebRTC library reports of peer connections, and the goroutines that set them up.
use webrtc_cdn.Prelude.{
  List, ℕ, true, not, ◌&&◌, [], ◌∷◌, Option, none, some, Str, ◌≡◌, refl, sym, subst, arith, inl,
  inr, Bool-cases, Option-cases,
}
use webrtc_cdn.Machine.State.{State, Task, WrtcSource, set_sink, set_source}
use webrtc_cdn.Machine.Op.{node_status, source_status, values}
use webrtc_cdn.Messages.Client.{send_offer, send_ice_candidate, send}
use webrtc_cdn.Peer.Api.{PeerResults, incoming_offer, outgoing_offer}
use webrtc_cdn.Peer.Source.{source_run, source_candidate_found}
use webrtc_cdn.Peer.Sink.{
  sink_on_tracks_ready, sink_candidate_found, sink_run_after_tracks_ready, sink_reconnect,
}
use webrtc_cdn.Peer.Sender.{sender_on_tracks_ready}
use webrtc_cdn.Node.Sinks.{sinks_of}
use webrtc_cdn.Node.Sources.{
  Kind, video, audio, unknown, senders_of, source_track, has_all_tracks, store_track, track_tasks,
  follow_track, on_source_ready, source_on_track, source_on_close,
}
use webrtc_cdn.Registry.{registry, started_sources, Yields, Yields-done}
use webrtc_cdn.Registry.Change.{put_source}
use webrtc_cdn.Registry.Leaf.{
  sink_on_tracks_ready-Yields, sender_on_tracks_ready-Yields, for_each-Yields, registry-set_sink,
}
use webrtc_cdn.Registry.Streams.{NoLeaf, NoLeaf-cons, unlocked, source_on_close-Yields}
use webrtc_cdn.Registry.Playing.{grown-IsPlayed}
use webrtc_cdn.Registry.Consistent.{IsConsistent, IsSame-IsConsistent}
use webrtc_cdn.Registry.Consistent.Take.{lose_source-IsConsistent}
use webrtc_cdn.Service.{IsStarted}
use webrtc_cdn.Service.Keeps.{Keeps, Yields-Keeps, if-Keeps}

-- A source under the same names, and as open as before.
put_source-IsConsistent :
    (p : ℕ) (v : WrtcSource) (s : State)
    → v.sid ≡ (s.source_at p).sid
    → v.request_id ≡ (s.source_at p).request_id
    → v.connection ≡ (s.source_at p).connection
    → v.closed ≡ (s.source_at p).closed
    → IsConsistent (registry s)
    → IsConsistent (put_source p v (registry s))
put_source-IsConsistent p v s sid request connection closed c =
    IsSame-IsConsistent (registry s) _
      (record {
        streams = refl;
        sid = λ q low. ground (arith, sid);
        request_id = λ q low. ground (arith, request);
        connection = λ q low. ground (arith, connection);
        closed = λ q low. ground (arith, closed);
        slots = λ k. inl refl;
        coherent = c.coherent;
        playing = grown-IsPlayed (registry s) _ refl (λ k low. refl) refl (omega arith) c.playing;
        feeding = c.feeding;
        started = refl;
        grown = omega arith;
      })
      c

module _ (results : PeerResults) (p : ℕ) (s : State) (c : IsConsistent (registry s)) where
  pub source_starts-Keeps : Keeps (source_run results p [] s)
  unfolding source_run send_offer send
  source_starts-Keeps = elim (Option-cases results.new_peer_connection) [
    | inl e ↦ rw e c
    | inr (n, e) ↦
        let ok =
          put_source-IsConsistent p (record (s.source_at p) { peer_connection = some n }) s refl
            refl refl refl c in
        elim (Option-cases
          (incoming_offer results (s.source_at p).has_audio (s.source_at p).has_video)) [
            | inl f ↦ rw (e, f) ok
            | inr (offer, f) ↦ rw (e, f) ok
          ]
  ]

  pub sink_starts-Keeps : Keeps (sink_run_after_tracks_ready results p [] s)
  unfolding sink_run_after_tracks_ready send_offer send
  sink_starts-Keeps =
      let k = s.sink_at p in
      elim (Bool-cases (not k.has_video && not k.has_audio)) [
        | inl idle ↦ rw idle c
        | inr busy ↦ elim (Option-cases results.new_peer_connection) [
          | inl e ↦ rw (busy, e) c
          | inr (n, e) ↦
              let ok : IsConsistent
                  (registry (set_sink p (record k { peer_connection = some n }) s)) =
                subst IsConsistent
                  (sym (registry-set_sink none p (record k { peer_connection = some n }) s refl))
                  c in
              elim (Option-cases (outgoing_offer results k.has_audio k.has_video)) [
                | inl f ↦ rw (busy, e, f) ok
                | inr (offer, f) ↦ rw (busy, e, f) ok
              ]
        ]
      ]

module _ (p : ℕ) (s : State) (c : IsConsistent (registry s)) where
  pub sink_lost-Keeps : Keeps (sink_reconnect p [] s)
  unfolding sink_reconnect
  sink_lost-Keeps =
      let k = s.sink_at p in
      let ok : IsConsistent (registry (set_sink p (record k { peer_connection = none }) s)) =
        subst IsConsistent
          (sym (registry-set_sink none p (record k { peer_connection = none }) s refl)) c in
      if-Keeps (not k.closed) _ _ ok ok

  pub source_lost-Keeps : IsStarted p s → Keeps (source_on_close p [] s)
  source_lost-Keeps began =
      Yields-Keeps _ _ (source_on_close-Yields [] unlocked p s refl refl refl)
        (lose_source-IsConsistent p (registry s) c began)

-- The mutexes held in `onSourceReady` of a source.
source_locks : (p : ℕ) → NoLeaf (node_status ∷ source_status p ∷ [])
source_locks p = NoLeaf-cons node_status _ refl (NoLeaf-cons (source_status p) [] refl unlocked)

pub on_source_ready-Yields :
    (p : ℕ) (s : State)
    → Yields
        (put_source p (record (s.source_at p) { ready = true }) (registry s))
        (on_source_ready p (source_status p ∷ []) s)
unfolding on_source_ready
on_source_ready-Yields p s =
    let v = s.source_at p in
    let locks = node_status ∷ source_status p ∷ [] in
    let ready = put_source p (record v { ready = true }) (registry s) in
    let (t, run, same) = Yields-done _ (
      for_each-Yields (λ k. sink_on_tracks_ready k v.local_track_video v.local_track_audio) locks
        ready (values (sinks_of v.sid s.node)) (set_source p (record v { ready = true }) s)
        (λ k u.
          sink_on_tracks_ready-Yields k locks u v.local_track_video v.local_track_audio
            ((source_locks p).sinks k))
        refl) in
    rw run (
      for_each-Yields (λ k. sender_on_tracks_ready k v.local_track_video v.local_track_audio) locks
        ready (values (senders_of v.sid t.node)) t
        (λ k u.
          sender_on_tracks_ready-Yields k locks u v.local_track_video v.local_track_audio
            ((source_locks p).senders k))
        same)

-- A track leaves the names of its source.
source_track_names :
    (kind : Kind) (made : Option ℕ) (v w : WrtcSource)
    → source_track kind made v ≡ some w
    → (w.sid ≡ v.sid)
      × (w.request_id ≡ v.request_id)
      × (w.connection ≡ v.connection)
      × (w.closed ≡ v.closed)
unfolding source_track
source_track_names video made v w e =
    (ground (arith, e), ground (arith, e), ground (arith, e), ground (arith, e))
source_track_names audio made v w e =
    (ground (arith, e), ground (arith, e), ground (arith, e), ground (arith, e))
source_track_names unknown made v w e = absurd cc

started_sources-track_tasks :
    (p : ℕ) (kind : Kind) (made : Option ℕ) (tasks : List Task)
    → started_sources (track_tasks p kind made tasks) ≡ started_sources tasks
unfolding track_tasks
started_sources-track_tasks p video made tasks = refl
started_sources-track_tasks p audio made tasks = refl
started_sources-track_tasks p unknown made tasks = refl

module _ (p : ℕ) (s : State) (c : IsConsistent (registry s)) where
  pub source_track_found-Keeps :
      (kind : Kind) (made : Option ℕ) → Keeps (source_on_track p kind made [] s)
  unfolding source_on_track store_track
  source_track_found-Keeps kind made =
      elim (Option-cases (source_track kind made (s.source_at p))) [
        | inl e ↦ rw e c
        | inr (w, e) ↦
            let (sid, request, connection, closed) = source_track_names kind made _ w e in
            let t = follow_track p kind made (set_source p w s) in
            let ok : IsConsistent (registry t) =
              rw (started_sources-track_tasks p kind made s.tasks)
                (put_source-IsConsistent p w s sid request connection closed c) in
            elim (Bool-cases (has_all_tracks w)) [
              | inr partly ↦ rw (e, partly) ok
              | inl whole ↦
                  rw (e, whole)
                    (Yields-Keeps _ _ (on_source_ready-Yields p t) (
                      put_source-IsConsistent p (record (t.source_at p) { ready = true }) t refl
                        refl refl refl ok))
            ]
      ]

module _ (p : ℕ) (json : Str) (s : State) (c : IsConsistent (registry s)) where
  pub source_candidate-Keeps : Keeps (source_candidate_found p json [] s)
  unfolding source_candidate_found send_ice_candidate
  source_candidate-Keeps = c

  pub sink_candidate-Keeps : Keeps (sink_candidate_found p json [] s)
  unfolding sink_candidate_found send_ice_candidate
  sink_candidate-Keeps = c
