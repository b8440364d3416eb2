-- ===== src/Node/Tracks.antt =====
-- The two tracks of a source: the handler of `OnTrack` of wrtc_source.go, and `onSourceReady`.
use webrtc_cdn.Prelude.{ℕ, true, false, Option, subst, [], ◌∷◌, none, some, ◌≡◌, refl, ◌∙◌}
use webrtc_cdn.Machine.State.{
  State, run_pipe, request_key_frames, WrtcSource, set_source, update_self,
}
use webrtc_cdn.Machine.Op.{done, source_status, values}
use webrtc_cdn.Node.Sinks.{sinks_of}
use webrtc_cdn.Node.Sources.{
  Kind, video, audio, senders_of, source_track, track_tasks, follow_track, has_all_tracks,
  store_track, source_on_track, on_source_ready,
}
use webrtc_cdn.Node.Ready.{among, SinkHas, SenderHas, on_source_ready_reaches_all}

-- What the handler does with a track that it stores, as others are missing or all are there.
module _ (p : ℕ) (kind : Kind) (made : Option ℕ) (v w : WrtcSource) (s : State)
    (found : s.source_at p ≡ v) (stored : source_track kind made v ≡ some w) where
  source_on_track_waits :
      has_all_tracks w ≡ false
      → source_on_track p kind made [] s ≡ done (follow_track p kind made (set_source p w s))
  unfolding source_on_track store_track
  source_on_track_waits partly = rw (found, stored, partly) refl

  source_on_track_ready :
      has_all_tracks w ≡ true
      → source_on_track p kind made [] s
        ≡ on_source_ready p (source_status p ∷ []) (follow_track p kind made (set_source p w s))
  unfolding source_on_track store_track
  source_on_track_ready whole = rw (found, stored, whole) refl

-- Of a source that has audio and video, and none of its tracks yet, the video track, when it comes, starts
-- its pipe and the requests for key frames, and nothing else; the audio track after it makes every
-- sink that waits for the stream, and every sender of the stream, have both tracks, and starts
-- their set-up.
pub both_tracks_reach_all :
    (p v a : ℕ) (s : State)
    → (s.source_at p).has_audio ≡ true
    → (s.source_at p).has_video ≡ true
    → (s.source_at p).local_track_audio ≡ none
    → (s.source_at p).local_track_video ≡ none
    → (t u : State) × (source_on_track p video (some v) [] s ≡ done t)
      × (t.tasks ≡ request_key_frames p ∷ run_pipe (some v) ∷ s.tasks)
      × (source_on_track p audio (some a) [] t ≡ done u)
      × ((k : ℕ)
          → among k (values (sinks_of (s.source_at p).sid s.node)) ≡ true
          → SinkHas (some v) (some a) k u)
      × ((k : ℕ)
          → among k (values (senders_of (s.source_at p).sid s.node)) ≡ true
          → SenderHas (some v) (some a) k u)
unfolding source_track track_tasks
both_tracks_reach_all p v a s has_audio has_video no_audio no_video =
    let first = record (s.source_at p) { local_track_video = some v } in
    let t = follow_track p video (some v) (set_source p first s) in
    let second = record first { local_track_audio = some a } in
    let w = follow_track p audio (some a) (set_source p second t) in
    let whole = update_self t.source_at p second in
    let (u, run, sinks, senders) = on_source_ready_reaches_all p w in
    (
      t,
      u,
      source_on_track_waits p video (some v) (s.source_at p) first s refl (rw no_video refl)
          (rw (has_audio, no_audio) refl),
      refl,
      source_on_track_ready p audio (some a) first second t (update_self s.source_at p first)
            (rw no_audio refl) (rw (has_audio, has_video) refl)
          ∙ run,
      subst
          (λ (x : WrtcSource).
            (k : ℕ)
            → among k (values (sinks_of x.sid s.node)) ≡ true
            → SinkHas x.local_track_video x.local_track_audio k u)
          whole sinks,
      subst
          (λ (x : WrtcSource).
            (k : ℕ)
            → among k (values (senders_of x.sid s.node)) ≡ true
            → SenderHas x.local_track_video x.local_track_audio k u)
          whole senders,
    )
