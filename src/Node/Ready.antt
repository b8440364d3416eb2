-- ===== src/Node/Ready.antt =====
-- What `onSourceReady` of node_sources.go does for those who wait for the source.
use webrtc_cdn.Prelude.{
  ℕ, Bool, true, false, ◌||◌, List, [], ◌∷◌, Option, none, some, ◌≡◌, refl, ap, subst, ◌∙◌, ◌==◌,
  arith, inl, inr, Bool-cases,
}
use webrtc_cdn.Machine.State.{
  State, WebrtcCdnNode, Task, run_sink, run_sender, set_source, close_peer,
}
use webrtc_cdn.Machine.Op.{
  Op, Mutex, done, node_status, source_status, sink_status, sender_status, holds, for_each, values,
}
use webrtc_cdn.Peer.Sink.{sink_on_tracks_ready}
use webrtc_cdn.Peer.Sender.{sender_on_tracks_ready}
use webrtc_cdn.Node.Sinks.{sinks_of}
use webrtc_cdn.Node.Sources.{senders_of, on_source_ready}

abbrev pub among : ℕ → List ℕ → Bool
among p [] = false
among p (q ∷ qs) = (q == p) || among p qs

-- The set-up of a peer connection is started, for a sink and for a sender.
abbrev pub starts_sink : ℕ → List Task → Bool
starts_sink p [] = false
starts_sink p (run_sink q ∷ tasks) = (q == p) || starts_sink p tasks
starts_sink p (_ ∷ tasks) = starts_sink p tasks

abbrev pub starts_sender : ℕ → List Task → Bool
starts_sender p [] = false
starts_sender p (run_sender q ∷ tasks) = (q == p) || starts_sender p tasks
starts_sender p (_ ∷ tasks) = starts_sender p tasks

-- The sink, or the sender, has these tracks, and its set-up is started.
pub record SinkHas (video audio : Option ℕ) (k : ℕ) (s : State) : Type 0 where
  pub video_track : (s.sink_at k).local_track_video ≡ video
  pub audio_track : (s.sink_at k).local_track_audio ≡ audio
  pub begins : starts_sink k s.tasks ≡ true

pub record SenderHas (video audio : Option ℕ) (k : ℕ) (s : State) : Type 0 where
  pub video_track : (s.sender_at k).local_track_video ≡ video
  pub audio_track : (s.sender_at k).local_track_audio ≡ audio
  pub begins : starts_sender k s.tasks ≡ true

-- A loop whose rounds keep `Q`, and give each pointer `P`, which it keeps.
abbrev pub Gives : (ℕ → State → Type 0) → (State → Type 0) → Op → List Mutex → ℕ → State → Type 0
Gives P Q op held p s = (t : State) × (op held s ≡ done t) × Q t × P p t × ((k : ℕ) → P k s → P k t)

pub for_each-Gives :
    (f : ℕ → Op) (P : ℕ → State → Type 0) (Q : State → Type 0) (held : List Mutex)
    → ((p : ℕ) (s : State) → Q s → Gives P Q (f p) held p s)
    → (ps : List ℕ) (s : State) → Q s
    → (t : State) × (for_each f ps held s ≡ done t)
      × Q t
      × ((k : ℕ) → among k ps ≡ true → P k t)
      × ((k : ℕ) → P k s → P k t)
for_each-Gives f P Q held round [] s q = (s, refl, q, (λ k e. cc), λ k h. h)
for_each-Gives f P Q held round (p ∷ ps) s q =
    let (t, run, q', mine, kept) = round p s q in
    let (u, runs, q'', all, kept') = for_each-Gives f P Q held round ps t q' in
    (
      u,
      rw run runs,
      q'',
      (λ k e. elim (Bool-cases (p == k)) [
        | inl same ↦ kept' k (subst (λ x. P x t) (ground (arith, same)) mine)
        | inr other ↦ all k (ground (arith, other, e))
      ]),
      λ k h. kept' k (kept k h),
    )

close_peer-SinkHas :
    (video audio : Option ℕ) (c : Option ℕ) (k : ℕ) (s : State)
    → SinkHas video audio k s
    → SinkHas video audio k (close_peer c s)
close_peer-SinkHas video audio none k s h = h
close_peer-SinkHas video audio (some c) k s h = record {
  video_track = h.video_track;
  audio_track = h.audio_track;
  begins = h.begins;
}

close_peer-SenderHas :
    (video audio : Option ℕ) (c : Option ℕ) (k : ℕ) (s : State)
    → SenderHas video audio k s
    → SenderHas video audio k (close_peer c s)
close_peer-SenderHas video audio none k s h = h
close_peer-SenderHas video audio (some c) k s h = record {
  video_track = h.video_track;
  audio_track = h.audio_track;
  begins = h.begins;
}

close_peer_node : (c : Option ℕ) (s : State) → (close_peer c s).node ≡ s.node
close_peer_node none s = refl
close_peer_node (some c) s = refl

module _ (video audio : Option ℕ) (n : WebrtcCdnNode) (held : List Mutex) where
  pub sink_round :
      (p : ℕ) (s : State)
      → holds (sink_status p) held ≡ false
      → s.node ≡ n
      → Gives (SinkHas video audio) (λ t. t.node ≡ n) (sink_on_tracks_ready p video audio) held p s
  unfolding sink_on_tracks_ready
  sink_round p s free e =
      let c = (s.sink_at p).peer_connection in
      rw free (
        _,
        refl,
        close_peer_node c s ∙ e,
        record { video_track = ground arith; audio_track = ground arith; begins = ground arith },
        λ k was.
            let h = close_peer-SinkHas video audio c k s was in
            record {
              video_track = ground (arith, h.video_track);
              audio_track = ground (arith, h.audio_track);
              begins = ground (arith, h.begins);
            },
      )

  sender_round :
      (group : List ℕ) (p : ℕ) (s : State)
      → holds (sender_status p) held ≡ false
      → (s.node ≡ n) × ((k : ℕ) → among k group ≡ true → SinkHas video audio k s)
      → Gives
          (SenderHas video audio)
          (λ t. (t.node ≡ n) × ((k : ℕ) → among k group ≡ true → SinkHas video audio k t))
          (sender_on_tracks_ready p video audio)
          held
          p
          s
  unfolding sender_on_tracks_ready
  sender_round group p s free (e, sinks) =
      let c = (s.sender_at p).peer_connection in
      rw free (
        _,
        refl,
        (
          close_peer_node c s ∙ e,
          λ k there.
              let h = close_peer-SinkHas video audio c k s (sinks k there) in
              record {
                video_track = h.video_track;
                audio_track = h.audio_track;
                begins = h.begins;
              },
        ),
        record { video_track = ground arith; audio_track = ground arith; begins = ground arith },
        λ k was.
            let h = close_peer-SenderHas video audio c k s was in
            record {
              video_track = ground (arith, h.video_track);
              audio_track = ground (arith, h.audio_track);
              begins = ground (arith, h.begins);
            },
      )

-- When a source is ready, the node comes to an end of `onSourceReady`, and every sink that waits for its
-- stream, and every sender of its stream, has the two tracks of the source, and its set-up is started.
pub on_source_ready_reaches_all :
    (p : ℕ) (s : State)
    → let v = s.source_at p in
      (t : State) × (on_source_ready p (source_status p ∷ []) s ≡ done t)
      × ((k : ℕ)
          → among k (values (sinks_of v.sid s.node)) ≡ true
          → SinkHas v.local_track_video v.local_track_audio k t)
      × ((k : ℕ)
          → among k (values (senders_of v.sid s.node)) ≡ true
          → SenderHas v.local_track_video v.local_track_audio k t)
unfolding on_source_ready
on_source_ready_reaches_all p s =
    let v = s.source_at p in
    let video = v.local_track_video in
    let audio = v.local_track_audio in
    let locks = node_status ∷ source_status p ∷ [] in
    let waiting = values (sinks_of v.sid s.node) in
    let (t, run, node, sinks, kept) =
      for_each-Gives (λ k. sink_on_tracks_ready k video audio) (SinkHas video audio)
        (λ (u : State). u.node ≡ s.node) locks
        (λ k u e. sink_round video audio s.node locks k u refl e) waiting
        (set_source p (record v { ready = true }) s) refl in
    let (w, run', (node', sinks'), senders, kept') =
      for_each-Gives (λ k. sender_on_tracks_ready k video audio) (SenderHas video audio)
        (λ (u : State).
          (u.node ≡ s.node) × ((k : ℕ) → among k waiting ≡ true → SinkHas video audio k u))
        locks (λ k u e. sender_round video audio s.node locks waiting k u refl e)
        (values (senders_of v.sid t.node)) t (node, sinks) in
    (
      w,
      rw run run',
      sinks',
      λ k there.
          senders k
            (ap (λ (m : WebrtcCdnNode). among k (values (senders_of v.sid m))) node ∙ there),
    )
