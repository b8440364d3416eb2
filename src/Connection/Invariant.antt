-- ===== src/Connection/Invariant.antt =====
-- The handlers of the messages of a client, in connection_handler.go, and the maps of its handler.
use webrtc_cdn.Prelude.{
  ℕ, [], ◌∷◌, Option, none, some, Str, codes, ◌≡◌, ◌≢◌, inl, inr, lookup, str_key,
}
use webrtc_cdn.Signaling.{SignalingMessage}
use webrtc_cdn.Auth.{crash, check_authentication}
use webrtc_cdn.Machine.State.{State, ConnectionHandler, update_self}
use webrtc_cdn.Machine.Op.{Outcome, Op, handler_status, done, panicked, blocked}
use webrtc_cdn.Peer.Api.{add_candidate, set_answer}
use webrtc_cdn.Peer.Source.{source_on_answer, source_on_ice_candidate}
use webrtc_cdn.Peer.Sink.{sink_on_answer, sink_on_ice_candidate}
use webrtc_cdn.Connection.Requests.{
  param, request_type, call, call_unless_nil, by_type, new_source, receive_publish_message,
  receive_play_message, receive_answer_message, receive_candidate_message, receive_close_message,
}
use webrtc_cdn.Connection.Lifecycle.{Surroundings, receive_heartbeat}
use webrtc_cdn.Connection.Coherent.{
  IsCoherent, note_source-IsCoherent, note_sink-IsCoherent, source_of_publish, sink_of_play,
  request_type-cases,
}
use webrtc_cdn.Connection.Publish.{FromOther, receive_publish_message-IsPublished}
use webrtc_cdn.Connection.Play.{receive_play_message-IsPlaying}
use webrtc_cdn.Connection.Refuse.{receive_publish_message-Refuses, receive_play_message-Refuses}
use webrtc_cdn.Connection.Close.{receive_close_message-IsWithout}

-- The run ends, and the requests of the handler agree.
abbrev pub StaysCoherent : ℕ → Outcome → Type 0
StaysCoherent h (done s) = IsCoherent (s.handler_at h)
StaysCoherent h (panicked s) = ⊥
StaysCoherent h (blocked m held s) = ⊥

ended-StaysCoherent :
    (h : ℕ) (o : Outcome) (t : State) → o ≡ done t → IsCoherent (t.handler_at h) → StaysCoherent h o
ended-StaysCoherent h o t e ok = rw e ok

module _ (e : Surroundings) (h : ℕ) (msg : SignalingMessage) (s : State)
    (ok : IsCoherent (s.handler_at h)) where
  pub publish-StaysCoherent :
      check_authentication e.jwt e.jwt_secret
          (param (codes "auth") msg)
          (codes "stream_publish")
          (param (codes "stream-id") msg)
        ≢ crash
      → FromOther h (lookup (param (codes "stream-id") msg) s.node.sources) s
      → StaysCoherent h (receive_publish_message e.unicode e.jwt e.jwt_secret h msg [] s)
  unfolding new_source
  publish-StaysCoherent sound other =
      elim (receive_publish_message-Refuses e.jwt e.jwt_secret h msg s e.unicode sound) [
        | inl (valid, room) ↦
            let (t, run, p) =
              receive_publish_message-IsPublished e.unicode e.jwt e.jwt_secret h msg s valid room
                other in
            ended-StaysCoherent h _ t run
              (rw p.handler (note_source-IsCoherent _ (s.handler_at h) s.next_ref ok room.unused))
        | inr (code, text, t, run, out, tasks, handlers, node) ↦
            ended-StaysCoherent h _ t run (rw handlers ok)
      ]

  pub play-StaysCoherent :
      check_authentication e.jwt e.jwt_secret
          (param (codes "auth") msg)
          (codes "stream_play")
          (param (codes "stream-id") msg)
        ≢ crash
      → StaysCoherent h (receive_play_message e.jwt e.jwt_secret h msg [] s)
  play-StaysCoherent sound = elim (receive_play_message-Refuses e.jwt e.jwt_secret h msg s sound) [
    | inl (valid, room) ↦
        let (t, run, p) = receive_play_message-IsPlaying e.jwt e.jwt_secret h msg s valid room in
        ended-StaysCoherent h _ t run
          (rw p.handler (note_sink-IsCoherent _ (s.handler_at h) s.next_ref ok room.unused))
    | inr (code, text, t, run, out, tasks, handlers, node) ↦
        ended-StaysCoherent h _ t run (rw handlers ok)
  ]

  pub close-StaysCoherent : StaysCoherent h (receive_close_message h msg [] s)
  close-StaysCoherent =
      let (t, run, (still, kept)) = receive_close_message-IsWithout h msg s ok in
      ended-StaysCoherent h _ t run still

-- The calls that only reach a peer connection.
module _ (h : ℕ) (s : State) (ok : IsCoherent (s.handler_at h)) (json : Str) where
  set_answer-IsCoherent : (c : Option ℕ) → IsCoherent ((set_answer c json s).handler_at h)
  unfolding set_answer
  set_answer-IsCoherent none = ok
  set_answer-IsCoherent (some c) = ok

  call_unless_nil-StaysCoherent :
      (f : ℕ → Op) (o : Option ℕ)
      → ((p : ℕ) → StaysCoherent h (f p (handler_status h ∷ []) s))
      → StaysCoherent h (call_unless_nil f o (handler_status h ∷ []) s)
  unfolding call_unless_nil
  call_unless_nil-StaysCoherent f none keeps = ok
  call_unless_nil-StaysCoherent f (some p) keeps = keeps p

add_candidate-IsCoherent :
    (h : ℕ) (s : State) (c : Option ℕ) (json : Str)
    → IsCoherent (s.handler_at h)
    → IsCoherent ((add_candidate c json s).handler_at h)
unfolding add_candidate
add_candidate-IsCoherent h s none json ok = ok
add_candidate-IsCoherent h s (some c) [] ok = ok
add_candidate-IsCoherent h s (some c) (b ∷ json) ok = ok

module _ (h : ℕ) (msg : SignalingMessage) (s : State) (ok : IsCoherent (s.handler_at h)) where
  by_type-StaysCoherent :
      (id : Str) (publish play : ConnectionHandler → Op)
      → (request_type id (s.handler_at h) ≡ 1
          → StaysCoherent h (publish (s.handler_at h) (handler_status h ∷ []) s))
      → (request_type id (s.handler_at h) ≡ 2
          → StaysCoherent h (play (s.handler_at h) (handler_status h ∷ []) s))
      → StaysCoherent h (by_type h id publish play [] s)
  unfolding by_type
  by_type-StaysCoherent id publish play one two = elim (request_type-cases id (s.handler_at h) ok) [
    | inl e ↦ rw e ok
    | inr (inl e) ↦ rw e (one e)
    | inr (inr e) ↦ rw e (two e)
  ]

  pub answer-StaysCoherent : StaysCoherent h (receive_answer_message h msg [] s)
  unfolding receive_answer_message source_on_answer sink_on_answer
  answer-StaysCoherent =
      by_type-StaysCoherent _ _ _
        (λ e.
          call_unless_nil-StaysCoherent h s ok msg.body _ _
            (λ p. set_answer-IsCoherent h s ok msg.body (s.source_at p).peer_connection))
        (λ e.
          call_unless_nil-StaysCoherent h s ok msg.body _ _
            (λ p. set_answer-IsCoherent h s ok msg.body (s.sink_at p).peer_connection))

  -- A CANDIDATE finds the source or the sink of its request: a handler whose requests agree does not
  -- call a method of a nil pointer.
  pub candidate-StaysCoherent : StaysCoherent h (receive_candidate_message h msg [] s)
  unfolding receive_candidate_message source_on_ice_candidate sink_on_ice_candidate call
  candidate-StaysCoherent =
      by_type-StaysCoherent _ _ _
        (λ e.
          let (p, found) = source_of_publish _ (s.handler_at h) ok e in
          rw found (add_candidate-IsCoherent h s (s.source_at p).peer_connection msg.body ok))
        (λ e.
          let (p, found) = sink_of_play _ (s.handler_at h) ok e in
          rw found (add_candidate-IsCoherent h s (s.sink_at p).peer_connection msg.body ok))

  pub heartbeat-StaysCoherent : (now : ℕ) → StaysCoherent h (receive_heartbeat now h [] s)
  unfolding receive_heartbeat request_type
  heartbeat-StaysCoherent now =
      rw (update_self s.handler_at h (record (s.handler_at h) { last_heartbeat = now }))
        (record { known = ok.known; published = ok.published; played = ok.played })
