-- ===== src/Service/Requests.antt =====
-- The messages about requests that are there: ANSWER, CANDIDATE and CLOSE.
use webrtc_cdn.Prelude.{
  ℕ, Option, none, some, Str, [], ◌∷◌, ◌≡◌, refl, sym, subst, inl, inr, str_key, nat_key,
}
use webrtc_cdn.Signaling.{SignalingMessage}
use webrtc_cdn.Machine.State.{State, ConnectionHandler}
use webrtc_cdn.Machine.Op.{Op, handler_status}
use webrtc_cdn.Peer.Api.{add_candidate, set_answer}
use webrtc_cdn.Peer.Source.{source_on_answer, source_on_ice_candidate}
use webrtc_cdn.Peer.Sink.{sink_on_answer, sink_on_ice_candidate}
use webrtc_cdn.Connection.Requests.{
  request_type, call, call_unless_nil, by_type, receive_answer_message, receive_candidate_message,
  receive_close_message,
}
use webrtc_cdn.Connection.Lifecycle.{receive_heartbeat}
use webrtc_cdn.Connection.Coherent.{request_type-cases, source_of_publish, sink_of_play}
use webrtc_cdn.Registry.{registry}
use webrtc_cdn.Registry.Consistent.{IsConsistent}
use webrtc_cdn.Registry.Consistent.Handlers.{touch_handler-IsConsistent}
use webrtc_cdn.Service.Closing.{Ends-Keeps, close_publish-Ends, close_play-Ends}
use webrtc_cdn.Service.Keeps.{Keeps}

pub registry-set_answer :
    (c : Option ℕ) (json : Str) (s : State) → registry (set_answer c json s) ≡ registry s
unfolding set_answer
registry-set_answer none json s = refl
registry-set_answer (some c) json s = refl

pub registry-add_candidate :
    (c : Option ℕ) (json : Str) (s : State) → registry (add_candidate c json s) ≡ registry s
unfolding add_candidate
registry-add_candidate none json s = refl
registry-add_candidate (some c) [] s = refl
registry-add_candidate (some c) (b ∷ json) s = refl

module _ (h : ℕ) (msg : SignalingMessage) (s : State) (c : IsConsistent (registry s)) where
  by_type-Keeps :
      (id : Str) (publish play : ConnectionHandler → Op)
      → (request_type id (s.handler_at h) ≡ 1
          → Keeps (publish (s.handler_at h) (handler_status h ∷ []) s))
      → (request_type id (s.handler_at h) ≡ 2
          → Keeps (play (s.handler_at h) (handler_status h ∷ []) s))
      → Keeps (by_type h id publish play [] s)
  unfolding by_type
  by_type-Keeps id publish play one two =
      elim (request_type-cases id (s.handler_at h) (c.coherent h)) [
        | inl e ↦ rw e c
        | inr (inl e) ↦ rw e (one e)
        | inr (inr e) ↦ rw e (two e)
      ]

  call_unless_nil-Keeps :
      (f : ℕ → Op) (o : Option ℕ)
      → ((p : ℕ) → Keeps (f p (handler_status h ∷ []) s))
      → Keeps (call_unless_nil f o (handler_status h ∷ []) s)
  unfolding call_unless_nil
  call_unless_nil-Keeps f none keeps = c
  call_unless_nil-Keeps f (some p) keeps = keeps p

  pub answer-Keeps : Keeps (receive_answer_message h msg [] s)
  unfolding receive_answer_message source_on_answer sink_on_answer
  answer-Keeps =
      by_type-Keeps _ _ _
        (λ e.
          call_unless_nil-Keeps _ _
            (λ p. rw (registry-set_answer (s.source_at p).peer_connection msg.body s) c))
        (λ e.
          call_unless_nil-Keeps _ _
            (λ p. rw (registry-set_answer (s.sink_at p).peer_connection msg.body s) c))

  pub candidate-Keeps : Keeps (receive_candidate_message h msg [] s)
  unfolding receive_candidate_message source_on_ice_candidate sink_on_ice_candidate call
  candidate-Keeps =
      by_type-Keeps _ _ _
        (λ e.
          let (p, found) = source_of_publish _ (s.handler_at h) (c.coherent h) e in
          rw found (
            subst IsConsistent
              (sym (registry-add_candidate (s.source_at p).peer_connection msg.body s)) c))
        (λ e.
          let (p, found) = sink_of_play _ (s.handler_at h) (c.coherent h) e in
          rw found (
            subst IsConsistent
              (sym (registry-add_candidate (s.sink_at p).peer_connection msg.body s)) c))

  pub close-Keeps : Keeps (receive_close_message h msg [] s)
  unfolding receive_close_message
  close-Keeps =
      by_type-Keeps _ _ _ (λ e. Ends-Keeps h s _ (close_publish-Ends h _ s c e))
        (λ e. Ends-Keeps h s _ (close_play-Ends h _ s c e))

pub heartbeat-Keeps :
    (h now : ℕ) (s : State) → IsConsistent (registry s) → Keeps (receive_heartbeat now h [] s)
unfolding receive_heartbeat request_type
heartbeat-Keeps h now s c =
    let ok = c.coherent h in
    touch_handler-IsConsistent h (record (s.handler_at h) { last_heartbeat = now }) (registry s)
      refl refl (record { known = ok.known; published = ok.published; played = ok.played }) c
