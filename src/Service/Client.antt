-- ===== src/Service/Client.antt =====
-- The messages of clients.
use webrtc_cdn.Prelude.{
  ℕ, ◌<◌, ap, lookup-insert_self, some, Str, codes, [], ◌≡◌, ◌≢◌, refl, sym, subst, arith, inl, inr,
  Option-cases, lookup, str_key,
}
use webrtc_cdn.Signaling.{SignalingMessage}
use webrtc_cdn.Auth.{crash, check_authentication}
use webrtc_cdn.Machine.State.{State, WrtcSource, set_handler, update_self, update_ne}
use webrtc_cdn.Connection.Requests.{
  param, request_type, new_source, alloc_source, start_source, receive_publish_message, alloc_sink,
  new_sink, start_sink, receive_play_message, note_sink,
}
use webrtc_cdn.Connection.Lifecycle.{Surroundings}
use webrtc_cdn.Connection.Accept.{IsValid, HasRoom, validated_lem}
use webrtc_cdn.Connection.Refuse.{validated-IsValid, within_limits-HasRoom}
use webrtc_cdn.Connection.Publish.{FromOther, receive_publish_message-Yields}
use webrtc_cdn.Connection.Play.{receive_play_message-Yields}
use webrtc_cdn.Connection.Coherent.{note_sink-IsCoherent}
use webrtc_cdn.Registry.{Registry, name, registry}
use webrtc_cdn.Registry.Change.{with_sink}
use webrtc_cdn.Node.Sinks.{get_sink_id, inc64}
use webrtc_cdn.Registry.Playing.{grown-IsPlayed}
use webrtc_cdn.Registry.Playing.Join.{noted-IsPlayed, with_sink-IsPlayed}
use webrtc_cdn.Registry.Feeding.{same-IsFed}
use webrtc_cdn.Registry.Feeding.Sinks.{with_sink-IsFed}
use webrtc_cdn.Registry.Consistent.{IsConsistent, IsSame-IsConsistent, rewired-IsConsistent}
use webrtc_cdn.Registry.Consistent.Handlers.{put_handler, put_handler-IsConsistent}
use webrtc_cdn.Registry.Consistent.Publish.{publish_new-IsConsistent, publish_old-IsConsistent}
use webrtc_cdn.Service.Keeps.{Keeps, Yields-Keeps, done-Keeps}

-- What an accepted PLAY leaves before its sink is registered.
abbrev noted_sink : ℕ → SignalingMessage → State → State
noted_sink h msg s =
    set_handler h (note_sink (param (codes "request-id") msg) s.next_ref (s.handler_at h))
      (alloc_sink h msg s)

module _ (e : Surroundings) (h : ℕ) (msg : SignalingMessage) (s : State)
    (c : IsConsistent (registry s)) where
  alloc_source-IsConsistent : (v : WrtcSource) → IsConsistent (registry (alloc_source v s))
  unfolding alloc_source
  alloc_source-IsConsistent v =
      IsSame-IsConsistent (registry s) _
        (record {
          streams = refl;
          sid = λ q low. ground arith;
          request_id = λ q low. ground arith;
          connection = λ q low. ground arith;
          closed = λ q low. ground arith;
          slots = λ k. inl refl;
          coherent = c.coherent;
          playing = grown-IsPlayed (registry s) _ refl (λ k low. refl) refl (omega arith) c.playing;
          feeding = c.feeding;
          started = refl;
          grown = omega arith;
        })
        c

  published-IsConsistent :
      h < s.next_ref
      → ((old : ℕ)
          → lookup (param (codes "stream-id") msg) s.node.sources ≡ some old
          → (s.source_at old).connection ≢ h)
      → IsValid e.jwt e.jwt_secret (codes "stream_publish") msg
      → HasRoom h (param (codes "request-id") msg) s
      → Keeps (receive_publish_message e.unicode e.jwt e.jwt_secret h msg [] s)
  unfolding new_source
  published-IsConsistent known other valid room =
      elim (Option-cases (lookup (param (codes "stream-id") msg) s.node.sources)) [
        | inl e' ↦
            Yields-Keeps _ _
              (receive_publish_message-Yields e.unicode e.jwt e.jwt_secret h msg s valid room
                (subst (λ o. FromOther h o s) (sym e') tt))
              (publish_new-IsConsistent h (new_source e.unicode h msg) (registry s) c refl refl
                known room.unused e')
        | inr (old, e') ↦
            Yields-Keeps _ _
              (receive_publish_message-Yields e.unicode e.jwt e.jwt_secret h msg s valid room
                (subst (λ o. FromOther h o s) (sym e') ((c.streams _ old e').fresh, other old e')))
              (publish_old-IsConsistent h (new_source e.unicode h msg) (registry s) c refl refl
                known room.unused old e' (other old e'))
      ]

  pub publish-Keeps :
      h < s.next_ref
      → ((old : ℕ)
          → lookup (param (codes "stream-id") msg) s.node.sources ≡ some old
          → (s.source_at old).connection ≢ h)
      → check_authentication e.jwt e.jwt_secret
          (param (codes "auth") msg)
          (codes "stream_publish")
          (param (codes "stream-id") msg)
        ≢ crash
      → Keeps (receive_publish_message e.unicode e.jwt e.jwt_secret h msg [] s)
  unfolding receive_publish_message alloc_source
  publish-Keeps known other sound =
      let id = param (codes "request-id") msg in
      let v = new_source e.unicode h msg in
      elim (validated-IsValid e.jwt e.jwt_secret _ h msg _ [] s sound) [
        | inr (code, text, run) ↦ done-Keeps _ _ run c
        | inl valid ↦
            elim (within_limits-HasRoom h (start_source h id s.next_ref) [] (alloc_source v s) id
              refl) [
                | inl room ↦
                    published-IsConsistent known other valid
                      (record { unused = room.unused; below_limit = room.below_limit })
                | inr (code, text, run) ↦
                    rw (validated_lem e.jwt e.jwt_secret _ h msg _ valid)
                      (done-Keeps _ _ run (alloc_source-IsConsistent v))
              ]
      ]

  -- The sink of a PLAY, and its request.
  alloc_sink-IsConsistent : IsConsistent (registry (alloc_sink h msg s))
  unfolding alloc_sink get_sink_id
  alloc_sink-IsConsistent =
      rewired-IsConsistent (registry s) _ refl refl refl refl (omega arith)
        (grown-IsPlayed (registry s) _ refl
          (λ k low.
            let other : s.next_ref ≢ k = omega (arith, low) in
            ap name (update_ne s.sink_at s.next_ref k _ other))
          refl (omega arith) c.playing)
        (same-IsFed _ _ refl refl refl c.feeding) c

  noted-IsConsistent :
      (id : Str) (p : ℕ) (r : Registry)
      → r.handler_at ≡ s.handler_at
      → request_type id (s.handler_at h) ≡ 0
      → IsConsistent r
      → IsConsistent (put_handler h (note_sink id p (r.handler_at h)) r)
  unfolding note_sink request_type
  noted-IsConsistent id p r same unused d =
      let same_type : request_type id (r.handler_at h) ≡ 0 = rw same unused in
      put_handler-IsConsistent h _ r refl
        (note_sink-IsCoherent id (r.handler_at h) p (d.coherent h) same_type)
        (noted-IsPlayed h id p r (ground (arith, (d.coherent h).played id, same_type)) d.playing) d

  -- The new sink joins its stream.
  joined-IsConsistent :
      h < s.next_ref
      → IsConsistent (registry (noted_sink h msg s))
      → IsConsistent (with_sink s.next_ref (registry (noted_sink h msg s)))
  unfolding alloc_sink get_sink_id new_sink note_sink with_sink
  joined-IsConsistent known d =
      let id = param (codes "request-id") msg in
      let p = s.next_ref in
      let made = update_self s.sink_at p (new_sink (inc64 s.node.sink_count) h msg) in
      let slot = lookup-insert_self id p (s.handler_at h).sinks in
      let own = update_self s.handler_at h (note_sink id p (s.handler_at h)) in
      rewired-IsConsistent _ _ refl refl refl refl (omega arith)
        (with_sink-IsPlayed p (registry (noted_sink h msg s)) (omega arith)
          (rw made (omega (arith, known))) (rw (made, own) slot) d.playing)
        (with_sink-IsFed s.next_ref (registry (noted_sink h msg s)) d.feeding) d

  pub play-Keeps :
      h < s.next_ref
      → check_authentication e.jwt e.jwt_secret
          (param (codes "auth") msg)
          (codes "stream_play")
          (param (codes "stream-id") msg)
        ≢ crash
      → Keeps (receive_play_message e.jwt e.jwt_secret h msg [] s)
  unfolding receive_play_message alloc_sink get_sink_id with_sink
  play-Keeps known sound =
      let id = param (codes "request-id") msg in
      elim (validated-IsValid e.jwt e.jwt_secret _ h msg _ [] s sound) [
        | inr (code, text, run) ↦ done-Keeps _ _ run c
        | inl valid ↦
            elim (within_limits-HasRoom h (start_sink h id s.next_ref) [] (alloc_sink h msg s) id
              refl) [
                | inl room ↦
                    Yields-Keeps _ _
                      (receive_play_message-Yields e.jwt e.jwt_secret h msg s valid
                        (record { unused = room.unused; below_limit = room.below_limit }))
                      (joined-IsConsistent known (
                        noted-IsConsistent id s.next_ref (registry (alloc_sink h msg s)) refl
                          room.unused alloc_sink-IsConsistent))
                | inr (code, text, run) ↦
                    rw (validated_lem e.jwt e.jwt_secret _ h msg _ valid)
                      (done-Keeps _ _ run alloc_sink-IsConsistent)
              ]
      ]
