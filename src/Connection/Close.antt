-- ===== src/Connection/Close.antt =====
-- The end of requests: CLOSE, and `onClose` of a handler.
use webrtc_cdn.Prelude.{
  ℕ, true, false, [], ◌∷◌, Option, none, some, Str, codes, Map, ◌≡◌, refl, ap, ◌∙◌, arith, inl, inr,
  Bool-cases, lookup, delete, nat_key, str_key, str_eq, str_eq_iff, if◌then◌else◌,
}
use webrtc_cdn.Signaling.{SignalingMessage}
use webrtc_cdn.Machine.State.{State, ConnectionHandler, update_self}
use webrtc_cdn.Machine.Op.{Outcome, handler_status, done}
use webrtc_cdn.Peer.Api.{is_some}
use webrtc_cdn.Connection.Requests.{
  param, request_type, call, end_source, end_sink, close_publish, close_play, by_type,
  receive_close_message,
}
use webrtc_cdn.Connection.Coherent.{
  IsCoherent, without_publish, without_play, without_publish-IsCoherent, without_play-IsCoherent,
  request_type-without_publish, request_type-without_play, source_of_publish, sink_of_play,
  request_type-cases,
}
use webrtc_cdn.Registry.{SinkName, Registry, registry, Yields-done}
use webrtc_cdn.Registry.Change.{close_source, keep_sinks, leave_group, without_sink}
use webrtc_cdn.Registry.Streams.{unlocked, NoLeaf, NoLeaf-cons, source_close-Yields_deregister}
use webrtc_cdn.Registry.Sinks.{sink_close-Yields}

-- The run ends, and the handler is this one.
abbrev pub Leaves : ℕ → ConnectionHandler → Outcome → Type 0
Leaves h c o = (t : State) × (o ≡ done t) × (t.handler_at h ≡ c)

pub alone : (h : ℕ) → NoLeaf (handler_status h ∷ [])
alone h = NoLeaf-cons (handler_status h) [] refl unlocked

close_source_handlers :
    (p : ℕ) (r : Registry) → (close_source p false true r).handler_at ≡ r.handler_at
unfolding close_source
close_source_handlers p r = elim (Bool-cases (r.source_at p).closed) [
  | inl e ↦ rw e refl
  | inr e ↦ rw e refl
]

keep_sinks_handlers :
    (sid : Str) (g : Map ℕ ℕ) (r : Registry) → (keep_sinks sid g r).handler_at ≡ r.handler_at
keep_sinks_handlers sid [] r = refl
keep_sinks_handlers sid (e ∷ g) r = refl

leave_group_handlers :
    (k : SinkName) (o : Option (Map ℕ ℕ)) (r : Registry)
    → (leave_group k o r).handler_at ≡ r.handler_at
leave_group_handlers k none r = refl
leave_group_handlers k (some g) r = elim (Bool-cases (is_some (lookup k.sink_id g))) [
  | inl e ↦ rw e (keep_sinks_handlers k.sid (delete k.sink_id g) r)
  | inr e ↦ rw e refl
]

pub without_sink_handlers : (p : ℕ) (r : Registry) → (without_sink p r).handler_at ≡ r.handler_at
unfolding without_sink
without_sink_handlers p r = leave_group_handlers (r.sink_name p) _ r

module _ (h : ℕ) (id : Str) (s : State) (ok : IsCoherent (s.handler_at h)) where
  pub close_publish-Leaves :
      request_type id (s.handler_at h) ≡ 1
      → Leaves h
          (without_publish id (s.handler_at h))
          (close_publish h id (s.handler_at h) (handler_status h ∷ []) s)
  unfolding close_publish call end_source
  close_publish-Leaves kind =
      let (p, found) = source_of_publish id (s.handler_at h) ok kind in
      let (t, run, same) =
        Yields-done _
          (source_close-Yields_deregister (handler_status h ∷ []) (alone h) p s refl refl) in
      let kept : t.handler_at h ≡ s.handler_at h =
        ap (λ (r : Registry). r.handler_at h) same
        ∙ ap (λ (f : ℕ → ConnectionHandler). f h) (close_source_handlers p (registry s)) in
      (
        end_source h id t,
        rw (found, call, run) refl,
        update_self t.handler_at h _ ∙ ap (without_publish id) kept,
      )

  pub close_play-Leaves :
      request_type id (s.handler_at h) ≡ 2
      → Leaves h
          (without_play id (s.handler_at h))
          (close_play h id (s.handler_at h) (handler_status h ∷ []) s)
  unfolding close_play call end_sink
  close_play-Leaves kind =
      let (p, found) = sink_of_play id (s.handler_at h) ok kind in
      let (t, run, same) =
        Yields-done _ (sink_close-Yields (handler_status h ∷ []) (alone h) p s refl) in
      let kept : t.handler_at h ≡ s.handler_at h =
        ap (λ (r : Registry). r.handler_at h) same
        ∙ ap (λ (f : ℕ → ConnectionHandler). f h) (without_sink_handlers p (registry s)) in
      (
        end_sink h id t,
        rw (found, call, run) refl,
        update_self t.handler_at h _ ∙ ap (without_play id) kept,
      )

-- The handler without a request, whatever its type.
abbrev pub IsWithout : Str → ConnectionHandler → ConnectionHandler → Type 0
IsWithout id c d =
    IsCoherent d × ((j : Str) → request_type j d ≡ (if str_eq id j then 0 else request_type j c))

module _ (h : ℕ) (msg : SignalingMessage) (s : State) (ok : IsCoherent (s.handler_at h)) where
  -- A CLOSE message, to a handler whose requests agree with its sources and sinks, ends with no panic
  -- and no wait: its request is gone, the other requests of the handler are as they were, and they
  -- still agree.
  pub receive_close_message-IsWithout :
      (t : State) × (receive_close_message h msg [] s ≡ done t)
      × IsWithout (param (codes "request-id") msg) (s.handler_at h) (t.handler_at h)
  unfolding receive_close_message by_type
  receive_close_message-IsWithout =
      let id = param (codes "request-id") msg in
      let c = s.handler_at h in
      elim (request_type-cases id c ok) [
        | inl e ↦ (s, rw e refl, (ok, λ j. ground (arith, e, str_eq_iff id j)))
        | inr (inl e) ↦
            let (t, run, left) = close_publish-Leaves h id s ok e in
            (
              t,
              rw (e, run) refl,
              rw left (without_publish-IsCoherent id c ok e, request_type-without_publish id c),
            )
        | inr (inr e) ↦
            let (t, run, left) = close_play-Leaves h id s ok e in
            (
              t,
              rw (e, run) refl,
              rw left (without_play-IsCoherent id c ok e, request_type-without_play id c),
            )
      ]
