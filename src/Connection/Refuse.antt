-- ===== src/Connection/Refuse.antt =====
-- PUBLISH and PLAY messages that their handler refuses.
use webrtc_cdn.Prelude.{
  ℕ, false, List, [], ◌∷◌, Str, codes, ◌≡◌, ◌≢◌, ◌⊎◌, refl, ap, arith, ltb, ◌==◌, inl, inr,
  Bool-cases,
}
use webrtc_cdn.Strings.{Unicode}
use webrtc_cdn.Signaling.{SignalingMessage}
use webrtc_cdn.Auth.{Jwt, Verdict, allowed, refused, crash, check_authentication}
use webrtc_cdn.Machine.State.{State, to_client, emit}
use webrtc_cdn.Machine.Op.{Op, Outcome, Mutex, handler_status, holds, done}
use webrtc_cdn.Messages.Client.{error_message, send_error_message}
use webrtc_cdn.Node.Sinks.{get_sink_id}
use webrtc_cdn.Connection.Requests.{
  param, request_type, is_bad_id, validated, within_limits, new_source, start_source, start_sink,
  alloc_source, alloc_sink, receive_publish_message, receive_play_message,
}
use webrtc_cdn.Connection.Accept.{IsValid, HasRoom, validated_lem}

-- The run sends the client one ERROR for this request, and does nothing else.
abbrev pub SendsError : ℕ → Str → State → Outcome → Type 0
SendsError h id s o =
    (code text : Str) × (o ≡ done (emit (to_client h (error_message code text id)) s))

Verdict-cases : (v : Verdict) → v ≢ crash → (v ≡ allowed) ⊎ (v ≡ refused)
Verdict-cases allowed h = inl refl
Verdict-cases refused h = inr refl
Verdict-cases crash h = absurd (h refl)

module _ (jwt : Jwt) (secret subject : Str) (h : ℕ) (msg : SignalingMessage) (body : Op)
    (held : List Mutex) (s : State) where
  pub validated-IsValid :
      check_authentication jwt secret
          (param (codes "auth") msg)
          subject
          (param (codes "stream-id") msg)
        ≢ crash
      → IsValid jwt secret subject msg
        ⊎ SendsError h
            (param (codes "request-id") msg)
            s
            (validated jwt secret subject h msg body held s)
  unfolding validated send_error_message
  validated-IsValid sound = elim (Bool-cases (is_bad_id (param (codes "request-id") msg))) [
    | inl a ↦ rw a (inr (_, _, refl))
    | inr a ↦ elim (Bool-cases (is_bad_id (param (codes "stream-id") msg))) [
      | inl b ↦ rw (a, b) (inr (_, _, refl))
      | inr b ↦ elim (Verdict-cases _ sound) [
        | inl c ↦ inl (record { good_request = a; good_stream = b; authentic = c })
        | inr c ↦ rw (a, b, c) (inr (_, _, refl))
      ]
    ]
  ]

module _ (h : ℕ) (body : Op) (held : List Mutex) (s : State) where
  pub within_limits-HasRoom :
      (id : Str)
      → holds (handler_status h) held ≡ false
      → HasRoom h id s ⊎ SendsError h id s (within_limits h id body held s)
  unfolding within_limits send_error_message
  within_limits-HasRoom id free = elim (Bool-cases (request_type id (s.handler_at h) == 0)) [
    | inr a ↦ rw (free, a) (inr (_, _, refl))
    | inl a ↦ elim (Bool-cases (ltb s.node.request_limit (s.handler_at h).request_count)) [
      | inl b ↦ rw (free, a, b) (inr (_, _, refl))
      | inr b ↦ inl (record { unused = ground arith; below_limit = b })
    ]
  ]

-- The run ends with one ERROR to the client, for this request: no goroutine is started, and no
-- handler, and nothing of the node but its counter of sink IDs, changes.
abbrev pub Refuses : ℕ → Str → State → Outcome → Type 0
Refuses h id s o =
    (code text : Str) × (t : State) × (o ≡ done t)
    × (t.out ≡ to_client h (error_message code text id) ∷ s.out)
    × (t.tasks ≡ s.tasks)
    × (t.handler_at ≡ s.handler_at)
    × (t.node ≡ record (s.node) { sink_count = t.node.sink_count })

SendsError-Refuses :
    (h : ℕ) (id : Str) (s made : State) (o : Outcome)
    → made.out ≡ s.out
    → made.tasks ≡ s.tasks
    → made.handler_at ≡ s.handler_at
    → made.node ≡ record (s.node) { sink_count = made.node.sink_count }
    → SendsError h id made o
    → Refuses h id s o
SendsError-Refuses h id s made o out tasks handlers node (code, text, run) = (
  code,
  text,
  emit (to_client h (error_message code text id)) made,
  run,
  ap (◌∷◌ (to_client h (error_message code text id))) out,
  tasks,
  handlers,
  node,
)

module _ (jwt : Jwt) (secret : Str) (h : ℕ) (msg : SignalingMessage) (s : State) where
  -- A PUBLISH whose authentication does not crash passes every check of its handler, or ends with one
  -- ERROR to the client, for its request, with no goroutine started, and no handler and nothing of
  -- the node but its counter of sink IDs changed.
  pub receive_publish_message-Refuses :
      (u : Unicode)
      → check_authentication jwt secret
          (param (codes "auth") msg)
          (codes "stream_publish")
          (param (codes "stream-id") msg)
        ≢ crash
      → (IsValid jwt secret (codes "stream_publish") msg
          × HasRoom h (param (codes "request-id") msg) s)
        ⊎ Refuses h
            (param (codes "request-id") msg)
            s
            (receive_publish_message u jwt secret h msg [] s)
  unfolding receive_publish_message alloc_source
  receive_publish_message-Refuses u sound =
      let id = param (codes "request-id") msg in
      let made = alloc_source (new_source u h msg) s in
      elim (validated-IsValid jwt secret _ h msg _ [] s sound) [
        | inr e ↦ inr (SendsError-Refuses h id s s _ refl refl refl refl e)
        | inl v ↦ elim (within_limits-HasRoom h (start_source h id s.next_ref) [] made id refl) [
          | inl room ↦ inl (v, record { unused = room.unused; below_limit = room.below_limit })
          | inr e ↦
              rw (validated_lem jwt secret _ h msg _ v)
                (inr (SendsError-Refuses h id s made _ refl refl refl refl e))
        ]
      ]

  -- A PLAY whose authentication does not crash passes every check of its handler, or ends with one
  -- ERROR to the client, for its request, with no goroutine started, and no handler and nothing of
  -- the node but its counter of sink IDs changed.
  pub receive_play_message-Refuses :
      check_authentication jwt secret
          (param (codes "auth") msg)
          (codes "stream_play")
          (param (codes "stream-id") msg)
        ≢ crash
      → (IsValid jwt secret (codes "stream_play") msg
          × HasRoom h (param (codes "request-id") msg) s)
        ⊎ Refuses h (param (codes "request-id") msg) s (receive_play_message jwt secret h msg [] s)
  unfolding receive_play_message alloc_sink get_sink_id
  receive_play_message-Refuses sound =
      let id = param (codes "request-id") msg in
      let made = alloc_sink h msg s in
      elim (validated-IsValid jwt secret _ h msg _ [] s sound) [
        | inr e ↦ inr (SendsError-Refuses h id s s _ refl refl refl refl e)
        | inl v ↦ elim (within_limits-HasRoom h (start_sink h id s.next_ref) [] made id refl) [
          | inl room ↦ inl (v, record { unused = room.unused; below_limit = room.below_limit })
          | inr e ↦
              rw (validated_lem jwt secret _ h msg _ v)
                (inr (SendsError-Refuses h id s made _ refl refl refl refl e))
        ]
      ]
