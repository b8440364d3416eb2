-- ===== src/Connection/Shutdown.antt =====
-- `onClose` of connection_handler.go.
use webrtc_cdn.Prelude.{
  ℕ, Bool, false, ◌||◌, List, [], ◌∷◌, none, some, Str, Map, ◌≡◌, ◌≢◌, refl, arith, inl, inr,
  Bool-cases, lookup, str_key, str_eq, str_eq_iff, if◌then◌else◌,
}
use webrtc_cdn.Machine.State.{State, ConnectionHandler}
use webrtc_cdn.Machine.Op.{handler_status, done}
use webrtc_cdn.Connection.Requests.{request_type}
use webrtc_cdn.Connection.Lifecycle.{close_requests, keys, on_close}
use webrtc_cdn.Connection.Coherent.{
  Known, IsCoherent, without_publish-IsCoherent, without_play-IsCoherent,
  request_type-without_publish, request_type-without_play, request_type-cases,
}
use webrtc_cdn.Connection.Close.{IsWithout, close_publish-Leaves, close_play-Leaves}

abbrev elem : Str → List Str → Bool
elem j [] = false
elem j (id ∷ ids) = str_eq id j || elem j ids

-- Each of these requests is there, and is named once.
abbrev Pending : ConnectionHandler → List Str → Type 0
Pending c [] = Unit {0}
Pending c (id ∷ ids) = (request_type id c ≢ 0) × (elem id ids ≡ false) × Pending c ids

Pending-IsWithout :
    (id : Str) (c d : ConnectionHandler) (ids : List Str)
    → IsWithout id c d
    → elem id ids ≡ false
    → Pending c ids
    → Pending d ids
Pending-IsWithout id c d [] w new p = tt
Pending-IsWithout id c d (j ∷ ids) (ok, kept) new (there, once, p) = (
  (λ e. there (ground (arith, kept j, str_eq_iff id j, str_eq_iff j id, e))),
  once,
  Pending-IsWithout id c d ids (ok, kept) (ground arith) p,
)

-- No request of these is left in a handler, and the others are as they were.
abbrev IsWithoutAll : List Str → ConnectionHandler → ConnectionHandler → Type 0
IsWithoutAll ids c d = (j : Str) → request_type j d ≡ (if elem j ids then 0 else request_type j c)

IsWithoutAll-cons :
    (id : Str) (ids : List Str) (c d f : ConnectionHandler)
    → IsWithout id c d
    → IsWithoutAll ids d f
    → IsWithoutAll (id ∷ ids) c f
IsWithoutAll-cons id ids c d f (ok, one) all j = ground (arith, one j, all j)

module _ (h : ℕ) where
  close_requests-IsWithoutAll :
      (ids : List Str) (s : State)
      → IsCoherent (s.handler_at h)
      → Pending (s.handler_at h) ids
      → (t : State) × (close_requests h ids (handler_status h ∷ []) s ≡ done t)
        × IsWithoutAll ids (s.handler_at h) (t.handler_at h)
  unfolding close_requests
  close_requests-IsWithoutAll [] s ok p = (s, refl, λ j. refl)
  close_requests-IsWithoutAll (id ∷ ids) s ok (there, once, p) =
      let c = s.handler_at h in
      elim (request_type-cases id c ok) [
        | inl e ↦ absurd (there e)
        | inr (inl e) ↦
            let (t, run, left) = close_publish-Leaves h id s ok e in
            let w : IsWithout id c (t.handler_at h) =
              rw left (without_publish-IsCoherent id c ok e, request_type-without_publish id c) in
            let (v, runs, all) =
              close_requests-IsWithoutAll ids t w.0 (Pending-IsWithout id c _ ids w once p) in
            (
              v,
              rw (e, run) runs,
              IsWithoutAll-cons id ids c (t.handler_at h) (v.handler_at h) w all,
            )
        | inr (inr e) ↦
            let (t, run, left) = close_play-Leaves h id s ok e in
            let w : IsWithout id c (t.handler_at h) =
              rw left (without_play-IsCoherent id c ok e, request_type-without_play id c) in
            let (v, runs, all) =
              close_requests-IsWithoutAll ids t w.0 (Pending-IsWithout id c _ ids w once p) in
            (
              v,
              rw (e, run) runs,
              IsWithoutAll-cons id ids c (t.handler_at h) (v.handler_at h) w all,
            )
      ]

elem-keys : (id : Str) (m : Map Str ℕ) → lookup id m ≡ none → elem id (keys m) ≡ false
unfolding lookup
elem-keys id [] e = refl
elem-keys id ((j, t) ∷ m) e = elim (Bool-cases (str_eq j id)) [
  | inl same ↦ absurd (ground arith)
  | inr differ ↦ ground (arith, elem-keys id m (ground arith))
]

absent-elem : (id : Str) (m : Map Str ℕ) → elem id (keys m) ≡ false → lookup id m ≡ none
unfolding lookup
absent-elem id [] e = refl
absent-elem id ((j, t) ∷ m) e = ground (arith, absent-elem id m (ground arith))

Known-Pending :
    (c : ConnectionHandler) (m : Map Str ℕ)
    → Known m
    → ((j : Str) (t : ℕ) → lookup j m ≡ some t → request_type j c ≡ t)
    → Pending c (keys m)
unfolding lookup
Known-Pending c [] known kept = tt
Known-Pending c ((id, t) ∷ m) (new, kind, known) kept = (
  (λ e. ground (arith, kept id t (ground (arith, str_eq_iff id id)), kind, e)),
  elem-keys id m new,
  Known-Pending c m known (λ j u found. kept j u (ground (arith, str_eq_iff id j, new, found))),
)

module _ (h : ℕ) (s : State) (ok : IsCoherent (s.handler_at h)) where
  -- `onClose`, of a handler whose requests agree with its sources and sinks, ends with no panic and no
  -- wait, and leaves no request of the handler.
  pub on_close-ends :
      (t : State) × (on_close h [] s ≡ done t) × ((id : Str) → request_type id (t.handler_at h) ≡ 0)
  unfolding on_close request_type
  on_close-ends =
      let c = s.handler_at h in
      let pending = Known-Pending c c.requests ok.known (λ j u found. ground (arith, found)) in
      let (t, run, all) = close_requests-IsWithoutAll h (keys c.requests) s ok pending in
      (
        t,
        run,
        λ id. elim (Bool-cases (elem id (keys c.requests))) [
          | inl e ↦ ground (arith, all id, e)
          | inr e ↦ ground (arith, all id, e, absent-elem id c.requests e)
        ],
      )
