-- ===== src/Registry/Consistent.antt =====
-- When the two records of who publishes agree: the sources of the node by stream, and those of each
-- handler by request.
pub mod Detach
pub mod Attach
pub mod Take
pub mod Publish
pub mod Handlers
pub mod Relays
use webrtc_cdn.Prelude.{
  ℕ, ◌<◌, ◌≤◌, Bool, true, false, ◌||◌, List, [], ◌∷◌, Option, none, some, Str, ◌≡◌, ◌⊎◌, ap, sym,
  subst, ◌∙◌, refl, inl, inr, arith, ◌==◌, lookup, str_key,
}
use webrtc_cdn.Machine.State.{WrtcSource, ConnectionHandler}
use webrtc_cdn.Connection.Coherent.{IsCoherent}
use webrtc_cdn.Registry.{Registry, SinkName}
use webrtc_cdn.Registry.Playing.{IsPlayed, grown-IsPlayed}
use webrtc_cdn.Registry.Feeding.{IsFed, same-IsFed}

abbrev pub includes : ℕ → List ℕ → Bool
includes p [] = false
includes p (q ∷ qs) = (q == p) || includes p qs

-- A source that is that of its stream: it is open, and its handler has it under its request.
pub record IsServed (sid : Str) (p : ℕ) (r : Registry) : Type 0 where
  pub fresh : p < r.next_ref
  pub stream : (r.source_at p).sid ≡ sid
  pub opened : (r.source_at p).closed ≡ false
  pub known : (r.source_at p).connection < r.next_ref
  pub slot :
      lookup (r.source_at p).request_id (r.handler_at (r.source_at p).connection).sources ≡ some p

-- Each source of a stream is served; each source of a handler is its own, under its request, and is
-- that of its stream; a source that was started is closed, or is that of its stream; each sink of a
-- stream is one of its handler; a relay is of a stream with a sink and no source; and the requests of each handler agree.
pub record IsConsistent (r : Registry) : Type 0 where
  pub coherent : (h : ℕ) → IsCoherent (r.handler_at h)
  pub streams : (sid : Str) (p : ℕ) → lookup sid r.node.sources ≡ some p → IsServed sid p r
  pub slots :
      (h : ℕ) (id : Str) (p : ℕ)
      → lookup id (r.handler_at h).sources ≡ some p
      → ((r.source_at p).connection ≡ h)
        × ((r.source_at p).request_id ≡ id)
        × (lookup (r.source_at p).sid r.node.sources ≡ some p)
  pub playing : IsPlayed r
  pub feeding : IsFed r.node
  pub begun :
      (p : ℕ)
      → includes p r.started ≡ true
      → (p < r.next_ref)
        × (((r.source_at p).closed ≡ true) ⊎ (lookup (r.source_at p).sid r.node.sources ≡ some p))

-- The same sources in use and goroutines, as the records see them, the same sources of each handler,
-- and perhaps more memory in use.
pub record IsSame (r t : Registry) : Type 0 where
  pub streams : t.node.sources ≡ r.node.sources
  pub sid : (q : ℕ) → q < r.next_ref → (t.source_at q).sid ≡ (r.source_at q).sid
  pub request_id :
      (q : ℕ) → q < r.next_ref → (t.source_at q).request_id ≡ (r.source_at q).request_id
  pub connection :
      (q : ℕ) → q < r.next_ref → (t.source_at q).connection ≡ (r.source_at q).connection
  pub closed : (q : ℕ) → q < r.next_ref → (t.source_at q).closed ≡ (r.source_at q).closed
  pub slots :
      (h : ℕ)
      → ((t.handler_at h).sources ≡ (r.handler_at h).sources)
        ⊎ ((r.next_ref ≤ h) × ((t.handler_at h).sources ≡ []))
  pub coherent : (h : ℕ) → IsCoherent (t.handler_at h)
  pub playing : IsPlayed t
  pub feeding : IsFed t.node
  pub started : t.started ≡ r.started
  pub grown : r.next_ref ≤ t.next_ref

module _ (r t : Registry) (e : IsSame r t) (c : IsConsistent r) where
  same-IsServed : (sid : Str) (p : ℕ) → IsServed sid p r → IsServed sid p t
  same-IsServed sid p v = record {
    fresh = omega (arith, v.fresh, e.grown);
    stream = e.sid p v.fresh ∙ v.stream;
    opened = e.closed p v.fresh ∙ v.opened;
    known = rw (e.connection p v.fresh) (omega (arith, v.known, e.grown));
    slot =
        rw (e.connection p v.fresh, e.request_id p v.fresh)
          (elim (e.slots (r.source_at p).connection) [
            | inl same ↦ rw same v.slot
            | inr (new, none_left) ↦ absurd (omega (arith, new, v.known))
          ]);
  }

  same-slot :
      (h : ℕ) (id : Str) (p : ℕ)
      → lookup id (t.handler_at h).sources ≡ some p
      → lookup id (r.handler_at h).sources ≡ some p
  unfolding lookup
  same-slot h id p found = elim (e.slots h) [
    | inl same ↦ ap (lookup id) (sym same) ∙ found
    | inr (new, empty) ↦ absurd (ground (arith, ap (lookup id) (sym empty) ∙ found))
  ]

  pub IsSame-IsConsistent : IsConsistent t
  IsSame-IsConsistent = record {
    coherent = e.coherent;
    playing = e.playing;
    feeding = e.feeding;
    streams = λ sid p found.
        same-IsServed sid p (c.streams sid p (ap (lookup sid) (sym e.streams) ∙ found));
    slots = λ h id p found.
        let (at, under, stream) = c.slots h id p (same-slot h id p found) in
        let low = (c.streams _ p stream).fresh in
        (e.connection p low ∙ at, e.request_id p low ∙ under, rw (e.streams, e.sid p low) stream);
    begun = λ p began.
        let (fresh, state) = c.begun p (ap (includes p) (sym e.started) ∙ began) in
        (omega (arith, fresh, e.grown), rw (e.closed p fresh, e.streams, e.sid p fresh) state);
  }

-- The same sources, handlers and goroutines.
pub rewired-IsConsistent :
    (r t : Registry)
    → t.node.sources ≡ r.node.sources
    → t.source_at ≡ r.source_at
    → t.handler_at ≡ r.handler_at
    → t.started ≡ r.started
    → r.next_ref ≤ t.next_ref
    → IsPlayed t
    → IsFed t.node
    → IsConsistent r
    → IsConsistent t
rewired-IsConsistent r t streams sources handlers started grown playing feeding c =
    IsSame-IsConsistent r t
      (record {
        streams = streams;
        sid = λ q low. ap (λ (f : ℕ → WrtcSource). (f q).sid) sources;
        request_id = λ q low. ap (λ (f : ℕ → WrtcSource). (f q).request_id) sources;
        connection = λ q low. ap (λ (f : ℕ → WrtcSource). (f q).connection) sources;
        closed = λ q low. ap (λ (f : ℕ → WrtcSource). (f q).closed) sources;
        slots = λ h. inl (ap (λ (f : ℕ → ConnectionHandler). (f h).sources) handlers);
        coherent = λ h.
            subst (λ (f : ℕ → ConnectionHandler). IsCoherent (f h)) (sym handlers) (c.coherent h);
        playing = playing;
        feeding = feeding;
        started = started;
        grown = grown;
      })
      c

-- And the same sinks.
pub unchanged-IsConsistent :
    (r t : Registry)
    → t.node.sources ≡ r.node.sources
    → t.node.relays ≡ r.node.relays
    → t.node.sinks ≡ r.node.sinks
    → t.source_at ≡ r.source_at
    → t.sink_name ≡ r.sink_name
    → t.handler_at ≡ r.handler_at
    → t.started ≡ r.started
    → r.next_ref ≤ t.next_ref
    → IsConsistent r
    → IsConsistent t
unchanged-IsConsistent r t streams relays groups sources names handlers started grown c =
    rewired-IsConsistent r t streams sources handlers started grown
      (grown-IsPlayed r t groups (λ k low. ap (λ (f : ℕ → SinkName). f k) names) handlers grown
        c.playing)
      (same-IsFed r.node t.node streams relays groups c.feeding) c
