-- ===== src/Registry/Consistent/Detach.antt =====
-- A source that is taken from its stream and from its handler.
use webrtc_cdn.Prelude.{
  ℕ, ◌||◌, ◌&&◌, none, some, Str, ◌≡◌, ◌==◌, arith, lookup, str_key, str_eq, str_eq_iff,
  if◌then◌else◌, ◌≢◌, inl, inr, ◌⊎◌, Bool-cases, true, false, ap, sym, ◌∙◌,
}
use webrtc_cdn.Connection.Coherent.{IsCoherent}
use webrtc_cdn.Registry.{Registry}
use webrtc_cdn.Registry.Playing.{IsPlayed}
use webrtc_cdn.Registry.Feeding.{IsFed}
use webrtc_cdn.Registry.Consistent.{IsServed, IsConsistent, includes}

-- The registry without the source at `p`, which is closed.
pub record IsDetached (p : ℕ) (r t : Registry) : Type 0 where
  pub streams :
      (sid : Str)
      → lookup sid t.node.sources
        ≡ (if str_eq (r.source_at p).sid sid then none else lookup sid r.node.sources)
  pub sid : (q : ℕ) → (t.source_at q).sid ≡ (r.source_at q).sid
  pub request_id : (q : ℕ) → (t.source_at q).request_id ≡ (r.source_at q).request_id
  pub connection : (q : ℕ) → (t.source_at q).connection ≡ (r.source_at q).connection
  pub closed : (q : ℕ) → (t.source_at q).closed ≡ ((p == q) || (r.source_at q).closed)
  pub slots :
      (h : ℕ) (id : Str)
      → lookup id (t.handler_at h).sources ≡ (
          if ((r.source_at p).connection == h) && str_eq (r.source_at p).request_id id
          then none
          else lookup id (r.handler_at h).sources)
  pub coherent : (h : ℕ) → IsCoherent (t.handler_at h)
  pub playing : IsPlayed t
  pub feeding : IsFed t.node
  pub next_ref : t.next_ref ≡ r.next_ref
  pub started : t.started ≡ r.started

module _ (p : ℕ) (r t : Registry) (c : IsConsistent r) (d : IsDetached p r t)
    (here : lookup (r.source_at p).sid r.node.sources ≡ some p) where
  still-IsServed :
      (sid : Str) (q : ℕ)
      → str_eq (r.source_at p).sid sid ≡ false
      → lookup sid r.node.sources ≡ some q
      → IsServed sid q t
  still-IsServed sid q other was =
      let v = c.streams sid q was in
      let own = c.streams (r.source_at p).sid p here in
      let apart : p ≢ q = λ e. ground (arith, v.stream, str_eq_iff (r.source_at p).sid sid, e) in
      record {
        fresh = rw d.next_ref v.fresh;
        stream = d.sid q ∙ v.stream;
        opened = ground (arith, d.closed q, v.opened, apart);
        known = rw (d.next_ref, d.connection) v.known;
        slot =
            rw (d.connection, d.request_id, d.slots)
              (ground (
                arith,
                str_eq_iff (r.source_at p).request_id (r.source_at q).request_id,
                v.slot,
                own.slot,
                apart,
              ));
      }

  detached-streams : (sid : Str) (q : ℕ) → lookup sid t.node.sources ≡ some q → IsServed sid q t
  detached-streams sid q found = elim (Bool-cases (str_eq (r.source_at p).sid sid)) [
    | inl same ↦ absurd (ground (arith, d.streams sid, same, found))
    | inr other ↦ still-IsServed sid q other (ground (arith, d.streams sid, other, found))
  ]

  detached-slots :
      (h : ℕ) (id : Str) (q : ℕ)
      → lookup id (t.handler_at h).sources ≡ some q
      → ((t.source_at q).connection ≡ h)
        × ((t.source_at q).request_id ≡ id)
        × (lookup (t.source_at q).sid t.node.sources ≡ some q)
  detached-slots h id q found =
      let was : lookup id (r.handler_at h).sources ≡ some q = ground (arith, d.slots h id, found) in
      let (at, under, stream) = c.slots h id q was in
      (
        d.connection q ∙ at,
        d.request_id q ∙ under,
        ground (
          arith,
          d.slots h id,
          d.streams (t.source_at q).sid,
          d.sid q,
          str_eq_iff (r.source_at p).sid (r.source_at q).sid,
          str_eq_iff (r.source_at p).request_id id,
          found,
          here,
          at,
          under,
          stream,
        ),
      )

  detached-begun :
      (q : ℕ)
      → ((r.source_at q).closed ≡ true) ⊎ (lookup (r.source_at q).sid r.node.sources ≡ some q)
      → ((t.source_at q).closed ≡ true) ⊎ (lookup (t.source_at q).sid t.node.sources ≡ some q)
  detached-begun q (inl shut) = inl (ground (arith, d.closed q, shut))
  detached-begun q (inr stream) =
      elim (Bool-cases (str_eq (r.source_at p).sid (r.source_at q).sid)) [
        | inl same ↦ inl (
            ground (
              arith,
              d.closed q,
              str_eq_iff (r.source_at p).sid (r.source_at q).sid,
              here,
              stream,
              same,
            ))
        | inr other ↦ inr (rw d.sid (ground (arith, d.streams (r.source_at q).sid, other, stream)))
      ]

  pub IsDetached-IsConsistent : IsConsistent t
  IsDetached-IsConsistent = record {
    coherent = d.coherent;
    playing = d.playing;
    feeding = d.feeding;
    streams = detached-streams;
    slots = detached-slots;
    begun = λ q began.
        let (fresh, state) = c.begun q (ap (includes q) (sym d.started) ∙ began) in
        (rw d.next_ref fresh, detached-begun q state);
  }
