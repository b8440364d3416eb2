-- ===== src/Registry/Consistent/Attach.antt =====
-- A source that takes the place of its stream and of its request.
use webrtc_cdn.Prelude.{
  ℕ, suc, ◌<◌, ◌∷◌, subst, ◌&&◌, none, some, Str, ◌≡◌, refl, ap, sym, ◌∙◌, ◌==◌, arith, lookup,
  str_key, str_eq, str_eq_iff, if◌then◌else◌, inl, inr, ◌⊎◌, Bool-cases, true, false,
}
use webrtc_cdn.Machine.State.{WrtcSource}
use webrtc_cdn.Connection.Coherent.{IsCoherent}
use webrtc_cdn.Registry.{Registry}
use webrtc_cdn.Registry.Playing.{IsPlayed}
use webrtc_cdn.Registry.Feeding.{IsFed}
use webrtc_cdn.Registry.Consistent.{IsServed, IsConsistent, includes}

-- The registry with one source more, at the next place of the memory, which is started.
pub record IsAttached (h : ℕ) (v : WrtcSource) (r t : Registry) : Type 0 where
  pub streams :
      (sid : Str)
      → lookup sid t.node.sources
        ≡ (if str_eq v.sid sid then some r.next_ref else lookup sid r.node.sources)
  pub made : t.source_at r.next_ref ≡ v
  pub kept : (q : ℕ) → q < r.next_ref → t.source_at q ≡ r.source_at q
  pub slots :
      (k : ℕ) (id : Str)
      → lookup id (t.handler_at k).sources ≡ (
          if (h == k) && str_eq v.request_id id
          then some r.next_ref
          else lookup id (r.handler_at k).sources)
  pub coherent : (k : ℕ) → IsCoherent (t.handler_at k)
  pub playing : IsPlayed t
  pub feeding : IsFed t.node
  pub next_ref : t.next_ref ≡ suc r.next_ref
  pub started : t.started ≡ r.next_ref ∷ r.started

module _ (h : ℕ) (v : WrtcSource) (r t : Registry) (c : IsConsistent r) (d : IsAttached h v r t)
    (mine : v.connection ≡ h) (opened : v.closed ≡ false) (known : h < r.next_ref)
    (free : lookup v.sid r.node.sources ≡ none)
    (unused : lookup v.request_id (r.handler_at h).sources ≡ none) where
  new-IsServed : IsServed v.sid r.next_ref t
  new-IsServed = record {
    fresh = rw d.next_ref (omega arith);
    stream = rw d.made refl;
    opened = rw d.made opened;
    known = rw (d.made, d.next_ref, mine) (omega (arith, known));
    slot = rw (d.made, mine, d.slots) (ground (arith, str_eq_iff v.request_id v.request_id));
  }

  old-IsServed : (sid : Str) (q : ℕ) → lookup sid r.node.sources ≡ some q → IsServed sid q t
  old-IsServed sid q was =
      let w = c.streams sid q was in
      let same = d.kept q w.fresh in
      record {
        fresh = rw d.next_ref (omega (arith, w.fresh));
        stream = rw same w.stream;
        opened = rw same w.opened;
        known = rw (same, d.next_ref) (omega (arith, w.known));
        slot =
            rw (same, d.slots)
              (ground (arith, str_eq_iff v.request_id (r.source_at q).request_id, w.slot, unused));
      }

  attached-streams : (sid : Str) (q : ℕ) → lookup sid t.node.sources ≡ some q → IsServed sid q t
  attached-streams sid q found = elim (Bool-cases (str_eq v.sid sid)) [
    | inl same ↦
        let this : r.next_ref ≡ q = ground (arith, d.streams sid, found, same) in
        subst (λ x. IsServed x q t) ((str_eq_iff v.sid sid).0 same)
          (subst (λ x. IsServed v.sid x t) this new-IsServed)
    | inr other ↦ old-IsServed sid q (ground (arith, d.streams sid, other, found))
  ]

  attached-slots :
      (k : ℕ) (id : Str) (q : ℕ)
      → lookup id (t.handler_at k).sources ≡ some q
      → ((t.source_at q).connection ≡ k)
        × ((t.source_at q).request_id ≡ id)
        × (lookup (t.source_at q).sid t.node.sources ≡ some q)
  attached-slots k id q found = elim (Bool-cases ((h == k) && str_eq v.request_id id)) [
    | inl same ↦
        let this : r.next_ref ≡ q = ground (arith, d.slots k id, found, same) in
        subst
          (λ x.
            ((t.source_at x).connection ≡ k)
            × ((t.source_at x).request_id ≡ id)
            × (lookup (t.source_at x).sid t.node.sources ≡ some x))
          this
          (rw d.made (
            ground (arith, mine, same),
            ground (arith, str_eq_iff v.request_id id, same),
            ground (arith, d.streams v.sid, str_eq_iff v.sid v.sid),
          ))
    | inr other ↦
        let was : lookup id (r.handler_at k).sources ≡ some q =
          ground (arith, d.slots k id, found, other) in
        let (at, under, stream) = c.slots k id q was in
        let w = c.streams _ q stream in
        rw (d.kept q w.fresh) (
          at,
          under,
          ground (
            arith,
            d.streams (r.source_at q).sid,
            stream,
            str_eq_iff v.sid (r.source_at q).sid,
            free,
          ),
        )
  ]

  attached-begun :
      (q : ℕ)
      → includes q t.started ≡ true
      → (q < t.next_ref)
        × (((t.source_at q).closed ≡ true) ⊎ (lookup (t.source_at q).sid t.node.sources ≡ some q))
  attached-begun q began = elim (Bool-cases (r.next_ref == q)) [
    | inl same ↦
        let this : r.next_ref ≡ q = ground (arith, same) in
        subst
          (λ x.
            (x < t.next_ref)
            × (((t.source_at x).closed ≡ true)
                ⊎ (lookup (t.source_at x).sid t.node.sources ≡ some x)))
          this
          (
            new-IsServed.fresh,
            inr (rw d.made (ground (arith, d.streams v.sid, str_eq_iff v.sid v.sid))),
          )
    | inr other ↦
        let was : includes q r.started ≡ true =
          ground (arith, other, ap (includes q) (sym d.started) ∙ began) in
        let (fresh, state) = c.begun q was in
        (rw d.next_ref (omega (arith, fresh)), rw (d.kept q fresh) (still q state))
  ]
    where
      still :
          (q : ℕ)
          → ((r.source_at q).closed ≡ true) ⊎ (lookup (r.source_at q).sid r.node.sources ≡ some q)
          → ((r.source_at q).closed ≡ true) ⊎ (lookup (r.source_at q).sid t.node.sources ≡ some q)
      still q (inl shut) = inl shut
      still q (inr stream) = inr (
          ground (
            arith,
            d.streams (r.source_at q).sid,
            stream,
            str_eq_iff v.sid (r.source_at q).sid,
            free,
          ))

  pub IsAttached-IsConsistent : IsConsistent t
  IsAttached-IsConsistent = record {
    coherent = d.coherent;
    playing = d.playing;
    feeding = d.feeding;
    streams = attached-streams;
    slots = attached-slots;
    begun = attached-begun;
  }
