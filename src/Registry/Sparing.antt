-- ===== src/Registry/Sparing.antt =====
-- What the end of a client's requests leaves alone.
use webrtc_cdn.Prelude.{
  ℕ, true, false, ◌&&◌, ◌==◌, some, Str, ◌≡◌, ◌≢◌, refl, ap, sym, ◌∙◌, arith, lookup, lookup-delete,
  str_key, nat_key, str_eq, str_eq_iff,
}
use webrtc_cdn.Machine.State.{ConnectionHandler, WrtcSource}
use webrtc_cdn.Node.Sinks.{sinks_of}
use webrtc_cdn.Connection.Coherent.{without_play}
use webrtc_cdn.Registry.{Registry}
use webrtc_cdn.Registry.Change.{close_source, without_sink}
use webrtc_cdn.Registry.Playing.Leave.{without_sink-elsewhere, without_sink-listed}
use webrtc_cdn.Registry.Consistent.{IsConsistent}
use webrtc_cdn.Registry.Consistent.Handlers.{put_handler}
use webrtc_cdn.Registry.Consistent.Take.{end_publish}

-- The source of a stream, if there is one, is not of this handler.
abbrev pub IsOthers : ℕ → Str → Registry → Type 0
IsOthers h sid r = (p : ℕ) → lookup sid r.node.sources ≡ some p → (r.source_at p).connection ≢ h

-- No sink of this handler has this stream and this ID.
abbrev pub IsUnnamed : ℕ → Str → ℕ → Registry → Type 0
IsUnnamed h sid id r =
    (j : Str) (p : ℕ)
    → lookup j (r.handler_at h).sinks ≡ some p
    → (str_eq (r.sink_name p).sid sid && ((r.sink_name p).sink_id == id)) ≡ false

-- All is as it was, but for this handler, its sources and its sinks.
pub record Spares (h : ℕ) (r t : Registry) : Type 0 where
  pub handlers : (k : ℕ) → k ≢ h → t.handler_at k ≡ r.handler_at k
  pub sources : (q : ℕ) → (r.source_at q).connection ≢ h → t.source_at q ≡ r.source_at q
  pub streams :
      (sid : Str) → IsOthers h sid r → lookup sid t.node.sources ≡ lookup sid r.node.sources
  pub names : t.sink_name ≡ r.sink_name
  pub groups :
      (sid : Str) (id : ℕ)
      → IsUnnamed h sid id r
      → lookup id (sinks_of sid t.node) ≡ lookup id (sinks_of sid r.node)
  pub own_sinks :
      (j : Str) (p : ℕ)
      → lookup j (t.handler_at h).sinks ≡ some p
      → lookup j (r.handler_at h).sinks ≡ some p

pub Spares-refl : (h : ℕ) (r : Registry) → Spares h r r
Spares-refl h r = record {
  handlers = λ k other. refl;
  sources = λ q other. refl;
  streams = λ sid others. refl;
  names = refl;
  groups = λ sid id unnamed. refl;
  own_sinks = λ j p here. here;
}

module _ (h : ℕ) (r t u : Registry) (a : Spares h r t) (b : Spares h t u) where
  still_other : (q : ℕ) → (r.source_at q).connection ≢ h → (t.source_at q).connection ≢ h
  still_other q other = rw (a.sources q other) other

  still-IsOthers : (sid : Str) → IsOthers h sid r → IsOthers h sid t
  still-IsOthers sid others p here =
      let was = others p (sym (a.streams sid others) ∙ here) in still_other p was

  still-IsUnnamed : (sid : Str) (id : ℕ) → IsUnnamed h sid id r → IsUnnamed h sid id t
  still-IsUnnamed sid id unnamed j p here = rw a.names (unnamed j p (a.own_sinks j p here))

  pub Spares-trans : Spares h r u
  Spares-trans = record {
    handlers = λ k other. b.handlers k other ∙ a.handlers k other;
    sources = λ q other. b.sources q (still_other q other) ∙ a.sources q other;
    streams = λ sid others. b.streams sid (still-IsOthers sid others) ∙ a.streams sid others;
    names = b.names ∙ a.names;
    groups = λ sid id unnamed.
        b.groups sid id (still-IsUnnamed sid id unnamed) ∙ a.groups sid id unnamed;
    own_sinks = λ j p here. a.own_sinks j p (b.own_sinks j p here);
  }

module _ (p h : ℕ) (id : Str) (r : Registry) (c : IsConsistent r) where
  pub end_publish-Spares :
      lookup id (r.handler_at h).sources ≡ some p
      → Spares h r (end_publish h id (close_source p false true r))
  unfolding close_source sinks_of
  end_publish-Spares slot =
      let (at, under, here) = c.slots h id p slot in
      let v = c.streams _ p here in
      rw v.opened (record {
        handlers = λ k other. ground (arith, other);
        sources = λ q other. ground (arith, other, at);
        streams = λ sid others. ground (
          arith,
          lookup-delete (r.source_at p).sid sid r.node.sources,
          str_eq_iff (r.source_at p).sid sid,
          here,
          at,
          others p,
        );
        names = refl;
        groups = λ sid i unnamed. refl;
        own_sinks = λ j q found. ground (arith, found);
      })

  pub end_play-Spares :
      lookup id (r.handler_at h).sinks ≡ some p
      → Spares h r
          (put_handler h (without_play id ((without_sink p r).handler_at h)) (without_sink p r))
  end_play-Spares slot =
      let e = without_sink-elsewhere p r in
      record {
        handlers = λ k other. rw e.handler_at (ground (arith, other));
        sources = λ q other. ap (λ (f : ℕ → WrtcSource). f q) e.source_at;
        streams = λ sid others. ap (lookup sid) e.streams;
        names = e.names;
        groups = λ sid i unnamed. ground (arith, without_sink-listed p r sid i, unnamed id p slot);
        own_sinks = λ j q found. ground (
          arith,
          lookup-delete id j (r.handler_at h).sinks,
          ap (λ (f : ℕ → ConnectionHandler). (f h).sinks) e.handler_at,
          found,
        );
      }
