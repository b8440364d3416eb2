-- ===== src/Registry/Consistent/Take.antt =====
-- The operations that take a source from its stream, on a registry in which the records agree.
use webrtc_cdn.Prelude.{
  ℕ, true, false, none, some, Str, ◌≡◌, refl, ap, sym, ◌==◌, arith, lookup, delete, str_key, inl,
  inr, Bool-cases, lookup-delete,
}
use webrtc_cdn.Machine.State.{WrtcSource, update}
use webrtc_cdn.Messages.Client.{forget_source}
use webrtc_cdn.Connection.Coherent.{IsCoherent, without_publish, without_publish-IsCoherent}
use webrtc_cdn.Connection.Requests.{request_type}
use webrtc_cdn.Registry.{Registry, SinkName}
use webrtc_cdn.Registry.Playing.{IsPlayed, SameSinks-IsPlayed}
use webrtc_cdn.Registry.Feeding.{same-IsFed, without_source-IsFed}
use webrtc_cdn.Registry.Change.{close_source, lose_source, without_source}
use webrtc_cdn.Registry.Consistent.{IsConsistent, includes}
use webrtc_cdn.Registry.Consistent.Detach.{IsDetached, IsDetached-IsConsistent}

-- A PUBLISH whose source a coherent handler has.
publish-request_type :
    (h p : ℕ) (id : Str) (r : Registry)
    → IsConsistent r
    → lookup id (r.handler_at h).sources ≡ some p
    → request_type id (r.handler_at h) ≡ 1
publish-request_type h p id r c slot = ground (arith, (c.coherent h).published id, slot)

-- A source is marked closed, deleted from the sources of the node, and forgotten by its handler.
pub record IsTaken (p : ℕ) (w : WrtcSource) (r t : Registry) : Type 0 where
  pub sid : w.sid ≡ (r.source_at p).sid
  pub request_id : w.request_id ≡ (r.source_at p).request_id
  pub connection : w.connection ≡ (r.source_at p).connection
  pub closed : w.closed ≡ true
  pub sources : t.node.sources ≡ delete (r.source_at p).sid r.node.sources
  pub source_at : t.source_at ≡ update r.source_at p w
  pub relays : t.node.relays ≡ r.node.relays
  pub groups : t.node.sinks ≡ r.node.sinks
  pub names : t.sink_name ≡ r.sink_name
  pub handler_at :
      t.handler_at
      ≡ update r.handler_at
          (r.source_at p).connection
          (without_publish (r.source_at p).request_id (r.handler_at (r.source_at p).connection))
  pub next_ref : t.next_ref ≡ r.next_ref
  pub started : t.started ≡ r.started

module _ (p : ℕ) (w : WrtcSource) (r t : Registry) (c : IsConsistent r) (d : IsTaken p w r t)
    (here : lookup (r.source_at p).sid r.node.sources ≡ some p) where
  taken-IsCoherent : (h : ℕ) → IsCoherent (t.handler_at h)
  taken-IsCoherent h =
      let v = c.streams _ p here in
      let k = (r.source_at p).connection in
      let ok =
        without_publish-IsCoherent (r.source_at p).request_id (r.handler_at k) (c.coherent k)
          (publish-request_type k p _ r c v.slot) in
      rw d.handler_at
        (elim (Bool-cases (k == h)) [ inl same ↦ rw same ok | inr other ↦ rw other (c.coherent h) ])

  taken-IsPlayed : IsPlayed t
  taken-IsPlayed =
      SameSinks-IsPlayed r t
        (record {
          groups = d.groups;
          names = λ k low. ap (λ (f : ℕ → SinkName). f k) d.names;
          slots = λ h. inl (rw d.handler_at (ground arith));
          grown = ground (arith, d.next_ref);
        })
        c.playing

  pub IsTaken-IsDetached : IsDetached p r t
  IsTaken-IsDetached = record {
    streams = λ sid. rw d.sources (lookup-delete (r.source_at p).sid sid r.node.sources);
    sid = λ q. rw d.source_at (ground (arith, d.sid));
    request_id = λ q. rw d.source_at (ground (arith, d.request_id));
    connection = λ q. rw d.source_at (ground (arith, d.connection));
    closed = λ q. rw d.source_at (ground (arith, d.closed));
    slots = λ h id. rw d.handler_at (
        ground (
          arith,
          lookup-delete (r.source_at p).request_id id
              (r.handler_at (r.source_at p).connection).sources,
        ));
    coherent = taken-IsCoherent;
    playing = taken-IsPlayed;
    feeding =
        same-IsFed _ t.node d.sources d.relays d.groups
          (without_source-IsFed (r.source_at p).sid r.node c.feeding);
    next_ref = d.next_ref;
    started = d.started;
  }

  pub IsTaken-IsConsistent : IsConsistent t
  IsTaken-IsConsistent = IsDetached-IsConsistent p r t c IsTaken-IsDetached here

module _ (p : ℕ) (r : Registry) (c : IsConsistent r) where
  -- A source that was started, and whose peer connection ends.
  pub lose_source-IsConsistent : includes p r.started ≡ true → IsConsistent (lose_source p r)
  unfolding lose_source forget_source
  lose_source-IsConsistent began = elim ((c.begun p began).1) [
    | inl shut ↦ rw shut c
    | inr here ↦
        let v = c.streams _ p here in
        rw v.opened (
          IsTaken-IsConsistent p (record (r.source_at p) { closed = true }) r _ c
            (record {
              sid = refl;
              request_id = refl;
              connection = refl;
              closed = refl;
              sources = refl;
              source_at = refl;
              relays = refl;
              groups = refl;
              names = refl;
              handler_at = refl;
              next_ref = refl;
              started = refl;
            })
            here)
  ]

  -- The source of a stream is closed, its client is told, and it is deleted.
  pub without_source-IsConsistent :
      (sid : Str)
      → lookup sid r.node.sources ≡ some p
      → IsConsistent (without_source sid (close_source p true false r))
  unfolding close_source forget_source
  without_source-IsConsistent sid here =
      let v = c.streams sid p here in
      let own : lookup (r.source_at p).sid r.node.sources ≡ some p = rw v.stream here in
      rw v.opened (
        IsTaken-IsConsistent p (record (r.source_at p) { closed = true; peer_connection = none }) r
          _ c
          (record {
            sid = refl;
            request_id = refl;
            connection = refl;
            closed = refl;
            sources = ap (λ x. delete x r.node.sources) (sym v.stream);
            source_at = refl;
            relays = refl;
            groups = refl;
            names = refl;
            handler_at = refl;
            next_ref = refl;
            started = refl;
          })
          own)

-- The handler of a client without a PUBLISH.
abbrev pub end_publish : ℕ → Str → Registry → Registry
end_publish h id r = record r {
  handler_at = update r.handler_at h (without_publish id (r.handler_at h));
}

module _ (p h : ℕ) (id : Str) (r : Registry) (c : IsConsistent r) where
  -- The source of a request is closed by its client.
  pub end_publish-IsConsistent :
      lookup id (r.handler_at h).sources ≡ some p
      → IsConsistent (end_publish h id (close_source p false true r))
  unfolding close_source
  end_publish-IsConsistent slot =
      let (at, under, here) = c.slots h id p slot in
      let v = c.streams _ p here in
      rw v.opened (
        IsTaken-IsConsistent p (record (r.source_at p) { closed = true; peer_connection = none }) r
          _ c
          (record {
            sid = refl;
            request_id = refl;
            connection = refl;
            closed = refl;
            sources = refl;
            source_at = refl;
            relays = refl;
            groups = refl;
            names = refl;
            handler_at = rw (at, under) refl;
            next_ref = refl;
            started = refl;
          })
          here)
