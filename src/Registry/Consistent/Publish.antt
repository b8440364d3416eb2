-- ===== src/Registry/Consistent/Publish.antt =====
-- An accepted PUBLISH, on a registry in which the records agree.
use webrtc_cdn.Prelude.{
  ℕ, suc, ◌<◌, ◌∷◌, true, false, none, some, Str, ◌≡◌, ◌≢◌, refl, ◌==◌, arith, lookup, str_key,
  str_eq, if◌then◌else◌, inl, inr, Bool-cases, lookup-insert, insert, delete, lookup-delete,
  lookup-delete_self, subst, ap,
}
use webrtc_cdn.Machine.State.{WebrtcCdnNode, WrtcSource, update, update_self, update_ne}
use webrtc_cdn.Messages.Client.{forget_source}
use webrtc_cdn.Connection.Coherent.{note_source-IsCoherent}
use webrtc_cdn.Connection.Requests.{request_type, note_source}
use webrtc_cdn.Connection.Publish.{publish_source, begin_source}
use webrtc_cdn.Registry.{Registry, SinkName}
use webrtc_cdn.Registry.Playing.{SameSinks-IsPlayed}
use webrtc_cdn.Registry.Feeding.{IsFed, same-IsFed, with_source-IsFed}
use webrtc_cdn.Registry.Change.{
  close_source, replace_source, without_source, without_senders, without_relay, with_source,
  forget_request, put_source,
}
use webrtc_cdn.Registry.Consistent.{IsConsistent}
use webrtc_cdn.Registry.Consistent.Attach.{IsAttached, IsAttached-IsConsistent}
use webrtc_cdn.Registry.Consistent.Take.{without_source-IsConsistent}

-- A source is made, noted by its handler, and takes its stream.
pub record IsPlaced (h : ℕ) (v : WrtcSource) (r t : Registry) : Type 0 where
  pub streams :
      (sid : Str)
      → lookup sid t.node.sources
        ≡ (if str_eq v.sid sid then some r.next_ref else lookup sid r.node.sources)
  pub made : t.source_at r.next_ref ≡ v
  pub kept : (q : ℕ) → q < r.next_ref → t.source_at q ≡ r.source_at q
  pub handler_at :
      (k : ℕ)
      → t.handler_at k
        ≡ update r.handler_at h (note_source v.request_id r.next_ref (r.handler_at h)) k
  pub feeding : IsFed t.node
  pub groups : t.node.sinks ≡ r.node.sinks
  pub names : t.sink_name ≡ r.sink_name
  pub next_ref : t.next_ref ≡ suc r.next_ref
  pub started : t.started ≡ r.next_ref ∷ r.started

module _ (h : ℕ) (v : WrtcSource) (r t : Registry) (c : IsConsistent r) (d : IsPlaced h v r t)
    (unused : request_type v.request_id (r.handler_at h) ≡ 0) where
  IsPlaced-IsAttached : IsAttached h v r t
  unfolding note_source
  IsPlaced-IsAttached = record {
    streams = d.streams;
    made = d.made;
    kept = d.kept;
    slots = λ k id.
        rw d.handler_at
          (ground (arith, lookup-insert v.request_id id r.next_ref (r.handler_at h).sources));
    coherent = λ k. rw d.handler_at (elim (Bool-cases (h == k)) [
      | inl same ↦
          rw same
            (note_source-IsCoherent v.request_id (r.handler_at h) r.next_ref (c.coherent h) unused)
      | inr other ↦ rw other (c.coherent k)
    ]);
    playing =
        SameSinks-IsPlayed r t
          (record {
            groups = d.groups;
            names = λ k low. ap (λ (f : ℕ → SinkName). f k) d.names;
            slots = λ k. inl (rw d.handler_at (ground arith));
            grown = ground (arith, d.next_ref);
          })
          c.playing;
    feeding = d.feeding;
    next_ref = d.next_ref;
    started = d.started;
  }

  IsPlaced-IsConsistent :
      v.connection ≡ h
      → v.closed ≡ false
      → h < r.next_ref
      → lookup v.sid r.node.sources ≡ none
      → IsConsistent t
  unfolding request_type
  IsPlaced-IsConsistent mine opened known free =
      IsAttached-IsConsistent h v r t c IsPlaced-IsAttached mine opened known free
        (ground (arith, (c.coherent h).published v.request_id, unused))

-- `close` of a source that is open.
abbrev closed_form : ℕ → WrtcSource → Registry → Registry
closed_form p v r =
    forget_request v (put_source p (record v { closed = true; peer_connection = none }) r)

close_source-opened :
    (p : ℕ) (r : Registry) (v : WrtcSource)
    → r.source_at p ≡ v
    → v.closed ≡ false
    → close_source p true false r ≡ closed_form p v r
unfolding close_source
close_source-opened p r v e opened = rw (e, opened) refl

module _ (h : ℕ) (v : WrtcSource) (r : Registry) (c : IsConsistent r) (mine : v.connection ≡ h)
    (opened : v.closed ≡ false) (known : h < r.next_ref)
    (unused : request_type v.request_id (r.handler_at h) ≡ 0) where
  published-IsFed :
      {n : WebrtcCdnNode}
      → n.sources ≡ insert v.sid r.next_ref r.node.sources
      → n.relays ≡ delete v.sid r.node.relays
      → n.sinks ≡ r.node.sinks
      → IsFed n
  published-IsFed {n} sources relays sinks =
      same-IsFed _ n sources relays sinks (with_source-IsFed v.sid r.next_ref r.node c.feeding)

  pub publish_new-IsConsistent :
      lookup v.sid r.node.sources ≡ none → IsConsistent (publish_source h v.request_id v r)
  unfolding publish_source replace_source
  publish_new-IsConsistent free =
      let own = update_self r.source_at r.next_ref v in
      IsPlaced-IsConsistent h v r _ c
        (rw (own, free)
          (record {
            streams = λ sid. lookup-insert v.sid sid r.next_ref r.node.sources;
            made = own;
            kept = λ q low. ground arith;
            handler_at = λ k. refl;
            feeding = published-IsFed refl refl refl;
            groups = refl;
            names = refl;
            next_ref = refl;
            started = refl;
          }))
        unused mine opened known free

  pub publish_old-IsConsistent :
      (old : ℕ)
      → lookup v.sid r.node.sources ≡ some old
      → (r.source_at old).connection ≢ h
      → IsConsistent (publish_source h v.request_id v r)
  unfolding publish_source replace_source forget_source note_source request_type
  publish_old-IsConsistent old here other =
      let p = r.next_ref in
      let w = c.streams v.sid old here in
      let own = update_self r.source_at p v in
      let prior : update r.source_at p v old ≡ r.source_at old =
        update_ne r.source_at p old v (omega (arith, w.fresh)) in
      let noted = record r {
        source_at = update r.source_at p v;
        next_ref = suc p;
        handler_at = update r.handler_at h (note_source v.request_id p (r.handler_at h));
      } in
      let gone = close_source-opened old r (r.source_at old) refl w.opened in
      let gone' = close_source-opened old noted (r.source_at old) prior w.opened in
      let m = without_source v.sid (closed_form old (r.source_at old) r) in
      let ok : IsConsistent m =
        subst (λ x. IsConsistent (without_source v.sid x)) gone
          (without_source-IsConsistent old r c v.sid here) in
      let placed : IsPlaced h v m (
          begin_source p (
            without_senders v.sid (
              without_relay v.sid
                (with_source v.sid p (closed_form old (r.source_at old) noted))))) =
        record {
          streams = λ sid. ground (
            arith,
            lookup-insert v.sid sid p r.node.sources,
            lookup-delete v.sid sid r.node.sources,
          );
          made = ground (arith, own, w.fresh);
          kept = λ q low. ground arith;
          handler_at = λ k. ground (arith, other);
          feeding = published-IsFed refl refl refl;
          groups = refl;
          names = refl;
          next_ref = refl;
          started = refl;
        } in
      rw (own, here, gone')
        (IsPlaced-IsConsistent h v m _ ok placed (ground (arith, other, unused)) mine opened known
          (lookup-delete_self v.sid r.node.sources))
