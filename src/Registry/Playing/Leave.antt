-- ===== src/Registry/Playing/Leave.antt =====
-- A sink that leaves its stream.
use webrtc_cdn.Prelude.{
  ℕ, false, ◌&&◌, ◌==◌, none, some, Option, [], ◌∷◌, Map, Str, ◌≡◌, ◌≢◌, refl, inl, inr, arith,
  Bool-cases, lookup, delete, lookup-delete, lookup-insert, str_key, nat_key, str_eq, str_eq_iff,
  if◌then◌else◌,
}
use webrtc_cdn.Peer.Api.{is_some}
use webrtc_cdn.Node.Sinks.{sinks_of}
use webrtc_cdn.Connection.Coherent.{without_play}
use webrtc_cdn.Registry.{Registry, SinkName}
use webrtc_cdn.Registry.Change.{keep_sinks, leave_group, without_sink}
use webrtc_cdn.Registry.Consistent.Handlers.{put_handler}
use webrtc_cdn.Registry.Playing.{IsPlayed}

-- The sinks of a stream are these, and those of the others are as they were.
keep_sinks-listed :
    (sid : Str) (g : Map ℕ ℕ) (r : Registry) (other : Str) (id : ℕ)
    → lookup id (sinks_of other (keep_sinks sid g r).node)
      ≡ (if str_eq sid other then lookup id g else lookup id (sinks_of other r.node))
unfolding sinks_of lookup
keep_sinks-listed sid [] r other id = ground (arith, lookup-delete sid other r.node.sinks)
keep_sinks-listed sid (x ∷ g) r other id =
    ground (arith, lookup-insert sid other (x ∷ g) r.node.sinks)

leave_group-listed :
    (n : SinkName) (o : Option (Map ℕ ℕ)) (r : Registry) (sid : Str) (id : ℕ)
    → lookup n.sid r.node.sinks ≡ o
    → lookup id (sinks_of sid (leave_group n o r).node)
      ≡ (if str_eq n.sid sid && (n.sink_id == id) then none else lookup id (sinks_of sid r.node))
unfolding sinks_of lookup
leave_group-listed n none r sid id e = ground (arith, str_eq_iff n.sid sid, e)
leave_group-listed n (some g) r sid id e = elim (Bool-cases (is_some (lookup n.sink_id g))) [
  | inl there ↦ rw there (
      ground (
        arith,
        e,
        str_eq_iff n.sid sid,
        keep_sinks-listed n.sid (delete n.sink_id g) r sid id,
        lookup-delete n.sink_id id g,
      ))
  | inr gone ↦ rw gone (ground (arith, e, str_eq_iff n.sid sid, gone))
]

pub without_sink-listed :
    (p : ℕ) (r : Registry) (sid : Str) (id : ℕ)
    → lookup id (sinks_of sid (without_sink p r).node) ≡ (
        if str_eq (r.sink_name p).sid sid && ((r.sink_name p).sink_id == id)
        then none
        else lookup id (sinks_of sid r.node))
unfolding without_sink
without_sink-listed p r sid id = leave_group-listed (r.sink_name p) _ r sid id refl

-- All but the sinks of the streams, and the relays.
pub record IsSameElsewhere (r t : Registry) : Type 0 where
  pub streams : t.node.sources ≡ r.node.sources
  pub source_at : t.source_at ≡ r.source_at
  pub names : t.sink_name ≡ r.sink_name
  pub handler_at : t.handler_at ≡ r.handler_at
  pub started : t.started ≡ r.started
  pub next_ref : t.next_ref ≡ r.next_ref

same_elsewhere : (r : Registry) → IsSameElsewhere r r
same_elsewhere r = record {
  streams = refl;
  source_at = refl;
  names = refl;
  handler_at = refl;
  started = refl;
  next_ref = refl;
}

keep_sinks-elsewhere :
    (sid : Str) (g : Map ℕ ℕ) (r : Registry) → IsSameElsewhere r (keep_sinks sid g r)
keep_sinks-elsewhere sid [] r = record {
  streams = refl;
  source_at = refl;
  names = refl;
  handler_at = refl;
  started = refl;
  next_ref = refl;
}
keep_sinks-elsewhere sid (x ∷ g) r = record {
  streams = refl;
  source_at = refl;
  names = refl;
  handler_at = refl;
  started = refl;
  next_ref = refl;
}

leave_group-elsewhere :
    (n : SinkName) (o : Option (Map ℕ ℕ)) (r : Registry) → IsSameElsewhere r (leave_group n o r)
leave_group-elsewhere n none r = same_elsewhere r
leave_group-elsewhere n (some g) r = elim (Bool-cases (is_some (lookup n.sink_id g))) [
  | inl there ↦ rw there (keep_sinks-elsewhere n.sid (delete n.sink_id g) r)
  | inr gone ↦ rw gone (same_elsewhere r)
]

pub without_sink-elsewhere : (p : ℕ) (r : Registry) → IsSameElsewhere r (without_sink p r)
unfolding without_sink
without_sink-elsewhere p r = leave_group-elsewhere (r.sink_name p) _ r

-- A sink that is still listed was listed.
still_listed :
    (p : ℕ) (r : Registry) (sid : Str) (id k : ℕ)
    → lookup id (sinks_of sid (without_sink p r).node) ≡ some k
    → (lookup id (sinks_of sid r.node) ≡ some k)
      × ((str_eq (r.sink_name p).sid sid && ((r.sink_name p).sink_id == id)) ≡ false)
still_listed p r sid id k found = (
  ground (arith, without_sink-listed p r sid id, found),
  ground (arith, without_sink-listed p r sid id, found),
)

pub without_sink-IsPlayed : (p : ℕ) (r : Registry) → IsPlayed r → IsPlayed (without_sink p r)
without_sink-IsPlayed p r played = record {
  waiting = λ sid id k found.
      let e = without_sink-elsewhere p r in
      let v = played.waiting sid id k (still_listed p r sid id k found).0 in
      record {
        fresh = rw e.next_ref v.fresh;
        stream = rw e.names v.stream;
        number = rw e.names v.number;
        known = rw (e.names, e.next_ref) v.known;
        slot = rw (e.names, e.handler_at) v.slot;
      };
}

-- The handler of a sink that has left its stream forgets it.
pub without_play-IsPlayed :
    (h p : ℕ) (id : Str) (r : Registry)
    → lookup id (r.handler_at h).sinks ≡ some p
    → IsPlayed r
    → IsPlayed
        (put_handler h (without_play id ((without_sink p r).handler_at h)) (without_sink p r))
without_play-IsPlayed h p id r noted played = record {
  waiting = λ sid i k found.
      let e = without_sink-elsewhere p r in
      let (was, apart) = still_listed p r sid i k found in
      let v = played.waiting sid i k was in
      let other : p ≢ k = λ same.
        ground (arith, apart, v.stream, v.number, same, str_eq_iff (r.sink_name k).sid sid) in
      record {
        fresh = rw e.next_ref v.fresh;
        stream = rw e.names v.stream;
        number = rw e.names v.number;
        known = rw (e.names, e.next_ref) v.known;
        slot =
            rw (e.names, e.handler_at)
              (ground (
                arith,
                v.slot,
                noted,
                other,
                str_eq_iff id (r.sink_name k).request_id,
                lookup-delete id (r.sink_name k).request_id (r.handler_at h).sinks,
              ));
      };
}
