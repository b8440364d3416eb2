-- ===== src/Registry/Playing/Join.antt =====
-- A sink that joins a stream.
use webrtc_cdn.Prelude.{
  ℕ, ◌<◌, ◌&&◌, ◌==◌, none, some, Str, ◌≡◌, subst, inl, inr, arith, Bool-cases, lookup,
  lookup-insert, str_key, nat_key, str_eq, str_eq_iff,
}
use webrtc_cdn.Connection.Requests.{note_sink}
use webrtc_cdn.Connection.Play.{with_sink-listed}
use webrtc_cdn.Registry.{Registry}
use webrtc_cdn.Registry.Change.{with_sink}
use webrtc_cdn.Registry.Consistent.Handlers.{put_handler}
use webrtc_cdn.Registry.Playing.{IsWaiting, IsPlayed}

-- A handler notes a sink under a request that it has no sink for.
pub noted-IsPlayed :
    (h : ℕ) (id : Str) (p : ℕ) (r : Registry)
    → lookup id (r.handler_at h).sinks ≡ none
    → IsPlayed r
    → IsPlayed (put_handler h (note_sink id p (r.handler_at h)) r)
unfolding note_sink
noted-IsPlayed h id p r unused played = record {
  waiting = λ sid i k found.
      let v = played.waiting sid i k found in
      record {
        fresh = v.fresh;
        stream = v.stream;
        number = v.number;
        known = v.known;
        slot = ground (
          arith,
          v.slot,
          unused,
          str_eq_iff id (r.sink_name k).request_id,
          lookup-insert id (r.sink_name k).request_id p (r.handler_at h).sinks,
        );
      };
}

-- A sink that its handler has noted joins its stream.
pub with_sink-IsPlayed :
    (p : ℕ) (r : Registry)
    → p < r.next_ref
    → (r.sink_name p).connection < r.next_ref
    → lookup (r.sink_name p).request_id (r.handler_at (r.sink_name p).connection).sinks ≡ some p
    → IsPlayed r
    → IsPlayed (with_sink p r)
unfolding with_sink
with_sink-IsPlayed p r fresh known slot played = record {
  waiting = λ sid i k found.
      let n = r.sink_name p in
      elim (Bool-cases (str_eq n.sid sid && (n.sink_id == i))) [
        | inl mine ↦
            let this : p ≡ k = ground (arith, with_sink-listed p r sid i, mine, found) in
            subst (λ x. IsWaiting sid i x (with_sink p r)) this
              (record {
                fresh = fresh;
                stream = ground (arith, mine, str_eq_iff n.sid sid);
                number = ground (arith, mine);
                known = known;
                slot = slot;
              })
        | inr other ↦
            let v =
              played.waiting sid i k (ground (arith, with_sink-listed p r sid i, other, found)) in
            record {
              fresh = v.fresh;
              stream = v.stream;
              number = v.number;
              known = v.known;
              slot = v.slot;
            }
      ];
}
