-- ===== src/Registry/Consistent/Handlers.antt =====
-- Writes to one handler.
use webrtc_cdn.Prelude.{ℕ, suc, ◌≡◌, refl, arith, [], inl, inr, Bool-cases, ◌==◌, lookup, str_key}
use webrtc_cdn.Machine.State.{ConnectionHandler, update}
use webrtc_cdn.Connection.Requests.{request_type}
use webrtc_cdn.Connection.Coherent.{IsCoherent}
use webrtc_cdn.Registry.{Registry}
use webrtc_cdn.Registry.Playing.{IsPlayed, SameSinks-IsPlayed}
use webrtc_cdn.Registry.Consistent.{IsConsistent, IsSame-IsConsistent}

abbrev pub put_handler : ℕ → ConnectionHandler → Registry → Registry
put_handler h d r = record r { handler_at = update r.handler_at h d }

put_handler-IsCoherent :
    (h : ℕ) (d : ConnectionHandler) (r : Registry)
    → IsCoherent d
    → IsConsistent r
    → (k : ℕ) → IsCoherent (update r.handler_at h d k)
put_handler-IsCoherent h d r ok c k = elim (Bool-cases (h == k)) [
  | inl this ↦ rw this ok
  | inr other ↦ rw other (c.coherent k)
]

-- A handler that keeps its sources.
pub put_handler-IsConsistent :
    (h : ℕ) (d : ConnectionHandler) (r : Registry)
    → d.sources ≡ (r.handler_at h).sources
    → IsCoherent d
    → IsPlayed (put_handler h d r)
    → IsConsistent r
    → IsConsistent (put_handler h d r)
put_handler-IsConsistent h d r kept ok playing c =
    IsSame-IsConsistent r _
      (record {
        streams = refl;
        sid = λ q low. refl;
        request_id = λ q low. refl;
        connection = λ q low. refl;
        closed = λ q low. refl;
        slots = λ k. inl (ground (arith, kept));
        coherent = put_handler-IsCoherent h d r ok c;
        playing = playing;
        feeding = c.feeding;
        started = refl;
        grown = omega arith;
      })
      c

-- A handler that keeps its sinks too.
pub touch_handler-IsConsistent :
    (h : ℕ) (d : ConnectionHandler) (r : Registry)
    → d.sources ≡ (r.handler_at h).sources
    → d.sinks ≡ (r.handler_at h).sinks
    → IsCoherent d
    → IsConsistent r
    → IsConsistent (put_handler h d r)
touch_handler-IsConsistent h d r kept sinks ok c =
    put_handler-IsConsistent h d r kept ok
      (SameSinks-IsPlayed r _
        (record {
          groups = refl;
          names = λ k low. refl;
          slots = λ k. inl (ground (arith, sinks));
          grown = omega arith;
        })
        c.playing)
      c

-- A new handler, with no requests.
pub empty-IsCoherent :
    (d : ConnectionHandler) → d.requests ≡ [] → d.sources ≡ [] → d.sinks ≡ [] → IsCoherent d
unfolding request_type lookup
empty-IsCoherent d requests sources sinks = record {
  known = rw requests tt;
  published = λ id. rw (requests, sources) refl;
  played = λ id. rw (requests, sinks) refl;
}

pub new_handler-IsConsistent :
    (d : ConnectionHandler) (r : Registry)
    → d.requests ≡ []
    → d.sources ≡ []
    → d.sinks ≡ []
    → IsConsistent r
    → IsConsistent (record (put_handler r.next_ref d r) { next_ref = suc r.next_ref })
new_handler-IsConsistent d r requests sources sinks c =
    IsSame-IsConsistent r _
      (record {
        streams = refl;
        sid = λ q low. refl;
        request_id = λ q low. refl;
        connection = λ q low. refl;
        closed = λ q low. refl;
        slots = λ k. elim (Bool-cases (r.next_ref == k)) [
          | inl this ↦ inr (ground (arith, this), ground (arith, this, sources))
          | inr other ↦ inl (ground (arith, other))
        ];
        coherent =
            put_handler-IsCoherent r.next_ref d r (empty-IsCoherent d requests sources sinks) c;
        playing =
            SameSinks-IsPlayed r _
              (record {
                groups = refl;
                names = λ k low. refl;
                slots = λ k. elim (Bool-cases (r.next_ref == k)) [
                  | inl this ↦ inr (ground (arith, this))
                  | inr other ↦ inl (ground (arith, other))
                ];
                grown = omega arith;
              })
              c.playing;
        feeding = c.feeding;
        started = refl;
        grown = omega arith;
      })
      c
