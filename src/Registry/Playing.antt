-- ===== src/Registry/Playing.antt =====
-- When the two records of who plays agree: the sinks of the node by stream, and those of each handler by
-- request.
pub mod Join
pub mod Leave
use webrtc_cdn.Prelude.{
  ℕ, ◌<◌, ◌≤◌, none, some, Str, ◌≡◌, ◌⊎◌, refl, ap, sym, subst, ◌∙◌, inl, inr, arith, lookup,
  str_key, nat_key,
}
use webrtc_cdn.Machine.State.{ConnectionHandler}
use webrtc_cdn.Node.Sinks.{sinks_of}
use webrtc_cdn.Registry.{Registry, SinkName}

-- A sink of a stream: it is in memory under its own names, and its handler has it under its request.
pub record IsWaiting (sid : Str) (id k : ℕ) (r : Registry) : Type 0 where
  pub fresh : k < r.next_ref
  pub stream : (r.sink_name k).sid ≡ sid
  pub number : (r.sink_name k).sink_id ≡ id
  pub known : (r.sink_name k).connection < r.next_ref
  pub slot :
      lookup (r.sink_name k).request_id (r.handler_at (r.sink_name k).connection).sinks ≡ some k

-- Each sink of a stream is so.
pub record IsPlayed (r : Registry) : Type 0 where
  pub waiting :
      (sid : Str) (id k : ℕ) → lookup id (sinks_of sid r.node) ≡ some k → IsWaiting sid id k r

-- The same sinks, by stream and by request, or with new handlers.
pub record SameSinks (r t : Registry) : Type 0 where
  pub groups : t.node.sinks ≡ r.node.sinks
  pub names : (k : ℕ) → k < r.next_ref → t.sink_name k ≡ r.sink_name k
  pub slots : (h : ℕ) → ((t.handler_at h).sinks ≡ (r.handler_at h).sinks) ⊎ (r.next_ref ≤ h)
  pub grown : r.next_ref ≤ t.next_ref

same-IsWaiting :
    (r t : Registry) (sid : Str) (id k : ℕ)
    → SameSinks r t
    → IsWaiting sid id k r
    → IsWaiting sid id k t
same-IsWaiting r t sid id k e v =
    let name = e.names k v.fresh in
    record {
      fresh = omega (arith, v.fresh, e.grown);
      stream = ap (λ (n : SinkName). n.sid) name ∙ v.stream;
      number = ap (λ (n : SinkName). n.sink_id) name ∙ v.number;
      known = rw name (omega (arith, v.known, e.grown));
      slot = rw name (elim (e.slots (r.sink_name k).connection) [
        | inl same ↦ rw same v.slot
        | inr new ↦ absurd (omega (arith, new, v.known))
      ]);
    }

pub SameSinks-IsPlayed : (r t : Registry) → SameSinks r t → IsPlayed r → IsPlayed t
unfolding sinks_of
SameSinks-IsPlayed r t e p = record {
  waiting =
      λ sid id k found. same-IsWaiting r t sid id k e (p.waiting sid id k (rw⁻¹ e.groups found));
}

-- The same sinks and handlers, and perhaps more memory in use.
pub grown-IsPlayed :
    (r t : Registry)
    → t.node.sinks ≡ r.node.sinks
    → ((k : ℕ) → k < r.next_ref → t.sink_name k ≡ r.sink_name k)
    → t.handler_at ≡ r.handler_at
    → r.next_ref ≤ t.next_ref
    → IsPlayed r
    → IsPlayed t
grown-IsPlayed r t groups names handlers grown = SameSinks-IsPlayed r t (record {
  groups = groups;
  names = names;
  slots = λ h. inl (ap (λ (f : ℕ → ConnectionHandler). (f h).sinks) handlers);
  grown = grown;
})
