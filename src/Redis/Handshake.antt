-- ===== src/Redis/Handshake.antt =====
-- Two nodes agree to pass a stream on: RESOLVE, INFO and CONNECT.
use webrtc_cdn.Prelude.{
  ℕ, List, [], ◌∷◌, Map, none, some, Str, ◌≡◌, ◌≢◌, refl, sym, false, lookup, str_key,
}
use webrtc_cdn.Strings.{Unicode}
use webrtc_cdn.Machine.State.{State, Event, published, emit}
use webrtc_cdn.Machine.Op.{done}
use webrtc_cdn.Messages.Redis.{resolve_message, info_message, connect_message}
use webrtc_cdn.Node.Sinks.{sinks_of}
use webrtc_cdn.Node.Remote.{new_relay, sender_to}
use webrtc_cdn.Redis.{receive_redis_message}
use webrtc_cdn.Redis.Replies.{resolve-answer, info-answer, connect-answer}

-- What the three messages leave at the node `a`, which has the source, and at `b`, which has sinks.
pub record IsLinked (a_id b_id sid : Str) (a b : State) : Type 0 where
  pub relay : ℕ
  pub sender : ℕ
  pub b_relay : lookup sid b.node.relays ≡ some relay
  pub b_remote : b.relay_at relay ≡ new_relay sid a_id
  pub a_sender : sender_to sid b_id a.node ≡ some sender
  pub a_sid : (a.sender_at sender).sid ≡ sid
  pub a_remote : (a.sender_at sender).remote_id ≡ b_id

-- Where the node `a` has the source of a stream, the node `b` has sinks for it and no source, their IDs
-- differ and neither stands alone, the RESOLVE of `b` makes `a` send INFO to `b`, that makes `b` send CONNECT to `a`, and after it `b` has a
-- relay of the stream from `a`, and `a` a sender of the stream to `b`. No run panics or blocks.
pub resolve_handshake :
    (u : Unicode) (sid : Str) (a b : State) (p : ℕ) (e : ℕ × ℕ) (g : Map ℕ ℕ)
    → a.node.id ≢ b.node.id
    → a.node.stand_alone ≡ false
    → b.node.stand_alone ≡ false
    → lookup sid a.node.sources ≡ some p
    → lookup sid b.node.sources ≡ none
    → sinks_of sid b.node ≡ e ∷ g
    → (told linked : State) × (far : State) × (rest : List Event) × (receive_redis_message u
          (resolve_message b.node.id sid)
          []
          a
        ≡ done told)
      × (told.out ≡ published b.node.id (info_message a.node.id sid) ∷ a.out)
      × (receive_redis_message u (info_message a.node.id sid) [] b ≡ done far)
      × (far.out ≡ published a.node.id (connect_message b.node.id a.node.id sid) ∷ rest)
      × (receive_redis_message u (connect_message b.node.id a.node.id sid) [] told ≡ done linked)
      × IsLinked a.node.id b.node.id sid linked far
resolve_handshake u sid a b p e g differ a_joined b_joined here absent waiting =
    let told = emit (published b.node.id (info_message a.node.id sid)) a in
    let (far, r, rest, run, out, relay, remote) =
      info-answer u a.node.id sid b e g differ b_joined absent waiting in
    let (linked, q, run', sender, name, to) =
      connect-answer u b.node.id a.node.id sid told p (λ x. differ (sym x)) here in
    (
      told,
      linked,
      far,
      rest,
      resolve-answer u b.node.id sid a p (λ x. differ (sym x)) a_joined here,
      refl,
      run,
      out,
      run',
      record {
        relay = r;
        sender = q;
        b_relay = relay;
        b_remote = remote;
        a_sender = sender;
        a_sid = name;
        a_remote = to;
      },
    )
