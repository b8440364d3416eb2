-- ===== src/Redis/Delivery.antt =====
-- The messages between the two ends of a link: OFFER, from a sender to a relay, and ANSWER back.
use webrtc_cdn.Prelude.{
  ℕ, [], ◌∷◌, some, Str, codes, ◌≡◌, ◌≢◌, refl, inl, inr, Bool-cases, lookup, insert, delete,
  str_key,
}
use webrtc_cdn.Strings.{Unicode, to_upper, is_ascii}
use webrtc_cdn.Machine.State.{State, WrtcSourceSender, spawn, relay_offer}
use webrtc_cdn.Machine.Op.{done, node_status}
use webrtc_cdn.Messages.Redis.{offer_message, data_message}
use webrtc_cdn.Peer.Sender.{sender_on_answer}
use webrtc_cdn.Node.Remote.{receive_offer_message, node_receive_answer, sender_to}
use webrtc_cdn.Redis.{field, msg_type, receive_typed, receive_redis_message}
use webrtc_cdn.Redis.Replies.{str_eq_ne}

received_offer :
    (u : Unicode) (far offer : Str) (sender : WrtcSourceSender) (s : State)
    → far ≢ s.node.id
    → receive_redis_message u (offer_message far sender offer) [] s
      ≡ receive_offer_message sender.sid offer sender.has_video sender.has_audio [] s
unfolding receive_redis_message field offer_message msg_type receive_typed to_upper is_ascii lookup
    insert delete
received_offer u far offer sender s other = elim (Bool-cases sender.has_video) [
  | inl v ↦ elim (Bool-cases sender.has_audio) [
    | inl a ↦ rw (v, a, str_eq_ne far s.node.id other) refl
    | inr a ↦ rw (v, a, str_eq_ne far s.node.id other) refl
  ]
  | inr v ↦ elim (Bool-cases sender.has_audio) [
    | inl a ↦ rw (v, a, str_eq_ne far s.node.id other) refl
    | inr a ↦ rw (v, a, str_eq_ne far s.node.id other) refl
  ]
]

-- The OFFER that a sender of another node makes reaches the relay of its stream, where there is one:
-- the node starts a goroutine that answers it, with the same session description, and with video and
-- audio exactly where the sender has them, and nothing else changes.
pub offer_delivered :
    (u : Unicode) (far offer : Str) (sender : WrtcSourceSender) (s : State) (p : ℕ)
    → far ≢ s.node.id
    → lookup sender.sid s.node.relays ≡ some p
    → receive_redis_message u (offer_message far sender offer) [] s
      ≡ done (spawn (relay_offer p offer sender.has_video sender.has_audio) s)
unfolding receive_offer_message
offer_delivered u far offer sender s p other here =
    rw (received_offer u far offer sender s other, here) refl

-- The ANSWER of another node reaches the sender of the stream to that node, and no other: the message
-- does what `onAnswer` of this sender does, with the same session description.
pub answer_delivered :
    (u : Unicode) (far dst sid answer : Str) (s : State) (p : ℕ)
    → far ≢ s.node.id
    → sender_to sid far s.node ≡ some p
    → receive_redis_message u (data_message (codes "ANSWER") far dst sid answer) [] s
      ≡ sender_on_answer p answer (node_status ∷ []) s
unfolding receive_redis_message field data_message msg_type receive_typed to_upper is_ascii lookup
    insert delete node_receive_answer
answer_delivered u far dst sid answer s p other here = rw (str_eq_ne far s.node.id other, here) refl
