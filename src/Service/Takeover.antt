-- ===== src/Service/Takeover.antt =====
-- A stream that is published at one node after another: PUBLISH and INFO.
use webrtc_cdn.Prelude.{ℕ, false, List, [], ◌∷◌, some, Str, codes, ◌≡◌, ◌≢◌, lookup, str_key}
use webrtc_cdn.Strings.{Unicode}
use webrtc_cdn.Signaling.{SignalingMessage}
use webrtc_cdn.Auth.{Jwt}
use webrtc_cdn.Machine.State.{State, Event, published}
use webrtc_cdn.Machine.Op.{done}
use webrtc_cdn.Messages.Redis.{redis_broadcast_channel, info_message}
use webrtc_cdn.Connection.Requests.{param, new_source, receive_publish_message}
use webrtc_cdn.Connection.Accept.{IsValid, HasRoom}
use webrtc_cdn.Connection.Publish.{FromOther, IsPublished}
use webrtc_cdn.Connection.Publish.Announce.{receive_publish_message-announces}
use webrtc_cdn.Redis.{receive_redis_message}
use webrtc_cdn.Registry.{registry}
use webrtc_cdn.Service.{Setting, Reachable}
use webrtc_cdn.Service.Conflict.{GaveUp, newer_source_wins}

-- A PUBLISH at the node `a`, the message that it sends to all nodes, and what the node `b`, which had the
-- source at `p` for the stream, does with it.
pub record IsTakenOver (u : Unicode) (jwt : Jwt) (secret : Str) (h : ℕ) (msg : SignalingMessage)
    (a : State) (v : Unicode) (b : State) (p : ℕ) : Type 0 where
  pub here : State
  pub there : State
  pub before : List Event
  pub publishes : receive_publish_message u jwt secret h msg [] a ≡ done here
  pub is_published : IsPublished h a.next_ref (new_source u h msg) (registry a) (registry here)
  pub announces :
      here.out
      ≡ published redis_broadcast_channel (info_message a.node.id (param (codes "stream-id") msg))
        ∷ before
  pub receives :
      receive_redis_message v (info_message a.node.id (param (codes "stream-id") msg)) [] b
      ≡ done there
  pub gives_up : GaveUp a.node.id (param (codes "stream-id") msg) p b there

-- A valid PUBLISH with room, of a stream that has no source at its node `a` or one that another handler
-- made before, where `a` does not stand alone, ends with the new source in the place of its stream, and
-- its last message is an INFO to all nodes. Another node, in a state that it comes to from its start and
-- with a source of the stream, gives that source up when it receives the message: the stream has no
-- source there, the source is closed, the sinks stay, and if there are any for the stream, the node has a
-- relay of it from `a`.
pub publish_takes_over :
    (w : Setting) (u : Unicode) (jwt : Jwt) (secret : Str) (h : ℕ) (msg : SignalingMessage)
    (a b : State) (p : ℕ)
    → IsValid jwt secret (codes "stream_publish") msg
    → HasRoom h (param (codes "request-id") msg) a
    → FromOther h (lookup (param (codes "stream-id") msg) a.node.sources) a
    → a.node.stand_alone ≡ false
    → Reachable w b
    → a.node.id ≢ b.node.id
    → lookup (param (codes "stream-id") msg) b.node.sources ≡ some p
    → IsTakenOver u jwt secret h msg a w.around.unicode b p
publish_takes_over w u jwt secret h msg a b p valid room other joined r apart has =
    let (here, before, run, out, left) =
      receive_publish_message-announces u jwt secret h msg a valid room other joined in
    let (there, end, gone) =
      newer_source_wins w a.node.id (param (codes "stream-id") msg) b p r apart has in
    record {
      here = here;
      there = there;
      before = before;
      publishes = run;
      is_published = left;
      announces = out;
      receives = end;
      gives_up = gone;
    }
