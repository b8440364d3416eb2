-- ===== src/Service/Listening.antt =====
-- The Redis listener of a node that serves clients.
use webrtc_cdn.Prelude.{List, [], ◌∷◌, Str, ◌≡◌, refl}
use webrtc_cdn.Strings.{Unicode}
use webrtc_cdn.Machine.State.{State}
use webrtc_cdn.Machine.Op.{done}
use webrtc_cdn.Redis.{receive_redis_message}
use webrtc_cdn.Redis.Listener.{Reception, receive_failed, payload, Decode, listen}
use webrtc_cdn.Service.{Setting, redis_message, happen, Reachable}
use webrtc_cdn.Service.Reach.{happen-ends}

-- The messages are handled one after another, each to its end, in the state that the one before it
-- left, and an error changes nothing.
pub data Handles (decode : Decode) (u : Unicode) : List Reception → State → State → Type 0 where
  handled_all : {s : State} → Handles decode u [] s s
  passed :
      {s v : State} {rest : List Reception}
      → Handles decode u rest s v
      → Handles decode u (receive_failed ∷ rest) s v
  handled :
      {s t v : State} {text : Str} {rest : List Reception}
      → receive_redis_message u (decode text) [] s ≡ done t
      → Handles decode u rest t v
      → Handles decode u (payload text ∷ rest) s v

-- In a state that the node comes to from its start, the Redis listener passes over each error and
-- handles each message it receives, whatever its content, in order, without a panic, which would
-- end it, and without a wait for ever for a mutex, and leaves the node in a state that it can come to.
pub listen-Handles :
    (w : Setting) (decode : Decode) (receptions : List Reception) (s : State)
    → Reachable w s
    → (t : State) × (listen decode w.around.unicode receptions [] s ≡ done t)
      × Handles decode w.around.unicode receptions s t
      × Reachable w t
unfolding listen happen
listen-Handles w decode [] s r = (s, refl, handled_all, r)
listen-Handles w decode (receive_failed ∷ rest) s r =
    let (t, run, all, q) = listen-Handles w decode rest s r in (t, run, passed all, q)
listen-Handles w decode (payload text ∷ rest) s r =
    let (t, run, q) = happen-ends w (redis_message (decode text)) s r tt in
    let (u, runs, all, end) = listen-Handles w decode rest t q in
    (u, rw run runs, handled run all, end)
