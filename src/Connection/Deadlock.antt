-- ===== src/Connection/Deadlock.antt =====
-- A client that publishes one stream twice over one connection.
use webrtc_cdn.Prelude.{
  ℕ, true, false, List, [], ◌∷◌, some, Str, codes, ◌≡◌, refl, arith, lookup, str_key, ◌<◌,
}
use webrtc_cdn.Strings.{Unicode}
use webrtc_cdn.Signaling.{SignalingMessage}
use webrtc_cdn.Auth.{Jwt}
use webrtc_cdn.Machine.State.{State, WrtcSource, update_self, update_ne}
use webrtc_cdn.Machine.Op.{
  Outcome, done, panicked, blocked, after, Mutex, holds, node_status, handler_status, source_status,
}
use webrtc_cdn.Messages.Client.{send_source_close, send_ok_message}
use webrtc_cdn.Node.Sources.{source_close, register_source}
use webrtc_cdn.Connection.Requests.{
  param, start_source, new_source, alloc_source, receive_publish_message,
}
use webrtc_cdn.Connection.Accept.{IsValid, HasRoom, validated_lem, within_limits_lem}

-- The run waits for ever for this mutex, and holds these.
abbrev pub BlocksOn : Mutex → List Mutex → Outcome → Type 0
BlocksOn m held (done s) = ⊥
BlocksOn m held (panicked s) = ⊥
BlocksOn m held (blocked n locks s) = (n ≡ m) × (locks ≡ held)

BlocksOn-after :
    (m : Mutex) (held : List Mutex) (o : Outcome) (k : State → Outcome)
    → BlocksOn m held o
    → BlocksOn m held (after o k)
BlocksOn-after m held (done s) k b = absurd b
BlocksOn-after m held (panicked s) k b = absurd b
BlocksOn-after m held (blocked n locks s) k b = b

send_source_close-BlocksOn :
    (h : ℕ) (id sid : Str) (held : List Mutex) (s : State)
    → holds (handler_status h) held ≡ true
    → BlocksOn (handler_status h) held (send_source_close h id sid held s)
unfolding send_source_close
send_source_close-BlocksOn h id sid held s busy = rw busy (refl, refl)

-- To close a source and tell its client, where the client's handler is locked.
source_close-BlocksOn :
    (r : ℕ) (held : List Mutex) (s : State)
    → holds (source_status r) held ≡ false
    → holds (handler_status (s.source_at r).connection) held ≡ true
    → (s.source_at r).closed ≡ false
    → BlocksOn
        (handler_status (s.source_at r).connection)
        (source_status r ∷ held)
        (source_close r true false held s)
unfolding source_close
source_close-BlocksOn r held s free busy opened =
    rw (free, opened)
      (BlocksOn-after _ _ _ _
        (send_source_close-BlocksOn (s.source_at r).connection _ _ (source_status r ∷ held) _ busy))

register_source-BlocksOn :
    (p r : ℕ) (held : List Mutex) (s : State)
    → holds node_status held ≡ false
    → holds (source_status r) held ≡ false
    → holds (handler_status (s.source_at r).connection) held ≡ true
    → lookup (s.source_at p).sid s.node.sources ≡ some r
    → (s.source_at r).closed ≡ false
    → BlocksOn
        (handler_status (s.source_at r).connection)
        (source_status r ∷ node_status ∷ held)
        (register_source p held s)
unfolding register_source
register_source-BlocksOn p r held s free open_lock busy old opened =
    rw (free, old)
      (BlocksOn-after _ _ _ _
        (source_close-BlocksOn r (node_status ∷ held) s open_lock busy opened))

start_source-BlocksOn :
    (h : ℕ) (id : Str) (p r : ℕ) (held : List Mutex) (s : State)
    → holds node_status held ≡ false
    → holds (source_status r) held ≡ false
    → holds (handler_status (s.source_at r).connection) held ≡ true
    → lookup (s.source_at p).sid s.node.sources ≡ some r
    → (s.source_at r).closed ≡ false
    → BlocksOn
        (handler_status (s.source_at r).connection)
        (source_status r ∷ node_status ∷ held)
        (start_source h id p held s)
unfolding start_source send_ok_message
start_source-BlocksOn h id p r held s free open_lock busy old opened =
    BlocksOn-after _ _ _ _ (register_source-BlocksOn p r held _ free open_lock busy old opened)

alloc_source-HasRoom :
    (h : ℕ) (id : Str) (v : WrtcSource) (s : State)
    → HasRoom h id s
    → HasRoom h id (alloc_source v s)
unfolding alloc_source
alloc_source-HasRoom h id v s room = record { unused = room.unused; below_limit = room.below_limit }

module _ (u : Unicode) (jwt : Jwt) (secret : Str) (h : ℕ) (msg : SignalingMessage) (s : State) where
  -- A PUBLISH message that passes every check, for a stream whose source is open and belongs to the
  -- same connection, never ends: `registerSource` closes the old source, whose `sendSourceClose`
  -- waits for the status mutex of the handler, which this goroutine holds, along with those of the
  -- node and of the old source.
  pub publish_twice_blocks :
      (r : ℕ)
      → IsValid jwt secret (codes "stream_publish") msg
      → HasRoom h (param (codes "request-id") msg) s
      → lookup (param (codes "stream-id") msg) s.node.sources ≡ some r
      → r < s.next_ref
      → (s.source_at r).closed ≡ false
      → (s.source_at r).connection ≡ h
      → BlocksOn
          (handler_status h)
          (source_status r ∷ node_status ∷ handler_status h ∷ [])
          (receive_publish_message u jwt secret h msg [] s)
  unfolding receive_publish_message alloc_source new_source
  publish_twice_blocks r v room old fresh opened same =
      let id = param (codes "request-id") msg in
      let made = alloc_source (new_source u h msg) s in
      let kept : made.source_at r ≡ s.source_at r =
        update_ne s.source_at s.next_ref r _ (omega arith) in
      let new : made.source_at s.next_ref ≡ new_source u h msg =
        update_self s.source_at s.next_ref _ in
      let owner : (made.source_at r).connection ≡ h = rw kept same in
      rw
        (
          validated_lem jwt secret _ h msg _ v,
          within_limits_lem h id _ [] made refl (alloc_source-HasRoom h id _ s room),
        )
        (rw owner at (
          start_source-BlocksOn h id s.next_ref r (handler_status h ∷ []) made refl refl
            (ground (arith, owner)) (rw new old) (rw kept opened)))
