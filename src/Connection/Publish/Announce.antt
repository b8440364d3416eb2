-- ===== src/Connection/Publish/Announce.antt =====
-- What an accepted PUBLISH tells the other nodes.
use webrtc_cdn.Prelude.{
  ℕ, false, List, [], ◌∷◌, Str, codes, ◌≡◌, refl, ap, ◌∙◌, sym, subst, lookup, str_key,
}
use webrtc_cdn.Strings.{Unicode}
use webrtc_cdn.Signaling.{SignalingMessage}
use webrtc_cdn.Auth.{Jwt}
use webrtc_cdn.Machine.State.{
  State, Event, published, emit, to_client, set_handler, spawn, run_source, update, update_self,
  WrtcSource,
}
use webrtc_cdn.Machine.Op.{Outcome, done, handler_status}
use webrtc_cdn.Messages.Client.{ok_message, send_ok_message}
use webrtc_cdn.Messages.Redis.{redis_broadcast_channel, info_message}
use webrtc_cdn.Connection.Requests.{
  param, new_source, alloc_source, note_source, start_source, receive_publish_message,
}
use webrtc_cdn.Connection.Accept.{IsValid, HasRoom, validated_lem, within_limits_lem}
use webrtc_cdn.Connection.Publish.{
  FromOther, FromOther-CanClose, CanClose-source_at, IsPublished, publish_source, begin_source,
  publish_source-IsPublished,
}
use webrtc_cdn.Registry.{Registry, registry}
use webrtc_cdn.Registry.Change.{replace_source}
use webrtc_cdn.Registry.Streams.{unlocked, NoLeaf-cons}
use webrtc_cdn.Registry.Replace.{CanClose, register_source-announces}

-- The run ends with this registry, and the last message is an INFO to all nodes.
abbrev pub Announces : Str → Registry → State → Outcome → Type 0
Announces sid r s o =
    (t : State) × (before : List Event) × (o ≡ done t)
    × (t.out ≡ published redis_broadcast_channel (info_message s.node.id sid) ∷ before)
    × (registry t ≡ r)

start_source-Announces :
    (h : ℕ) (id : Str) (p : ℕ) (s : State)
    → CanClose (handler_status h ∷ []) (lookup (s.source_at p).sid s.node.sources) s
    → s.node.stand_alone ≡ false
    → Announces
        (s.source_at p).sid
        (begin_source p (
          replace_source p (record (registry s) {
            handler_at = update s.handler_at h (note_source id p (s.handler_at h));
          })))
        s
        (start_source h id p (handler_status h ∷ []) s)
unfolding start_source send_ok_message
start_source-Announces h id p s can joined =
    let locks = handler_status h ∷ [] in
    let still = NoLeaf-cons (handler_status h) [] refl unlocked in
    let noted =
      emit (to_client h (ok_message id)) (set_handler h (note_source id p (s.handler_at h)) s) in
    let (t, before, run, out, same) =
      register_source-announces locks still p noted refl (CanClose-source_at locks _ s _ refl can)
        joined in
    (spawn (run_source p) t, before, rw run refl, out, ap (begin_source p) same)

module _ (u : Unicode) (jwt : Jwt) (secret : Str) (h : ℕ) (msg : SignalingMessage) (s : State) where
  -- An accepted PUBLISH of a node that does not stand alone.
  pub receive_publish_message-announces :
      IsValid jwt secret (codes "stream_publish") msg
      → HasRoom h (param (codes "request-id") msg) s
      → FromOther h (lookup (param (codes "stream-id") msg) s.node.sources) s
      → s.node.stand_alone ≡ false
      → (t : State) × (before : List Event) × (receive_publish_message u jwt secret h msg [] s
          ≡ done t)
        × (t.out
            ≡ published redis_broadcast_channel
                (info_message s.node.id (param (codes "stream-id") msg))
              ∷ before)
        × IsPublished h s.next_ref (new_source u h msg) (registry s) (registry t)
  unfolding receive_publish_message alloc_source new_source publish_source
  receive_publish_message-announces v room other joined =
      let id = param (codes "request-id") msg in
      let made = alloc_source (new_source u h msg) s in
      let new : made.source_at s.next_ref ≡ new_source u h msg =
        update_self s.source_at s.next_ref _ in
      let can : CanClose (handler_status h ∷ [])
          (lookup (made.source_at s.next_ref).sid s.node.sources) made =
        rw new (FromOther-CanClose h _ _ s made other refl) in
      let (t, before, run, out, same) = start_source-Announces h id s.next_ref made can joined in
      (
        t,
        before,
        rw
            (
              validated_lem jwt secret _ h msg _ v,
              within_limits_lem h id _ [] made refl
                  (record { unused = room.unused; below_limit = room.below_limit }),
            )
            run,
        out
            ∙ ap
                (λ (v : WrtcSource).
                  published redis_broadcast_channel (info_message s.node.id v.sid) ∷ before)
                new,
        subst (IsPublished h s.next_ref (new_source u h msg) (registry s)) (sym same)
            (publish_source-IsPublished h (new_source u h msg) s other),
      )
