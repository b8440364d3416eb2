-- ===== src/Connection/Publish.antt =====
-- A PUBLISH message that its handler accepts.
pub mod Announce
use webrtc_cdn.Prelude.{
  ℕ, suc, ◌<◌, List, [], ◌∷◌, Option, none, some, Str, codes, ◌≡◌, refl, ap, sym, ◌∙◌, subst, arith,
  lookup, str_key, str_eq, lookup-insert, lookup-insert_self, lookup-delete, if◌then◌else◌,
}
use webrtc_cdn.Strings.{Unicode}
use webrtc_cdn.Signaling.{SignalingMessage}
use webrtc_cdn.Auth.{Jwt}
use webrtc_cdn.Machine.State.{
  State, WrtcSource, to_client, emit, set_handler, update, update_self, update_ne,
}
use webrtc_cdn.Machine.Op.{Mutex, handler_status, done}
use webrtc_cdn.Messages.Client.{request_type_publish, ok_message, send_ok_message}
use webrtc_cdn.Connection.Requests.{
  param, request_type, new_source, alloc_source, note_source, start_source, receive_publish_message,
}
use webrtc_cdn.Connection.Accept.{IsValid, HasRoom, validated_lem, within_limits_lem}
use webrtc_cdn.Registry.{Registry, registry, Yields, Yields-done}
use webrtc_cdn.Registry.Change.{replace_source, close_source, close_old}
use webrtc_cdn.Registry.Streams.{unlocked, NoLeaf-cons}
use webrtc_cdn.Registry.Replace.{CanClose, register_source-Yields}

-- The source of a stream, if there is one, is in memory, and belongs to another handler.
abbrev pub FromOther : ℕ → Option ℕ → State → Type 0
FromOther h none s = Unit {0}
FromOther h (some old) s = (old < s.next_ref) × ((s.source_at old).connection ≡ h → ⊥)

-- The goroutine of a source is started.
abbrev pub begin_source : ℕ → Registry → Registry
begin_source p r = record r { started = p ∷ r.started }

-- An accepted PUBLISH: the new source, the request, the registration, and the start of the source.
unfoldable pub publish_source : ℕ → Str → WrtcSource → Registry → Registry
publish_source h id v r = begin_source r.next_ref (
    replace_source r.next_ref (record r {
      source_at = update r.source_at r.next_ref v;
      next_ref = suc r.next_ref;
      handler_at = update r.handler_at h (note_source id r.next_ref (r.handler_at h));
    }))

pub FromOther-CanClose :
    (h : ℕ) (o : Option ℕ) (v : WrtcSource) (s t : State)
    → FromOther h o s
    → t.source_at ≡ update s.source_at s.next_ref v
    → CanClose (handler_status h ∷ []) o t
FromOther-CanClose h none v s t other e = tt
FromOther-CanClose h (some old) v s t (fresh, other) e =
    let kept : t.source_at old ≡ s.source_at old =
      ap (λ (f : ℕ → WrtcSource). f old) e ∙ update_ne s.source_at s.next_ref old v (omega arith) in
    (refl, ground (arith, kept, other))

pub CanClose-source_at :
    (held : List Mutex) (o : Option ℕ) (s t : State)
    → t.source_at ≡ s.source_at
    → CanClose held o s
    → CanClose held o t
CanClose-source_at held none s t e can = tt
CanClose-source_at held (some old) s t e (f, g) = (f, rw e g)

-- An accepted PUBLISH, once its source is in memory.
start_source-Yields :
    (h : ℕ) (id : Str) (p : ℕ) (s : State)
    → CanClose (handler_status h ∷ []) (lookup (s.source_at p).sid s.node.sources) s
    → Yields
        (begin_source p (
          replace_source p (record (registry s) {
            handler_at = update s.handler_at h (note_source id p (s.handler_at h));
          })))
        (start_source h id p (handler_status h ∷ []) s)
unfolding start_source send_ok_message
start_source-Yields h id p s can =
    let locks = handler_status h ∷ [] in
    let still = NoLeaf-cons (handler_status h) [] refl unlocked in
    let (t, run, same) = Yields-done _ (
      register_source-Yields locks still p
        (emit (to_client h (ok_message id)) (set_handler h (note_source id p (s.handler_at h)) s))
        refl (CanClose-source_at locks _ s _ refl can)) in
    rw run (ap (begin_source p) same)

-- What an accepted PUBLISH leaves: the source of the message is that of its stream and of its
-- request, the handler has noted it, every other stream has the source it had, and no relay or sender of the stream is left.
pub record IsPublished (h p : ℕ) (v : WrtcSource) (r t : Registry) : Type 0 where
  pub made : t.source_at p ≡ v
  pub streams :
      (sid : Str)
      → lookup sid t.node.sources ≡ (if str_eq v.sid sid then some p else lookup sid r.node.sources)
  pub relays :
      (sid : Str)
      → lookup sid t.node.relays ≡ (if str_eq v.sid sid then none else lookup sid r.node.relays)
  pub senders :
      (sid : Str)
      → lookup sid t.node.senders ≡ (if str_eq v.sid sid then none else lookup sid r.node.senders)
  pub handler : t.handler_at h ≡ note_source v.request_id p (r.handler_at h)
  pub request : request_type v.request_id (t.handler_at h) ≡ request_type_publish
  pub slot : lookup v.request_id (t.handler_at h).sources ≡ some p

-- The source of a stream, if there is one, is not this one, nor of this handler.
abbrev NotMine : ℕ → ℕ → Option ℕ → Registry → Type 0
NotMine p h none r = Unit {0}
NotMine p h (some old) r = (old ≡ p → ⊥) × ((r.source_at old).connection ≡ h → ⊥)

close_old_keeps :
    (p h : ℕ) (o : Option ℕ) (r : Registry)
    → NotMine p h o r
    → ((close_old o r).node ≡ r.node)
      × ((close_old o r).source_at p ≡ r.source_at p)
      × ((close_old o r).handler_at h ≡ r.handler_at h)
unfolding close_source
close_old_keeps p h none r other = (refl, refl, refl)
close_old_keeps p h (some old) r (q, c) = (ground arith, ground (arith, q), ground (arith, c))

FromOther-NotMine :
    (h : ℕ) (o : Option ℕ) (v : WrtcSource) (s : State) (r : Registry)
    → r.source_at ≡ update s.source_at s.next_ref v
    → FromOther h o s
    → NotMine s.next_ref h o r
FromOther-NotMine h none v s r e other = tt
FromOther-NotMine h (some old) v s r e (fresh, other) =
    let kept : r.source_at old ≡ s.source_at old =
      ap (λ (f : ℕ → WrtcSource). f old) e ∙ update_ne s.source_at s.next_ref old v (omega arith) in
    ((λ q. omega arith), (λ c. ground (arith, kept, other)))

pub publish_source-IsPublished :
    (h : ℕ) (v : WrtcSource) (s : State)
    → FromOther h (lookup v.sid s.node.sources) s
    → IsPublished h s.next_ref v (registry s) (publish_source h v.request_id v (registry s))
unfolding publish_source replace_source note_source request_type
publish_source-IsPublished h v s other =
    let p = s.next_ref in
    let noted = record (registry s) {
      source_at = update s.source_at p v;
      next_ref = suc p;
      handler_at = update s.handler_at h (note_source v.request_id p (s.handler_at h));
    } in
    let (node, source, handler) =
      close_old_keeps p h (lookup v.sid s.node.sources) noted
        (FromOther-NotMine h _ v s noted refl other) in
    let own = update_self s.source_at p v in
    let mine = update_self s.handler_at h (note_source v.request_id p (s.handler_at h)) in
    record {
      made = rw own (source ∙ own);
      streams = λ sid. rw (own, node) (lookup-insert v.sid sid p s.node.sources);
      relays = λ sid. rw (own, node) (lookup-delete v.sid sid s.node.relays);
      senders = λ sid. rw (own, node) (lookup-delete v.sid sid s.node.senders);
      handler = rw own (handler ∙ mine);
      request =
          rw (own, handler, mine)
            (ground (
              arith,
              lookup-insert_self v.request_id request_type_publish (s.handler_at h).requests,
            ));
      slot = rw (own, handler, mine) (lookup-insert_self v.request_id p (s.handler_at h).sources);
    }

module _ (u : Unicode) (jwt : Jwt) (secret : Str) (h : ℕ) (msg : SignalingMessage) (s : State) where
  pub receive_publish_message-Yields :
      IsValid jwt secret (codes "stream_publish") msg
      → HasRoom h (param (codes "request-id") msg) s
      → FromOther h (lookup (param (codes "stream-id") msg) s.node.sources) s
      → Yields
          (publish_source h (param (codes "request-id") msg) (new_source u h msg) (registry s))
          (receive_publish_message u jwt secret h msg [] s)
  unfolding receive_publish_message alloc_source new_source publish_source
  receive_publish_message-Yields v room other =
      let id = param (codes "request-id") msg in
      let made = alloc_source (new_source u h msg) s in
      let new : made.source_at s.next_ref ≡ new_source u h msg =
        update_self s.source_at s.next_ref _ in
      let can : CanClose (handler_status h ∷ [])
          (lookup (made.source_at s.next_ref).sid s.node.sources) made =
        rw new (FromOther-CanClose h _ _ s made other refl) in
      rw
        (
          validated_lem jwt secret _ h msg _ v,
          within_limits_lem h id _ [] made refl
              (record { unused = room.unused; below_limit = room.below_limit }),
        )
        (start_source-Yields h id s.next_ref made can)

  -- A valid PUBLISH that its handler has room for, of a stream that has no source or one that another
  -- handler made before, ends, with no panic and no wait, and leaves the source of the message in the
  -- place of its stream and of its request, the sources, relays and senders of the other streams as
  -- they were, and no relay or senders of its own stream.
  pub receive_publish_message-IsPublished :
      IsValid jwt secret (codes "stream_publish") msg
      → HasRoom h (param (codes "request-id") msg) s
      → FromOther h (lookup (param (codes "stream-id") msg) s.node.sources) s
      → (t : State) × (receive_publish_message u jwt secret h msg [] s ≡ done t)
        × IsPublished h s.next_ref (new_source u h msg) (registry s) (registry t)
  unfolding new_source
  receive_publish_message-IsPublished v room other =
      let (t, run, same) = Yields-done _ (receive_publish_message-Yields v room other) in
      (
        t,
        run,
        subst (IsPublished h s.next_ref (new_source u h msg) (registry s)) (sym same)
            (publish_source-IsPublished h (new_source u h msg) s other),
      )
