-- ===== src/Service/Messages.antt =====
-- Redis messages.
use webrtc_cdn.Prelude.{
  ℕ, ◌≤◌, Bool, true, false, List, [], ◌∷◌, Option, none, some, Str, Map, codes, ◌≡◌, refl, ap, ◌∙◌,
  inl, inr, Bool-cases, delete, lookup-delete_self, nat_key, sym, subst, arith, str_eq,
  if◌then◌else◌, lookup, str_key,
}
use webrtc_cdn.Strings.{Unicode, to_upper}
use webrtc_cdn.Machine.State.{State, set_node, spawn, relay_offer}
use webrtc_cdn.Machine.Op.{done, Mutex, node_status, if_found, change}
use webrtc_cdn.Messages.Redis.{send_connect_message, connect_message}
use webrtc_cdn.Peer.Api.{is_some}
use webrtc_cdn.Peer.Sender.{sender_on_tracks_ready, sender_on_answer, sender_on_ice_candidate}
use webrtc_cdn.Peer.Relay.{relay_on_ice_candidate}
use webrtc_cdn.Node.Sinks.{sinks_of, ready_source}
use webrtc_cdn.Node.Sources.{resolve_source}
use webrtc_cdn.Node.Remote.{
  sender_to, add_sender, close_sender, start_sender, connect_from, receive_connect_message,
  add_relay, drop_found, drop_source, is_empty, receive_info_message, receive_offer_message,
  node_receive_answer, node_receive_candidate,
}
use webrtc_cdn.Redis.{
  MsgType, resolve, info, connect, offer, answer, candidate, unknown, field, msg_type,
  receive_typed, receive_redis_message,
}
use webrtc_cdn.Redis.Replies.{close_sender-Yields}
use webrtc_cdn.Registry.{Registry, registry, Yields-done}
use webrtc_cdn.Registry.Change.{without_source}
use webrtc_cdn.Registry.Leaf.{sender_on_tracks_ready-Yields}
use webrtc_cdn.Registry.Replace.{send_info_message-Yields}
use webrtc_cdn.Registry.Streams.{
  NoLeaf-cons, unlocked, source_close-Yields_notify, drop_relay-Yields,
}
use webrtc_cdn.Registry.Consistent.{IsConsistent, unchanged-IsConsistent}
use webrtc_cdn.Registry.Consistent.Take.{without_source-IsConsistent}
use webrtc_cdn.Registry.Consistent.Relays.{without_relay-IsConsistent, with_relay-IsConsistent}
use webrtc_cdn.Service.Keeps.{Keeps, Yields-Keeps, Keeps-done, if-Keeps}
use webrtc_cdn.Service.Remote.{send_redis_message-Yields}
use webrtc_cdn.Service.Requests.{registry-set_answer, registry-add_candidate}

start_sender-Keeps :
    (p : ℕ) (o : Option (Option ℕ × Option ℕ)) (s : State)
    → IsConsistent (registry s)
    → Keeps (start_sender p o (node_status ∷ []) s)
unfolding start_sender
start_sender-Keeps p none s c = c
start_sender-Keeps p (some t) s c =
    Yields-Keeps (registry s) (sender_on_tracks_ready p t.0 t.1 (node_status ∷ []) s)
      (sender_on_tracks_ready-Yields p (node_status ∷ []) s t.0 t.1 refl) c

module _ (s : State) (c : IsConsistent (registry s)) where
  connect_from-Keeps :
      (from sid : Str) (o : Option ℕ) → Keeps (connect_from from sid o (node_status ∷ []) s)
  unfolding connect_from add_sender
  connect_from-Keeps from sid none = c
  connect_from-Keeps from sid (some p) =
      let (t, run, d) = Keeps-done _ (
        Yields-Keeps (registry s) (close_sender (sender_to sid from s.node) (node_status ∷ []) s)
          (close_sender-Yields (sender_to sid from s.node) s) c) in
      let made = add_sender sid from t.next_ref t in
      let low : t.next_ref ≤ made.next_ref = omega arith in
      rw run (
        start_sender-Keeps t.next_ref (ready_source sid made) made (
          unchanged-IsConsistent (registry t) (registry made) refl refl refl refl refl refl refl low
            d))

  -- Once the local source is gone, the stream has none.
  drop_found-Frees :
      (sid : Str) (o : Option ℕ)
      → lookup sid s.node.sources ≡ o
      → (t : State) × (drop_found sid o (node_status ∷ []) s ≡ done t)
        × IsConsistent (registry t)
        × (is_some (lookup sid t.node.sources) ≡ false)
  unfolding drop_found
  drop_found-Frees sid none e = (s, refl, c, rw e refl)
  drop_found-Frees sid (some p) e =
      let (t, run, same) = Yields-done _ (
        source_close-Yields_notify (node_status ∷ []) (NoLeaf-cons node_status [] refl unlocked) p s
          refl refl) in
      let gone = set_node (record (t.node) { sources = delete sid t.node.sources }) t in
      (
        gone,
        rw run refl,
        subst (λ r. IsConsistent (without_source sid r)) (sym same)
            (without_source-IsConsistent p (registry s) c sid e),
        ap is_some (lookup-delete_self sid t.node.sources),
      )

  answer_found-Keeps :
      (json : Str) (o : Option ℕ)
      → Keeps (if_found o (λ p. sender_on_answer p json) (node_status ∷ []) s)
  unfolding sender_on_answer
  answer_found-Keeps json none = c
  answer_found-Keeps json (some p) =
      subst IsConsistent (sym (registry-set_answer (s.sender_at p).peer_connection json s)) c

  sender_candidate-Keeps :
      (json : Str) (o : Option ℕ)
      → Keeps (if_found o (λ p. sender_on_ice_candidate p json) (node_status ∷ []) s)
  unfolding sender_on_ice_candidate
  sender_candidate-Keeps json none = c
  sender_candidate-Keeps json (some p) =
      subst IsConsistent (sym (registry-add_candidate (s.sender_at p).peer_connection json s)) c

  relay_candidate-Keeps :
      (json : Str) (o : Option ℕ)
      → Keeps (if_found o (λ p. relay_on_ice_candidate p json) (node_status ∷ []) s)
  unfolding relay_on_ice_candidate
  relay_candidate-Keeps json none = c
  relay_candidate-Keeps json (some p) =
      subst IsConsistent (sym (registry-add_candidate (s.relay_at p).peer_connection json s)) c

module _ (s : State) (c : IsConsistent (registry s)) where
  offer_found-Keeps :
      (json : Str) (has_video has_audio : Bool) (o : Option ℕ)
      → Keeps (
          if_found o
            (λ p. change (spawn (relay_offer p json has_video has_audio)))
            (node_status ∷ [])
            s)
  offer_found-Keeps json has_video has_audio none = c
  offer_found-Keeps json has_video has_audio (some p) = c

send_connect-Keeps :
    (from sid : Str) (held : List Mutex) (s : State)
    → IsConsistent (registry s)
    → Keeps (send_connect_message from sid held s)
unfolding send_connect_message
send_connect-Keeps from sid held s c =
    Yields-Keeps (registry s) (send_connect_message from sid held s)
      (send_redis_message-Yields from (connect_message s.node.id from sid) held s) c

-- `receiveInfoMessage`, once the local source is gone.
add_relay-IsConsistent :
    (from sid : Str) (s : State)
    → is_some (lookup sid s.node.sources) ≡ false
    → is_empty (sinks_of sid s.node) ≡ false
    → IsConsistent (registry s)
    → IsConsistent (registry (add_relay sid from s))
unfolding add_relay
add_relay-IsConsistent from sid s free waiting c =
    with_relay-IsConsistent sid (registry s) free waiting c

module _ (s : State) (c : IsConsistent (registry s)) where
  info-Keeps : (from sid : Str) → Keeps (receive_info_message from sid [] s)
  unfolding receive_info_message drop_source sinks_of
  info-Keeps from sid =
      let locks = node_status ∷ [] in
      let (t, run, d, free) = drop_found-Frees s c sid (lookup sid s.node.sources) refl in
      let (u, gone, same) = Yields-done _ (drop_relay-Yields locks (λ p. refl) sid t) in
      let e : IsConsistent (registry u) =
        subst IsConsistent (sym same) (without_relay-IsConsistent sid (registry t) d) in
      let made = add_relay sid from u in
      elim (Bool-cases (is_empty (sinks_of sid t.node))) [
        | inl idle ↦ rw (Keeps, run, gone, idle) d
        | inr waiting ↦
            let ok =
              add_relay-IsConsistent from sid u
                (ap (λ (r : Registry). is_some (lookup sid r.node.sources)) same ∙ free)
                (ap (λ (r : Registry). is_empty (sinks_of sid r.node)) same ∙ waiting) e in
            rw (Keeps, run, gone, waiting) (send_connect-Keeps from sid locks made ok)
      ]

  typed-Keeps :
      (type : MsgType) (src : Str) (m : Map Str Str) → Keeps (receive_typed type src m [] s)
  unfolding receive_typed receive_connect_message receive_offer_message node_receive_answer
      node_receive_candidate
  typed-Keeps resolve src m =
      if-Keeps (resolve_source (field (codes "sid") m) s) _ _
        (Yields-Keeps (registry s) _ (send_info_message-Yields src (field (codes "sid") m) [] s) c)
        c
  typed-Keeps info src m = info-Keeps src (field (codes "sid") m)
  typed-Keeps connect src m = connect_from-Keeps s c src (field (codes "sid") m) _
  typed-Keeps offer src m = offer_found-Keeps s c (field (codes "data") m) _ _ _
  typed-Keeps answer src m = answer_found-Keeps s c (field (codes "data") m) _
  typed-Keeps candidate src m =
      let sid = field (codes "sid") m in
      let json = field (codes "data") m in
      let (t, run, d) = Keeps-done _ (sender_candidate-Keeps s c json (sender_to sid src s.node)) in
      rw run (relay_candidate-Keeps t d json (lookup sid t.node.relays))
  typed-Keeps unknown src m = c

  pub redis-Keeps : (u : Unicode) (m : Map Str Str) → Keeps (receive_redis_message u m [] s)
  unfolding receive_redis_message
  redis-Keeps u m =
      if-Keeps (if str_eq (field (codes "src") m) s.node.id then false else true) _ _
        (typed-Keeps (msg_type (to_upper u (field (codes "type") m))) (field (codes "src") m) m) c
