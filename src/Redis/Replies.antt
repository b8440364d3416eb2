-- ===== src/Redis/Replies.antt =====
-- What a node does with the messages by which two nodes agree to pass a stream on.
use webrtc_cdn.Prelude.{
  ℕ, false, List, [], ◌∷◌, Option, none, some, Str, ◌≡◌, ◌≢◌, refl, ap, ◌∙◌, insert,
  lookup-insert_self, Map, arith, lookup, str_key, str_eq, str_eq_iff,
}
use webrtc_cdn.Strings.{Unicode, to_upper, is_ascii}
use webrtc_cdn.Machine.State.{
  State, Event, WrtcSourceSender, published, emit, close_peer, update_self,
}
use webrtc_cdn.Machine.Op.{Mutex, done, when, node_status}
use webrtc_cdn.Messages.Redis.{
  resolve_message, info_message, connect_message, send_info_message, send_connect_message,
  send_redis_message,
}
use webrtc_cdn.Node.Sinks.{sinks_of, ready_source}
use webrtc_cdn.Node.Sources.{resolve_source, senders_of}
use webrtc_cdn.Node.Remote.{
  receive_info_message, receive_connect_message, drop_source, add_relay, new_relay, sender_to,
  drop_found, connect_from, close_sender, start_sender, add_sender, new_sender,
}
use webrtc_cdn.Registry.{Registry, registry, Yields, Yields-done}
use webrtc_cdn.Registry.Leaf.{sender_close-Yields}
use webrtc_cdn.Peer.Sender.{sender_on_tracks_ready}
use webrtc_cdn.Registry.Streams.{drop_relay-Yields}
use webrtc_cdn.Redis.{field, msg_type, receive_typed, receive_redis_message}

pub str_eq_ne : (a b : Str) → a ≢ b → str_eq a b ≡ false
str_eq_ne a b h = ground (arith, str_eq_iff a b)

module _ (u : Unicode) (far sid : Str) (s : State) (other : far ≢ s.node.id) where
  -- The dispatch of a message of another node.
  received_resolve :
      receive_redis_message u (resolve_message far sid) [] s
      ≡ when (resolve_source sid s) (send_info_message far sid) [] s
  unfolding receive_redis_message field resolve_message msg_type receive_typed to_upper is_ascii
      lookup insert
  received_resolve = rw (str_eq_ne far s.node.id other) refl

  pub received_info :
      receive_redis_message u (info_message far sid) [] s ≡ receive_info_message far sid [] s
  unfolding receive_redis_message field info_message msg_type receive_typed to_upper is_ascii lookup
      insert
  received_info = rw (str_eq_ne far s.node.id other) refl

  received_connect :
      (dst : Str)
      → receive_redis_message u (connect_message far dst sid) [] s
        ≡ receive_connect_message far sid [] s
  unfolding receive_redis_message field connect_message msg_type receive_typed to_upper is_ascii
      lookup insert
  received_connect dst = rw (str_eq_ne far s.node.id other) refl

-- The first answer: a node that has the source of a stream.
pub resolve-answer :
    (u : Unicode) (far sid : Str) (s : State) (p : ℕ)
    → far ≢ s.node.id
    → s.node.stand_alone ≡ false
    → lookup sid s.node.sources ≡ some p
    → receive_redis_message u (resolve_message far sid) [] s
      ≡ done (emit (published far (info_message s.node.id sid)) s)
unfolding resolve_source send_info_message send_redis_message
resolve-answer u far sid s p other joined here =
    rw (received_resolve u far sid s other, here, joined) refl

drop_source_absent :
    (sid : Str) (held : List Mutex) (s : State)
    → lookup sid s.node.sources ≡ none
    → drop_source sid held s ≡ done s
unfolding drop_source drop_found
drop_source_absent sid held s e = rw e refl

-- The second: a node that has sinks for the stream, and no source of its own.
pub info-answer :
    (u : Unicode) (far sid : Str) (s : State) (e : ℕ × ℕ) (g : Map ℕ ℕ)
    → far ≢ s.node.id
    → s.node.stand_alone ≡ false
    → lookup sid s.node.sources ≡ none
    → sinks_of sid s.node ≡ e ∷ g
    → (t : State) × (p : ℕ) × (rest : List Event) × (receive_redis_message u
          (info_message far sid)
          []
          s
        ≡ done t)
      × (t.out ≡ published far (connect_message s.node.id far sid) ∷ rest)
      × (lookup sid t.node.relays ≡ some p)
      × (t.relay_at p ≡ new_relay sid far)
unfolding receive_info_message send_connect_message send_redis_message add_relay
info-answer u far sid s e g other joined absent waiting =
    let (t, run, same) = Yields-done _ (drop_relay-Yields (node_status ∷ []) (λ p. refl) sid s) in
    let alone : t.node.stand_alone ≡ false =
      ap (λ (r : Registry). r.node.stand_alone) same ∙ joined in
    let id : t.node.id ≡ s.node.id = ap (λ (r : Registry). r.node.id) same in
    (
      emit (published far (connect_message s.node.id far sid)) (add_relay sid far t),
      t.next_ref,
      t.out,
      rw
          (
            received_info u far sid s other,
            drop_source_absent sid (node_status ∷ []) s absent,
            waiting,
            run,
            alone,
            id,
          )
          refl,
      refl,
      lookup-insert_self sid t.next_ref t.node.relays,
      update_self t.relay_at t.next_ref _,
    )

pub close_sender-Yields :
    (o : Option ℕ) (s : State) → Yields (registry s) (close_sender o (node_status ∷ []) s)
unfolding close_sender
close_sender-Yields none s = refl
close_sender-Yields (some r) s = sender_close-Yields r (node_status ∷ []) s refl

close_peer_node : (c : Option ℕ) (s : State) → (close_peer c s).node ≡ s.node
close_peer_node none s = refl
close_peer_node (some c) s = refl

-- The start of a sender leaves the maps of the node and the names of the sender.
start_sender_lem :
    (p : ℕ) (o : Option (Option ℕ × Option ℕ)) (s : State)
    → (t : State) × (start_sender p o (node_status ∷ []) s ≡ done t)
      × (t.node ≡ s.node)
      × ((t.sender_at p).sid ≡ (s.sender_at p).sid)
      × ((t.sender_at p).remote_id ≡ (s.sender_at p).remote_id)
unfolding start_sender sender_on_tracks_ready
start_sender_lem p none s = (s, refl, refl, refl, refl)
start_sender_lem p (some t) s =
    let c = (s.sender_at p).peer_connection in
    let own = update_self (close_peer c s).sender_at p _ in
    (
      _,
      refl,
      close_peer_node c s,
      ap (λ (x : WrtcSourceSender). x.sid) own,
      ap (λ (x : WrtcSourceSender). x.remote_id) own,
    )

sender_to-add_sender :
    (sid far : Str) (q : ℕ) (t : State) → sender_to sid far (add_sender sid far q t).node ≡ some q
unfolding sender_to add_sender senders_of
sender_to-add_sender sid far q t = ground (
  arith,
  lookup-insert_self sid (insert far q (senders_of sid t.node)) t.node.senders,
  lookup-insert_self far q (senders_of sid t.node),
)

-- The third: the node with the source makes a sender to the node that asks.
pub connect-answer :
    (u : Unicode) (far dst sid : Str) (s : State) (p : ℕ)
    → far ≢ s.node.id
    → lookup sid s.node.sources ≡ some p
    → (t : State) × (q : ℕ) × (receive_redis_message u (connect_message far dst sid) [] s ≡ done t)
      × (sender_to sid far t.node ≡ some q)
      × ((t.sender_at q).sid ≡ sid)
      × ((t.sender_at q).remote_id ≡ far)
unfolding receive_connect_message connect_from add_sender new_sender
connect-answer u far dst sid s p other here =
    let (t, run, same) = Yields-done _ (close_sender-Yields (sender_to sid far s.node) s) in
    let q = t.next_ref in
    let made = add_sender sid far q t in
    let (v, run', node, name, remote) = start_sender_lem q (ready_source sid made) made in
    let own = update_self t.sender_at q (new_sender sid far) in
    (
      v,
      q,
      rw (received_connect u far sid s other dst, here, run) run',
      ap (sender_to sid far) node ∙ sender_to-add_sender sid far q t,
      name ∙ ap (λ (x : WrtcSourceSender). x.sid) own,
      remote ∙ ap (λ (x : WrtcSourceSender). x.remote_id) own,
    )
