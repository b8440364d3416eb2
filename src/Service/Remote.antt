-- ===== src/Service/Remote.antt =====
-- The goroutines and callbacks of senders and relays.
use webrtc_cdn.Prelude.{
  ℕ, ◌≤◌, Bool, true, not, ◌&&◌, ◌||◌, List, [], ◌∷◌, Option, none, some, Str, Map, codes, ◌≡◌,
  refl, sym, subst, arith, inl, inr, Bool-cases, Option-cases, delete, str_key,
}
use webrtc_cdn.Machine.State.{
  State, WebrtcCdnNode, spawn, run_pipe, set_node, set_relay, set_sender, close_peer,
}
use webrtc_cdn.Machine.Op.{Mutex, node_status, relay_status, sender_status, values}
use webrtc_cdn.Peer.Api.{PeerResults, outgoing_offer, relay_answer, is_some}
use webrtc_cdn.Peer.Sink.{sink_on_tracks_ready, sink_on_tracks_closed}
use webrtc_cdn.Peer.Sender.{sender_run_after_tracks_ready, sender_candidate_found}
use webrtc_cdn.Peer.Relay.{relay_on_offer, relay_candidate_found}
use webrtc_cdn.Node.Sinks.{sinks_of}
use webrtc_cdn.Node.Sources.{Kind, senders_of}
use webrtc_cdn.Node.Remote.{
  sender_to, leave_senders, on_sender_closed, sender_on_close, on_relay_ready, on_relay_closed,
  relay_on_close, relay_track, relay_on_track, is_empty,
}
use webrtc_cdn.Messages.Redis.{
  send_sender_offer, send_relay_answer, send_sender_candidate, send_relay_candidate,
  send_redis_message, offer_message, data_message,
}
use webrtc_cdn.Registry.{registry, Yields, Yields-done}
use webrtc_cdn.Registry.Change.{without_relay}
use webrtc_cdn.Registry.Leaf.{
  registry-close_peer, sink_on_tracks_ready-Yields, sink_on_tracks_closed-Yields, for_each-Yields,
}
use webrtc_cdn.Registry.Sinks.{send_resolve_message-Yields}
use webrtc_cdn.Registry.Consistent.{IsConsistent, unchanged-IsConsistent}
use webrtc_cdn.Registry.Consistent.Relays.{without_relay-IsConsistent}
use webrtc_cdn.Service.Keeps.{Keeps, Yields-Keeps, if-Keeps}

pub send_redis_message-Yields :
    (channel : Str) (m : Map Str Str) (held : List Mutex) (s : State)
    → Yields (registry s) (send_redis_message channel m held s)
unfolding send_redis_message
send_redis_message-Yields channel m held s = elim (Bool-cases s.node.stand_alone) [
  | inl alone ↦ rw alone
  | inr joined ↦ rw joined
]

send_sender_offer-Keeps :
    (p : ℕ) (offer : Str) (held : List Mutex) (s : State)
    → IsConsistent (registry s)
    → Keeps (send_sender_offer p offer held s)
unfolding send_sender_offer
send_sender_offer-Keeps p offer held s c =
    Yields-Keeps (registry s) (send_sender_offer p offer held s)
      (send_redis_message-Yields (s.sender_at p).remote_id
        (offer_message s.node.id (s.sender_at p) offer) held s)
      c

send_relay_answer-Keeps :
    (p : ℕ) (answer : Str) (held : List Mutex) (s : State)
    → IsConsistent (registry s)
    → Keeps (send_relay_answer p answer held s)
unfolding send_relay_answer
send_relay_answer-Keeps p answer held s c =
    let relay = s.relay_at p in
    Yields-Keeps (registry s) (send_relay_answer p answer held s)
      (send_redis_message-Yields relay.remote_id
        (data_message (codes "ANSWER") s.node.id relay.remote_id relay.sid answer) held s)
      c

module _ (results : PeerResults) (p : ℕ) (s : State) (c : IsConsistent (registry s)) where
  pub sender_starts-Keeps : Keeps (sender_run_after_tracks_ready results p [] s)
  unfolding sender_run_after_tracks_ready
  sender_starts-Keeps =
      let k = s.sender_at p in
      elim (Bool-cases (not k.has_video && not k.has_audio)) [
        | inl idle ↦ rw idle c
        | inr busy ↦ elim (Option-cases results.new_peer_connection) [
          | inl e ↦ rw (busy, e) c
          | inr (n, e) ↦ elim (Option-cases (outgoing_offer results k.has_audio k.has_video)) [
            | inl f ↦ rw (busy, e, f) c
            | inr (offer, f) ↦
                rw (busy, e, f)
                  (send_sender_offer-Keeps p offer (sender_status p ∷ [])
                    (set_sender p (record k { peer_connection = some n }) s) c)
          ]
        ]
      ]

  pub relay_offered-Keeps :
      (has_video has_audio : Bool) → Keeps (relay_on_offer results p has_video has_audio [] s)
  unfolding relay_on_offer
  relay_offered-Keeps has_video has_audio =
      let t =
        set_relay p (record (s.relay_at p) { has_video = has_video; has_audio = has_audio }) s in
      let u = close_peer (s.relay_at p).peer_connection t in
      let ok : IsConsistent (registry u) =
        subst IsConsistent (sym (registry-close_peer (s.relay_at p).peer_connection t)) c in
      elim (Option-cases results.new_peer_connection) [
        | inl e ↦ rw (Keeps, e) ok
        | inr (n, e) ↦ elim (Option-cases (relay_answer results)) [
          | inl f ↦ rw (Keeps, e, f) ok
          | inr (answer, f) ↦
              rw (Keeps, e, f)
                (send_relay_answer-Keeps p answer (relay_status p ∷ [])
                  (set_relay p (record (u.relay_at p) { peer_connection = some n }) u) ok)
        ]
      ]

leave_senders-streams :
    (sid : Str) (g : Map Str ℕ) (n : WebrtcCdnNode)
    → ((leave_senders sid g n).sources ≡ n.sources)
      × ((leave_senders sid g n).relays ≡ n.relays)
      × ((leave_senders sid g n).sinks ≡ n.sinks)
unfolding leave_senders
leave_senders-streams sid [] n = (refl, refl, refl)
leave_senders-streams sid (e ∷ g) n = (refl, refl, refl)

module _ (p : ℕ) (s : State) (c : IsConsistent (registry s)) where
  pub sender_lost-Keeps : Keeps (sender_on_close p [] s)
  unfolding sender_on_close on_sender_closed
  sender_lost-Keeps =
      let k = (set_sender p (record (s.sender_at p) { peer_connection = none }) s).sender_at p in
      let low : s.next_ref ≤ s.next_ref = omega arith in
      let (sources, relays, sinks) =
        leave_senders-streams k.sid (delete k.remote_id (senders_of k.sid s.node)) s.node in
      if-Keeps (is_some (sender_to k.sid k.remote_id s.node)) _ _
        (unchanged-IsConsistent (registry s) _ sources relays sinks refl refl refl refl low c) c

  -- `onRelayReady` and `onRelayClosed`, of a relay whose mutex is held.
  relay_ready-Keeps : Keeps (on_relay_ready p (relay_status p ∷ []) s)
  unfolding on_relay_ready
  relay_ready-Keeps =
      let v = s.relay_at p in
      Yields-Keeps (registry s) _
        (for_each-Yields (λ k. sink_on_tracks_ready k v.local_track_video v.local_track_audio)
          (node_status ∷ relay_status p ∷ []) (registry s) (values (sinks_of v.sid s.node))
          (set_relay p (record v { ready = true }) s)
          (λ k u.
            sink_on_tracks_ready-Yields k (node_status ∷ relay_status p ∷ []) u v.local_track_video
              v.local_track_audio refl)
          refl)
        c

  relay_closed-Keeps : Keeps (on_relay_closed p (relay_status p ∷ []) s)
  unfolding on_relay_closed
  relay_closed-Keeps =
      let v = s.relay_at p in
      let locks = node_status ∷ relay_status p ∷ [] in
      let gone = without_relay v.sid (registry s) in
      let low : s.next_ref ≤ s.next_ref = omega arith in
      let left = set_node (record (s.node) { relays = delete v.sid s.node.relays }) s in
      let waiting = sinks_of v.sid left.node in
      let (t, run, same) = Yields-done _ (
        for_each-Yields (λ k. sink_on_tracks_closed k v.local_track_video v.local_track_audio) locks
          gone (values waiting) left
          (λ k u.
            sink_on_tracks_closed-Yields k locks u v.local_track_video v.local_track_audio refl)
          refl) in
      let ok : IsConsistent (registry t) =
        subst IsConsistent (sym same) (without_relay-IsConsistent v.sid (registry s) c) in
      rw run (
        if-Keeps (not (is_empty waiting)) _ _
          (Yields-Keeps (registry t) _ (send_resolve_message-Yields v.sid locks t) ok) ok)

-- A track leaves the stream of its relay, which is all that the registry could see.
module _ (p : ℕ) (s : State) (c : IsConsistent (registry s)) where
  pub relay_track_found-Keeps :
      (kind : Kind) (made : Option ℕ) → Keeps (relay_on_track p kind made [] s)
  unfolding relay_on_track
  relay_track_found-Keeps kind made = elim (Option-cases (relay_track kind made (s.relay_at p))) [
    | inl e ↦ rw (Keeps, e) c
    | inr (w, e) ↦
        rw (Keeps, e)
          (if-Keeps
            ((not w.has_audio || is_some w.local_track_audio)
              && (not w.has_video || is_some w.local_track_video))
            _ _ (relay_ready-Keeps p (spawn (run_pipe made) (set_relay p w s)) c) c)
  ]

  pub relay_lost-Keeps : Keeps (relay_on_close p [] s)
  unfolding relay_on_close
  relay_lost-Keeps =
      let relay = s.relay_at p in
      let t =
        set_relay p (record relay { peer_connection = none })
          (close_peer relay.peer_connection s) in
      let ok : IsConsistent (registry t) =
        subst IsConsistent (sym (registry-close_peer relay.peer_connection s)) c in
      relay_closed-Keeps p t ok

module _ (p : ℕ) (json : Str) (s : State) (c : IsConsistent (registry s)) where
  pub sender_candidate-Keeps : Keeps (sender_candidate_found p json [] s)
  unfolding sender_candidate_found send_sender_candidate
  sender_candidate-Keeps =
      let k = s.sender_at p in
      Yields-Keeps (registry s)
        (send_redis_message k.remote_id
          (data_message (codes "CANDIDATE") s.node.id k.remote_id k.sid json) (sender_status p ∷ [])
          s)
        (send_redis_message-Yields k.remote_id _ (sender_status p ∷ []) s) c

  pub relay_candidate-Keeps : Keeps (relay_candidate_found p json [] s)
  unfolding relay_candidate_found send_relay_candidate
  relay_candidate-Keeps =
      let k = s.relay_at p in
      Yields-Keeps (registry s)
        (send_redis_message k.remote_id
          (data_message (codes "CANDIDATE") s.node.id k.remote_id k.sid json) (relay_status p ∷ [])
          s)
        (send_redis_message-Yields k.remote_id _ (relay_status p ∷ []) s) c
