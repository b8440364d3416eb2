-- ===== src/Node/Limits/Sessions.antt =====
-- The connections that a node holds, from `ServeHTTP` to `onConnectionClose` of http_server.go.
pub mod Bound
use webrtc_cdn.Prelude.{
  ℕ, suc, ◌+◌, ◌-◌, ◌^◌, ◌<◌, ◌≤◌, Bool, true, false, List, [], ◌∷◌, ◌++◌, Str, ◌≡◌, ◌≢◌, refl, ap,
  sym, subst, arith, inl, inr, Bool-cases, leb, if◌then◌else◌, lookup, insert, lookup-insert,
  str_key, nat_key, str_eq, str_eq_iff,
}
use webrtc_cdn.Machine.State.{State, WebrtcCdnNode, set_node, emit, http_status}
use webrtc_cdn.Machine.Op.{Outcome, done}
use webrtc_cdn.Messages.Client.{inc32}
use webrtc_cdn.Node.Sinks.{inc64}
use webrtc_cdn.Node.Limits.{
  Ranges, count_of, add_ip, get_request_id, add_handler, admit, upgrade, is_ip_exempted, serve_http,
  remove_ip, on_connection_close,
}
use webrtc_cdn.Node.Limits.Counting.{count_of-add_ip, count_of-remove_ip}
use webrtc_cdn.Node.Limits.Leak.{to_websocket}

-- How many of these addresses are this one.
abbrev pub count : Str → List Str → ℕ
count ip [] = 0
count ip (other ∷ ips) = (if str_eq other ip then 1 else 0) + count ip ips

-- The addresses of the open connections, in the states that a node, whose limit fits a uint32, comes
-- to: a websocket request that is
-- upgraded where it is not refused, the end of an open connection, and what leaves the counts alone.
pub data Sessions (contains : Ranges) (whitelist : Str) : List Str → State → Type 0 where
  none_open :
      {s : State}
      → s.node.ip_count ≡ []
      → s.node.ip_limit < 2 ^ 32
      → Sessions contains whitelist [] s
  opens :
      {ips : List Str} {s t : State} (ip : Str)
      → Sessions contains whitelist ips s
      → serve_http contains whitelist (to_websocket ip true) [] s ≡ done t
      → t.next_ref ≢ s.next_ref
      → Sessions contains whitelist (ip ∷ ips) t
  refused :
      {ips : List Str} {s t : State} (ip : Str)
      → Sessions contains whitelist ips s
      → serve_http contains whitelist (to_websocket ip true) [] s ≡ done t
      → t.next_ref ≡ s.next_ref
      → Sessions contains whitelist ips t
  ends :
      {all : List Str} {s t : State} (before after : List Str) (id : ℕ) (ip : Str)
      → Sessions contains whitelist all s
      → all ≡ before ++ (ip ∷ after)
      → t ≡ set_node (on_connection_close id ip s.node) s
      → Sessions contains whitelist (before ++ after) t
  else_happens :
      {ips : List Str} {s t : State}
      → Sessions contains whitelist ips s
      → t.node.ip_count ≡ s.node.ip_count
      → t.node.ip_limit ≡ s.node.ip_limit
      → Sessions contains whitelist ips t

-- The node once a request has its ID.
abbrev numbered : State → State
numbered s = set_node (get_request_id s.node).0 s

-- How a websocket request of an address changes what is counted.
pub record IsCounted (exempted : Bool) (ip : Str) (s t : State) : Type 0 where
  pub opened :
      (other : Str)
      → t.next_ref ≢ s.next_ref
      → count_of other t.node
        ≡ (if str_eq ip other then (if exempted then 0 else 1) else 0) + count_of other s.node
  pub kept : (other : Str) → t.next_ref ≡ s.next_ref → count_of other t.node ≡ count_of other s.node
  pub below : exempted ≡ false → t.next_ref ≢ s.next_ref → count_of ip s.node < s.node.ip_limit
  pub limit : t.node.ip_limit ≡ s.node.ip_limit

-- A run with this end has the end of each other run of the same request.
same_end : {o : Outcome} {t u : State} → o ≡ done u → o ≡ done t → u ≡ t
same_end run other = cc

module _ (contains : Ranges) (whitelist ip : Str) (s : State) where
  exempt_request :
      is_ip_exempted contains whitelist ip ≡ true
      → serve_http contains whitelist (to_websocket ip true) [] s
        ≡ done (add_handler (inc64 s.node.req_count) ip (numbered s))
  unfolding serve_http admit upgrade get_request_id
  exempt_request free = rw (free, admit) refl

  full_request :
      is_ip_exempted contains whitelist ip ≡ false
      → leb s.node.ip_limit (count_of ip s.node) ≡ true
      → serve_http contains whitelist (to_websocket ip true) [] s
        ≡ done (emit (http_status (inc64 s.node.req_count) 429) (numbered s))
  unfolding serve_http admit upgrade get_request_id add_ip count_of
  full_request counts full = rw (counts, admit) (rw full refl)

  counted_request :
      is_ip_exempted contains whitelist ip ≡ false
      → leb s.node.ip_limit (count_of ip s.node) ≡ false
      → serve_http contains whitelist (to_websocket ip true) [] s
        ≡ done (
            add_handler
              (inc64 s.node.req_count)
              ip
              (set_node (add_ip ip (numbered s).node).0 (numbered s)))
  unfolding serve_http admit upgrade get_request_id add_ip count_of
  counted_request counts room = rw (counts, admit) (rw room refl)

  pub serve_http-IsCounted :
      s.node.ip_limit < 2 ^ 32
      → (t : State) → serve_http contains whitelist (to_websocket ip true) [] s ≡ done t
      → IsCounted (is_ip_exempted contains whitelist ip) ip s t
  unfolding add_handler get_request_id count_of add_ip
  serve_http-IsCounted wide t run = elim (Bool-cases (is_ip_exempted contains whitelist ip)) [
    | inl free ↦
        subst (IsCounted (is_ip_exempted contains whitelist ip) ip s)
          (same_end (exempt_request free) run)
          (rw free (record {
            opened = λ other new. ground arith;
            kept = λ other same. refl;
            below = λ no new. cc;
            limit = refl;
          }))
    | inr counts ↦ elim (Bool-cases (leb s.node.ip_limit (count_of ip s.node))) [
      | inl full ↦
          subst (IsCounted (is_ip_exempted contains whitelist ip) ip s)
            (same_end (full_request counts full) run)
            (rw counts (record {
              opened = λ other new. absurd (new refl);
              kept = λ other same. refl;
              below = λ no new. absurd (new refl);
              limit = refl;
            }))
      | inr room ↦
          let adds = λ (other : Str). count_of-add_ip ip other (numbered s).node wide in
          subst (IsCounted (is_ip_exempted contains whitelist ip) ip s)
            (same_end (counted_request counts room) run)
            (rw counts (record {
              opened = λ other new. ground (arith, adds other, room, str_eq_iff ip other);
              kept = λ other same. absurd (omega (arith, same));
              below = λ no new. ground (arith, room);
              limit = ground (arith, room);
            }))
    ]
  ]
