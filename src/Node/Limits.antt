-- ===== src/Node/Limits.antt =====
-- http_server.go: the count of connections of each IP address, and the HTTP handler.
pub mod Leak
pub mod Counting
pub mod Sessions
use webrtc_cdn.Prelude.{
  ℕ, suc, ◌-◌, Bool, true, false, List, [], ◌∷◌, Option, none, some, Str, codes, if◌then◌else◌, leb,
  str_eq, lookup, insert, delete, nat_key, str_key,
}
use webrtc_cdn.Strings.{split}
use webrtc_cdn.Machine.State.{
  State, WebrtcCdnNode, ConnectionHandler, http_status, emit, set_node, spawn, run_handler, update,
}
use webrtc_cdn.Machine.Op.{Op, change, skip, ◌>>=◌, ◌>>◌}
use webrtc_cdn.Messages.Client.{inc32}
use webrtc_cdn.Node.Sinks.{inc64}

-- `getRequestID`
unfoldable pub get_request_id : WebrtcCdnNode → WebrtcCdnNode × ℕ
get_request_id n = (record n { req_count = inc64 n.req_count }, inc64 n.req_count)

-- An absent key of `ipCount` reads as 0.
unfoldable pub count_of : Str → WebrtcCdnNode → ℕ
count_of ip n = elim (lookup ip n.ip_count) [ none ↦ 0 | some c ↦ c ]

-- `AddIP`
unfoldable pub add_ip : Str → WebrtcCdnNode → WebrtcCdnNode × Bool
add_ip ip n =
    let c = count_of ip n in
    if leb n.ip_limit c
    then (n, false)
    else (record n { ip_count = insert ip (inc32 c) n.ip_count }, true)

-- `RemoveIP`
unfoldable pub remove_ip : Str → WebrtcCdnNode → WebrtcCdnNode
remove_ip ip n =
    let c = count_of ip n in
    if leb c 1
    then record n { ip_count = delete ip n.ip_count }
    else record n { ip_count = insert ip (c - 1) n.ip_count }

-- `net.ParseCIDR` of a range and `Contains` of the parsed address; `none` is an error.
abbrev pub Ranges : Type 0
Ranges = Str → Str → Option Bool

-- The loop of `isIPExempted`.
unfoldable pub in_ranges : Ranges → Str → List Str → Bool
in_ranges contains ip [] = false
in_ranges contains ip (part ∷ parts) = elim (contains part ip) [
  | some true ↦ true
  | _ ↦ in_ranges contains ip parts
]

-- `isIPExempted`, with the value of `CONCURRENT_LIMIT_WHITELIST`.
unfoldable pub is_ip_exempted : Ranges → Str → Str → Bool
is_ip_exempted contains [] ip = false
is_ip_exempted contains (c ∷ r) ip =
    if str_eq (c ∷ r) (codes "*") then true else in_ranges contains ip (split b',' (c ∷ r))

-- A request: the host of `RemoteAddr` (`none` where it cannot be split), whether the path is /ws,
-- and whether the upgrade to a websocket succeeds.
pub record Request : Type 0 where
  pub remote_ip : Option Str
  pub is_websocket : Bool
  pub upgrades : Bool

-- `Connection_Handler.init` and the fields set before it.
unfoldable pub new_handler : ℕ → Str → ConnectionHandler
new_handler id ip = record {
  id = id;
  ip = ip;
  last_heartbeat = 0;
  closed = false;
  requests = [];
  request_count = 0;
  sources = [];
  sinks = [];
}

-- The handler made, registered and started.
unfoldable pub add_handler : ℕ → Str → State → State
add_handler id ip s = spawn (run_handler s.next_ref) (record s {
  handler_at = update s.handler_at s.next_ref (new_handler id ip);
  next_ref = suc s.next_ref;
  node = record (s.node) { connections = insert id s.next_ref s.node.connections };
})

-- From `Upgrade` on.
unfoldable pub upgrade : ℕ → Str → Bool → Op
upgrade id ip false = skip
upgrade id ip true = change (add_handler id ip)

-- The check of the limit, and `upgrade`.
unfoldable pub admit : ℕ → Str → Bool → Bool → Op
admit id ip upgrades true = upgrade id ip upgrades
admit id ip upgrades false = do
  added ← λ s. add_ip ip s.node
  change (set_node added.0)
  elim added.1 [ true ↦ upgrade id ip upgrades | false ↦ change (emit (http_status id 429)) ]

-- `ServeHTTP`
unfoldable pub serve_http : Ranges → Str → Request → Op
serve_http contains whitelist r = do
  next ← λ s. get_request_id s.node
  change (set_node next.0)
  elim r.remote_ip [
    | none ↦ change (emit (http_status next.1 200))
    | some ip ↦ elim r.is_websocket [
      | true ↦ admit next.1 ip r.upgrades (is_ip_exempted contains whitelist ip)
      | false ↦ change (emit (http_status next.1 200))
    ]
  ]

-- `onConnectionClose`
unfoldable pub on_connection_close : ℕ → Str → WebrtcCdnNode → WebrtcCdnNode
on_connection_close id ip n =
    let m = remove_ip ip n in record m { connections = delete id m.connections }
