-- ===== src/Tests/Idle.antt =====
-- A node that a client connects to, and asks for nothing.
use webrtc_cdn.Prelude.{
  ℕ, ◌≤◌, [], ◌∷◌, false, true, none, some, Str, codes, ◌≡◌, refl, arith, lookup, insert, str_key,
  nat_key,
}
use webrtc_cdn.Machine.State.{State}
use webrtc_cdn.Machine.Op.{done}
use webrtc_cdn.Node.Sinks.{sinks_of}
use webrtc_cdn.Node.Limits.{
  serve_http, get_request_id, is_ip_exempted, admit, add_ip, count_of, upgrade, add_handler,
  new_handler,
}
use webrtc_cdn.Node.Limits.Leak.{to_websocket}
use webrtc_cdn.Node.Limits.Sessions.{count, Sessions, none_open, opens}
use webrtc_cdn.Node.Limits.Sessions.Bound.{connections-le-limit}
use webrtc_cdn.Connection.Requests.{request_type}
use webrtc_cdn.Service.{Happening, http_request, happen, Reachable, fresh, next}
use webrtc_cdn.Service.Idle.{idle_node_serves_none}
use webrtc_cdn.Tests.Data.{quiet}
use webrtc_cdn.Tests.Service.{open_house, end_of, quiet-IsFresh}

abbrev connects : Happening
connects =
    http_request
      (record { remote_ip = some (codes "10.0.0.2"); is_websocket = true; upgrades = true })

abbrev connected : State
connected = end_of (happen open_house connects quiet)

connected_run : happen open_house connects quiet ≡ done connected
unfolding happen serve_http get_request_id is_ip_exempted admit add_ip count_of upgrade add_handler
    new_handler lookup insert
connected_run = refl

connected-Reachable : Reachable open_house connected
connected-Reachable = next connects (fresh quiet-IsFresh) tt connected_run

connected-idle : (h : ℕ) (id : Str) → request_type id (connected.handler_at h) ≡ 0
unfolding happen serve_http get_request_id is_ip_exempted admit add_ip count_of upgrade add_handler
    new_handler lookup insert request_type
connected-idle h id = ground arith

idle_node_serves_none_example :
    (lookup (codes "cam") connected.node.sources ≡ none)
    × ((id : ℕ) → lookup id (sinks_of (codes "cam") connected.node) ≡ none)
    × (lookup (codes "cam") connected.node.relays ≡ none)
idle_node_serves_none_example =
    idle_node_serves_none open_house connected connected-Reachable connected-idle (codes "cam")

connected_serve :
    serve_http open_house.contains open_house.whitelist
      (to_websocket (codes "10.0.0.2") true)
      []
      quiet
    ≡ done connected
unfolding happen
connected_serve = connected_run

connected-Sessions :
    Sessions open_house.contains open_house.whitelist (codes "10.0.0.2" ∷ []) connected
unfolding happen serve_http get_request_id is_ip_exempted admit add_ip count_of upgrade add_handler
    new_handler lookup insert
connected-Sessions =
    opens (codes "10.0.0.2") (none_open {s = quiet} refl (omega arith)) connected_serve
      (λ e. omega (arith, e))

nobody_exempt : is_ip_exempted open_house.contains open_house.whitelist (codes "10.0.0.2") ≡ false
unfolding is_ip_exempted
nobody_exempt = refl

connections-le-limit_example :
    (count (codes "10.0.0.2") (codes "10.0.0.2" ∷ []) ≡ count_of (codes "10.0.0.2") connected.node)
    × (count (codes "10.0.0.2") (codes "10.0.0.2" ∷ []) ≤ connected.node.ip_limit)
connections-le-limit_example =
    connections-le-limit open_house.contains open_house.whitelist (codes "10.0.0.2") nobody_exempt
      (codes "10.0.0.2" ∷ []) connected connected-Sessions
