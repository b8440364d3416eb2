-- ===== src/Service/Http.antt =====
-- HTTP requests.
use webrtc_cdn.Prelude.{
  ℕ, suc, ◌≤◌, Bool, true, false, [], Str, refl, arith, inl, inr, Bool-cases, Option-cases, leb,
  insert, str_key,
}
use webrtc_cdn.Machine.State.{State, set_node}
use webrtc_cdn.Node.Limits.{
  Ranges, Request, get_request_id, count_of, add_ip, is_ip_exempted, new_handler, add_handler,
  upgrade, admit, serve_http,
}
use webrtc_cdn.Messages.Client.{inc32}
use webrtc_cdn.Node.Sinks.{inc64}
use webrtc_cdn.Registry.{registry}
use webrtc_cdn.Registry.Consistent.{IsConsistent, unchanged-IsConsistent}
use webrtc_cdn.Registry.Consistent.Handlers.{new_handler-IsConsistent}
use webrtc_cdn.Service.Keeps.{Keeps}

upgrade-Keeps :
    (id : ℕ) (ip : Str) (b : Bool) (s : State)
    → IsConsistent (registry s)
    → Keeps (upgrade id ip b [] s)
unfolding upgrade add_handler new_handler
upgrade-Keeps id ip false s c = c
upgrade-Keeps id ip true s c =
    let low : suc s.next_ref ≤ suc s.next_ref = omega arith in
    unchanged-IsConsistent _ _ refl refl refl refl refl refl refl low
      (new_handler-IsConsistent (new_handler id ip) (registry s) refl refl refl c)

admit-Keeps :
    (id : ℕ) (ip : Str) (upgrades exempted : Bool) (s : State)
    → IsConsistent (registry s)
    → Keeps (admit id ip upgrades exempted [] s)
unfolding admit add_ip
admit-Keeps id ip upgrades true s c = upgrade-Keeps id ip upgrades s c
admit-Keeps id ip upgrades false s c =
    elim (Bool-cases (leb s.node.ip_limit (count_of ip s.node))) [
      | inl full ↦ rw (Keeps, full) c
      | inr room ↦
          let n = record (s.node) {
            ip_count = insert ip (inc32 (count_of ip s.node)) s.node.ip_count;
          } in
          let low : s.next_ref ≤ s.next_ref = omega arith in
          rw (Keeps, room)
            (upgrade-Keeps id ip upgrades (set_node n s) (
              unchanged-IsConsistent (registry s) (registry (set_node n s)) refl refl refl refl refl
                refl refl low c))
    ]

pub serve_http-Keeps :
    (contains : Ranges) (whitelist : Str) (r : Request) (s : State)
    → IsConsistent (registry s)
    → Keeps (serve_http contains whitelist r [] s)
unfolding serve_http get_request_id
serve_http-Keeps contains whitelist r s c =
    let n = record (s.node) { req_count = inc64 s.node.req_count } in
    let low : s.next_ref ≤ s.next_ref = omega arith in
    let counted : IsConsistent (registry (set_node n s)) =
      unchanged-IsConsistent (registry s) (registry (set_node n s)) refl refl refl refl refl refl
        refl low c in
    elim (Option-cases r.remote_ip) [
      | inl e ↦ rw (Keeps, e) counted
      | inr (ip, e) ↦ elim (Bool-cases r.is_websocket) [
        | inl f ↦
            rw (Keeps, e, f)
              (admit-Keeps (inc64 s.node.req_count) ip r.upgrades
                (is_ip_exempted contains whitelist ip) (set_node n s) counted)
        | inr f ↦ rw (Keeps, e, f) counted
      ]
    ]
