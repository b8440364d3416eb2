-- ===== src/Node/Limits/Leak.antt =====
-- Upgrades that fail, in `ServeHTTP` of http_server.go.
use webrtc_cdn.Prelude.{
  ℕ, zero, suc, ◌+◌, ◌^◌, ◌<◌, List, Bool, true, false, [], ◌∷◌, some, Str, ◌≡◌, refl, ◌∙◌, arith,
  str_eq_iff,
}
use webrtc_cdn.Machine.State.{State, Event, set_node, emit, http_status}
use webrtc_cdn.Machine.Op.{Outcome, done, after}
use webrtc_cdn.Node.Sinks.{inc64}
use webrtc_cdn.Node.Limits.{
  Ranges, Request, count_of, add_ip, get_request_id, admit, upgrade, is_ip_exempted, serve_http,
}
use webrtc_cdn.Node.Limits.Counting.{count_of-add_ip}

-- A request to /ws from an address, which is or is not upgraded.
abbrev pub to_websocket : Str → Bool → Request
to_websocket ip upgrades = record { remote_ip = some ip; is_websocket = true; upgrades = upgrades }

-- `k` requests in a row whose upgrade fails.
pub fail_upgrades : Ranges → Str → Str → ℕ → State → Outcome
fail_upgrades contains whitelist ip zero s = done s
fail_upgrades contains whitelist ip (suc k) s =
    after (serve_http contains whitelist (to_websocket ip false) [] s)
      (fail_upgrades contains whitelist ip k)

-- Requests in a row, each of which would or would not be upgraded.
pub ask_again : Ranges → Str → Str → List Bool → State → Outcome
ask_again contains whitelist ip [] s = done s
ask_again contains whitelist ip (upgrades ∷ rest) s =
    after (serve_http contains whitelist (to_websocket ip upgrades) [] s)
      (ask_again contains whitelist ip rest)

-- The events where each of them is refused, after so many requests to the node.
abbrev pub refusals : List Bool → ℕ → List Event → List Event
refusals [] n out = out
refusals (upgrades ∷ rest) n out = refusals rest (inc64 n) (http_status (inc64 n) 429 ∷ out)

-- What a request whose upgrade fails leaves behind.
record Leaked (ip : Str) (k : ℕ) (s t : State) : Type 0 where
  counted : count_of ip t.node ≡ count_of ip s.node + k
  limit : t.node.ip_limit ≡ s.node.ip_limit
  connections : t.node.connections ≡ s.node.connections
  tasks : t.tasks ≡ s.tasks

after_failed : Str → State → State
after_failed ip s = let n = (get_request_id s.node).0 in set_node (add_ip ip n).0 (set_node n s)

after_failed-Leaked :
    (ip : Str) (s : State)
    → s.node.ip_limit < 2 ^ 32
    → count_of ip s.node < s.node.ip_limit
    → Leaked ip 1 s (after_failed ip s)
unfolding after_failed get_request_id add_ip count_of
after_failed-Leaked ip s wide below =
    let counts = count_of-add_ip ip ip (get_request_id s.node).0 wide in
    record {
      counted = ground (arith, counts, str_eq_iff ip ip);
      limit = ground arith;
      connections = ground arith;
      tasks = refl;
    }

module _ (contains : Ranges) (whitelist ip : Str)
    (counts : is_ip_exempted contains whitelist ip ≡ false) where
  serve_http-failed :
      (s : State)
      → s.node.ip_limit < 2 ^ 32
      → count_of ip s.node < s.node.ip_limit
      → serve_http contains whitelist (to_websocket ip false) [] s ≡ done (after_failed ip s)
  unfolding serve_http after_failed add_ip get_request_id admit upgrade count_of
  serve_http-failed s wide below = rw (counts, admit) (ground arith)

  refused : State → State
  refused s = emit (http_status (inc64 s.node.req_count) 429) (set_node (get_request_id s.node).0 s)

  serve_http-full :
      (upgrades : Bool) (s : State)
      → count_of ip s.node ≡ s.node.ip_limit
      → serve_http contains whitelist (to_websocket ip upgrades) [] s ≡ done (refused s)
  unfolding serve_http add_ip get_request_id admit count_of refused
  serve_http-full upgrades s full = rw (counts, admit) (ground arith)

  ask_again-full :
      (asks : List Bool) (s : State)
      → count_of ip s.node ≡ s.node.ip_limit
      → (u : State) × (ask_again contains whitelist ip asks s ≡ done u)
        × (u.out ≡ refusals asks s.node.req_count s.out)
        × (u.node.connections ≡ s.node.connections)
        × (u.tasks ≡ s.tasks)
  unfolding ask_again refused get_request_id count_of
  ask_again-full [] s full = (s, refl, refl, refl, refl)
  ask_again-full (upgrades ∷ rest) s full =
      let (u, run, out, conns, tasks) = ask_again-full rest (refused s) full in
      (u, rw (serve_http-full upgrades s full) run, out, conns, tasks)

  -- Where the limit fits a uint32, an address that is not exempt, and makes so many requests to /ws that
  -- are not upgraded as there were places left for it, has all its places counted, though none of
  -- those requests made a connection or started a handler. Then any requests of it to /ws that
  -- follow at once, whether they would be upgraded or not, are all refused with status 429, and make
  -- no connection and start no handler either.
  pub fail_upgrades_lock_out :
      (k : ℕ) (asks : List Bool) (s : State)
      → s.node.ip_limit < 2 ^ 32
      → count_of ip s.node + k ≡ s.node.ip_limit
      → (t u : State) × (fail_upgrades contains whitelist ip k s ≡ done t)
        × (count_of ip t.node ≡ s.node.ip_limit)
        × (ask_again contains whitelist ip asks t ≡ done u)
        × (u.out ≡ refusals asks t.node.req_count t.out)
        × (u.node.connections ≡ s.node.connections)
        × (u.tasks ≡ s.tasks)
  unfolding fail_upgrades
  fail_upgrades_lock_out zero asks s wide full =
      let all : count_of ip s.node ≡ s.node.ip_limit = omega (arith, full) in
      let (u, run, out, conns, tasks) = ask_again-full asks s all in
      (s, u, refl, all, run, out, conns, tasks)
  fail_upgrades_lock_out (suc k) asks s wide full =
      let first = after_failed-Leaked ip s wide (omega arith) in
      let (t, u, runs, all, run, out, conns, tasks) =
        fail_upgrades_lock_out k asks (after_failed ip s) (omega arith) (omega arith) in
      (
        t,
        u,
        rw (serve_http-failed s wide (omega arith)) runs,
        all ∙ first.limit,
        run,
        out,
        conns ∙ first.connections,
        tasks ∙ first.tasks,
      )
