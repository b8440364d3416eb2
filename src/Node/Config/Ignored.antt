-- ===== src/Node/Config/Ignored.antt =====
-- The limits that `init` of node.go takes from the environment.
use webrtc_cdn.Prelude.{ℕ, false, [], ◌∷◌, Str, ◌≡◌, refl}
use webrtc_cdn.Node.Config.{Environment, Atoi, custom_limit, init}

custom_limit_parsed :
    (a : Atoi) (custom : Str) (limit : ℕ)
    → a.failed custom ≡ false
    → custom_limit a custom limit ≡ limit
unfolding custom_limit
custom_limit_parsed a [] limit h = refl
custom_limit_parsed a (c ∷ s) limit h = rw h

-- Limits that parse are ignored: whatever numbers the environment gives, a node allows 4 connections
-- of an IP address and has the request limit 100.
pub init_limits :
    (a : Atoi) (env : Environment) (id : Str)
    → a.failed env.max_ip_concurrent_connections ≡ false
    → a.failed env.max_requests_per_socket ≡ false
    → ((init a env id).ip_limit ≡ 4) × ((init a env id).request_limit ≡ 100)
unfolding init
init_limits a env id ip requests =
    (custom_limit_parsed a _ 4 ip, custom_limit_parsed a _ 100 requests)
