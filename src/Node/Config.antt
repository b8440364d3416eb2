-- ===== src/Node/Config.antt =====
-- `init` of node.go: the configuration of a node. `strconv.Atoi` is given as a function: its value,
-- as a uint32, and whether it failed.
pub mod Ignored
use webrtc_cdn.Prelude.{ℕ, Bool, [], ◌∷◌, Str, codes, if◌then◌else◌, str_eq}
use webrtc_cdn.Machine.State.{WebrtcCdnNode}

pub record Environment : Type 0 where
  pub max_ip_concurrent_connections : Str
  pub max_requests_per_socket : Str
  pub stand_alone : Str
  pub concurrent_limit_whitelist : Str
  pub jwt_secret : Str

-- The value of `strconv.Atoi` as a uint32, and whether its error is not nil.
pub record Atoi : Type 0 where
  pub value : Str → ℕ
  pub failed : Str → Bool

-- `cil, e := strconv.Atoi(custom); if e != nil { limit = uint32(cil) }`
unfoldable pub custom_limit : Atoi → Str → ℕ → ℕ
custom_limit a [] limit = limit
custom_limit a (c ∷ s) limit = if a.failed (c ∷ s) then a.value (c ∷ s) else limit

-- `init`, for a node that has its `id`.
unfoldable pub init : Atoi → Environment → Str → WebrtcCdnNode
unfolding custom_limit
init a env id = record {
  id = id;
  stand_alone = str_eq env.stand_alone (codes "YES");
  req_count = 0;
  sink_count = 0;
  ip_limit = custom_limit a env.max_ip_concurrent_connections 4;
  request_limit = custom_limit a env.max_requests_per_socket 100;
  connections = [];
  ip_count = [];
  sources = [];
  relays = [];
  sinks = [];
  senders = [];
}
