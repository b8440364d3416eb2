-- ===== src/Startup/Servers.antt =====
-- The servers and clients that the environment sets up: `runHTTPServer` and `runHTTPSecureServer` of
-- http_server.go, the Redis client of `run` of node.go and of `setupRedisListener` of redis_srv.go, and
-- wrtc_config.go. Each is the configuration that is handed to a library.
pub mod Ports
use webrtc_cdn.Prelude.{
  Bool, true, false, ◌||◌, List, [], ◌∷◌, ◌++◌, Option, none, some, Str, codes, str_eq,
  if◌then◌else◌,
}
use webrtc_cdn.Startup.Numbers.{ℤ, pos, itoa, atoi}
use webrtc_cdn.Startup.Log.{Getenv}

-- A number from the environment: the default where the variable is empty or does not parse.
unfoldable pub custom_number : Str → ℤ → ℤ
custom_number custom default = elim (atoi custom) [ none ↦ default | some n ↦ n ]

-- The port of `runHTTPServer`, and the address it listens on.
unfoldable pub tcp_port : Getenv → ℤ
unfolding custom_number
tcp_port getenv = custom_number (getenv (codes "HTTP_PORT")) (pos 80)

unfoldable pub http_address : Getenv → Str
unfolding tcp_port
http_address getenv = getenv (codes "BIND_ADDRESS") ++ (codes ":" ++ itoa (tcp_port getenv))

-- The server of `runHTTPSecureServer`: its address, and what the certificate loader is given.
pub record TlsServer : Type 0 where
  pub address : Str
  pub certificate_path : Str
  pub key_path : Str
  pub check_reload_seconds : ℤ

unfoldable pub ssl_port : Getenv → ℤ
unfolding custom_number
ssl_port getenv = custom_number (getenv (codes "SSL_PORT")) (pos 443)

unfoldable pub tls_server : Getenv → TlsServer
unfolding ssl_port custom_number
tls_server getenv = record {
  address = getenv (codes "BIND_ADDRESS") ++ (codes ":" ++ itoa (ssl_port getenv));
  certificate_path = getenv (codes "SSL_CERT");
  key_path = getenv (codes "SSL_KEY");
  check_reload_seconds = custom_number (getenv (codes "SSL_CHECK_RELOAD_SECONDS")) (pos 60);
}

-- Without both files there is no server.
unfoldable pub https_server : Getenv → Option TlsServer
unfolding tls_server
https_server getenv =
    if str_eq (getenv (codes "SSL_CERT")) [] || str_eq (getenv (codes "SSL_KEY")) []
    then none
    else some (tls_server getenv)

-- `redis.Options`
pub record RedisOptions : Type 0 where
  pub addr : Str
  pub password : Str
  pub tls : Bool

abbrev pub or_default : Str → Str → Str
or_default [] default = default
or_default (c ∷ s) default = c ∷ s

abbrev pub redis_options : Getenv → RedisOptions
redis_options getenv = record {
  addr =
      or_default (getenv (codes "REDIS_HOST")) (codes "localhost")
      ++ (codes ":" ++ or_default (getenv (codes "REDIS_PORT")) (codes "6379"));
  password = getenv (codes "REDIS_PASSWORD");
  tls = str_eq (getenv (codes "REDIS_TLS")) (codes "YES");
}

-- The client of `run`, for sending; a node that stands alone has none.
unfoldable pub redis_sender : Bool → Getenv → Option RedisOptions
redis_sender stand_alone getenv = if stand_alone then none else some (redis_options getenv)

-- What `setupRedisListener` connects to, and the channels it subscribes to.
pub record Subscription : Type 0 where
  pub options : RedisOptions
  pub channels : List Str

unfoldable pub redis_listener : Bool → Str → Getenv → Option Subscription
redis_listener stand_alone id getenv =
    if stand_alone
    then none
    else some (record { options = redis_options getenv; channels = codes "webrtc_cdn" ∷ id ∷ [] })

-- `webrtc.ICEServer`
pub record IceServer : Type 0 where
  pub urls : List Str
  pub username : Str
  pub credential : Str

-- `loadWebRTCConfig`: the ICE servers.
unfoldable pub load_webrtc_config : Getenv → List IceServer
load_webrtc_config getenv =
    record {
      urls = or_default (getenv (codes "STUN_SERVER")) (codes "stun:stun.l.google.com:19302") ∷ [];
      username = [];
      credential = [];
    }
    ∷ (if str_eq (getenv (codes "TURN_SERVER")) []
        then []
        else record {
          urls = getenv (codes "TURN_SERVER") ∷ [];
          username = getenv (codes "TURN_USERNAME");
          credential = getenv (codes "TURN_PASSWORD");
        }
          ∷ [])
