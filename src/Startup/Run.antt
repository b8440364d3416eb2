-- ===== src/Startup/Run.antt =====
-- What a node does as it starts, in order: `main` of main.go, `run` of node.go, `runHTTPServer` and
-- `runHTTPSecureServer` of http_server.go, and `setupRedisListener` of redis_srv.go up to its loop.
pub mod Served
use webrtc_cdn.Prelude.{List, [], ◌∷◌, ◌++◌, Bool, Option, none, some, Str, codes, ℕ}
use webrtc_cdn.Machine.State.{WebrtcCdnNode}
use webrtc_cdn.Node.Config.{Environment, Atoi, init}
use webrtc_cdn.Startup.Log.{Getenv}
use webrtc_cdn.Startup.Identity.{Read, make_id, node_id}
use webrtc_cdn.Startup.Servers.{
  RedisOptions, Subscription, TlsServer, http_address, https_server, redis_sender, redis_listener,
}

pub data Goroutine : Type 0 where
  setup_redis_listener run_http_server run_http_secure_server : Goroutine

-- Calls of `LogInfo` and `LogError`, calls of the libraries, and `go` statements.
pub data Action : Type 0 where
  info error : Str → Action
  new_client : RedisOptions → Action
  subscribe : Subscription → Action
  listen_and_serve : Str → Action
  new_certificate_loader listen_and_serve_tls : TlsServer → Action
  close_certificate_loader : Action
  starts : Goroutine → Action

-- `LogError` of an error that may be nil.
abbrev pub error_unless_nil : Option Str → List Action
error_unless_nil none = []
error_unless_nil (some why) = error why ∷ []

-- `runHTTPServer`, with the error that `ListenAndServe` returns.
unfoldable pub http_run : Getenv → Option Str → List Action
unfolding http_address
http_run getenv failed =
    info (codes "[HTTP] Listening on " ++ http_address getenv)
    ∷ listen_and_serve (http_address getenv)
    ∷ error_unless_nil failed

-- `runHTTPSecureServer`, for the server that the environment describes, with the errors of the
-- certificate loader and of `ListenAndServeTLS`. The loader, once made, is closed by a `defer`.
unfoldable pub serve_tls : Option Str → Option Str → TlsServer → List Action
serve_tls (some why) failed server = new_certificate_loader server ∷ error why ∷ []
serve_tls none failed server =
    new_certificate_loader server
    ∷ info (codes "[SSL] Listening on " ++ server.address)
    ∷ listen_and_serve_tls server
    ∷ (error_unless_nil failed ++ close_certificate_loader ∷ [])

unfoldable pub https_run : Getenv → Option Str → Option Str → List Action
unfolding https_server serve_tls
https_run getenv not_loaded failed = elim (https_server getenv) [
  | none ↦ []
  | some server ↦ serve_tls not_loaded failed server
]

-- `setupRedisListener` up to its loop.
unfoldable pub redis_listener_run : Bool → Str → Getenv → List Action
unfolding redis_listener
redis_listener_run stand_alone id getenv = elim (redis_listener stand_alone id getenv) [
  | none ↦ []
  | some subscription ↦
      new_client subscription.options
      ∷ subscribe subscription
      ∷ info
          (codes "[REDIS] Listening for commands on channels 'webrtc_cdn', '" ++ (id ++ codes "'"))
      ∷ []
]

-- `run`, up to its wait for the two servers.
unfoldable pub node_run : Bool → Getenv → List Action
unfolding redis_sender
node_run stand_alone getenv =
    elim (redis_sender stand_alone getenv) [ none ↦ [] | some options ↦ new_client options ∷ [] ]
    ++ starts run_http_server ∷ starts run_http_secure_server ∷ []

-- The variables that `init` reads, and that of `isIPExempted` and of `checkAuthentication`.
abbrev pub environment : Getenv → Environment
environment getenv = record {
  max_ip_concurrent_connections = getenv (codes "MAX_IP_CONCURRENT_CONNECTIONS");
  max_requests_per_socket = getenv (codes "MAX_REQUESTS_PER_SOCKET");
  stand_alone = getenv (codes "STAND_ALONE");
  concurrent_limit_whitelist = getenv (codes "CONCURRENT_LIMIT_WHITELIST");
  jwt_secret = getenv (codes "JWT_SECRET");
}

-- The node that `main` makes. The environment is that after `godotenv.Load`.
unfoldable pub new_node : Atoi → Getenv → Read → WebrtcCdnNode
unfolding init node_id
new_node atoi getenv read = init atoi (environment getenv) (node_id read)

-- `LogError` in `main`, where `makeId` fails with this error.
abbrev pub error_of_id : Option Str → Str → List Action
error_of_id none why = error why ∷ []
error_of_id (some id) why = []

-- `main`, whose last call is `run`.
unfoldable pub main : Atoi → Getenv → Read → Str → List Action
unfolding new_node make_id
main atoi getenv read why =
    info (codes "Started WebRTC CDN - Version 1.0.0")
    ∷ (error_of_id (make_id read 20) why
        ++ (info (codes "Assigned node identifier: " ++ (new_node atoi getenv read).id)
            ∷ starts setup_redis_listener
            ∷ node_run (new_node atoi getenv read).stand_alone getenv))
