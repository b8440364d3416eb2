-- ===== src/Tests/Startup.antt =====
-- Start-up at concrete inputs.
use webrtc_cdn.Prelude.{
  none, map, ℕ, false, true, List, [], ◌∷◌, ◌++◌, some, codes, length, ◌==◌, ◌↔◌, str_eq,
  if◌then◌else◌, ◌≡◌, ◌≢◌, refl, arith,
}
use webrtc_cdn.Messages.Redis.{redis_broadcast_channel}
use webrtc_cdn.Startup.Numbers.{digits, itoa, value, atoi}
use webrtc_cdn.Startup.Log.{Getenv, init_log, log_line, log_request, log_debug}
use webrtc_cdn.Startup.Servers.{
  IceServer, custom_number, tcp_port, http_address, redis_sender, redis_listener,
  load_webrtc_config,
}
use webrtc_cdn.Startup.Run.{
  info, error, starts, setup_redis_listener, run_http_server, run_http_secure_server, main,
  node_run,
}
use webrtc_cdn.Startup.Run.Served.{IsServing, servers-IsServing}
use webrtc_cdn.Startup.Identity.{Read, node_id}
use webrtc_cdn.Startup.Identity.Distinct.{Fills, node_id_distinct}
use webrtc_cdn.Startup.Pipe.{stopped, pipe_track}
use webrtc_cdn.Startup.Pipe.Flow.{
  Passing, rounds_of, end_rounds, write_error, pipe_track-equal_piped,
}

abbrev ports : Getenv
ports key =
    if str_eq key (codes "HTTP_PORT")
    then codes "8080"
    else if str_eq key (codes "SSL_PORT")
    then codes "8443"
    else codes "x"

servers-IsServing_example : IsServing ports (some (codes "in use")) none
unfolding itoa
servers-IsServing_example =
    servers-IsServing ports 8080 8443 (some (codes "in use")) none (omega arith) (omega arith) refl
      refl (λ e. cc) (λ e. cc)

-- A node that stands alone starts no client.
alone : Getenv
alone key = if str_eq key (codes "STAND_ALONE") then codes "YES" else []

starts_alone :
    main (record { value = λ _. 0; failed = λ _. false }) alone (λ _. none) (codes "no entropy")
    ≡ info (codes "Started WebRTC CDN - Version 1.0.0")
      ∷ error (codes "no entropy")
      ∷ info (codes "Assigned node identifier: ")
      ∷ starts setup_redis_listener
      ∷ starts run_http_server
      ∷ starts run_http_secure_server
      ∷ []
unfolding main node_run alone
starts_alone = refl

abbrev zeros : List ℕ
zeros = 0 ∷ 0 ∷ 0 ∷ 0 ∷ 0 ∷ 0 ∷ 0 ∷ 0 ∷ 0 ∷ 0 ∷ 0 ∷ 0 ∷ 0 ∷ 0 ∷ 0 ∷ 0 ∷ 0 ∷ 0 ∷ 0 ∷ 255 ∷ []

-- A source of randomness that always gives these for a node.
abbrev dull : Read
dull n = if n == 20 then some zeros else none

dull-Fills : Fills dull
dull-Fills n bytes e = ground arith

node_id_distinct_example :
    (length (node_id dull) ≡ 40)
    × (node_id dull ≢ redis_broadcast_channel)
    × ((node_id dull ≡ node_id dull) ↔ (zeros ≡ zeros))
node_id_distinct_example = node_id_distinct dull dull zeros zeros dull-Fills dull-Fills refl refl

abbrev two_packets : List Passing
two_packets =
    record { packet = codes "a"; unheard = false }
    ∷ record { packet = codes "b"; unheard = true }
    ∷ []

pipe_track-equal_piped_example :
    pipe_track (rounds_of two_packets ++ end_rounds (write_error (codes "c") []))
    ≡ stopped (codes "a" ∷ codes "b" ∷ codes "c" ∷ [])
pipe_track-equal_piped_example = pipe_track-equal_piped two_packets (write_error (codes "c") [])

-- The line of a request, with requests logged by default, and none of a debug message.
request_line :
    log_request (init_log (λ _. [])) (codes "T") 12 (codes "::1") (codes "GET /ws")
    ≡ some (codes "[T] [REQUEST] #12 (::1) GET /ws\n")
unfolding log_request init_log log_line itoa digits
request_line = refl

no_debug_line : log_debug (init_log (λ _. [])) (codes "T") (codes "x") ≡ none
unfolding log_debug init_log
no_debug_line = refl

-- Without a TURN server there is one ICE server, a public STUN server.
default_ice_servers :
    map (λ (x : IceServer). x.urls) (load_webrtc_config (λ _. []))
    ≡ (codes "stun:stun.l.google.com:19302" ∷ []) ∷ []
unfolding load_webrtc_config
default_ice_servers = refl

-- A node that stands alone has no Redis client, and by default the client is a local one.
redis_clients :
    (redis_sender true (λ _. []) ≡ none)
    × (redis_listener true (codes "n") (λ _. []) ≡ none)
    × (redis_sender false (λ _. [])
        ≡ some (record { addr = codes "localhost:6379"; password = []; tls = false }))
unfolding redis_sender redis_listener
redis_clients = (refl, refl, refl)

-- A port that does not parse leaves the default.
default_port : http_address (λ _. codes "x1") ≡ codes "x1:80"
unfolding http_address tcp_port custom_number atoi value itoa digits
default_port = refl
