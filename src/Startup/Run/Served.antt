-- ===== src/Startup/Run/Served.antt =====
-- What the two servers listen on.
use webrtc_cdn.Prelude.{
  ℕ, ◌^◌, ◌<◌, false, [], ◌∷◌, ◌++◌, Option, none, some, Str, codes, ◌≡◌, ◌≢◌, refl, arith, str_eq,
  str_eq_iff,
}
use webrtc_cdn.Startup.Numbers.{pos, itoa}
use webrtc_cdn.Startup.Log.{Getenv}
use webrtc_cdn.Startup.Servers.{TlsServer, tls_server, https_server}
use webrtc_cdn.Startup.Servers.Ports.{server_ports}
use webrtc_cdn.Startup.Run.{
  info, listen_and_serve, new_certificate_loader, listen_and_serve_tls, close_certificate_loader,
  error_unless_nil, http_run, https_run,
}

-- The HTTP server is logged and served on one address. With a certificate, the loader is made for its
-- files, the HTTPS server is logged and served on its address, and the loader is closed in the end.
pub record IsServing (getenv : Getenv) (failed tls_failed : Option Str) : Type 0 where
  pub server : TlsServer
  pub http :
      http_run getenv failed
      ≡ info (
          codes "[HTTP] Listening on "
          ++ (getenv (codes "BIND_ADDRESS") ++ (codes ":" ++ getenv (codes "HTTP_PORT"))))
        ∷ listen_and_serve
            (getenv (codes "BIND_ADDRESS") ++ (codes ":" ++ getenv (codes "HTTP_PORT")))
        ∷ error_unless_nil failed
  pub address :
      server.address ≡ getenv (codes "BIND_ADDRESS") ++ (codes ":" ++ getenv (codes "SSL_PORT"))
  pub certificate : server.certificate_path ≡ getenv (codes "SSL_CERT")
  pub key : server.key_path ≡ getenv (codes "SSL_KEY")
  pub https :
      https_run getenv none tls_failed
      ≡ new_certificate_loader server
        ∷ info (codes "[SSL] Listening on " ++ server.address)
        ∷ listen_and_serve_tls server
        ∷ (error_unless_nil tls_failed ++ close_certificate_loader ∷ [])

-- The server that the environment describes where it names both files.
https_server-some :
    (getenv : Getenv)
    → getenv (codes "SSL_CERT") ≢ []
    → getenv (codes "SSL_KEY") ≢ []
    → https_server getenv ≡ some (tls_server getenv)
unfolding https_server
https_server-some getenv cert key =
    let a : str_eq (getenv (codes "SSL_CERT")) [] ≡ false =
      ground (arith, cert, str_eq_iff (getenv (codes "SSL_CERT")) []) in
    let b : str_eq (getenv (codes "SSL_KEY")) [] ≡ false =
      ground (arith, key, str_eq_iff (getenv (codes "SSL_KEY")) []) in
    rw (a, b) refl

-- Where the environment names a certificate and a key, and both ports in decimal, below 2^63: the HTTP
-- server logs and serves the bind address with HTTP_PORT, and then only logs an error; the HTTPS server
-- loads that certificate and that key, and, if they load, logs and serves the bind address with SSL_PORT,
-- logs an error, if there is one, and closes the loader.
pub servers-IsServing :
    (getenv : Getenv) (m n : ℕ) (failed tls_failed : Option Str)
    → m < 2 ^ 63
    → n < 2 ^ 63
    → getenv (codes "HTTP_PORT") ≡ itoa (pos m)
    → getenv (codes "SSL_PORT") ≡ itoa (pos n)
    → getenv (codes "SSL_CERT") ≢ []
    → getenv (codes "SSL_KEY") ≢ []
    → IsServing getenv failed tls_failed
unfolding http_run https_run tls_server
servers-IsServing getenv m n failed tls_failed hm hn em en cert key =
    let (address, tls_address) = server_ports getenv m n hm hn em en in
    let found = https_server-some getenv cert key in
    record {
      server = tls_server getenv;
      http = rw address refl;
      address = tls_address (tls_server getenv) found;
      certificate = refl;
      key = refl;
      https = rw (found, https_run) refl;
    }
