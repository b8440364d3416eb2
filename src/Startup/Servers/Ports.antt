-- ===== src/Startup/Servers/Ports.antt =====
-- The ports of the servers.
use webrtc_cdn.Prelude.{
  ℕ, ◌^◌, ◌<◌, Bool, true, false, sym, ◌∙◌, ap, arith, if◌then◌else◌, Option, none, some, ◌++◌,
  codes, ◌≡◌, refl,
}
use webrtc_cdn.Startup.Numbers.{ℤ, pos, itoa}
use webrtc_cdn.Startup.Numbers.Decimal.{atoi-itoa}
use webrtc_cdn.Startup.Log.{Getenv}
use webrtc_cdn.Startup.Servers.{
  custom_number, tcp_port, ssl_port, http_address, TlsServer, https_server,
}

custom_number-itoa :
    (n : ℕ) (default : ℤ) → n < 2 ^ 63 → custom_number (itoa (pos n)) default ≡ pos n
unfolding custom_number
custom_number-itoa n default h = rw (custom_number, atoi-itoa n h) refl

server_address :
    (b : Bool) (t server : TlsServer)
    → (if b then none else some t) ≡ some server
    → t.address ≡ server.address
server_address true t server e = ground arith
server_address false t server e =
    ap (λ (o : Option TlsServer). elim o [ none ↦ t.address | some x ↦ x.address ]) e

-- The servers listen on the ports that the environment names in decimal, for every number below 2^63:
-- the address of the HTTP server, and of the HTTPS server where there is one, is the bind address, a
-- colon and the variable HTTP_PORT, or SSL_PORT, as it is written.
pub server_ports :
    (getenv : Getenv) (m n : ℕ)
    → m < 2 ^ 63
    → n < 2 ^ 63
    → getenv (codes "HTTP_PORT") ≡ itoa (pos m)
    → getenv (codes "SSL_PORT") ≡ itoa (pos n)
    → (http_address getenv
        ≡ getenv (codes "BIND_ADDRESS") ++ (codes ":" ++ getenv (codes "HTTP_PORT")))
      × ((server : TlsServer)
          → https_server getenv ≡ some server
          → server.address
            ≡ getenv (codes "BIND_ADDRESS") ++ (codes ":" ++ getenv (codes "SSL_PORT")))
unfolding http_address tcp_port https_server ssl_port
server_ports getenv m n hm hn em en = (
  rw (em, custom_number-itoa m (pos 80) hm) refl,
  λ server e. sym (server_address _ _ server e) ∙ rw (en, custom_number-itoa n (pos 443) hn) refl,
)
