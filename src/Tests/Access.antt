-- ===== src/Tests/Access.antt =====
-- Authentication, configuration and the count of connections.
use webrtc_cdn.Prelude.{
  true, false, ◌&&◌, [], ◌∷◌, none, some, Str, codes, ◌≡◌, ◌↔◌, ◌⊎◌, refl, ◌+◌, ◌<◌, arith, str_eq,
  if◌then◌else◌, lookup, insert, str_key, inl,
}
use webrtc_cdn.Auth.{Token, Jwt, allowed, other, check_authentication}
use webrtc_cdn.Auth.Decision.{Grants, check_authentication-allowed_iff}
use webrtc_cdn.Strings.{index, to_upper, to_lower, trim}
use webrtc_cdn.Signaling.{parse_signaling_message}
use webrtc_cdn.Connection.Requests.{param}
use webrtc_cdn.Connection.Lifecycle.{Surroundings, text, run_round, end_run}
use webrtc_cdn.Connection.Crash.{publish_crash_ends_run}
use webrtc_cdn.Machine.State.{State}
use webrtc_cdn.Machine.Op.{done}
use webrtc_cdn.Node.Config.{Environment, Atoi, init}
use webrtc_cdn.Node.Config.Ignored.{init_limits}
use webrtc_cdn.Node.Limits.{count_of, add_ip, is_ip_exempted}
use webrtc_cdn.Node.Limits.Counting.{count_of-add_ip}
use webrtc_cdn.Node.Limits.Leak.{fail_upgrades, ask_again, refusals, fail_upgrades_lock_out}
use webrtc_cdn.Tests.Data.{tables, trusting, granted, quiet_node, quiet}

abbrev secret : Str
secret = codes "key"

check_authentication-allowed_iff_example :
    (check_authentication trusting secret (codes "t") (codes "stream_publish") (codes "cam")
      ≡ allowed)
    ↔ ((secret ≡ [])
        ⊎ ((t : Token) × Grants trusting secret
              (codes "t")
              (codes "stream_publish")
              (codes "cam")
              t))
check_authentication-allowed_iff_example =
    check_authentication-allowed_iff trusting secret (codes "t") (codes "stream_publish")
      (codes "cam")

-- A token whose subject is a number.
abbrev numbered : Jwt
numbered = record { is_hmac = λ _. true; verify = λ _ _. some (record granted { sub = other }) }

-- The client has published nothing yet, and its frame holds that token.
abbrev crashing : Surroundings
crashing = record { now = 5; jwt_secret = secret; jwt = numbered; unicode = tables }

publish_crash_ends_run_example :
    run_round crashing 0 (text (codes "PUBLISH\nrequest-id:b\nstream-id:cam\nauth:token\n")) quiet
    ≡ end_run 0 [] quiet
unfolding parse_signaling_message index to_upper to_lower trim param lookup insert
publish_crash_ends_run_example =
    publish_crash_ends_run crashing 0 (codes "PUBLISH\nrequest-id:b\nstream-id:cam\nauth:token\n")
      (parse_signaling_message tables (codes "PUBLISH\nrequest-id:b\nstream-id:cam\nauth:token\n"))
      (record granted { sub = other }) quiet refl refl refl refl (λ e. cc)
      (record {
        given = λ e. cc;
        hmac = refl;
        verified = refl;
        is_map = refl;
        valid = refl;
        odd = inl refl;
      })

-- `strconv.Atoi` on the text "9" and on others.
abbrev nine : Atoi
nine = record { value = λ _. 9; failed = λ _. false }

abbrev limited : Environment
limited = record {
  max_ip_concurrent_connections = codes "9";
  max_requests_per_socket = codes "9";
  stand_alone = [];
  concurrent_limit_whitelist = [];
  jwt_secret = [];
}

init_limits_example :
    ((init nine limited (codes "node")).ip_limit ≡ 4)
    × ((init nine limited (codes "node")).request_limit ≡ 100)
init_limits_example = init_limits nine limited (codes "node") refl refl

abbrev home : Str
home = codes "10.0.0.1"

count_of-add_ip_example :
    (count_of home (add_ip home quiet_node).0 ≡ (
      if str_eq home home && (add_ip home quiet_node).1
      then count_of home quiet_node + 1
      else count_of home quiet_node))
    × (((add_ip home quiet_node).1 ≡ true) ↔ (count_of home quiet_node < 4))
count_of-add_ip_example = count_of-add_ip home home quiet_node (omega arith)

fail_upgrades_lock_out_example :
    (t u : State) × (fail_upgrades (λ _ _. none) [] home 4 quiet ≡ done t)
    × (count_of home t.node ≡ 4)
    × (ask_again (λ _ _. none) [] home (true ∷ false ∷ []) t ≡ done u)
    × (u.out ≡ refusals (true ∷ false ∷ []) t.node.req_count t.out)
    × (u.node.connections ≡ [])
    × (u.tasks ≡ [])
unfolding is_ip_exempted count_of lookup
fail_upgrades_lock_out_example =
    fail_upgrades_lock_out (λ _ _. none) [] home refl 4 (true ∷ false ∷ []) quiet (omega arith) refl
