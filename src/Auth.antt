-- ===== src/Auth.antt =====
-- authentication.go: `checkAuthentication`. The JWT library is a parameter.
pub mod Decision
use webrtc_cdn.Prelude.{Bool, ◌||◌, not, [], ◌∷◌, Option, none, some, Str, if◌then◌else◌, str_eq}

-- A claim of a token: missing (or null), a text, or a JSON value of another kind.
pub data Claim : Type 0 where
  missing : Claim
  text : Str → Claim
  other : Claim

-- What `jwt.Parse` returns without an error.
pub record Token : Type 0 where
  pub is_map : Bool
  pub valid : Bool
  pub sub : Claim
  pub sid : Claim

-- The library: whether the header names an HMAC method, and the parse of a token under a key.
-- `jwt.Parse` asks the key function first, and fails if that fails.
pub record Jwt : Type 0 where
  pub is_hmac : Str → Bool
  pub verify : Str → Str → Option Token

unfoldable pub parse : Jwt → Str → Str → Option Token
parse jwt secret auth = if jwt.is_hmac auth then jwt.verify secret auth else none

-- The result of the check; `crash` is the panic of a failed type assertion.
pub data Verdict : Type 0 where
  allowed refused crash : Verdict

-- `claims[k] == nil || claims[k].(string) != expected`, with what follows where it is false.
unfoldable pub claim_is : Str → Claim → Verdict → Verdict
claim_is expected missing rest = refused
claim_is expected (text t) rest = if str_eq t expected then rest else refused
claim_is expected other rest = crash

unfoldable pub check_token : Str → Str → Option Token → Verdict
unfolding claim_is
check_token subject stream none = refused
check_token subject stream (some t) =
    if not t.is_map || not t.valid
    then refused
    else claim_is subject t.sub (claim_is stream t.sid allowed)

-- `checkAuthentication`, with the value of `JWT_SECRET`.
unfoldable pub check_authentication : Jwt → Str → Str → Str → Str → Verdict
unfolding check_token parse
check_authentication jwt [] auth subject stream = allowed
check_authentication jwt (k ∷ secret) [] subject stream = refused
check_authentication jwt (k ∷ secret) (a ∷ auth) subject stream =
    check_token subject stream (parse jwt (k ∷ secret) (a ∷ auth))
