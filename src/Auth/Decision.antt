-- ===== src/Auth/Decision.antt =====
-- Whom `checkAuthentication` lets in.
use webrtc_cdn.Prelude.{
  true, [], ◌∷◌, Option, none, some, Str, ◌≡◌, ◌≢◌, ◌↔◌, ◌⊎◌, inl, inr, refl, arith, str_eq_iff,
}
use webrtc_cdn.Auth.{
  Jwt, Token, Claim, text, other, allowed, crash, claim_is, check_token, check_authentication,
}

-- A token that an HMAC key signed, for one subject and one stream.
pub record Grants (jwt : Jwt) (secret auth subject stream : Str) (t : Token) : Type 0 where
  pub given : auth ≢ []
  pub hmac : jwt.is_hmac auth ≡ true
  pub verified : jwt.verify secret auth ≡ some t
  pub is_map : t.is_map ≡ true
  pub valid : t.valid ≡ true
  pub sub : t.sub ≡ text subject
  pub sid : t.sid ≡ text stream

claim_is-allowed :
    (expected : Str) (c : Claim) {rest : _}
    → claim_is expected c rest ≡ allowed
    → (c ≡ text expected) × (rest ≡ allowed)
unfolding claim_is
claim_is-allowed expected (text t) h = ground (arith, str_eq_iff t expected)
claim_is-allowed expected _ h = cc

Grants-allowed :
    (jwt : Jwt) (secret auth subject stream : Str) (t : Token)
    → secret ≢ []
    → Grants jwt secret auth subject stream t
    → check_authentication jwt secret auth subject stream ≡ allowed
unfolding check_authentication claim_is
Grants-allowed jwt [] auth subject stream t ne g = absurd (ne refl)
Grants-allowed jwt (k ∷ secret) [] subject stream t ne g = absurd (g.given refl)
Grants-allowed jwt (k ∷ secret) (a ∷ auth) subject stream t ne g =
    ground (arith, str_eq_iff subject subject, str_eq_iff stream stream)

check_token-allowed :
    (subject stream : Str) (o : Option Token)
    → check_token subject stream o ≡ allowed
    → (t : Token) × (o ≡ some t)
      × (t.is_map ≡ true)
      × (t.valid ≡ true)
      × (t.sub ≡ text subject)
      × (t.sid ≡ text stream)
unfolding check_token
check_token-allowed subject stream none h = cc
check_token-allowed subject stream (some t) h = (
  t,
  refl,
  ground arith,
  ground arith,
  ground (arith, claim_is-allowed subject t.sub {rest = claim_is stream t.sid allowed}),
  ground (
    arith,
    claim_is-allowed subject t.sub {rest = claim_is stream t.sid allowed},
    claim_is-allowed stream t.sid {rest = allowed},
  ),
)

allowed-Grants :
    (jwt : Jwt) (secret auth subject stream : Str)
    → check_authentication jwt secret auth subject stream ≡ allowed
    → (secret ≡ []) ⊎ ((t : Token) × Grants jwt secret auth subject stream t)
unfolding check_authentication
allowed-Grants jwt [] auth subject stream h = inl refl
allowed-Grants jwt (k ∷ secret) [] subject stream h = cc
allowed-Grants jwt (k ∷ secret) (a ∷ auth) subject stream h =
    let (t, e, is_map, valid, sub, sid) = check_token-allowed subject stream _ h in
    inr (
      t,
      record {
        given = λ e. cc;
        hmac = ground arith;
        verified = ground arith;
        is_map = is_map;
        valid = valid;
        sub = sub;
        sid = sid;
      },
    )

allowed-back :
    (jwt : Jwt) (secret auth subject stream : Str)
    → (secret ≡ []) ⊎ ((t : Token) × Grants jwt secret auth subject stream t)
    → check_authentication jwt secret auth subject stream ≡ allowed
unfolding check_authentication
allowed-back jwt [] auth subject stream g = refl
allowed-back jwt (k ∷ secret) auth subject stream (inl e) = cc
allowed-back jwt (k ∷ secret) auth subject stream (inr (t, g)) =
    Grants-allowed jwt (k ∷ secret) auth subject stream t (λ e. cc) g

-- The check lets a client in exactly when there is no secret, or the client gave a token whose
-- header names an HMAC method, HS256 or another, that verifies under the secret, is valid, has a
-- map of claims, and names this subject and this stream as texts.
pub check_authentication-allowed_iff :
    (jwt : Jwt) (secret auth subject stream : Str)
    → (check_authentication jwt secret auth subject stream ≡ allowed)
      ↔ ((secret ≡ []) ⊎ ((t : Token) × Grants jwt secret auth subject stream t))
check_authentication-allowed_iff jwt secret auth subject stream =
    (allowed-Grants jwt secret auth subject stream, allowed-back jwt secret auth subject stream)

-- A token that an HMAC key signed, with a claim that is JSON of a kind other than text: the subject, or,
-- under the right subject, the stream.
pub record HoldsOther (jwt : Jwt) (secret auth subject : Str) (t : Token) : Type 0 where
  pub given : auth ≢ []
  pub hmac : jwt.is_hmac auth ≡ true
  pub verified : jwt.verify secret auth ≡ some t
  pub is_map : t.is_map ≡ true
  pub valid : t.valid ≡ true
  pub odd : (t.sub ≡ other) ⊎ ((t.sub ≡ text subject) × (t.sid ≡ other))

-- The type assertion of such a claim fails.
pub check_authentication-crash :
    (jwt : Jwt) (secret auth subject stream : Str) (t : Token)
    → secret ≢ []
    → HoldsOther jwt secret auth subject t
    → check_authentication jwt secret auth subject stream ≡ crash
unfolding check_authentication
check_authentication-crash jwt [] auth subject stream t ne h = absurd (ne refl)
check_authentication-crash jwt (k ∷ secret) [] subject stream t ne h = absurd (h.given refl)
check_authentication-crash jwt (k ∷ secret) (a ∷ auth) subject stream t ne h = elim h.odd [
  | inl sub ↦ rw (h.hmac, h.verified, h.is_map, h.valid, sub) refl
  | inr (sub, sid) ↦
      rw (h.hmac, h.verified, h.is_map, h.valid, sub, sid)
        (ground (arith, str_eq_iff subject subject))
]
