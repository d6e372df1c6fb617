-- ===== src/Auth/Federation.antt =====
-- The tokens of this issuer and of trusted ones (src/auth/cross-issuer-validator.service.ts and the
-- registry of src/auth/trusted-issuers.ts). `jwt.decode` and the client of a peer's key set are
-- parameters; every refusal is a 401.
pub mod Signed
pub mod Vouched
mod Tests
use acdp_control_plane.Prelude.{
  ℕ, zero, ◌&&◌, String, List, [], ◌∷◌, Bool, true, false, not, Option, none, some, if◌then◌else◌,
  str_eq, str_mem, all, Json, null, bool, num, str, arr, obj, Fields, member, nat,
}
use acdp_control_plane.Auth.Revocations.{Revocations, is_revoked}
use acdp_control_plane.Auth.Jwt.{
  check, and_then, JwtAlgorithm, hs256, eddsa, Host, VerifyJwtOptions, verify_jwt, matches_audience,
  read_scopes, parse_scope_string,
}

pub record TrustedIssuer : Type 0 where
  pub iss : String
  pub alg : JwtAlgorithm
  pub secret : Option String
  pub jwks_url : Option String
  pub audience : String
  pub required_scope : Option String
  pub read_only : Bool

-- `TrustedIssuerRegistry.get`; the constructor refuses two entries of one issuer.
unfoldable pub trusted_issuer : String → List TrustedIssuer → Option TrustedIssuer
trusted_issuer iss [] = none
trusted_issuer iss (entry ∷ entries) =
    if str_eq entry.iss iss then some entry else trusted_issuer iss entries

-- The configuration, the own key, and what the host and the network answer.
pub record Validator : Type 0 where
  pub jwt_authority : String
  pub jwt_audience : String
  pub trusted : List TrustedIssuer
  pub algorithm : JwtAlgorithm
  pub verify_key : String
  pub host : Host
  pub decode : String → Option Json
  pub kid_of : String → Option String
  pub signing_key : (jwks_url : String) → (kid : Option String) → Option String
  pub to_text : Json → String

-- The verdict: the claims, and the trust entry, which is `none` for an own token.
pub data Verdict : Type 0 where
  unauthorized : Verdict
  verified : Fields → Option TrustedIssuer → Verdict

abbrev pub or_empty : Option String → String
or_empty none = ""
or_empty (some s) = s

-- What a claim is as a condition.
abbrev truthy : Option Json → Bool
truthy none = false
truthy (some null) = false
truthy (some (bool b)) = b
truthy (some (num (nat zero))) = false
truthy (some (str s)) = not (str_eq s "")
truthy _ = true

-- `peek.iss`, where it is a text that is not empty.
abbrev pub text_claim : Option Json → Option String
text_claim (some (str s)) = if str_eq s "" then none else some s
text_claim _ = none

abbrev pub peeked : Option Json → Option String
peeked (some (obj claims)) = text_claim (member "iss" claims)
peeked _ = none

module _ (v : Validator) where
  abbrev pub local_options : VerifyJwtOptions
  local_options = record {
    algorithms = v.algorithm ∷ [];
    key = v.verify_key;
    issuer = some v.jwt_authority;
    audience = some v.jwt_audience;
  }

  unfoldable pub verify_local : ℕ → String → Option Fields
  verify_local now token = verify_jwt v.host now token local_options

  unfoldable pub resolve_jwks_key : TrustedIssuer → String → Option String
  resolve_jwks_key trusted token =
      and_then trusted.jwks_url (λ url. v.signing_key url (v.kid_of token))

  abbrev pub trusted_options : TrustedIssuer → String → VerifyJwtOptions
  trusted_options trusted key = record {
    algorithms = trusted.alg ∷ [];
    key = key;
    issuer = some trusted.iss;
    audience = none;
  }

  -- The key, by the entry's algorithm.
  abbrev pub key_for : JwtAlgorithm → TrustedIssuer → String → Option String
  key_for hs256 trusted token = some (or_empty trusted.secret)
  key_for eddsa trusted token = resolve_jwks_key trusted token

  -- The requirements of the entry; an empty audience or scope asks for nothing.
  unfoldable pub meets : TrustedIssuer → Fields → Bool
  meets trusted claims =
      (if str_eq trusted.audience ""
        then true
        else matches_audience (member "aud" claims) trusted.audience)
      && all (λ s. str_mem s (read_scopes claims)) (parse_scope_string trusted.required_scope)

  unfoldable pub verify_trusted : ℕ → String → TrustedIssuer → Option Fields
  unfolding resolve_jwks_key meets
  verify_trusted now token trusted = and_then (key_for trusted.alg trusted token) (λ key.
      and_then (verify_jwt v.host now token (trusted_options trusted key))
        (λ claims. check (meets trusted claims) (some claims)))

  -- `claims.iss` and `claims.jti` as the parts of a key.
  abbrev text_part : Option Json → String
  text_part none = "undefined"
  text_part (some (str s)) = s
  text_part (some json) = v.to_text json

  -- The check of the revocations, where the store is there and the token has an id, with the store it
  -- leaves; `later` is its clock.
  unfoldable pub revocation_check : ℕ → Option Revocations → Fields → Bool × Option Revocations
  revocation_check later none claims = (false, none)
  revocation_check later (some store) claims =
      let asked =
        is_revoked (text_part (member "iss" claims)) (text_part (member "jti" claims)) later
          store in
      if truthy (member "jti" claims) then (asked.0, some asked.1) else (false, some store)

  abbrev pub admitted :
      ℕ → Option Revocations → Option TrustedIssuer → Option Fields → Verdict × Option Revocations
  admitted later store entry none = (unauthorized, store)
  admitted later store entry (some claims) =
      let asked = revocation_check later store claims in
      (if asked.0 then unauthorized else verified claims entry, asked.1)

  unfoldable pub by_entry :
      ℕ → ℕ → Option Revocations → String → Option TrustedIssuer → Verdict × Option Revocations
  unfolding verify_trusted revocation_check
  by_entry now later store token none = (unauthorized, store)
  by_entry now later store token (some trusted) =
      admitted later store (some trusted) (verify_trusted now token trusted)

  unfoldable pub by_issuer :
      ℕ → ℕ → Option Revocations → String → Option String → Verdict × Option Revocations
  unfolding by_entry trusted_issuer verify_local
  by_issuer now later store token none = (unauthorized, store)
  by_issuer now later store token (some iss) =
      if str_eq iss v.jwt_authority
      then admitted later store none (verify_local now token)
      else by_entry now later store token (trusted_issuer iss v.trusted)

  -- `now` is the clock of the check of the claims, and `later` that of the revocations.
  unfoldable pub verify_with_provenance :
      ℕ → ℕ → Option Revocations → String → Verdict × Option Revocations
  unfolding by_issuer
  verify_with_provenance now later store token =
      by_issuer now later store token (peeked (v.decode token))
