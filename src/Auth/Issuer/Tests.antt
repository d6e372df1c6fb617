-- ===== src/Auth/Issuer/Tests.antt =====
-- One agent with a pinned key asks for a token, and asks again with the same nonce.

use acdp_control_plane.Prelude.{◌≡◌, ◌↔◌, refl, [], ◌∷◌, true, none, some, str_mem, str_eq}
use acdp_control_plane.Auth.Issuer.{
  TokenRequest, IssuedToken, AcdpBearerClaims, IssuerConfig, Services, Moments, Issuer, issued,
  refused, unauthorized, supported_signature_algorithms, issue_token,
}
use acdp_control_plane.Auth.Issuer.Nonce.{swept, run, nonce_used_up}
use acdp_control_plane.Auth.Issuer.Accepts.{Minted, issue_token-issued_iff}
use acdp_control_plane.Auth.Issuer.Ends.{Admitted, after_take}
use acdp_control_plane.Auth.Issuer.Trail.{Trail, issue_token-Trail}

abbrev config : IssuerConfig
config = record {
  jwt_authority = "cp.example";
  jwt_audience = "cp.example";
  jwt_ttl_seconds = 300;
  challenge_ttl_seconds = 60;
  tenant_agents_raw = "";
  pinned =
      (
        "did:web:a",
        record {
          agent_did = "did:web:a";
          algorithm = "ed25519";
          raw_b64 = "key";
          valid_from_sec = none;
          valid_until_sec = none;
        },
      )
      ∷ [];
  with_ledger = true;
}

abbrev read_back : AcdpBearerClaims
read_back = record {
  iss = "cp.example";
  sub = "did:web:a";
  aud = "cp.example";
  jti = "j";
  iat = 10;
  nbf = 10;
  exp = 310;
  registry = "cp.example";
  key_id = "key-1";
  tenant = none;
}

abbrev services : Services
services = record {
  verify_signature_b64 = λ algorithm key input signature. str_eq signature "good";
  resolve_key = none;
  sign_jwt = λ c. some "token";
  decode_jwt = λ t. some read_back;
  sha256_hex = λ s. "00";
  decimal = λ n. "n";
}

abbrev request : TokenRequest
request = record {
  agent_did = "did:web:a";
  key_id = "key-1";
  nonce = "n1";
  expires_at = 60;
  algorithm = "ed25519";
  signature = "good";
}

abbrev at_ten : Moments
at_ten = record { take_ms = 10000; pin_ms = 10000; mint_ms = 10000; jti = "j" }

abbrev challenged_once : Issuer
challenged_once = record {
  challenges =
      (
        "n1",
        record {
          nonce = "n1";
          agent_did = "did:web:a";
          registry_authority = "cp.example";
          signing_input = "acdp-registry-auth:v1:n1:did:web:a:cp.example:60";
          expires_at = 60;
        },
      )
      ∷ [];
  ledger = [];
  agent_tenant_lookup = none;
}

abbrev handed_out : IssuedToken
handed_out = record { token = "token"; token_type = "Bearer"; expires_at = 310 }

nonce_used_up_example :
    (issue_token config services request none at_ten (
      run config services
        (swept 20 ∷ [])
        (issue_token config services request none at_ten challenged_once).1)).0
    ≡ refused unauthorized
nonce_used_up_example =
    nonce_used_up config services request none at_ten challenged_once (swept 20 ∷ []) request none
      at_ten refl (tt, tt) refl

issue_token-issued_iff_example :
    ((issue_token config services request none at_ten challenged_once).0 ≡ issued handed_out) ↔ (
      (str_mem "ed25519" supported_signature_algorithms ≡ true)
      × Admitted config services request none at_ten challenged_once
      × Minted config services request none at_ten
          (after_take config services request none at_ten challenged_once)
          handed_out)
issue_token-issued_iff_example =
    issue_token-issued_iff config services request none at_ten challenged_once handed_out

issue_token-Trail_example :
    Trail config services request none at_ten refl []
      (issue_token config services request none at_ten challenged_once)
issue_token-Trail_example =
    issue_token-Trail config services request none at_ten refl challenged_once
