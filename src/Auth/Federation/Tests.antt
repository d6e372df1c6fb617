-- ===== src/Auth/Federation/Tests.antt =====
-- A token of a peer at a small host.
use acdp_control_plane.Prelude.{
  ◌≡◌, refl, [], ◌∷◌, false, none, some, if◌then◌else◌, str_eq, str, num, nat, obj, Fields, field,
  end, split_on,
}
use acdp_control_plane.Prelude.OrderedMap.{lookup}
use acdp_control_plane.Auth.Revocations.{empty, is_revoked}
use acdp_control_plane.Auth.Jwt.{eddsa, Host, verify_jwt, parse_scope_string, read_scopes}
use acdp_control_plane.Auth.Federation.{
  TrustedIssuer, trusted_issuer, Validator, verified, verify_with_provenance,
}
use acdp_control_plane.Auth.Federation.Signed.{IsVouched}
use acdp_control_plane.Auth.Federation.Vouched.{verified-IsVouched, verified_not_revoked}

abbrev peer_claims : Fields
peer_claims = field "iss" (str "peer") (
    field "aud" (str "peer") (
      field "jti" (str "j1") (field "exp" (num (nat 100)) (field "scope" (str "read  write") end))))

abbrev host : Host
host = record {
  parse_part = λ part.
      if str_eq part "h"
      then some (obj (field "alg" (str "EdDSA") end))
      else some (obj peer_claims);
  signature_size = λ s. 64;
  raw_key = λ key. some key;
  verify_signature = λ raw message mark. str_eq raw "k";
  verify_hs256 = λ token opts. none;
  frac_below = λ claims name n. false;
}

abbrev peer_entry : TrustedIssuer
peer_entry = record {
  iss = "peer";
  alg = eddsa;
  secret = none;
  jwks_url = some "https://peer/jwks";
  audience = "peer";
  required_scope = some "write";
  read_only = false;
}

abbrev validator : Validator
validator = record {
  jwt_authority = "us";
  jwt_audience = "us";
  trusted = peer_entry ∷ [];
  algorithm = eddsa;
  verify_key = "own";
  host = host;
  decode = λ token. some (obj peer_claims);
  kid_of = λ token. none;
  signing_key = λ url kid. some "k";
  to_text = λ json. "";
}

accepted :
    (verify_with_provenance validator 100 100 (some empty) "h.p.s").0
    ≡ verified peer_claims (some peer_entry)
unfolding verify_with_provenance verify_jwt split_on parse_scope_string read_scopes is_revoked
    lookup
accepted = refl

verified-IsVouched_example :
    (trusted_issuer "peer" (peer_entry ∷ []) ≡ some peer_entry)
    × IsVouched validator 100 "h.p.s" peer_entry peer_claims
verified-IsVouched_example =
    verified-IsVouched validator 100 100 (some empty) "h.p.s" peer_claims peer_entry accepted refl

verified_not_revoked_example : (is_revoked "peer" "j1" 100 empty).0 ≡ false
verified_not_revoked_example =
    verified_not_revoked validator 100 100 empty "h.p.s" "j1" peer_claims peer_entry accepted refl
      refl refl
