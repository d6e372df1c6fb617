-- ===== src/Auth/Federation/Signed.antt =====
-- What the checks of a token of a trusted issuer show.
use Prim.Native.String
use acdp_control_plane.Prelude.{
  ℕ, ◌≡◌, refl, sym, ap, subst, ◌∙◌, String, List, [], ◌∷◌, Bool, true, false, ◌&&◌, not, Option,
  none, some, arith, if◌then◌else◌, str_eq, eq_iff, Json, str, obj, Fields, member, split_on,
}
use acdp_control_plane.Auth.Jwt.{
  check, and_then, eddsa, Host, VerifyJwtOptions, decode_alg, verify_parts, verify_jwt, below,
  above, validate_registered_claims, claims_of, is_text, when_given, supports,
}
use acdp_control_plane.Auth.Federation.{
  TrustedIssuer, Validator, resolve_jwks_key, trusted_options, key_for, meets, verify_trusted,
}

check-some {ℓ} :
    {A : Type ℓ} (b : Bool) (o : Option A) (a : A) → check b o ≡ some a → (b ≡ true) × (o ≡ some a)
check-some true o a h = (refl, h)
check-some false o a h = absurd (ground (arith, h))

pub and_then-some {ℓ κ} :
    {A : Type ℓ} {B : Type κ} (o : Option A) (f : A → Option B) (b : B)
    → and_then o f ≡ some b
    → (a : A) × (o ≡ some a) × (f a ≡ some b)
and_then-some none f b h = absurd (ground (arith, h))
and_then-some (some a) f b h = (a, refl, h)

-- The token is three parts, the last of which signs the first two under the key, and the second reads
-- as the claims.
pub record IsSigned (host : Host) (key token : String) (claims : Fields) : Type 0 where
  pub head : String
  pub body : String
  pub mark : String
  pub raw : String
  pub three : split_on 46 token ≡ head ∷ body ∷ mark ∷ []
  pub usable : host.raw_key key ≡ some raw
  pub good : host.verify_signature raw (String.◌++◌ head (String.◌++◌ "." body)) mark ≡ true
  pub reads : host.parse_part body ≡ some (obj claims)

-- The claims are of the issuer, and neither expired nor early.
pub record IsCurrent (host : Host) (now : ℕ) (iss : String) (claims : Fields) : Type 0 where
  pub issued_by : member "iss" claims ≡ some (str iss)
  pub unexpired : below host claims "exp" (member "exp" claims) now ≡ false
  pub begun : above host claims "nbf" (member "nbf" claims) now ≡ false

claims_of-obj :
    (host : Host) (now : ℕ) (opts : VerifyJwtOptions) (json : Json) (claims : Fields)
    → claims_of host now opts json ≡ some claims
    → (json ≡ obj claims) × (validate_registered_claims host now claims opts ≡ true)
claims_of-obj host now opts (obj cs) claims h =
    let (valid, same) =
      check-some (validate_registered_claims host now cs opts) (some cs) claims h in
    let same' : cs ≡ claims = ground (arith, same) in
    (ap obj same', subst (λ c. validate_registered_claims host now c opts ≡ true) same' valid)
claims_of-obj host now opts json claims h = absurd (ground (arith, h))

is_text_eq : (o : Option Json) (s : String) → is_text o s ≡ true → o ≡ some (str s)
is_text_eq (some (str t)) s h = ap (λ x. some (str x)) ((eq_iff t s).0 h)
is_text_eq o s h = absurd (ground (arith, h))

and_parts : (a b : Bool) → (a && b) ≡ true → (a ≡ true) × (b ≡ true)
and_parts a b h = ground (arith, h)

not_lem : (b : Bool) → not b ≡ true → b ≡ false
not_lem b h = ground (arith, h)

module _ (host : Host) (now : ℕ) (opts : VerifyJwtOptions) (claims : Fields) where
  parts-IsSigned :
      (token : String) (parts : List String)
      → split_on 46 token ≡ parts
      → verify_parts host now opts parts ≡ some claims
      → IsSigned host opts.key token claims
        × (validate_registered_claims host now claims opts ≡ true)
  unfolding verify_parts
  parts-IsSigned token (h ∷ p ∷ s ∷ []) e v =
      let (_, keyed) = check-some _ _ claims v in
      let (raw, usable, signed) = and_then-some (host.raw_key opts.key) _ claims keyed in
      let (good, read) = check-some _ _ claims signed in
      let (json, reads, valid) = and_then-some (host.parse_part p) _ claims read in
      let (same, current) = claims_of-obj host now opts json claims valid in
      (
        record {
          head = h;
          body = p;
          mark = s;
          raw = raw;
          three = e;
          usable = usable;
          good = good;
          reads = reads ∙ ap some same;
        },
        current,
      )
  parts-IsSigned token parts e v = absurd (ground (arith, v))

  valid-IsCurrent :
      (iss : String)
      → opts.issuer ≡ some iss
      → validate_registered_claims host now claims opts ≡ true
      → IsCurrent host now iss claims
  unfolding validate_registered_claims
  valid-IsCurrent iss asked v =
      let (front, _) = and_parts _ _ v in
      let (front', d) = and_parts _ _ front in
      let (front'', c) = and_parts _ _ front' in
      let (_, b) = and_parts _ _ front'' in
      record {
        issued_by =
            is_text_eq (member "iss" claims) iss
              (subst (λ o. when_given o (is_text (member "iss" claims)) ≡ true) asked d);
        unexpired = not_lem _ b;
        begun = not_lem _ c;
      }

chosen_eddsa :
    (alg : String) (x y : Option Fields) (claims : Fields)
    → supports (eddsa ∷ []) alg ≡ true
    → (if str_eq alg "EdDSA" then x else y) ≡ some claims
    → x ≡ some claims
chosen_eddsa alg x y claims listed taken =
    let found : str_eq "EdDSA" alg ≡ true = ground (arith, listed) in
    subst (λ a. (if str_eq a "EdDSA" then x else y) ≡ some claims)
      (sym ((eq_iff "EdDSA" alg).0 found)) taken

-- What the validator asks of a token of a peer with an Ed25519 key set.
pub record IsVouched (v : Validator) (now : ℕ) (token : String) (entry : TrustedIssuer)
    (claims : Fields) : Type 0 where
  pub key : String
  pub keyed : resolve_jwks_key v entry token ≡ some key
  pub signed : IsSigned v.host key token claims
  pub current : IsCurrent v.host now entry.iss claims
  pub required : meets v entry claims ≡ true

module _ (v : Validator) (now : ℕ) (token : String) (claims : Fields) where
  eddsa_parts :
      (opts : VerifyJwtOptions)
      → opts.algorithms ≡ eddsa ∷ []
      → verify_jwt v.host now token opts ≡ some claims
      → verify_parts v.host now opts (split_on 46 token) ≡ some claims
  unfolding verify_jwt
  eddsa_parts opts only h =
      let (alg, _, chosen) = and_then-some (decode_alg v.host token) _ claims h in
      let (known, taken) = check-some _ _ claims chosen in
      let listed : supports (eddsa ∷ []) alg ≡ true =
        subst (λ as'. supports as' alg ≡ true) only known in
      chosen_eddsa alg _ _ claims listed taken

  pub trusted-IsVouched :
      (entry : TrustedIssuer)
      → entry.alg ≡ eddsa
      → verify_trusted v now token entry ≡ some claims
      → IsVouched v now token entry claims
  unfolding verify_trusted
  trusted-IsVouched entry alg h =
      let (key, got, rest) = and_then-some (key_for v entry.alg entry token) _ claims h in
      let (cs, checked, met) =
        and_then-some (verify_jwt v.host now token (trusted_options v entry key)) _ claims rest in
      let (required, same) = check-some (meets v entry cs) (some cs) claims met in
      let cs_claims : cs ≡ claims = ground (arith, same) in
      let opts = trusted_options v entry key in
      let parts = eddsa_parts opts (ap (λ a. a ∷ []) alg) (checked ∙ same) in
      let (signed, valid) =
        parts-IsSigned v.host now opts claims token (split_on 46 token) refl parts in
      record {
        key = key;
        keyed = subst (λ a. key_for v a entry token ≡ some key) alg got;
        signed = signed;
        current = valid-IsCurrent v.host now opts claims entry.iss refl valid;
        required = subst (λ c. meets v entry c ≡ true) cs_claims required;
      }
