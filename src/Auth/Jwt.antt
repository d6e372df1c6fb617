-- ===== src/Auth/Jwt.antt =====
-- The verification of a signed token (src/auth/jwt-codec.ts) and the scopes of its claims
-- (src/auth/scopes.ts). Base64url, `JSON.parse`, the Ed25519 check, keys and the library for HS256 are
-- parameters.
use Prim.Native.String
use Prim.Native.Char.{Char, code}
use acdp_control_plane.Prelude.{
  ℕ, String, List, [], ◌∷◌, ◌++◌, Bool, true, false, ◌&&◌, ◌||◌, not, Option, none, some, ltb, ◌==◌,
  if◌then◌else◌, str_eq, str_mem, split_on, is_white, Json, num, str, arr, obj, items, Fields,
  member, nat, neg, frac,
}

-- The two forms that a chain of steps which may throw is built from.
abbrev pub check {ℓ} : {A : Type ℓ} → Bool → Option A → Option A
check true rest = rest
check false rest = none

abbrev pub and_then {ℓ κ} : {A : Type ℓ} {B : Type κ} → Option A → (A → Option B) → Option B
and_then none f = none
and_then (some a) f = f a

pub data JwtAlgorithm : Type 0 where
  hs256 eddsa : JwtAlgorithm

abbrev pub algorithm_text : JwtAlgorithm → String
algorithm_text hs256 = "HS256"
algorithm_text eddsa = "EdDSA"

pub record VerifyJwtOptions : Type 0 where
  pub algorithms : List JwtAlgorithm
  pub key : String
  pub issuer : Option String
  pub audience : Option String

-- What the host does: `none` is a thrown error. `parse_part` decodes a segment and parses it;
-- `frac_below claims name n` says whether a claim that is no whole number is less than `n`.
pub record Host : Type 0 where
  pub parse_part : String → Option Json
  pub signature_size : String → ℕ
  pub raw_key : String → Option String
  pub verify_signature : (raw message signature : String) → Bool
  pub verify_hs256 : String → VerifyJwtOptions → Option Fields
  pub frac_below : Fields → String → ℕ → Bool

-- The alg of a parsed header, where it is a text.
abbrev alg_member : Option Json → Option String
alg_member (some (str alg)) = some alg
alg_member _ = none

abbrev alg_of : Json → Option String
alg_of (obj fields) = alg_member (member "alg" fields)
alg_of _ = none

-- `split('.')[0]`
abbrev first_part : List String → String
first_part [] = ""
first_part (h ∷ rest) = h

abbrev pub supports : List JwtAlgorithm → String → Bool
supports [] alg = false
supports (a ∷ as') alg = str_eq (algorithm_text a) alg || supports as' alg

-- `aud` is the text, or a list that has it.
abbrev has_text : String → List Json → Bool
has_text s [] = false
has_text s (str t ∷ vs) = str_eq t s || has_text s vs
has_text s (v ∷ vs) = has_text s vs

abbrev pub matches_audience : Option Json → String → Bool
matches_audience (some (str aud)) required = str_eq aud required
matches_audience (some (arr auds)) required = has_text required (items auds)
matches_audience _ required = false

abbrev pub is_text : Option Json → String → Bool
is_text (some (str s)) t = str_eq s t
is_text _ t = false

-- `opts.issuer !== undefined && …`, and the same of the audience.
abbrev pub when_given : Option String → (String → Bool) → Bool
when_given none test = true
when_given (some s) test = test s

abbrev pub is_number : Option Json → Bool
is_number (some (num n)) = true
is_number _ = false

module _ (host : Host) where
  unfoldable pub decode_alg : String → Option String
  decode_alg token =
      check (not (str_eq (first_part (split_on 46 token)) ""))
        (and_then (host.parse_part (first_part (split_on 46 token))) alg_of)

  -- `x < n` of a claim, where it is a number.
  abbrev pub below : Fields → String → Option Json → ℕ → Bool
  below claims name (some (num (nat k))) n = ltb k n
  below claims name (some (num (neg k))) n = true
  below claims name (some (num frac)) n = host.frac_below claims name n
  below claims name _ n = false

  -- `n < x` of a claim, where it is a number; one that is not whole is never `n`.
  abbrev pub above : Fields → String → Option Json → ℕ → Bool
  above claims name (some (num (nat k))) n = ltb n k
  above claims name (some (num frac)) n = not (host.frac_below claims name n)
  above claims name _ n = false

  -- With no tolerance, and `exp` required, as all callers have it.
  unfoldable pub validate_registered_claims : ℕ → Fields → VerifyJwtOptions → Bool
  validate_registered_claims now claims opts =
      is_number (member "exp" claims)
      && not (below claims "exp" (member "exp" claims) now)
      && not (above claims "nbf" (member "nbf" claims) now)
      && when_given opts.issuer (is_text (member "iss" claims))
      && when_given opts.audience (matches_audience (member "aud" claims))

  -- A payload that is no object has no `exp`.
  abbrev pub claims_of : ℕ → VerifyJwtOptions → Json → Option Fields
  claims_of now opts (obj claims) = check (validate_registered_claims now claims opts) (some claims)
  claims_of now opts _ = none

  unfoldable pub verify_parts : ℕ → VerifyJwtOptions → List String → Option Fields
  unfolding validate_registered_claims
  verify_parts now opts (h ∷ p ∷ s ∷ []) =
      check (not (str_eq h "") && not (str_eq p "") && (host.signature_size s == 64)) (
        and_then (host.raw_key opts.key) (λ raw.
          check (host.verify_signature raw (String.◌++◌ h (String.◌++◌ "." p)) s)
            (and_then (host.parse_part p) (claims_of now opts))))
  verify_parts now opts _ = none

  abbrev pub with_exp : Option Fields → Option Fields
  with_exp none = none
  with_exp (some claims) = check (is_number (member "exp" claims)) (some claims)

  unfoldable pub verify_jwt : ℕ → String → VerifyJwtOptions → Option Fields
  unfolding verify_parts decode_alg
  verify_jwt now token opts = and_then (decode_alg token) (λ alg.
      check (supports opts.algorithms alg) (
        if str_eq alg "EdDSA"
        then verify_parts now opts (split_on 46 token)
        else with_exp (host.verify_hs256 token opts)))

-- `split(/\s+/).filter(Boolean)`: at each white character, and the empty pieces dropped.
abbrev onto_word : Char → List String → List String
onto_word c [] = String.◌∷◌ c String.[] ∷ []
onto_word c (w ∷ ws) = String.◌∷◌ c w ∷ ws

pieces : String → List String
pieces String.[] = String.[] ∷ []
pieces (String.◌∷◌ c rest) =
    let more = pieces rest in if is_white (code c) then String.[] ∷ more else onto_word c more

abbrev filled : List String → List String
filled [] = []
filled (w ∷ ws) = if str_eq w "" then filled ws else w ∷ filled ws

abbrev texts : List Json → List String
texts [] = []
texts (str s ∷ vs) = if str_eq s "" then texts vs else s ∷ texts vs
texts (v ∷ vs) = texts vs

unfoldable pub from_claim : Option Json → List String
unfolding pieces
from_claim (some (str s)) = filled (pieces s)
from_claim (some (arr vs)) = texts (items vs)
from_claim _ = []

-- The set of them, in the order of their first places.
abbrev pub add_all : List String → List String → List String
add_all seen [] = seen
add_all seen (s ∷ ss) = add_all (if str_mem s seen then seen else seen ++ s ∷ []) ss

unfoldable pub read_scopes : Fields → List String
unfolding from_claim
read_scopes claims =
    add_all
      (add_all (add_all [] (from_claim (member "scope" claims)))
        (from_claim (member "scopes" claims)))
      (from_claim (member "scp" claims))

unfoldable pub parse_scope_string : Option String → List String
unfolding from_claim
parse_scope_string none = []
parse_scope_string (some raw) = from_claim (some (str raw))
