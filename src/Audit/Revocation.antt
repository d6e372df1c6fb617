-- ===== src/Audit/Revocation.antt =====
-- src/audit/revocation-verify.ts and src/contracts/revocation.ts. The SDK and `JSON.parse` are
-- parameters; of a failure its code is kept and its message left out.
use acdp_control_plane.Prelude.{
  String, List, [], ◌∷◌, Bool, not, Option, none, some, str_eq, str_mem, if◌then◌else◌, Json, str,
  obj, Fields, end, member,
}

abbrev pub revocation_context_types : List String
revocation_context_types = "key-revocation" ∷ "acdp:key-revocation" ∷ []

unfoldable pub is_revocation_context_type : String → Bool
is_revocation_context_type context_type = str_mem context_type revocation_context_types

pub data TrustClass : Type 0 where
  producer_signed registry_attested : TrustClass

pub record ParsedRevocation : Type 0 where
  pub revoked_key_fingerprint : String
  pub compromised_since : String
  pub reason : Option String
  pub revoked_key_id : Option String
  pub revoked_key_controller : String
  pub publisher : String
  pub trust_class : TrustClass

pub data ParseRevocationFailureCode : Type 0 where
  schema_violation key_not_authorized invalid_input unknown : ParseRevocationFailureCode

-- A returned outcome, or one of the two errors that `parseKeyRevocation` throws itself.
pub data ParseRevocationOutcome : Type 0 where
  parsed : ParsedRevocation → ParseRevocationOutcome
  refused : ParseRevocationFailureCode → ParseRevocationOutcome
  threw_no_sdk threw_no_fingerprint : ParseRevocationOutcome

-- What the SDK's function does: it returns a JSON text, or throws, with a `code` or without.
pub data SdkReply : Type 0 where
  returned : (json : String) → SdkReply
  threw : (code : Option String) → SdkReply

-- The SDK, which may be too old to have the function.
pub record RevocationSurface : Type 0 where
  pub present : Bool
  pub parse_key_revocation : String → String → SdkReply

-- `typeof v === 'string' ? v : undefined`
unfoldable pub str_of : Option Json → Option String
str_of (some (str s)) = some s
str_of _ = none

unfoldable pub code_of : Option String → ParseRevocationFailureCode
code_of none = unknown
code_of (some c) =
    if str_eq c "schema_violation"
    then schema_violation
    else if str_eq c "key_not_authorized"
    then key_not_authorized
    else if str_eq c "invalid_input"
    then invalid_input
    else unknown

-- What reading a property of a parsed value sees: no named member on anything but an object.
unfoldable pub fields_of : Json → Fields
fields_of (obj fs) = fs
fields_of _ = end

unfoldable pub trust_class_of : Option Json → Option TrustClass
unfolding str_of
trust_class_of v = elim (str_of v) [
  | none ↦ none
  | some s ↦
      if str_eq s "producer_signed"
      then some producer_signed
      else if str_eq s "registry_attested"
      then some registry_attested
      else none
]

abbrev pub or_empty : Option String → String
or_empty none = ""
or_empty (some s) = s

-- The outcome for the members that the SDK's JSON has; reading one of `null` throws, without a code.
unfoldable pub revocation_of : Fields → ParseRevocationOutcome
unfolding trust_class_of str_of
revocation_of fs = elim (trust_class_of (member "trust_class" fs)) [
  | none ↦ refused unknown
  | some trusted ↦ parsed record {
    revoked_key_fingerprint = or_empty (str_of (member "revoked_key_fingerprint" fs));
    compromised_since = or_empty (str_of (member "compromised_since" fs));
    reason = str_of (member "reason" fs);
    revoked_key_id = str_of (member "revoked_key_id" fs);
    revoked_key_controller = or_empty (str_of (member "revoked_key_controller" fs));
    publisher = or_empty (str_of (member "publisher" fs));
    trust_class = trusted;
  }
]

module _ (parse_json : String → Option Json) (verifier : RevocationSurface) where
  unfoldable pub sdk_supports_revocations : Bool
  sdk_supports_revocations = verifier.present

  outcome_of : SdkReply → ParseRevocationOutcome
  unfolding code_of fields_of revocation_of
  outcome_of (threw code) = refused (code_of code)
  outcome_of (returned json) = elim (parse_json json) [
    | none ↦ refused unknown
    | some v ↦ revocation_of (fields_of v)
  ]

  unfoldable pub parse_key_revocation : String → String → ParseRevocationOutcome
  unfolding sdk_supports_revocations outcome_of
  parse_key_revocation body_json signer_fingerprint =
      if not sdk_supports_revocations
      then threw_no_sdk
      else if str_eq signer_fingerprint ""
      then threw_no_fingerprint
      else outcome_of (verifier.parse_key_revocation body_json signer_fingerprint)
