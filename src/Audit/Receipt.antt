-- ===== src/Audit/Receipt.antt =====
-- src/audit/receipt-verify.ts, and the data of src/audit/receipt-audit.service.ts. The SDK is a
-- parameter. Of a flag or a note its kind is kept and the rest of its message left out.
mod Tests
pub mod CtxId
pub mod Crypto
pub mod Classify
pub mod Service
pub mod Checked
pub mod Honest
pub mod Gate
pub mod Sweep
pub mod Reaudit
use Prim.Native.String
use acdp_control_plane.Prelude.{
  ℕ, ◌-◌, String, List, [], ◌∷◌, ◌++◌, Bool, true, false, ◌&&◌, not, Option, none, some, ltb, leb,
  if◌then◌else◌, str_eq, codes, starts_with, Json, Fields,
}
use acdp_control_plane.Audit.Revocation.{TrustClass}

pub data ℤ : Type 0 where
  pos : ℕ → ℤ
  negsuc : ℕ → ℤ

-- `a - b`
unfoldable pub difference : ℕ → ℕ → ℤ
difference a b = if leb b a then pos (a - b) else negsuc (b - a - 1)

-- A text that is truthy.
unfoldable pub filled : Option String → Option String
filled none = none
filled (some s) = if str_eq s "" then none else some s

-- Signals of a dishonest registry.
pub data Flag : Type 0 where
  missing_receipt ctx_id_mismatch lineage_id_mismatch key_fingerprint_mismatch : Flag
  origin_registry_mismatch registry_did_mismatch created_at_after_observation : Flag
  content_hash_mismatch body_signature_invalid key_id_missing receipt_key_foreign_did : Flag
  receipt_invalid : Flag

-- Checks that could not be completed.
pub data Note : Type 0 where
  authority_not_canonical no_ctx_id ctx_id_not_canonical no_base_url http_status fetch_failed : Note
  no_body no_content_hash no_body_key_id unexpected_producer_algorithm : Note
  producer_key_unresolved unsupported_receipt_algorithm no_registry_did : Note
  receipt_key_unresolved body_unparsable ctx_id_refused audit_crashed : Note

pub data Discrepancy : Type 0 where
  flagged : Flag → Discrepancy
  unverified : Note → Discrepancy

-- The two lists that the checks append to.
pub record Marks : Type 0 where
  pub flags : List Flag
  pub notes : List Note

abbrev pub add_flag : Flag → Marks → Marks
add_flag flag marks = record marks { flags = marks.flags ++ flag ∷ [] }

abbrev pub add_note : Note → Marks → Marks
add_note note marks = record marks { notes = marks.notes ++ note ∷ [] }

pub data AuditStatus : Type 0 where
  verified verified_historical structural discrepancy no_receipt error : AuditStatus

pub record ContextEvent : Type 0 where
  pub id : String
  pub tenant_id : String
  pub run_id : Option String
  pub ctx_id : Option String
  pub lineage_id : Option String
  pub agent_id : String
  pub registry_authority : String
  pub key_fingerprint : Option String
  pub raw_payload : Fields
  pub created_at : String

-- A stored revocation, as far as the audit reads it.
pub record KeyRevocation : Type 0 where
  pub ctx_id : String
  pub revoked_key_fingerprint : String
  pub compromised_since : String
  pub reason : Option String
  pub revoked_key_id : Option String
  pub revoked_key_controller : String
  pub publisher : String
  pub trust_class : TrustClass

-- The SDK, whose functions may be missing; `none` is a throw, and of `verify_receipt` the message
-- that it throws, or `none` where it accepts.
pub record ReceiptSurface : Type 0 where
  pub has_verify_receipt : Bool
  pub has_fingerprint : Bool
  pub has_verify_body_offline : Bool
  pub verify_content_hash : (body_json expected : String) → Bool
  pub verify_receipt :
      (receipt_json body_json key ctx_id body_hash fingerprint : String) → Option String
  pub fingerprint : (key : String) → Option String
  pub verify_body_offline : (body_json : String) → Bool

-- The registry's profile, the database, the federation client, the resolver of DID documents and the
-- host's own functions; `none` is a throw. `parse_date` counts the milliseconds from the earliest
-- date that there is, an offset that differences cancel, and `to_iso` is `new Date(…).toISOString()`.
pub record ReceiptHost : Type 0 where
  pub sdk : ReceiptSurface
  pub advertises_receipts : (authority tenant_id : String) → Option (Option Bool)
  pub base_url : (authority tenant_id : String) → Option (Option String)
  pub get : (url : String) → Option (ℕ × String)
  pub encode_uri_component : String → String
  pub parse_json : String → Option Json
  pub stringify : Json → String
  pub parse_date : String → Option ℕ
  pub to_iso : String → Option String
  pub strip_fragment : String → String
  pub resolve_key : (key_id : String) → Option String
  pub resolve_receipt_key : (key_id : String) → Option (String × Bool)

pub data ReceiptFailureKind : Type 0 where
  malformed_body ctx_id_rejected receipt_dishonest : ReceiptFailureKind

pub data ReceiptVerifyOutcome : Type 0 where
  accepted : ReceiptVerifyOutcome
  refused : ReceiptFailureKind → ReceiptVerifyOutcome

abbrev pub malformed_body_prefix : String
malformed_body_prefix = "invalid body JSON: "

abbrev pub ctx_id_rejected_prefix : String
ctx_id_rejected_prefix = "invalid expectedCtxId: "

unfoldable pub classify_receipt_failure : String → ReceiptFailureKind
unfolding starts_with
classify_receipt_failure message =
    if starts_with (codes malformed_body_prefix) (codes message)
    then malformed_body
    else if starts_with (codes ctx_id_rejected_prefix) (codes message)
    then ctx_id_rejected
    else receipt_dishonest

unfoldable pub verify_outcome : Option String → ReceiptVerifyOutcome
verify_outcome none = accepted
verify_outcome (some message) = refused (classify_receipt_failure message)

module _ (verifier : ReceiptSurface) where
  unfoldable pub sdk_supports_receipts : Bool
  sdk_supports_receipts = verifier.has_verify_receipt && verifier.has_fingerprint

  -- `none` is the error thrown where the SDK has no such function.
  unfoldable pub verify_receipt :
      String → String → String → String → String → String → Option ReceiptVerifyOutcome
  unfolding verify_outcome
  verify_receipt receipt_json body_json key ctx_id body_hash fingerprint =
      if not verifier.has_verify_receipt
      then none
      else some (
          verify_outcome
            (verifier.verify_receipt receipt_json body_json key ctx_id body_hash fingerprint))

  unfoldable pub fingerprint_ed25519_b64 : String → Option String
  fingerprint_ed25519_b64 key =
      if not verifier.has_fingerprint then none else verifier.fingerprint key

  unfoldable pub verify_body_offline : String → Bool
  verify_body_offline body_json =
      verifier.has_verify_body_offline && verifier.verify_body_offline body_json
