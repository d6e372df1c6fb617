-- ===== src/Audit/Receipt/Crypto.antt =====
-- ReceiptAuditService.verifyCryptographically and resolveProducerFingerprint
-- (src/audit/receipt-audit.service.ts).
use Prim.Native.String
use acdp_control_plane.Prelude.{
  ℕ, String, Bool, true, false, ◌||◌, not, Option, none, some, ltb, leb, if◌then◌else◌, str_eq,
  codes, starts_with, Json, null, Fields, member,
}
use acdp_control_plane.Auth.Jwt.{and_then}
use acdp_control_plane.Did.{authority_to_did_web}
use acdp_control_plane.Audit.Revocation.{str_of, fields_of}
use acdp_control_plane.Audit.Lineage.{object_of, without_slash}
use acdp_control_plane.Audit.Receipt.{
  Marks, add_flag, add_note, no_ctx_id, ctx_id_not_canonical, no_base_url, http_status,
  fetch_failed, no_body, no_content_hash, no_body_key_id, unexpected_producer_algorithm,
  producer_key_unresolved, unsupported_receipt_algorithm, no_registry_did, receipt_key_unresolved,
  body_unparsable, ctx_id_refused, content_hash_mismatch, body_signature_invalid, key_id_missing,
  receipt_key_foreign_did, receipt_invalid, ContextEvent, ReceiptHost, ReceiptVerifyOutcome,
  accepted, refused, malformed_body, ctx_id_rejected, receipt_dishonest, filled,
  sdk_supports_receipts, verify_receipt, fingerprint_ed25519_b64, verify_body_offline,
}
use acdp_control_plane.Audit.Receipt.CtxId.{is_canonical_ctx_id}

pub record CryptoOutcome : Type 0 where
  pub ran : Bool
  pub historical : Bool
  pub producer_fp : Option String

-- The end of the phase with the marks that it leaves; `none` is a throw.
abbrev pub Phase : Type 0
Phase = Option (CryptoOutcome × Marks)

unfoldable pub not_run : Option String → Marks → Phase
not_run producer_fp marks =
    some (record { ran = false; historical = false; producer_fp = producer_fp }, marks)

abbrev pub as_fields : Option Json → Fields
as_fields v = elim v [ none ↦ Fields.end | some o ↦ fields_of o ]

-- A text member of the `signature` object of a receipt or a body.
unfoldable pub signature_member : String → Fields → Option String
unfolding object_of str_of fields_of
signature_member name fields =
    str_of (member name (as_fields (object_of (member "signature" fields))))

abbrev pub or_default : String → Option String → String
or_default d none = d
or_default d (some s) = s

abbrev pub did_key_prefix : String
did_key_prefix = "did:key:"

abbrev pub ed25519 : String
ed25519 = "ed25519"

-- `receiptAlg && receiptAlg !== RECEIPT_SIG_ALG`
unfoldable pub is_unsupported : Option String → Bool
is_unsupported none = false
is_unsupported (some algorithm) = not (str_eq algorithm ed25519)

module _ (host : ReceiptHost) (ev : ContextEvent) (receipt : Json) where
  -- The fingerprint, unless its computation threw.
  abbrev pub fingerprinted : Option String → Marks → Option String × Marks
  fingerprinted none marks = (none, add_note producer_key_unresolved marks)
  fingerprinted (some fingerprint) marks = (some fingerprint, marks)

  -- The fingerprint of the key that the resolver gives.
  unfoldable pub by_resolved : Option String → Marks → Option String × Marks
  unfolding fingerprint_ed25519_b64
  by_resolved none marks = (none, add_note producer_key_unresolved marks)
  by_resolved (some key) marks = fingerprinted (fingerprint_ed25519_b64 host.sdk key) marks

  abbrev pub claimed_fingerprint : String
  claimed_fingerprint = or_default "" (str_of (member "key_fingerprint" (fields_of receipt)))

  unfoldable pub by_did_web : Option String → String → Marks → Option String × Marks
  unfolding by_resolved
  by_did_web none algorithm marks = (none, add_note no_body_key_id marks)
  by_did_web (some key_id) algorithm marks =
      if not (str_eq algorithm ed25519)
      then (some claimed_fingerprint, add_note unexpected_producer_algorithm marks)
      else by_resolved (host.resolve_key key_id) marks

  unfoldable pub resolve_producer_fingerprint : Json → Marks → Option String × Marks
  unfolding by_did_web verify_body_offline filled starts_with
  resolve_producer_fingerprint body marks =
      if starts_with (codes did_key_prefix) (codes ev.agent_id)
      then if verify_body_offline host.sdk (host.stringify body)
        then (some claimed_fingerprint, marks)
        else (none, add_flag body_signature_invalid marks)
      else by_did_web (filled (signature_member "key_id" (fields_of body)))
          (or_default ed25519 (signature_member "algorithm" (fields_of body))) marks

  unfoldable pub judge_receipt : Option ReceiptVerifyOutcome → Bool → String → Marks → Phase
  unfolding not_run
  judge_receipt none historical fp marks = none
  judge_receipt (some accepted) historical fp marks =
      some (record { ran = true; historical = historical; producer_fp = some fp }, marks)
  judge_receipt (some (refused malformed_body)) historical fp marks =
      not_run (some fp) (add_note body_unparsable marks)
  judge_receipt (some (refused ctx_id_rejected)) historical fp marks =
      not_run (some fp) (add_note ctx_id_refused marks)
  judge_receipt (some (refused receipt_dishonest)) historical fp marks =
      not_run (some fp) (add_flag receipt_invalid marks)

  module _ (ctx_id : String) where
    unfoldable pub by_receipt_key :
        Option (String × Bool) → String → String → String → Marks → Phase
    unfolding not_run judge_receipt
    by_receipt_key none body_json hash fp marks =
        not_run (some fp) (add_note receipt_key_unresolved marks)
    by_receipt_key (some (key, historical)) body_json hash fp marks =
        judge_receipt
          (verify_receipt host.sdk (host.stringify receipt) body_json key ctx_id hash fp) historical
          fp marks

    unfoldable pub by_registry_did :
        Option String → String → String → String → String → Marks → Phase
    unfolding not_run by_receipt_key
    by_registry_did none key_id body_json hash fp marks =
        not_run (some fp) (add_note no_registry_did marks)
    by_registry_did (some did) key_id body_json hash fp marks =
        if not (str_eq (host.strip_fragment key_id) did)
        then not_run (some fp) (add_flag receipt_key_foreign_did marks)
        else by_receipt_key (host.resolve_receipt_key key_id) body_json hash fp marks

    unfoldable pub by_key_id : Option String → String → String → String → Marks → Phase
    unfolding not_run by_registry_did is_unsupported filled
    by_key_id none body_json hash fp marks = not_run (some fp) (add_flag key_id_missing marks)
    by_key_id (some key_id) body_json hash fp marks =
        if is_unsupported (filled (signature_member "algorithm" (fields_of receipt)))
        then not_run (some fp) (add_note unsupported_receipt_algorithm marks)
        else by_registry_did (authority_to_did_web ev.registry_authority) key_id body_json hash fp
            marks

    unfoldable pub by_producer : Option String × Marks → String → String → Phase
    unfolding not_run by_key_id filled
    by_producer (none, marks) body_json hash = not_run none marks
    by_producer (some fp, marks) body_json hash =
        by_key_id (filled (signature_member "key_id" (fields_of receipt))) body_json hash fp marks

    unfoldable pub by_hash : Option String → Json → Marks → Phase
    unfolding not_run by_producer
    by_hash none body marks = not_run none (add_note no_content_hash marks)
    by_hash (some hash) body marks =
        if host.sdk.verify_content_hash (host.stringify body) hash
        then by_producer (resolve_producer_fingerprint body marks) (host.stringify body) hash
        else not_run none (add_flag content_hash_mismatch marks)

    unfoldable pub by_body : Option Json → Marks → Phase
    unfolding not_run by_hash filled
    by_body none marks = not_run none (add_note no_body marks)
    by_body (some body) marks =
        by_hash (filled (str_of (member "content_hash" (fields_of body)))) body marks

    -- A response that is no JSON, or is null, throws where it is read.
    unfoldable pub by_value : Option Json → Marks → Phase
    unfolding not_run by_body
    by_value none marks = not_run none (add_note fetch_failed marks)
    by_value (some null) marks = not_run none (add_note fetch_failed marks)
    by_value (some full) marks = by_body (object_of (member "body" (fields_of full))) marks

    unfoldable pub by_response : Option (ℕ × String) → Marks → Phase
    unfolding not_run by_value
    by_response none marks = not_run none (add_note fetch_failed marks)
    by_response (some (status, text)) marks =
        if ltb status 200 || leb 300 status
        then not_run none (add_note http_status marks)
        else by_value (host.parse_json text) marks

    unfoldable pub context_url : String → String
    context_url base_url =
        String.◌++◌ (without_slash base_url)
          (String.◌++◌ "/contexts/" (host.encode_uri_component ctx_id))

    unfoldable pub by_base_url : Option String → Marks → Phase
    unfolding not_run by_response context_url
    by_base_url none marks = not_run none (add_note no_base_url marks)
    by_base_url (some base_url) marks = by_response (host.get (context_url base_url)) marks

  unfoldable pub by_ctx_id : Option String → Marks → Phase
  unfolding not_run by_base_url is_canonical_ctx_id filled
  by_ctx_id none marks = not_run none (add_note no_ctx_id marks)
  by_ctx_id (some ctx_id) marks =
      if not (is_canonical_ctx_id ctx_id)
      then not_run none (add_note ctx_id_not_canonical marks)
      else and_then (host.base_url ev.registry_authority ev.tenant_id)
          (λ url. by_base_url ctx_id (filled url) marks)

  unfoldable pub verify_cryptographically : Marks → Phase
  unfolding not_run by_ctx_id sdk_supports_receipts filled
  verify_cryptographically marks =
      if not (sdk_supports_receipts host.sdk)
      then not_run none marks
      else by_ctx_id (filled ev.ctx_id) marks
