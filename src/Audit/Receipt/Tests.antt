-- ===== src/Audit/Receipt/Tests.antt =====
-- The audit of an event, and of one whose producer's key has been revoked
-- (src/audit/receipt-audit.service.ts).
use acdp_control_plane.Audit.Receipt.{flagged, body_signature_invalid}
use acdp_control_plane.Prelude.{
  ℕ, ◌≡◌, ◌⊎◌, refl, ap, sym, subst, String, [], ◌∷◌, true, false, Option, none, some,
  if◌then◌else◌, str_eq, split_on, Json, str, obj, Fields, end, field, member,
}
use acdp_control_plane.Audit.Revocation.{producer_signed, str_of}
use acdp_control_plane.Audit.Lineage.{object_of, named}
use acdp_control_plane.Audit.Receipt.{
  ContextEvent, KeyRevocation, ReceiptSurface, ReceiptHost, verify_receipt,
}
use acdp_control_plane.Audit.Receipt.CtxId.{is_canonical_ctx_id}
use acdp_control_plane.Audit.Receipt.Crypto.{signature_member, resolve_producer_fingerprint}
use acdp_control_plane.Did.{after_prefix, authority_to_did_web}
use acdp_control_plane.Audit.Receipt.Classify.{
  Source, same_registry, RevocationPolicy, reply_fields,
}
use acdp_control_plane.Audit.Receipt.Service.{audit_event}
use acdp_control_plane.Audit.Receipt.Checked.{IsChecked}
use acdp_control_plane.Audit.Receipt.Checked.Verified.{audit_event-IsChecked}
use acdp_control_plane.Audit.Receipt.Gate.{IsVerified, KnowsNoTime, NeedsTime, signing_time_gated}

abbrev pub ctx : String
ctx = "acdp://registry.example/12345678-1234-4234-8234-123456789abc"

abbrev signature : String → Json
signature key_id = obj (field "key_id" (str key_id) end)

abbrev pub receipt : Json
receipt = obj (
    field "ctx_id" (str ctx) (
      field "lineage_id" (str "lin") (
        field "key_fingerprint" (str "sha256:a") (
          field "origin_registry" (str "registry.example") (
            field "registry_did" (str "did:web:registry.example") (
              field "created_at" (str "2026-01-01")
                (field "signature" (signature "did:web:registry.example#k") end)))))))

abbrev pub context_body : Json
context_body =
    obj
      (field "content_hash" (str "h") (field "signature" (signature "did:web:agent.example#k") end))

abbrev pub context : Json
context = obj (field "body" context_body end)

abbrev reply : Json
reply = obj (field "authorization" (str "none") (field "boundary" (str "2025-01-01") end))

abbrev pub event : ContextEvent
event = record {
  id = "1";
  tenant_id = "default";
  run_id = none;
  ctx_id = some ctx;
  lineage_id = none;
  agent_id = "did:web:agent.example";
  registry_authority = "registry.example";
  key_fingerprint = none;
  raw_payload = field "registry_receipt" receipt end;
  created_at = "2026-01-01";
}

abbrev sdk : ReceiptSurface
sdk = record {
  has_verify_receipt = true;
  has_fingerprint = true;
  has_verify_body_offline = true;
  verify_content_hash = λ body h. true;
  verify_receipt = λ r b k c h f. none;
  fingerprint = λ k. some "sha256:a";
  verify_body_offline = λ b. true;
}

abbrev served : Option (ℕ × String) → ReceiptHost
served response = record {
  sdk = sdk;
  advertises_receipts = λ a t. some (some true);
  base_url = λ a t. some (some "https://registry.example/");
  get = λ url. response;
  encode_uri_component = λ s. s;
  parse_json = λ s. some (if str_eq s "context" then context else reply);
  stringify = λ v. "{}";
  parse_date = λ s. some 1000;
  to_iso = λ s. some s;
  strip_fragment = λ s. "did:web:registry.example";
  resolve_key = λ k. some "key";
  resolve_receipt_key = λ k. some ("key", false);
}

abbrev pub fact : KeyRevocation
fact = record {
  ctx_id = "acdp://r/1";
  revoked_key_fingerprint = "sha256:a";
  compromised_since = "2025-01-01";
  reason = none;
  revoked_key_id = none;
  revoked_key_controller = "did:web:agent.example";
  publisher = "did:web:agent.example";
  trust_class = producer_signed;
}

abbrev pub source : Source
source = record { ctx_id = "acdp://r/1"; publisher = "did:web:agent.example" }

abbrev pub policy : RevocationPolicy
policy = record {
  check_enabled = true;
  ignored_fingerprints = [];
  attested_scope = same_registry;
  sdk_supports_classification = true;
  classify_under_revocation = λ json f t. some "classification";
  find_by_fingerprint = λ f t. some (fact ∷ []);
}

abbrev pub up : ReceiptHost
up = served (some (200, "context"))

audit_event-IsChecked_example :
    (r : Json) × (object_of (member "registry_receipt" event.raw_payload) ≡ some r)
    × IsChecked up event r false
unfolding audit_event after_prefix split_on resolve_producer_fingerprint signature_member
    authority_to_did_web verify_receipt
audit_event-IsChecked_example = audit_event-IsChecked up policy event false refl

abbrev pub text_or : Option String → String
text_or none = ""
text_or (some s) = s

abbrev fields_or : Option Fields → Fields
fields_or none = end
fields_or (some fs) = fs

-- The registry cannot be reached.
abbrev down : ReceiptHost
down = served none

abbrev pub or_receipt : Option Json → Json
or_receipt none = receipt
or_receipt (some r) = r

needs_time : NeedsTime down policy
unfolding reply_fields str_of
needs_time json fp raw v fields asked parsed shown =
    let same_v =
      ap (λ o. or_receipt o)
        (subst (λ r. down.parse_json r ≡ some v) (sym (ap (λ o. text_or o) asked)) parsed) in
    let same_fields =
      ap (λ o. fields_or o) (subst (λ x. reply_fields x ≡ some fields) (sym same_v) shown) in
    subst
      (λ f.
        named "historically_authorized_pre_compromise" (str_of (member "authorization" f)) ≡ false)
      same_fields refl

-- Its producer's key has been revoked.
abbrev of_revoked : ContextEvent
of_revoked = record event { key_fingerprint = some "sha256:a" }

signing_time_gated_example :
    IsVerified (audit_event down policy of_revoked).base.status
    ⊎ KnowsNoTime (audit_event down policy of_revoked).key_revocation
signing_time_gated_example = signing_time_gated down policy needs_time of_revoked

ctx_is_canonical : is_canonical_ctx_id ctx ≡ true
unfolding is_canonical_ctx_id after_prefix split_on
ctx_is_canonical = refl

-- A UUID of another version is refused.
other_version :
    is_canonical_ctx_id "acdp://registry.example/12345678-1234-1234-8234-123456789abc" ≡ false
unfolding is_canonical_ctx_id after_prefix split_on
other_version = refl

-- An SDK without an offline check has the registry flagged for the event of a did:key.
abbrev without_offline : ReceiptHost
without_offline = record up { sdk = record sdk { has_verify_body_offline = false } }

offline_missing :
    (audit_event without_offline policy
      (record event { agent_id = "did:key:z" })).base.discrepancies
    ≡ flagged body_signature_invalid ∷ []
unfolding audit_event after_prefix split_on resolve_producer_fingerprint authority_to_did_web
offline_missing = refl
