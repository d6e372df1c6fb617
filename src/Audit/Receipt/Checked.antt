-- ===== src/Audit/Receipt/Checked.antt =====
-- What a verified audit shows (src/audit/receipt-audit.service.ts).
pub mod Phases
pub mod Producer
pub mod Structure
pub mod Served
pub mod Verified
use Prim.Native.String
use acdp_control_plane.Prelude.{
  ℕ, ◌+◌, ◌≡◌, ◌≤◌, ◌<◌, String, Bool, true, Option, none, some, codes, starts_with, Json, member,
}
use acdp_control_plane.Did.{authority_to_did_web}
use acdp_control_plane.Audit.Revocation.{str_of, fields_of}
use acdp_control_plane.Audit.Lineage.{object_of, without_slash}
use acdp_control_plane.Audit.Receipt.{
  ContextEvent, ReceiptHost, filled, fingerprint_ed25519_b64, verify_body_offline,
}
use acdp_control_plane.Audit.Receipt.Service.{clock_skew_tolerance_ms}
use acdp_control_plane.Audit.Receipt.CtxId.{is_canonical_ctx_id}
use acdp_control_plane.Audit.Receipt.Crypto.{
  signature_member, or_default, did_key_prefix, ed25519, claimed_fingerprint,
}

-- Two texts are the same, where both are given and not empty.
pub data Agrees (expected actual : Option String) : Type 0 where
  not_expected : filled expected ≡ none → Agrees expected actual
  not_given : filled actual ≡ none → Agrees expected actual
  agreed : filled actual ≡ filled expected → Agrees expected actual

-- The time of a receipt is at most the tolerated clock skew past the arrival of its event, where both
-- can be read.
pub data IsOnTime (host : ReceiptHost) (ev : ContextEvent) (created : Option String) : Type 0 where
  unclaimed : filled created ≡ none → IsOnTime host ev created
  unread :
      (c : String) → filled created ≡ some c → host.parse_date c ≡ none → IsOnTime host ev created
  no_arrival : host.parse_date ev.created_at ≡ none → IsOnTime host ev created
  on_time :
      (c : String) (claimed arrival : ℕ)
      → filled created ≡ some c
      → host.parse_date c ≡ some claimed
      → host.parse_date ev.created_at ≡ some arrival
      → claimed ≤ arrival + clock_skew_tolerance_ms
      → IsOnTime host ev created

module _ (host : ReceiptHost) (ev : ContextEvent) (receipt : Json) where
  -- The receipt is signed by a key of the registry's own DID, and the SDK accepts it for the body
  -- with this hash and for this producer.
  pub record IsSigned (ctx_id body_json hash fp : String) (historical : Bool) : Type 0 where
    pub key_id : String
    pub did : String
    pub key : String
    pub names_key : filled (signature_member "key_id" (fields_of receipt)) ≡ some key_id
    pub identity : authority_to_did_web ev.registry_authority ≡ some did
    pub own_key : host.strip_fragment key_id ≡ did
    pub resolved : host.resolve_receipt_key key_id ≡ some (key, historical)
    pub sdk_accepts :
        host.sdk.verify_receipt (host.stringify receipt) body_json key ctx_id hash fp ≡ none

  -- The producer's fingerprint: for a did:key the receipt's, the body being signed by that key, and
  -- otherwise that of the Ed25519 key which the resolver gives for the body's own key id.
  pub data IsProducer (body : Json) (fp : String) : Type 0 where
    offline :
        starts_with (codes did_key_prefix) (codes ev.agent_id) ≡ true
        → verify_body_offline host.sdk (host.stringify body) ≡ true
        → fp ≡ claimed_fingerprint host ev receipt
        → IsProducer body fp
    by_key :
        (key_id key : String)
        → filled (signature_member "key_id" (fields_of body)) ≡ some key_id
        → or_default ed25519 (signature_member "algorithm" (fields_of body)) ≡ ed25519
        → host.resolve_key key_id ≡ some key
        → fingerprint_ed25519_b64 host.sdk key ≡ some fp
        → IsProducer body fp

  -- The body that the registry of the event, at the base URL under which it is enrolled for the
  -- tenant, serves for a context id.
  pub record IsServed (ctx_id : String) (body : Json) : Type 0 where
    pub stored : Option String
    pub base_url : String
    pub text : String
    pub full : Json
    pub status : ℕ
    pub canonical : is_canonical_ctx_id ctx_id ≡ true
    pub enrolled : host.base_url ev.registry_authority ev.tenant_id ≡ some stored
    pub at_url : filled stored ≡ some base_url
    pub fetched :
        host.get (
          String.◌++◌
            (without_slash base_url)
            (String.◌++◌ "/contexts/" (host.encode_uri_component ctx_id)))
        ≡ some (status, text)
    pub success : (200 ≤ status) × (status < 300)
    pub parses : host.parse_json text ≡ some full
    pub has_body : object_of (member "body" (fields_of full)) ≡ some body

  -- The body's hash is recomputed, its producer known, and the receipt signed for both.
  pub record IsProven (ctx_id : String) (body : Json) (historical : Bool) : Type 0 where
    pub hash : String
    pub fp : String
    pub names_hash : filled (str_of (member "content_hash" (fields_of body))) ≡ some hash
    pub hash_accepted : host.sdk.verify_content_hash (host.stringify body) hash ≡ true
    pub producer : IsProducer body fp
    pub signed : IsSigned ctx_id (host.stringify body) hash fp historical

  -- The receipt agrees with the event, and what the registry serves is proven.
  pub record IsChecked (historical : Bool) : Type 0 where
    pub ctx_id : String
    pub body : Json
    pub names_ctx_id : filled ev.ctx_id ≡ some ctx_id
    pub same_ctx_id : str_of (member "ctx_id" (fields_of receipt)) ≡ some ctx_id
    pub same_origin :
        str_of (member "origin_registry" (fields_of receipt)) ≡ some ev.registry_authority
    pub same_registry :
        str_of (member "registry_did" (fields_of receipt))
        ≡ authority_to_did_web ev.registry_authority
    pub same_lineage : Agrees ev.lineage_id (str_of (member "lineage_id" (fields_of receipt)))
    pub same_fingerprint :
        Agrees ev.key_fingerprint (str_of (member "key_fingerprint" (fields_of receipt)))
    pub on_time : IsOnTime host ev (str_of (member "created_at" (fields_of receipt)))
    pub served : IsServed ctx_id body
    pub proven : IsProven ctx_id body historical
