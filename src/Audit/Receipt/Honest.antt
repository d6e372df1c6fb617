-- ===== src/Audit/Receipt/Honest.antt =====
-- The audit of an honest registry's events (src/audit/receipt-audit.service.ts).
pub mod Phases
pub mod Structure
pub mod Tests
pub mod Unflagged
pub mod Verdict
pub mod World
use acdp_control_plane.Prelude.{
  ℕ, ◌≡◌, ◌≢◌, ◌⊎◌, ◌+◌, ◌≤◌, false, String, Bool, true, Option, none, some, codes, starts_with,
  Json, member,
}
use acdp_control_plane.Did.{authority_to_did_web}
use acdp_control_plane.Audit.Revocation.{str_of, fields_of}
use acdp_control_plane.Audit.Receipt.{
  Marks, ContextEvent, ReceiptHost, ctx_id_rejected, receipt_dishonest, filled,
  classify_receipt_failure, verify_body_offline,
}
use acdp_control_plane.Audit.Receipt.Crypto.{
  signature_member, did_key_prefix, resolve_producer_fingerprint,
}
use acdp_control_plane.Audit.Receipt.Service.{clock_skew_tolerance_ms}
use acdp_control_plane.Audit.Receipt.Checked.{IsServed}

-- What a registry has published: the context with its body, and the keys behind it.
pub record Publication : Type 0 where
  pub ctx_id : String
  pub lineage_id : String
  pub created_at : String
  pub body : Json
  pub key_id : String
  pub key : String
  pub fingerprint : String

-- A text is left out, or passed on as it is.
abbrev pub Relays : Option String → String → Type 0
Relays o s = (o ≡ none) ⊎ (o ≡ some s)

module _ (host : ReceiptHost) (ev : ContextEvent) (p : Publication) where
  abbrev pub says : Json → String → Option String
  says receipt name = str_of (member name (fields_of receipt))

  -- The event relays the publication, its receipt says the same under the name of the registry and
  -- is signed with a key of its own, and what is served for the event is the published body.
  pub record IsHonest (receipt : Json) : Type 0 where
    pub relays_ctx_id : Relays ev.ctx_id p.ctx_id
    pub relays_lineage : Relays ev.lineage_id p.lineage_id
    pub relays_fingerprint : Relays ev.key_fingerprint p.fingerprint
    pub says_ctx_id : says receipt "ctx_id" ≡ some p.ctx_id
    pub says_lineage : says receipt "lineage_id" ≡ some p.lineage_id
    pub says_fingerprint : says receipt "key_fingerprint" ≡ some p.fingerprint
    pub says_origin : says receipt "origin_registry" ≡ some ev.registry_authority
    pub says_did : says receipt "registry_did" ≡ authority_to_did_web ev.registry_authority
    pub says_created_at : says receipt "created_at" ≡ some p.created_at
    pub says_key : signature_member "key_id" (fields_of receipt) ≡ some p.key_id
    pub key_is_named : p.key_id ≢ ""
    pub own_key :
        (did : String)
        → authority_to_did_web ev.registry_authority ≡ some did
        → host.strip_fragment p.key_id ≡ did
    pub minted_before :
        (minted arrival : ℕ)
        → host.parse_date p.created_at ≡ some minted
        → host.parse_date ev.created_at ≡ some arrival
        → minted ≤ arrival + clock_skew_tolerance_ms
    pub serves : (body : Json) → IsServed host ev receipt p.ctx_id body → body ≡ p.body

  -- The SDK finds the published body and its receipt right, or cannot read the context id; for a
  -- did:key producer it has the offline check.
  pub record IsRightSdk (receipt : Json) : Type 0 where
    pub hash_right :
        (hash : String)
        → filled (str_of (member "content_hash" (fields_of p.body))) ≡ some hash
        → host.sdk.verify_content_hash (host.stringify p.body) hash ≡ true
    pub offline_right :
        (starts_with (codes did_key_prefix) (codes ev.agent_id) ≡ false)
        ⊎ ((host.sdk.has_verify_body_offline ≡ true)
            × (host.sdk.verify_body_offline (host.stringify p.body) ≡ true))
    pub receipt_right :
        (hash : String)
        → filled (str_of (member "content_hash" (fields_of p.body))) ≡ some hash
        → let answer =
            host.sdk.verify_receipt
              (host.stringify receipt)
              (host.stringify p.body)
              p.key
              p.ctx_id
              hash
              p.fingerprint in
          (answer ≡ none)
          ⊎ ((message : String) × (answer ≡ some message)
              × (classify_receipt_failure message ≡ ctx_id_rejected))

  -- A key that the resolver finds is the right one.
  pub record IsRightResolver : Type 0 where
    pub receipt_key_right :
        (key : String) (historical : Bool)
        → host.resolve_receipt_key p.key_id ≡ some (key, historical)
        → key ≡ p.key
    pub producer_key_right :
        (key_id key fingerprint : String)
        → filled (signature_member "key_id" (fields_of p.body)) ≡ some key_id
        → host.resolve_key key_id ≡ some key
        → host.sdk.fingerprint key ≡ some fingerprint
        → fingerprint ≡ p.fingerprint

module _ (host : ReceiptHost) (ev : ContextEvent) (receipt : Json) where
  abbrev pub text_of : String → Option String
  text_of name = str_of (member name (fields_of receipt))

  -- What the checks ask for, in their terms: the receipt says what the event says, and no later time than its arrival allows.
  pub record IsFaithful : Type 0 where
    pub ctx_id_agrees : (c : String) → filled ev.ctx_id ≡ some c → text_of "ctx_id" ≡ some c
    pub lineage_agrees :
        (a e : String)
        → filled (text_of "lineage_id") ≡ some a
        → filled ev.lineage_id ≡ some e
        → a ≡ e
    pub fingerprint_agrees :
        (a e : String)
        → filled (text_of "key_fingerprint") ≡ some a
        → filled ev.key_fingerprint ≡ some e
        → a ≡ e
    pub origin_agrees : text_of "origin_registry" ≡ some ev.registry_authority
    pub registry_agrees :
        (did : String)
        → authority_to_did_web ev.registry_authority ≡ some did
        → text_of "registry_did" ≡ some did
    pub on_time :
        (created : String) (arrival claimed : ℕ)
        → text_of "created_at" ≡ some created
        → host.parse_date created ≡ some claimed
        → host.parse_date ev.created_at ≡ some arrival
        → claimed ≤ arrival + clock_skew_tolerance_ms

  -- The SDK finds nothing dishonest in a body that the registry has served.
  pub record IsSound (ctx_id : String) (body : Json) : Type 0 where
    pub hash_accepted :
        (hash : String)
        → filled (str_of (member "content_hash" (fields_of body))) ≡ some hash
        → host.sdk.verify_content_hash (host.stringify body) hash ≡ true
    pub offline_accepted :
        starts_with (codes did_key_prefix) (codes ev.agent_id) ≡ true
        → verify_body_offline host.sdk (host.stringify body) ≡ true
    pub receipt_accepted :
        (key_id key hash fp message : String) (historical : Bool) (marks : Marks)
        → filled (signature_member "key_id" (fields_of receipt)) ≡ some key_id
        → host.resolve_receipt_key key_id ≡ some (key, historical)
        → filled (str_of (member "content_hash" (fields_of body))) ≡ some hash
        → (resolve_producer_fingerprint host ev receipt body marks).0 ≡ some fp
        → host.sdk.verify_receipt (host.stringify receipt) (host.stringify body) key ctx_id hash fp
          ≡ some message
        → classify_receipt_failure message ≢ receipt_dishonest

  -- The receipt is signed under the registry's own DID, and what is served for it is sound.
  pub record IsSpotless : Type 0 where
    pub faithful : IsFaithful
    pub key_id : String
    pub names_key : filled (signature_member "key_id" (fields_of receipt)) ≡ some key_id
    pub own_key :
        (did : String)
        → authority_to_did_web ev.registry_authority ≡ some did
        → host.strip_fragment key_id ≡ did
    pub sound :
        (ctx_id : String) (body : Json)
        → filled ev.ctx_id ≡ some ctx_id
        → IsServed host ev receipt ctx_id body
        → IsSound ctx_id body
