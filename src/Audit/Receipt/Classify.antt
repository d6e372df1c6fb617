-- ===== src/Audit/Receipt/Classify.antt =====
-- classifyKeyRevocation and the policy around it (src/audit/receipt-audit.service.ts). The SDK's
-- classification is a parameter.
use acdp_control_plane.Prelude.{
  String, List, [], ◌∷◌, map, Bool, true, false, ◌||◌, not, any, Option, none, some, if◌then◌else◌,
  str_eq, str_mem, Json, null, str, arr, obj, Items, nil, cons, Fields, end, field, member,
}
use acdp_control_plane.Auth.Jwt.{and_then}
use acdp_control_plane.Did.{authority_to_did_web}
use acdp_control_plane.Audit.Revocation.{
  TrustClass, producer_signed, registry_attested, str_of, fields_of,
}
use acdp_control_plane.Audit.Lineage.{named}
use acdp_control_plane.Audit.Receipt.{KeyRevocation, ReceiptHost}

pub data RevokedStatus : Type 0 where
  pre_compromise revoked_at_or_after revoked_time_unverifiable : RevokedStatus

pub record Source : Type 0 where
  pub ctx_id : String
  pub publisher : String

-- `not_revoked` is the status 'none'.
pub data KeyRevocationClassification : Type 0 where
  not_revoked : KeyRevocationClassification
  classified :
      RevokedStatus → (boundary : String) → TrustClass → List Source → KeyRevocationClassification

pub data AttestedScope : Type 0 where
  off global same_registry : AttestedScope

-- The configuration, the stored revocations, and the SDK's function, with `none` for a throw.
pub record RevocationPolicy : Type 0 where
  pub check_enabled : Bool
  pub ignored_fingerprints : List String
  pub attested_scope : AttestedScope
  pub sdk_supports_classification : Bool
  pub classify_under_revocation :
      (revocations_json fingerprint : String) (receipt_created_at : Option String) → Option String
  pub find_by_fingerprint : (fingerprint tenant_id : String) → Option (List KeyRevocation)

abbrev pub is_producer_signed : TrustClass → Bool
is_producer_signed producer_signed = true
is_producer_signed registry_attested = false

abbrev trust_text : TrustClass → String
trust_text producer_signed = "producer_signed"
trust_text registry_attested = "registry_attested"

abbrev or_null : Option String → Json
or_null none = null
or_null (some s) = str s

unfoldable pub to_revocation_json : KeyRevocation → Json
to_revocation_json r = obj (
    field "revoked_key_fingerprint" (str r.revoked_key_fingerprint) (
      field "compromised_since" (str r.compromised_since) (
        field "reason" (or_null r.reason) (
          field "revoked_key_id" (or_null r.revoked_key_id) (
            field "revoked_key_controller" (str r.revoked_key_controller) (
              field "publisher" (str r.publisher)
                (field "trust_class" (str (trust_text r.trust_class)) end)))))))

unfoldable pub revocation_items : List KeyRevocation → Items
unfolding to_revocation_json
revocation_items [] = nil
revocation_items (r ∷ rs) = cons (to_revocation_json r) (revocation_items rs)

unfoldable pub at_boundary : String → List KeyRevocation → List KeyRevocation
at_boundary boundary [] = []
at_boundary boundary (r ∷ rs) =
    let rest = at_boundary boundary rs in
    if str_eq r.compromised_since boundary then r ∷ rest else rest

-- The rows at the boundary, or all of them.
unfoldable pub winners_of : List KeyRevocation → List KeyRevocation → List KeyRevocation
winners_of [] all_rows = all_rows
winners_of (r ∷ rs) all_rows = r ∷ rs

abbrev first_trust_class : List KeyRevocation → TrustClass
first_trust_class [] = producer_signed
first_trust_class (r ∷ rs) = r.trust_class

unfoldable pub trust_class_among : List KeyRevocation → TrustClass
trust_class_among rs =
    if any (λ r. is_producer_signed r.trust_class) rs then producer_signed else first_trust_class rs

abbrev source_of : KeyRevocation → Source
source_of r = record { ctx_id = r.ctx_id; publisher = r.publisher }

unfoldable pub status_of : Option String → Option String → RevokedStatus
status_of authorization receipt_created_at =
    if named "historically_authorized_pre_compromise" authorization
    then pre_compromise
    else elim receipt_created_at [
      | none ↦ revoked_time_unverifiable
      | some created ↦ revoked_at_or_after
    ]

-- The members of the parsed reply; reading one of `null` throws.
unfoldable pub reply_fields : Json → Option Fields
unfolding fields_of
reply_fields null = none
reply_fields v = some (fields_of v)

unfoldable pub is_in_scope : AttestedScope → String → KeyRevocation → Bool
is_in_scope off authority r = is_producer_signed r.trust_class
is_in_scope global authority r = true
is_in_scope same_registry authority r =
    is_producer_signed r.trust_class || named r.publisher (authority_to_did_web authority)

unfoldable pub filter_applicable_revocations :
    AttestedScope → String → List KeyRevocation → List KeyRevocation
unfolding is_in_scope
filter_applicable_revocations scope authority [] = []
filter_applicable_revocations scope authority (r ∷ rs) =
    let rest = filter_applicable_revocations scope authority rs in
    if is_in_scope scope authority r then r ∷ rest else rest

module _ (host : ReceiptHost) (policy : RevocationPolicy) where
  unfoldable pub normalized : List KeyRevocation → Option (List KeyRevocation)
  normalized [] = some []
  normalized (r ∷ rs) =
      and_then (host.to_iso r.compromised_since) (λ iso.
        and_then (normalized rs) (λ rest. some (record r { compromised_since = iso } ∷ rest)))

  unfoldable pub normalized_date : Option String → Option (Option String)
  normalized_date none = some none
  normalized_date (some created) = and_then (host.to_iso created) (λ iso. some (some iso))

  unfoldable pub of_reply :
      List KeyRevocation → List KeyRevocation → Option String → Fields → KeyRevocationClassification
  unfolding str_of at_boundary winners_of trust_class_among status_of
  of_reply revocations rows receipt_created_at fields = elim (str_of (member "boundary" fields)) [
    | none ↦ not_revoked
    | some boundary ↦
        classified (status_of (str_of (member "authorization" fields)) receipt_created_at) boundary
          (trust_class_among (winners_of (at_boundary boundary rows) rows))
          (map source_of revocations)
  ]

  unfoldable pub classify_rows :
      List KeyRevocation → String → Option String → Option KeyRevocationClassification
  unfolding normalized normalized_date revocation_items reply_fields of_reply
  classify_rows revocations fingerprint receipt_created_at =
      and_then (normalized revocations) (λ rows.
        and_then (normalized_date receipt_created_at) (λ created.
          and_then
            (policy.classify_under_revocation (host.stringify (arr (revocation_items rows)))
              fingerprint created)
            (λ raw. and_then (host.parse_json raw) (λ v.
              and_then (reply_fields v)
                (λ fields. some (of_reply revocations rows receipt_created_at fields))))))

  unfoldable pub classify_key_revocation :
      List KeyRevocation → String → Option String → Option KeyRevocationClassification
  unfolding classify_rows
  classify_key_revocation [] fingerprint receipt_created_at = some not_revoked
  classify_key_revocation (r ∷ rs) fingerprint receipt_created_at =
      if not policy.sdk_supports_classification
      then some not_revoked
      else classify_rows (r ∷ rs) fingerprint receipt_created_at

  unfoldable pub by_found :
      List KeyRevocation → String → String → Option String → Option KeyRevocationClassification
  unfolding filter_applicable_revocations classify_key_revocation
  by_found [] authority fingerprint receipt_created_at = some not_revoked
  by_found (r ∷ rs) authority fingerprint receipt_created_at =
      if str_mem fingerprint policy.ignored_fingerprints
      then some not_revoked
      else classify_key_revocation
          (filter_applicable_revocations policy.attested_scope authority (r ∷ rs)) fingerprint
          receipt_created_at

  unfoldable pub classify_revocation_for_event :
      (tenant_id authority fingerprint : String)
      → Option String
      → Option KeyRevocationClassification
  unfolding by_found
  classify_revocation_for_event tenant_id authority fingerprint receipt_created_at =
      and_then (policy.find_by_fingerprint fingerprint tenant_id)
        (λ all. by_found all authority fingerprint receipt_created_at)
