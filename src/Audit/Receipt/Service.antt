-- ===== src/Audit/Receipt/Service.antt =====
-- ReceiptAuditService.auditEvent and what it calls, and a row's retroactive re-audit
-- (src/audit/receipt-audit.service.ts).
use acdp_control_plane.Prelude.{
  ℕ, ◌+◌, String, List, [], ◌∷◌, ◌++◌, map, Bool, true, false, not, Option, none, some, ltb,
  if◌then◌else◌, Json, Fields, member,
}
use acdp_control_plane.Auth.Jwt.{and_then}
use acdp_control_plane.Did.{authority_to_did_web}
use acdp_control_plane.Audit.Revocation.{str_of, fields_of}
use acdp_control_plane.Audit.Lineage.{object_of, named}
use acdp_control_plane.Audit.Receipt.{
  ℤ, negsuc, difference, filled, Flag, missing_receipt, ctx_id_mismatch, lineage_id_mismatch,
  key_fingerprint_mismatch, origin_registry_mismatch, registry_did_mismatch,
  created_at_after_observation, Note, authority_not_canonical, audit_crashed, Discrepancy, flagged,
  unverified, Marks, add_flag, add_note, AuditStatus, verified, verified_historical, structural,
  discrepancy, no_receipt, error, ContextEvent, ReceiptHost,
}
use acdp_control_plane.Audit.Receipt.Crypto.{CryptoOutcome, verify_cryptographically}
use acdp_control_plane.Audit.Receipt.Classify.{
  KeyRevocationClassification, not_revoked, RevocationPolicy, classify_revocation_for_event,
}

-- A verdict without its classification under revocations, which `AuditVerdict` adds.
pub record BaseVerdict : Type 0 where
  pub status : AuditStatus
  pub discrepancies : List Discrepancy
  pub receipt_created_at : Option String
  pub skew_ms : Option ℤ

pub record AuditVerdict : Type 0 where
  pub base : BaseVerdict
  pub key_revocation : KeyRevocationClassification

abbrev pub clock_skew_tolerance_ms : ℕ
clock_skew_tolerance_ms = 300000

-- `skewMs < -CLOCK_SKEW_TOLERANCE_MS`
unfoldable pub is_early : Option ℤ → Bool
is_early (some (negsuc n)) = ltb clock_skew_tolerance_ms (n + 1)
is_early _ = false

abbrev pub flag_if : Bool → Flag → Marks → Marks
flag_if true flag marks = add_flag flag marks
flag_if false flag marks = marks

-- `ev.x && rX !== ev.x`
unfoldable pub misses : Option String → Option String → Bool
unfolding filled
misses expected actual = elim (filled expected) [ none ↦ false | some e ↦ not (named e actual) ]

-- `ev.x && rX && rX !== ev.x`
unfoldable pub contradicts : Option String → Option String → Bool
unfolding filled misses
contradicts expected actual = elim (filled actual) [
  | none ↦ false
  | some a ↦ misses expected (some a)
]

unfoldable pub bind_registry : Option String → Option String → Marks → Marks
bind_registry none actual marks = add_note authority_not_canonical marks
bind_registry (some did) actual marks = flag_if (not (named did actual)) registry_did_mismatch marks

-- The marks after each of the checks in turn.
unfoldable pub ctx_id_marks : ContextEvent → Fields → Marks
unfolding misses str_of
ctx_id_marks ev receipt =
    flag_if (misses ev.ctx_id (str_of (member "ctx_id" receipt))) ctx_id_mismatch
      record { flags = []; notes = [] }

unfoldable pub lineage_marks : ContextEvent → Fields → Marks
unfolding ctx_id_marks contradicts str_of
lineage_marks ev receipt =
    flag_if (contradicts ev.lineage_id (str_of (member "lineage_id" receipt))) lineage_id_mismatch
      (ctx_id_marks ev receipt)

unfoldable pub fingerprint_marks : ContextEvent → Fields → Marks
unfolding lineage_marks contradicts str_of
fingerprint_marks ev receipt =
    flag_if (contradicts ev.key_fingerprint (str_of (member "key_fingerprint" receipt)))
      key_fingerprint_mismatch (lineage_marks ev receipt)

unfoldable pub origin_marks : ContextEvent → Fields → Marks
unfolding fingerprint_marks str_of
origin_marks ev receipt =
    flag_if (not (named ev.registry_authority (str_of (member "origin_registry" receipt))))
      origin_registry_mismatch (fingerprint_marks ev receipt)

unfoldable pub registry_marks : ContextEvent → Fields → Marks
unfolding origin_marks bind_registry str_of
registry_marks ev receipt =
    bind_registry (authority_to_did_web ev.registry_authority)
      (str_of (member "registry_did" receipt)) (origin_marks ev receipt)

unfoldable pub structural_marks : ContextEvent → Fields → Option ℤ → Marks
unfolding is_early registry_marks
structural_marks ev receipt skew =
    flag_if (is_early skew) created_at_after_observation (registry_marks ev receipt)

abbrev pub status_from : List Flag → List Note → (ran historical : Bool) → AuditStatus
status_from (f ∷ fs) notes ran historical = discrepancy
status_from [] (n ∷ ns) ran historical = error
status_from [] [] true true = verified_historical
status_from [] [] true false = verified
status_from [] [] false historical = structural

unfoldable pub status_with : Marks → CryptoOutcome → AuditStatus
status_with marks crypto = status_from marks.flags marks.notes crypto.ran crypto.historical

abbrev pub discrepancies_of : Marks → List Discrepancy
discrepancies_of marks = map flagged marks.flags ++ map unverified marks.notes

-- The receipt's time, where the receipt itself has been verified.
unfoldable pub verified_created_at : AuditStatus → Option String → Option String
verified_created_at verified created = created
verified_created_at verified_historical created = created
verified_created_at _ created = none

abbrev pub first_of : Option String → Option String → Option String
first_of none b = b
first_of (some a) b = some a

abbrev pub without_receipt : Option Bool → BaseVerdict
without_receipt (some true) = record {
  status = discrepancy;
  discrepancies = flagged missing_receipt ∷ [];
  receipt_created_at = none;
  skew_ms = none;
}
without_receipt _ = record {
  status = no_receipt;
  discrepancies = [];
  receipt_created_at = none;
  skew_ms = none;
}

abbrev pub crashed : AuditVerdict
crashed = record {
  base = record {
    status = error;
    discrepancies = unverified audit_crashed ∷ [];
    receipt_created_at = none;
    skew_ms = none;
  };
  key_revocation = not_revoked;
}

abbrev pub with_found : BaseVerdict → Option KeyRevocationClassification → Option AuditVerdict
with_found base none = none
with_found base (some found) = some record { base = base; key_revocation = found }

module _ (host : ReceiptHost) (policy : RevocationPolicy) where
  unfoldable pub classified_for : Option String → ContextEvent → BaseVerdict → Option AuditVerdict
  unfolding verified_created_at classify_revocation_for_event
  classified_for none ev base = some record { base = base; key_revocation = not_revoked }
  classified_for (some fingerprint) ev base = with_found base (
      classify_revocation_for_event host policy ev.tenant_id ev.registry_authority fingerprint
        (verified_created_at base.status base.receipt_created_at))

  unfoldable pub with_revocation_classification :
      ContextEvent → BaseVerdict → Option String → Option AuditVerdict
  unfolding filled classified_for
  with_revocation_classification ev base producer_fp =
      if not policy.check_enabled
      then some record { base = base; key_revocation = not_revoked }
      else classified_for (filled (first_of producer_fp ev.key_fingerprint)) ev base

  -- `rCreatedAt ? Date.parse(rCreatedAt) : NaN`
  unfoldable pub claimed_ms : Fields → Option ℕ
  unfolding filled str_of
  claimed_ms receipt = and_then (filled (str_of (member "created_at" receipt))) host.parse_date

  unfoldable pub skew_of : ContextEvent → Fields → Option ℤ
  unfolding claimed_ms difference
  skew_of ev receipt =
      and_then (host.parse_date ev.created_at)
        (λ arrival. and_then (claimed_ms receipt) (λ claimed. some (difference arrival claimed)))

  -- `rCreatedAt && Number.isFinite(claimedMs) ? rCreatedAt : null`
  unfoldable pub claimed_text : Fields → Option String
  unfolding claimed_ms str_of
  claimed_text receipt =
      and_then (claimed_ms receipt) (λ claimed. str_of (member "created_at" receipt))

  unfoldable pub base_of : ContextEvent → Fields → CryptoOutcome × Marks → BaseVerdict
  unfolding status_with claimed_text skew_of
  base_of ev receipt (crypto, marks) = record {
    status = status_with marks crypto;
    discrepancies = discrepancies_of marks;
    receipt_created_at = claimed_text receipt;
    skew_ms = skew_of ev receipt;
  }

  unfoldable pub with_receipt : ContextEvent → Json → Option AuditVerdict
  unfolding structural_marks verify_cryptographically base_of with_revocation_classification skew_of
  with_receipt ev receipt =
      let fields = fields_of receipt in
      and_then
        (verify_cryptographically host ev receipt (structural_marks ev fields (skew_of ev fields)))
        (λ ended. with_revocation_classification ev (base_of ev fields ended) ended.0.producer_fp)

  unfoldable pub by_receipt : ContextEvent → Option Json → Option AuditVerdict
  unfolding with_receipt with_revocation_classification
  by_receipt ev none =
      and_then (host.advertises_receipts ev.registry_authority ev.tenant_id)
        (λ advertised. with_revocation_classification ev (without_receipt advertised) none)
  by_receipt ev (some receipt) = with_receipt ev receipt

  unfoldable pub audit_event_inner : ContextEvent → Option AuditVerdict
  unfolding by_receipt object_of
  audit_event_inner ev = by_receipt ev (object_of (member "registry_receipt" ev.raw_payload))

  unfoldable pub audit_event : ContextEvent → AuditVerdict
  unfolding audit_event_inner
  audit_event ev = elim (audit_event_inner ev) [ none ↦ crashed | some verdict ↦ verdict ]
