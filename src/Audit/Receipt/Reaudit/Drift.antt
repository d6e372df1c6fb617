-- ===== src/Audit/Receipt/Reaudit/Drift.antt =====
-- The audit and the re-audit classify alike (src/audit/receipt-audit.service.ts).
use acdp_control_plane.Prelude.{
  ◌≡◌, refl, ap, String, List, [], ◌∷◌, true, false, not, Option, none, some, arith, str_mem,
  if◌then◌else◌,
}
use acdp_control_plane.Audit.Receipt.{
  AuditStatus, verified, verified_historical, structural, discrepancy, no_receipt, error,
  KeyRevocation, ContextEvent, ReceiptHost, filled,
}
use acdp_control_plane.Audit.Receipt.Classify.{
  KeyRevocationClassification, not_revoked, classified, RevocationPolicy, status_of, of_reply,
  normalized_date, filter_applicable_revocations, classify_rows, classify_key_revocation,
  classify_revocation_for_event,
}
use acdp_control_plane.Audit.Receipt.Service.{
  BaseVerdict, AuditVerdict, verified_created_at, first_of, with_found, classified_for,
  with_revocation_classification,
}
use acdp_control_plane.Audit.Receipt.Reaudit.{
  AuditRow, is_amended, amend_key_revocation, amended_by, reaudit_row,
}

abbrev revocation_or : Option AuditVerdict → KeyRevocationClassification
revocation_or none = not_revoked
revocation_or (some v) = v.key_revocation

module _ (render : String → String) where
  -- A date as the database gives it back.
  abbrev rendered : Option String → Option String
  rendered none = none
  rendered (some s) = some (render s)

  -- The row of an audit for which no revocation was known.
  abbrev pub unrevoked_row : ContextEvent → BaseVerdict → AuditRow
  unrevoked_row ev base = record {
    event_id = ev.id;
    status = base.status;
    receipt_created_at = rendered base.receipt_created_at;
    registry_authority = ev.registry_authority;
    key_revocation = not_revoked;
  }

module _ (host : ReceiptHost) (policy : RevocationPolicy) (render : String → String)
    (same_instant : (s : String) → host.to_iso (render s) ≡ host.to_iso s) where
  verified_created_at-rendered :
      (status : AuditStatus) (created : Option String)
      → verified_created_at status (rendered render created)
        ≡ rendered render (verified_created_at status created)
  unfolding verified_created_at
  verified_created_at-rendered verified created = refl
  verified_created_at-rendered verified_historical created = refl
  verified_created_at-rendered structural created = refl
  verified_created_at-rendered discrepancy created = refl
  verified_created_at-rendered no_receipt created = refl
  verified_created_at-rendered error created = refl

  classify_rows-rendered :
      (revocations : List KeyRevocation) (fingerprint : String) (created : Option String)
      → classify_rows host policy revocations fingerprint (rendered render created)
        ≡ classify_rows host policy revocations fingerprint created
  unfolding classify_rows normalized_date of_reply status_of
  classify_rows-rendered revocations fingerprint none = refl
  classify_rows-rendered revocations fingerprint (some s) = rw (same_instant s) refl

  classify_key_revocation-rendered :
      (revocations : List KeyRevocation) (fingerprint : String) (created : Option String)
      → classify_key_revocation host policy revocations fingerprint (rendered render created)
        ≡ classify_key_revocation host policy revocations fingerprint created
  unfolding classify_key_revocation
  classify_key_revocation-rendered [] fingerprint created = refl
  classify_key_revocation-rendered (r ∷ rs) fingerprint created =
      ap (λ o. if not policy.sdk_supports_classification then some not_revoked else o)
        (classify_rows-rendered (r ∷ rs) fingerprint created)

  amended_by-found :
      (ev : ContextEvent) (base : BaseVerdict) (o : Option KeyRevocationClassification)
      (v : AuditVerdict)
      → with_found base o ≡ some v
      → (amended_by host policy (unrevoked_row render ev base) o).0.key_revocation
        ≡ v.key_revocation
  unfolding amended_by amend_key_revocation is_amended
  amended_by-found ev base none v h = absurd (ground (arith, h))
  amended_by-found ev base (some not_revoked) v h = ap (λ o. revocation_or o) h
  amended_by-found ev base (some (classified s b t src)) v h = ap (λ o. revocation_or o) h

  -- Where revocations of the signer's key are known, and the key is not one to ignore, the re-audit
  -- of the row that an audit left before any was known gives it the classification that an audit
  -- now gives the event, for a database that renders dates as the same instants.
  pub reaudit_row-agrees :
      (ev : ContextEvent) (base : BaseVerdict) (producer_fp : Option String) (fingerprint : String)
      (r : KeyRevocation) (rs : List KeyRevocation) (v : AuditVerdict)
      → policy.check_enabled ≡ true
      → filled (first_of producer_fp ev.key_fingerprint) ≡ some fingerprint
      → str_mem fingerprint policy.ignored_fingerprints ≡ false
      → policy.find_by_fingerprint fingerprint ev.tenant_id ≡ some (r ∷ rs)
      → with_revocation_classification host policy ev base producer_fp ≡ some v
      → (reaudit_row host policy fingerprint
          (r ∷ rs)
          (unrevoked_row render ev base)).0.key_revocation
        ≡ v.key_revocation
  unfolding reaudit_row with_revocation_classification
  reaudit_row-agrees ev base producer_fp fingerprint r rs v enabled signer heeded facts h =
      let now : with_found base (
            classify_key_revocation host policy
              (filter_applicable_revocations policy.attested_scope ev.registry_authority (r ∷ rs))
              fingerprint (verified_created_at base.status base.receipt_created_at))
          ≡ some v =
        rw
          (
            enabled, signer, facts, heeded, with_revocation_classification, classified_for,
            classify_revocation_for_event,
          )
          at h in
      rw
        (
          verified_created_at-rendered base.status base.receipt_created_at,
          classify_key_revocation-rendered
              (filter_applicable_revocations policy.attested_scope ev.registry_authority (r ∷ rs))
              fingerprint (verified_created_at base.status base.receipt_created_at),
        )
        (amended_by-found ev base _ v now)
