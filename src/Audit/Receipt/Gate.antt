-- ===== src/Audit/Receipt/Gate.antt =====
-- Which audits may tell the time of a signature (src/audit/receipt-audit.service.ts).
use acdp_control_plane.Prelude.{
  ◌≡◌, refl, ap, subst, ◌⊎◌, inl, inr, String, List, [], ◌∷◌, false, Option, none, some, arith,
  Bool-cases, Option-cases, str_mem, Json, Fields, arr, member,
}
use acdp_control_plane.Auth.Federation.Signed.{and_then-some}
use acdp_control_plane.Audit.Revocation.{str_of, fields_of}
use acdp_control_plane.Audit.Lineage.{named, object_of}
use acdp_control_plane.Audit.Receipt.{
  AuditStatus, verified, verified_historical, structural, discrepancy, no_receipt, error,
  KeyRevocation, ContextEvent, ReceiptHost,
}
use acdp_control_plane.Audit.Receipt.Classify.{
  revoked_time_unverifiable, KeyRevocationClassification, not_revoked, classified, RevocationPolicy,
  status_of, of_reply, normalized, normalized_date, revocation_items, reply_fields, classify_rows,
  classify_key_revocation, by_found, classify_revocation_for_event,
}
use acdp_control_plane.Audit.Receipt.Checked.Verified.{with_revocation-base}
use acdp_control_plane.Audit.Receipt.Crypto.{verify_cryptographically}
use acdp_control_plane.Audit.Receipt.Service.{
  structural_marks, skew_of, base_of, BaseVerdict, AuditVerdict, verified_created_at, with_found,
  classified_for, with_revocation_classification, by_receipt, with_receipt, without_receipt,
  audit_event_inner, audit_event,
}

-- A classification that is none, or knows no time.
abbrev pub KnowsNoTime : KeyRevocationClassification → Type 0
KnowsNoTime not_revoked = Unit
KnowsNoTime (classified s b t src) = s ≡ revoked_time_unverifiable

abbrev revocation_or : Option AuditVerdict → KeyRevocationClassification
revocation_or none = not_revoked
revocation_or (some v) = v.key_revocation

abbrev classification_or : Option KeyRevocationClassification → KeyRevocationClassification
classification_or none = not_revoked
classification_or (some c) = c

some_inj : (b c : KeyRevocationClassification) → some b ≡ some c → b ≡ c
some_inj b c h = ap (λ o. classification_or o) h

pub data IsVerified : AuditStatus → Type 0 where
  current : IsVerified verified
  retired : IsVerified verified_historical

module _ (host : ReceiptHost) (policy : RevocationPolicy) where
  -- Without the time of a receipt the SDK never says that a signature is from before the compromise.
  abbrev pub NeedsTime : Type 0
  NeedsTime =
      (json fingerprint raw : String) (v : Json) (fields : Fields)
      → policy.classify_under_revocation json fingerprint none ≡ some raw
      → host.parse_json raw ≡ some v
      → reply_fields v ≡ some fields
      → named "historically_authorized_pre_compromise" (str_of (member "authorization" fields))
        ≡ false

  module _ (needs : NeedsTime) where
    of_reply-KnowsNoTime :
        (revocations rows : List KeyRevocation) (fields : Fields)
        → named "historically_authorized_pre_compromise" (str_of (member "authorization" fields))
          ≡ false
        → KnowsNoTime (of_reply host policy revocations rows none fields)
    unfolding of_reply status_of
    of_reply-KnowsNoTime revocations rows fields h =
        elim (Option-cases (str_of (member "boundary" fields))) [
          | inl absent ↦ rw (absent, KnowsNoTime) tt
          | inr (b, got) ↦ rw (got, h, KnowsNoTime) refl
        ]

    classify_rows-KnowsNoTime :
        (revocations : List KeyRevocation) (fingerprint : String) (c : KeyRevocationClassification)
        → classify_rows host policy revocations fingerprint none ≡ some c
        → KnowsNoTime c
    unfolding classify_rows normalized_date
    classify_rows-KnowsNoTime revocations fingerprint c h =
        let (rows, _, asked) = and_then-some (normalized host policy revocations) _ c h in
        let (raw, answered, read) =
          and_then-some
            (policy.classify_under_revocation (host.stringify (arr (revocation_items rows)))
              fingerprint none)
            _ c asked in
        let (v, parsed, shown) = and_then-some (host.parse_json raw) _ c read in
        let (fields, replied, same) = and_then-some (reply_fields v) _ c shown in
        subst (λ k. KnowsNoTime k) (some_inj _ c same)
          (of_reply-KnowsNoTime revocations rows fields
            (needs _ fingerprint raw v fields answered parsed replied))

    classify_key_revocation-KnowsNoTime :
        (revocations : List KeyRevocation) (fingerprint : String) (c : KeyRevocationClassification)
        → classify_key_revocation host policy revocations fingerprint none ≡ some c
        → KnowsNoTime c
    unfolding classify_key_revocation
    classify_key_revocation-KnowsNoTime [] fingerprint c h =
        subst (λ k. KnowsNoTime k) (some_inj not_revoked c h) tt
    classify_key_revocation-KnowsNoTime (r ∷ rs) fingerprint c h =
        elim (Bool-cases (policy.sdk_supports_classification)) [
          | inr lacks ↦ subst (λ k. KnowsNoTime k) (some_inj not_revoked c (rw lacks at h)) tt
          | inl has ↦ classify_rows-KnowsNoTime (r ∷ rs) fingerprint c (rw has at h)
        ]

    by_found-KnowsNoTime :
        (facts : List KeyRevocation) (authority fingerprint : String)
        (c : KeyRevocationClassification)
        → by_found host policy facts authority fingerprint none ≡ some c
        → KnowsNoTime c
    unfolding by_found
    by_found-KnowsNoTime [] authority fingerprint c h =
        subst (λ k. KnowsNoTime k) (some_inj not_revoked c h) tt
    by_found-KnowsNoTime (r ∷ rs) authority fingerprint c h =
        elim (Bool-cases (str_mem fingerprint policy.ignored_fingerprints)) [
          | inl ignored ↦ subst (λ k. KnowsNoTime k) (some_inj not_revoked c (rw ignored at h)) tt
          | inr heeded ↦ classify_key_revocation-KnowsNoTime _ fingerprint c (rw heeded at h)
        ]

    classify_for_event-KnowsNoTime :
        (tenant_id authority fingerprint : String) (c : KeyRevocationClassification)
        → classify_revocation_for_event host policy tenant_id authority fingerprint none ≡ some c
        → KnowsNoTime c
    unfolding classify_revocation_for_event
    classify_for_event-KnowsNoTime tenant_id authority fingerprint c h =
        let (facts, _, found) =
          and_then-some (policy.find_by_fingerprint fingerprint tenant_id) _ c h in
        by_found-KnowsNoTime facts authority fingerprint c found

    -- Either the verdict is a verified one, or no time of the receipt counts.
    status-time :
        (status : AuditStatus) (created : Option String)
        → IsVerified status ⊎ (verified_created_at status created ≡ none)
    unfolding verified_created_at
    status-time verified created = inl current
    status-time verified_historical created = inl retired
    status-time structural created = inr refl
    status-time discrepancy created = inr refl
    status-time no_receipt created = inr refl
    status-time error created = inr refl

    with_found-revocation :
        (base : BaseVerdict) (o : Option KeyRevocationClassification) (v : AuditVerdict)
        → with_found base o ≡ some v
        → o ≡ some v.key_revocation
    with_found-revocation base none v h = absurd (ground (arith, h))
    with_found-revocation base (some c) v h = ap (λ o. some (revocation_or o)) h

    abbrev Timed : AuditVerdict → Type 0
    Timed v = IsVerified v.base.status ⊎ KnowsNoTime v.key_revocation

    classified_for-Timed :
        (signer : Option String) (ev : ContextEvent) (base : BaseVerdict) (v : AuditVerdict)
        → classified_for host policy signer ev base ≡ some v
        → base ≡ v.base
        → Timed v
    unfolding classified_for
    classified_for-Timed none ev base v h same =
        inr (subst (λ k. KnowsNoTime k) (ap (λ o. revocation_or o) h) tt)
    classified_for-Timed (some fingerprint) ev base v h same =
        elim (status-time base.status base.receipt_created_at) [
          | inl good ↦ inl (subst (λ b. IsVerified b.status) same good)
          | inr untimed ↦ inr (
              classify_for_event-KnowsNoTime ev.tenant_id ev.registry_authority fingerprint
                v.key_revocation (with_found-revocation base _ v (rw untimed at h)))
        ]

    with_revocation-Timed :
        (ev : ContextEvent) (base : BaseVerdict) (fp : Option String) (v : AuditVerdict)
        → with_revocation_classification host policy ev base fp ≡ some v
        → Timed v
    unfolding with_revocation_classification
    with_revocation-Timed ev base fp v h =
        let same = with_revocation-base host policy ev base fp v h in
        elim (Bool-cases (policy.check_enabled)) [
          | inr off ↦ inr (subst (λ k. KnowsNoTime k) (ap (λ o. revocation_or o) (rw off at h)) tt)
          | inl on ↦ classified_for-Timed _ ev base v (rw on at h) same
        ]

    by_receipt-Timed :
        (ev : ContextEvent) (found : Option Json) (v : AuditVerdict)
        → by_receipt host policy ev found ≡ some v
        → Timed v
    unfolding by_receipt with_receipt
    by_receipt-Timed ev none v h =
        let (advertised, _, judged) =
          and_then-some (host.advertises_receipts ev.registry_authority ev.tenant_id) _ v h in
        with_revocation-Timed ev (without_receipt advertised) none v judged
    by_receipt-Timed ev (some receipt) v h =
        let fields = fields_of receipt in
        let (ended, _, judged) =
          and_then-some
            (verify_cryptographically host ev receipt
              (structural_marks ev fields (skew_of host policy ev fields)))
            _ v h in
        with_revocation-Timed ev (base_of host policy ev fields ended) ended.0.producer_fp v judged

    -- Of an event whose audit does not end verified, currently or under a retired key, no signature counts as made before the
    -- compromise of its key, nor as made after it: if its key is revoked, the time of the signature
    -- is unknown, as long as the SDK names no signature historical without a time of its receipt.
    pub signing_time_gated :
        (ev : ContextEvent)
        → IsVerified (audit_event host policy ev).base.status
          ⊎ KnowsNoTime (audit_event host policy ev).key_revocation
    unfolding audit_event audit_event_inner
    signing_time_gated ev = elim (Option-cases (audit_event_inner host policy ev)) [
      | inl threw ↦ rw (threw, audit_event, KnowsNoTime) (inr tt)
      | inr (v, got) ↦
          rw (got, audit_event, KnowsNoTime)
            (by_receipt-Timed ev (object_of (member "registry_receipt" ev.raw_payload)) v got)
    ]
