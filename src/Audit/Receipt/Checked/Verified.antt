-- ===== src/Audit/Receipt/Checked/Verified.antt =====
-- A verified audit has gone through every check (src/audit/receipt-audit.service.ts).
use acdp_control_plane.Prelude.{
  ◌≡◌, refl, ap, ◌∙◌, subst, inl, inr, String, List, [], ◌∷◌, Bool, true, false, Option, none, some,
  arith, Bool-cases, Option-cases, Json, member,
}
use acdp_control_plane.Auth.Federation.Signed.{and_then-some}
use acdp_control_plane.Audit.Revocation.{fields_of}
use acdp_control_plane.Audit.Lineage.{object_of}
use acdp_control_plane.Audit.Receipt.{
  Flag, Note, AuditStatus, verified, verified_historical, ContextEvent, ReceiptHost,
}
use acdp_control_plane.Audit.Receipt.Crypto.{verify_cryptographically}
use acdp_control_plane.Audit.Receipt.Classify.{
  RevocationPolicy, KeyRevocationClassification, classify_revocation_for_event,
}
use acdp_control_plane.Audit.Receipt.Service.{
  without_receipt, crashed, BaseVerdict, AuditVerdict, structural_marks, status_with, status_from,
  classified_for, skew_of, base_of, with_revocation_classification, verified_created_at, with_found,
  with_receipt, by_receipt, audit_event_inner, audit_event,
}
use acdp_control_plane.Audit.Receipt.Checked.{IsChecked, IsProven}
use acdp_control_plane.Audit.Receipt.Checked.Structure.{structural_marks-clean, is_early-IsOnTime}
use acdp_control_plane.Audit.Receipt.Checked.Served.{verify_cryptographically-Outcome}

-- The status of a receipt that has passed every check, by the state of the registry's key.
abbrev pub verified_under : (historical : Bool) → AuditStatus
verified_under true = verified_historical
verified_under false = verified

status_from-verified :
    (fs : List Flag) (ns : List Note) (ran h historical : Bool)
    → status_from fs ns ran h ≡ verified_under historical
    → (fs ≡ []) × (ns ≡ []) × (ran ≡ true) × (h ≡ historical)
status_from-verified (f ∷ fs) ns ran h true e = absurd (ground (arith, e))
status_from-verified (f ∷ fs) ns ran h false e = absurd (ground (arith, e))
status_from-verified [] (n ∷ ns) ran h true e = absurd (ground (arith, e))
status_from-verified [] (n ∷ ns) ran h false e = absurd (ground (arith, e))
status_from-verified [] [] true true true e = (refl, refl, refl, refl)
status_from-verified [] [] true false false e = (refl, refl, refl, refl)
status_from-verified [] [] true true false e = absurd (ground (arith, e))
status_from-verified [] [] true false true e = absurd (ground (arith, e))
status_from-verified [] [] false h true e = absurd (ground (arith, e))
status_from-verified [] [] false h false e = absurd (ground (arith, e))

abbrev base_or : BaseVerdict → Option AuditVerdict → BaseVerdict
base_or d none = d
base_or d (some v) = v.base

with_found-base :
    (base : BaseVerdict) (o : Option KeyRevocationClassification) (v : AuditVerdict)
    → with_found base o ≡ some v
    → base ≡ v.base
with_found-base base none v h = absurd (ground (arith, h))
with_found-base base (some found) v h = ap (λ o. base_or base o) h

without_receipt-unverified {ℓ} :
    {A : Type ℓ} (advertised : Option Bool) (historical : Bool)
    → (without_receipt advertised).status ≡ verified_under historical
    → A
without_receipt-unverified none true h = absurd (ground (arith, h))
without_receipt-unverified none false h = absurd (ground (arith, h))
without_receipt-unverified (some true) true h = absurd (ground (arith, h))
without_receipt-unverified (some true) false h = absurd (ground (arith, h))
without_receipt-unverified (some false) true h = absurd (ground (arith, h))
without_receipt-unverified (some false) false h = absurd (ground (arith, h))

crashed-unverified {ℓ} :
    {A : Type ℓ} (historical : Bool) → crashed.base.status ≡ verified_under historical → A
crashed-unverified true h = absurd (ground (arith, h))
crashed-unverified false h = absurd (ground (arith, h))

module _ (host : ReceiptHost) (policy : RevocationPolicy) (ev : ContextEvent) where
  classified_for-base :
      (signer : Option String) (base : BaseVerdict) (v : AuditVerdict)
      → classified_for host policy signer ev base ≡ some v
      → base ≡ v.base
  unfolding classified_for
  classified_for-base none base v h = ap (λ o. base_or base o) h
  classified_for-base (some signer) base v h =
      with_found-base base
        (classify_revocation_for_event host policy ev.tenant_id ev.registry_authority signer
          (verified_created_at base.status base.receipt_created_at))
        v h

  -- The classification changes nothing else of a verdict.
  pub with_revocation-base :
      (base : BaseVerdict) (fp : Option String) (v : AuditVerdict)
      → with_revocation_classification host policy ev base fp ≡ some v
      → base ≡ v.base
  unfolding with_revocation_classification
  with_revocation-base base fp v h = elim (Bool-cases (policy.check_enabled)) [
    | inl on ↦ classified_for-base _ base v (rw on at h)
    | inr off ↦ ap (λ o. base_or base o) (rw off at h)
  ]

  with_receipt-IsChecked :
      (receipt : Json) (historical : Bool) (v : AuditVerdict)
      → with_receipt host policy ev receipt ≡ some v
      → v.base.status ≡ verified_under historical
      → IsChecked host ev receipt historical
  unfolding with_receipt base_of status_with
  with_receipt-IsChecked receipt historical v h e =
      let fields = fields_of receipt in
      let ((c, m), ran_to, classified) =
        and_then-some
          (verify_cryptographically host ev receipt
            (structural_marks ev fields (skew_of host policy ev fields)))
          _ v h in
      let (no_flags, no_notes, ran, aged) = status_from-verified _ _ _ _ historical (
        ap (λ b. b.status)
          (with_revocation-base (base_of host policy ev fields (c, m)) c.producer_fp v classified)
        ∙ e) in
      let (ctx_id, names, (body, served, proven, kept)) =
        verify_cryptographically-Outcome host ev receipt c m ran no_notes _ ran_to in
      let (same_ctx_id, same_origin, same_registry, same_lineage, same_fingerprint, late) =
        structural_marks-clean ev fields (skew_of host policy ev fields) ctx_id names
          (ap (λ k. k.flags) kept ∙ no_flags) (ap (λ k. k.notes) kept ∙ no_notes) in
      record {
        ctx_id = ctx_id;
        body = body;
        names_ctx_id = names;
        same_ctx_id = same_ctx_id;
        same_origin = same_origin;
        same_registry = same_registry;
        same_lineage = same_lineage;
        same_fingerprint = same_fingerprint;
        on_time = is_early-IsOnTime host policy ev fields late;
        served = served;
        proven = subst (λ b. IsProven host ev receipt ctx_id body b) aged proven;
      }

  verdict-IsChecked :
      (found : Option Json) (historical : Bool) (v : AuditVerdict)
      → by_receipt host policy ev found ≡ some v
      → v.base.status ≡ verified_under historical
      → (receipt : Json) × (found ≡ some receipt) × IsChecked host ev receipt historical
  unfolding by_receipt
  verdict-IsChecked none historical v h e =
      let (advertised, _, classified) =
        and_then-some (host.advertises_receipts ev.registry_authority ev.tenant_id) _ v h in
      without_receipt-unverified advertised historical (
        ap (λ b. b.status) (with_revocation-base (without_receipt advertised) none v classified)
        ∙ e)
  verdict-IsChecked (some receipt) historical v h e =
      (receipt, refl, with_receipt-IsChecked receipt historical v h e)

  -- Where an audit ends verified, or verified under a retired key, the event has a receipt that
  -- agrees with it in the context id and, where both are given, in the lineage and the fingerprint of
  -- the key, that names its registry, and whose time, where it can be read, is at most five minutes
  -- past the arrival of the event. The registry, at the base URL under which it is enrolled for the
  -- tenant, has served a body for this context id, the hash of which is accepted, and the SDK accepts
  -- the receipt for that body, its hash and the fingerprint of its producer under a key of the
  -- registry's own DID, which is retired exactly in the second case; a producer that is no did:key has
  -- signed with the Ed25519 key that the resolver gives, and the body of one that is has been checked
  -- offline.
  pub audit_event-IsChecked :
      (historical : Bool)
      → (audit_event host policy ev).base.status ≡ verified_under historical
      → (receipt : Json) × (object_of (member "registry_receipt" ev.raw_payload) ≡ some receipt)
        × IsChecked host ev receipt historical
  unfolding audit_event audit_event_inner
  audit_event-IsChecked historical e = elim (Option-cases (audit_event_inner host policy ev)) [
    | inl threw ↦ crashed-unverified historical (rw (threw, audit_event) at e)
    | inr (v, got) ↦
        verdict-IsChecked (object_of (member "registry_receipt" ev.raw_payload)) historical v got
          (rw (got, audit_event) at e)
  ]
