-- ===== src/Audit/Receipt/Honest/Tests.antt =====
-- An event of an honest registry whose receipt key is not resolved (src/audit/receipt-audit.service.ts).
use acdp_control_plane.Prelude.{
  ◌≡◌, ◌≢◌, refl, ap, sym, ◌∙◌, inl, inr, subst, true, Option, none, some, arith, str_eq, Json,
  member,
}
use acdp_control_plane.Audit.Revocation.{str_of, fields_of}
use acdp_control_plane.Audit.Lineage.{object_of}
use acdp_control_plane.Audit.Receipt.{discrepancy, ReceiptHost}
use acdp_control_plane.Audit.Receipt.Crypto.{signature_member}
use acdp_control_plane.Did.{authority_to_did_web}
use acdp_control_plane.Audit.Receipt.Service.{audit_event}
use acdp_control_plane.Audit.Receipt.Honest.{Publication, IsHonest, IsRightSdk, IsRightResolver}
use acdp_control_plane.Audit.Receipt.Honest.Verdict.{honest_never_flagged}
use acdp_control_plane.Audit.Receipt.Tests.{
  ctx, context_body, context, receipt, event, policy, up, text_or, or_receipt,
}

-- The registry serves the context it has published, and its key is not resolved.
abbrev pub keyless : ReceiptHost
keyless = record up { parse_json = λ s. some context; resolve_receipt_key = λ k. none }

abbrev published : Publication
published = record {
  ctx_id = ctx;
  lineage_id = "lin";
  created_at = "2026-01-01";
  body = context_body;
  key_id = "did:web:registry.example#k";
  key = "key";
  fingerprint = "sha256:a";
}

abbrev json_or : Json → Option Json → Json
json_or d none = d
json_or d (some v) = v

honest : IsHonest keyless event published receipt
unfolding str_of fields_of signature_member authority_to_did_web object_of
honest = record {
  relays_ctx_id = inr refl;
  relays_lineage = inl refl;
  relays_fingerprint = inl refl;
  says_ctx_id = refl;
  says_lineage = refl;
  says_fingerprint = refl;
  says_origin = refl;
  says_did = refl;
  says_created_at = refl;
  says_key = refl;
  key_is_named = λ e.
      let bare : str_eq published.key_id "" ≡ true = ap (λ x. str_eq x "") e in
      absurd (ground (arith, bare));
  own_key = λ did e. ap (λ o. text_or o) e;
  minted_before = λ minted arrival c a. ground (arith, c, a);
  serves = λ body s.
      let full : context ≡ s.full = ap (λ o. json_or context o) s.parses in
      ap (λ o. json_or body o)
        (sym s.has_body ∙ ap (λ v. object_of (member "body" (fields_of v))) (sym full));
}

right_sdk : IsRightSdk keyless event published receipt
right_sdk = record {
  hash_right = λ h e. refl;
  offline_right = inr (refl, refl);
  receipt_right = λ h e. inl refl;
}

right_resolver : IsRightResolver keyless event published
right_resolver = record {
  receipt_key_right = λ k old e. absurd (ground (arith, e));
  producer_key_right = λ i k f n r e. ap (λ o. text_or o) (sym e);
}

honest_never_flagged_example : (audit_event keyless policy event).base.status ≢ discrepancy
unfolding object_of
honest_never_flagged_example =
    honest_never_flagged keyless policy event published
      (λ r e.
        subst (λ x. IsHonest keyless event published x × IsRightSdk keyless event published x)
          (ap (λ o. or_receipt o) e) (honest, right_sdk))
      right_resolver (λ absent. absurd (ground (arith, absent)))
