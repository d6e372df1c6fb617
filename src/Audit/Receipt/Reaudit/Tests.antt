-- ===== src/Audit/Receipt/Reaudit/Tests.antt =====
-- The re-audit of a row after a revocation of its key.
use acdp_control_plane.Prelude.{◌≡◌, refl, List, [], ◌∷◌, true, none, some}
use acdp_control_plane.Audit.Revocation.{producer_signed}
use acdp_control_plane.Audit.Receipt.{verified}
use acdp_control_plane.Audit.Receipt.Classify.{
  normalized, classify_key_revocation, filter_applicable_revocations, not_revoked, classified,
  revoked_at_or_after,
}
use acdp_control_plane.Audit.Receipt.Service.{
  verified_created_at, BaseVerdict, AuditVerdict, with_revocation_classification,
}
use acdp_control_plane.Audit.Receipt.Reaudit.{reaudit_for_fingerprint, AuditRow, reaudit_row}
use acdp_control_plane.Audit.Receipt.Reaudit.Monotone.{
  Pass, RowsTighter, run_passes, run_passes-RowsTighter,
}
use acdp_control_plane.Audit.Receipt.Reaudit.Drift.{unrevoked_row, reaudit_row-agrees}
use acdp_control_plane.Audit.Receipt.Tests.{fact, policy, source, up, event}

abbrev row : AuditRow
row = record {
  event_id = "1";
  status = verified;
  receipt_created_at = some "2026-01-01";
  registry_authority = "registry.example";
  key_revocation = not_revoked;
}

abbrev passes : List Pass
passes =
    record {
      policy = policy;
      tenant_id = "default";
      fingerprint = "sha256:a";
      candidate = λ r. true;
    }
    ∷ []

run_passes-RowsTighter_example : RowsTighter up (row ∷ []) (run_passes up passes (row ∷ []))
run_passes-RowsTighter_example = run_passes-RowsTighter up passes (row ∷ [])

-- The pass amends the row.
passes_amend :
    run_passes up passes (row ∷ [])
    ≡ record row {
      key_revocation = classified revoked_at_or_after "2025-01-01" producer_signed (source ∷ []);
    }
      ∷ []
unfolding run_passes reaudit_for_fingerprint normalized classify_key_revocation
    filter_applicable_revocations verified_created_at
passes_amend = refl

abbrev base : BaseVerdict
base = record {
  status = verified;
  discrepancies = [];
  receipt_created_at = some "2026-01-01";
  skew_ms = none;
}

abbrev revised : AuditVerdict
revised = record {
  base = base;
  key_revocation = classified revoked_at_or_after "2025-01-01" producer_signed (source ∷ []);
}

reaudit_row-agrees_example :
    (reaudit_row up policy "sha256:a"
      (fact ∷ [])
      (unrevoked_row (λ s. s) event base)).0.key_revocation
    ≡ revised.key_revocation
unfolding with_revocation_classification
reaudit_row-agrees_example =
    reaudit_row-agrees up policy (λ s. s) (λ s. refl) event base (some "sha256:a") "sha256:a" fact
      [] revised refl refl refl refl refl
