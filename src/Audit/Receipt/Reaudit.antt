-- ===== src/Audit/Receipt/Reaudit.antt =====
-- ReceiptAuditService.reauditForFingerprint (src/audit/receipt-audit.service.ts) and
-- amendKeyRevocation (src/storage/receipt-audit.repository.ts). The query for the candidates, which
-- has a limit and a random order, is a parameter.
mod Tests
pub mod Monotone
pub mod Drift
use acdp_control_plane.Prelude.{
  ℕ, zero, suc, ◌+◌, String, List, [], ◌∷◌, Bool, true, false, not, Option, none, some, ltb,
  if◌then◌else◌, str_mem,
}
use acdp_control_plane.Auth.Jwt.{and_then}
use acdp_control_plane.Audit.Receipt.{AuditStatus, KeyRevocation, ReceiptHost}
use acdp_control_plane.Audit.Receipt.Classify.{
  RevokedStatus, Source, KeyRevocationClassification, not_revoked, classified, RevocationPolicy,
  filter_applicable_revocations, normalized, classify_key_revocation,
}
use acdp_control_plane.Audit.Receipt.Service.{verified_created_at}

-- A row of `receipt_audits`, as far as a re-audit reads or writes it.
pub record AuditRow : Type 0 where
  pub event_id : String
  pub status : AuditStatus
  pub receipt_created_at : Option String
  pub registry_authority : String
  pub key_revocation : KeyRevocationClassification

module _ (host : ReceiptHost) where
  -- `gt` on two instants.
  unfoldable pub is_later : Option ℕ → Option ℕ → Bool
  is_later (some a) (some b) = ltb b a
  is_later _ _ = false

  -- The `where` of the update: not revoked so far, or from a later time.
  unfoldable pub is_amended : KeyRevocationClassification → KeyRevocationClassification → Bool
  unfolding is_later
  is_amended old not_revoked = false
  is_amended not_revoked (classified s b t src) = true
  is_amended (classified s' b' t' src') (classified s b t src) =
      is_later (host.parse_date b') (host.parse_date b)

  unfoldable pub amend_key_revocation : AuditRow → KeyRevocationClassification → AuditRow × Bool
  unfolding is_amended
  amend_key_revocation row amendment =
      if is_amended row.key_revocation amendment
      then (record row { key_revocation = amendment }, true)
      else (row, false)

  module _ (policy : RevocationPolicy) where
    -- A row whose classification throws is logged and left as it is.
    unfoldable pub amended_by : AuditRow → Option KeyRevocationClassification → AuditRow × Bool
    unfolding amend_key_revocation
    amended_by row none = (row, false)
    amended_by row (some not_revoked) = (row, false)
    amended_by row (some (classified s b t src)) = amend_key_revocation row (classified s b t src)

    unfoldable pub reaudit_row : String → List KeyRevocation → AuditRow → AuditRow × Bool
    unfolding amended_by
    reaudit_row fingerprint all_facts row = amended_by row (
        classify_key_revocation host policy
          (filter_applicable_revocations policy.attested_scope row.registry_authority all_facts)
          fingerprint (verified_created_at row.status row.receipt_created_at))

    -- The pass over the candidates, with the number of the rows that it amends.
    unfoldable pub reaudit_rows :
        String → List KeyRevocation → (AuditRow → Bool) → List AuditRow → List AuditRow × ℕ
    unfolding reaudit_row
    reaudit_rows fingerprint all_facts candidate [] = ([], 0)
    reaudit_rows fingerprint all_facts candidate (row ∷ rows) =
        let (rest, amended) = reaudit_rows fingerprint all_facts candidate rows in
        let (row', changed) = reaudit_row fingerprint all_facts row in
        if candidate row
        then (row' ∷ rest, if changed then suc amended else amended)
        else (row ∷ rest, amended)

    abbrev pub with_facts :
        String → (AuditRow → Bool) → List AuditRow → List KeyRevocation → Option (List AuditRow × ℕ)
    with_facts fingerprint candidate rows [] = some (rows, 0)
    with_facts fingerprint candidate rows (r ∷ rs) =
        and_then (normalized host policy (r ∷ rs))
          (λ isos. some (reaudit_rows fingerprint (r ∷ rs) candidate rows))

    -- `none` is a throw, of the database or of a stored date that is none.
    unfoldable pub reaudit_for_fingerprint :
        (tenant_id fingerprint : String)
        → (AuditRow → Bool)
        → List AuditRow
        → Option (List AuditRow × ℕ)
    unfolding reaudit_rows
    reaudit_for_fingerprint tenant_id fingerprint candidate rows =
        if not policy.check_enabled
        then some (rows, 0)
        else if not policy.sdk_supports_classification
        then some (rows, 0)
        else if str_mem fingerprint policy.ignored_fingerprints
        then some (rows, 0)
        else and_then (policy.find_by_fingerprint fingerprint tenant_id)
            (λ facts. with_facts fingerprint candidate rows facts)
