-- ===== src/Audit/Receipt/Sweep.antt =====
-- ReceiptAuditService.sweep and toRow (src/audit/receipt-audit.service.ts), with the query and the
-- insert that it makes (src/storage/receipt-audit.repository.ts). The published events, oldest first, are
-- an argument, and so are the clock, which counts as `parse_date` does, and `is_after`, the database's
-- comparison of a stored time with the cutoff of the lookback.
pub mod Missing
pub mod Next
pub mod Reach
pub mod Tests
use acdp_control_plane.Prelude.{
  ℕ, String, List, [], ◌∷◌, Bool, true, false, ◌&&◌, ◌||◌, not, Option, take, if◌then◌else◌, str_eq,
  ltb, ◌*◌, ◌-◌,
}
use acdp_control_plane.Audit.Receipt.{ℤ, Discrepancy, AuditStatus, ContextEvent, ReceiptHost}
use acdp_control_plane.Audit.Receipt.Classify.{KeyRevocationClassification, RevocationPolicy}
use acdp_control_plane.Audit.Receipt.Service.{AuditVerdict, audit_event}

pub record NewReceiptAudit : Type 0 where
  pub event_id : String
  pub tenant_id : String
  pub run_id : Option String
  pub ctx_id : Option String
  pub registry_authority : String
  pub status : AuditStatus
  pub discrepancies : List Discrepancy
  pub receipt_created_at : Option String
  pub event_arrived_at : String
  pub skew_ms : Option ℤ
  pub key_revocation : KeyRevocationClassification

abbrev pub to_row : ContextEvent → AuditVerdict → NewReceiptAudit
to_row ev verdict = record {
  event_id = ev.id;
  tenant_id = ev.tenant_id;
  run_id = ev.run_id;
  ctx_id = ev.ctx_id;
  registry_authority = ev.registry_authority;
  status = verdict.base.status;
  discrepancies = verdict.base.discrepancies;
  receipt_created_at = verdict.base.receipt_created_at;
  event_arrived_at = ev.created_at;
  skew_ms = verdict.base.skew_ms;
  key_revocation = verdict.key_revocation;
}

unfoldable pub has_audit : String → List NewReceiptAudit → Bool
has_audit id [] = false
has_audit id (row ∷ rows) = str_eq row.event_id id || has_audit id rows

-- The insert, which does nothing where the event has a row.
unfoldable pub insert_audit : NewReceiptAudit → List NewReceiptAudit → List NewReceiptAudit
unfolding has_audit
insert_audit row rows = if has_audit row.event_id rows then rows else row ∷ rows

module _ (is_after : String → ℕ → Bool) (since : ℕ) where
  -- The published events after the cutoff that have no row.
  unfoldable pub unaudited : List ContextEvent → List NewReceiptAudit → List ContextEvent
  unfolding has_audit
  unaudited [] rows = []
  unaudited (ev ∷ evs) rows =
      let rest = unaudited evs rows in
      if is_after ev.created_at since && not (has_audit ev.id rows) then ev ∷ rest else rest

abbrev pub hour_ms : ℕ
hour_ms = 3600000

module _ (host : ReceiptHost) (policy : RevocationPolicy) where
  unfoldable pub audit_all : List ContextEvent → List NewReceiptAudit → List NewReceiptAudit
  unfolding insert_audit
  audit_all [] rows = rows
  audit_all (ev ∷ evs) rows =
      audit_all evs (insert_audit (to_row ev (audit_event host policy ev)) rows)

  -- A cutoff before the earliest date is none that can be rendered, which throws.
  unfoldable pub sweep_audits :
      (is_after : String → ℕ → Bool) (lookback_hours batch_size : ℕ) (acquired : Bool) (now_ms : ℕ)
      → List ContextEvent
      → List NewReceiptAudit
      → List NewReceiptAudit
  unfolding audit_all unaudited
  sweep_audits is_after lookback_hours batch_size acquired now_ms published rows =
      if not acquired || ltb now_ms (lookback_hours * hour_ms)
      then rows
      else audit_all
          (take batch_size (unaudited is_after (now_ms - lookback_hours * hour_ms) published rows))
          rows
