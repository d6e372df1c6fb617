-- ===== src/Audit/Receipt/Sweep/Next.antt =====
-- The event that a sweep audits first (src/storage/receipt-audit.repository.ts).
use acdp_control_plane.Prelude.{
  ℕ, ◌≡◌, ◌⊎◌, ◌++◌, ◌&&◌, not, Bool, false, refl, inl, inr, String, List, [], ◌∷◌, true, arith,
  Bool-cases,
}
use acdp_control_plane.Audit.Receipt.{ContextEvent}
use acdp_control_plane.Audit.Receipt.Sweep.{NewReceiptAudit, has_audit, unaudited}
use acdp_control_plane.Audit.Receipt.Sweep.Missing.{IsIn, AllIn, no_events, and_event}

-- The next event to be audited is the one given, or one without a row among those before it.
pub record IsNext (ids : List String) (ev : ContextEvent) (rows : List NewReceiptAudit)
    (due : List ContextEvent) : Type 0 where
  pub first : ContextEvent
  pub rest : List ContextEvent
  pub leads : due ≡ first ∷ rest
  pub either : (first ≡ ev) ⊎ (IsIn first.id ids × (has_audit first.id rows ≡ false))

module _ (is_after : String → ℕ → Bool) (since : ℕ) (ids : List String) (ev : ContextEvent)
    (rows : List NewReceiptAudit) (recent : is_after ev.created_at since ≡ true)
    (absent : has_audit ev.id rows ≡ false) (after : List ContextEvent) where
  pub unaudited-IsNext :
      (before : List ContextEvent)
      → AllIn ids before
      → IsNext ids ev rows (unaudited is_after since (before ++ ev ∷ after) rows)
  unfolding unaudited
  unaudited-IsNext [] no_events = record {
    first = ev;
    rest = unaudited is_after since after rows;
    leads = rw (recent, absent) refl;
    either = inl refl;
  }
  unaudited-IsNext (b ∷ before) (and_event i all) =
      let next = unaudited-IsNext before all in
      elim (Bool-cases (is_after b.created_at since && not (has_audit b.id rows))) [
        | inl due ↦ record {
          first = b;
          rest = unaudited is_after since (before ++ ev ∷ after) rows;
          leads = rw due refl;
          either = inr (i, ground (arith, due));
        }
        | inr not_due ↦ record {
          first = next.first;
          rest = next.rest;
          leads = rw not_due next.leads;
          either = next.either;
        }
      ]
