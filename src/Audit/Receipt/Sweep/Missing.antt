-- ===== src/Audit/Receipt/Sweep/Missing.antt =====
-- The verdicts that are missing (src/storage/receipt-audit.repository.ts).
use acdp_control_plane.Prelude.{
  ℕ, suc, ◌≡◌, ◌≤◌, ◌<◌, false, if◌then◌else◌, refl, inl, inr, String, List, [], ◌∷◌, true, arith,
  Bool-cases, length, eq_refl,
}
use acdp_control_plane.Audit.Receipt.{ContextEvent}
use acdp_control_plane.Audit.Receipt.Sweep.{NewReceiptAudit, has_audit, insert_audit}

abbrev pub Grows : (old new : List NewReceiptAudit) → Type 0
Grows old new = (id : String) → has_audit id old ≡ true → has_audit id new ≡ true

pub insert_audit-Grows :
    (row : NewReceiptAudit) (rows : List NewReceiptAudit) → Grows rows (insert_audit row rows)
unfolding insert_audit has_audit
insert_audit-Grows row rows id h = elim (Bool-cases (has_audit row.event_id rows)) [
  | inl there ↦ rw there h
  | inr new ↦ rw (new, h) (ground arith)
]

pub has_audit-insert_audit :
    (row : NewReceiptAudit) (rows : List NewReceiptAudit)
    → has_audit row.event_id (insert_audit row rows) ≡ true
unfolding insert_audit has_audit
has_audit-insert_audit row rows = elim (Bool-cases (has_audit row.event_id rows)) [
  | inl there ↦ rw there there
  | inr new ↦ rw (new, eq_refl row.event_id) refl
]

-- One of the ids.
pub data IsIn (id : String) : List String → Type 0 where
  head_is : {ids : List String} → IsIn id (id ∷ ids)
  tail_has : {other : String} {ids : List String} → IsIn id ids → IsIn id (other ∷ ids)

-- Each event has one of the ids.
pub data AllIn (ids : List String) : List ContextEvent → Type 0 where
  no_events : AllIn ids []
  and_event :
      {ev : ContextEvent} {evs : List ContextEvent}
      → IsIn ev.id ids
      → AllIn ids evs
      → AllIn ids (ev ∷ evs)

-- The number of the ids that have no row.
unfoldable pub missing : List String → List NewReceiptAudit → ℕ
missing [] rows = 0
missing (id ∷ ids) rows =
    let rest = missing ids rows in if has_audit id rows then rest else suc rest

pub missing-Grows :
    (ids : List String) (old new : List NewReceiptAudit)
    → Grows old new
    → missing ids new ≤ missing ids old
unfolding missing
missing-Grows [] old new grows = omega arith
missing-Grows (id ∷ ids) old new grows =
    let rest = missing-Grows ids old new grows in
    elim (Bool-cases (has_audit id old)) [
      | inl there ↦ rw (there, grows id there) rest
      | inr absent ↦ elim (Bool-cases (has_audit id new)) [
        | inl added ↦ rw (absent, added) (omega (arith, rest))
        | inr still ↦ rw (absent, still) (omega (arith, rest))
      ]
    ]

-- Where one of the ids gets its row, fewer are missing.
pub missing_fewer :
    (ids : List String) (old new : List NewReceiptAudit) (id : String)
    → Grows old new
    → IsIn id ids
    → has_audit id old ≡ false
    → has_audit id new ≡ true
    → missing ids new < missing ids old
unfolding missing
missing_fewer [] old new id grows i absent added = elim i [ ]
missing_fewer (_ ∷ ids) old new id grows head_is absent added =
    let rest = missing-Grows ids old new grows in rw (absent, added) (omega (arith, rest))
missing_fewer (other ∷ ids) old new id grows (tail_has i) absent added =
    let rest = missing_fewer ids old new id grows i absent added in
    elim (Bool-cases (has_audit other old)) [
      | inl there ↦ rw (there, grows other there) rest
      | inr lacking ↦ elim (Bool-cases (has_audit other new)) [
        | inl got ↦ rw (lacking, got) (omega (arith, rest))
        | inr still ↦ rw (lacking, still) (omega (arith, rest))
      ]
    ]

pub missing_at_most :
    (ids : List String) (rows : List NewReceiptAudit) → missing ids rows ≤ length ids
unfolding missing
missing_at_most [] rows = omega arith
missing_at_most (id ∷ ids) rows =
    let rest = missing_at_most ids rows in
    elim (Bool-cases (has_audit id rows)) [
      | inl there ↦ rw there (omega (arith, rest))
      | inr absent ↦ rw absent (omega (arith, rest))
    ]
