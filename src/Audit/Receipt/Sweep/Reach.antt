-- ===== src/Audit/Receipt/Sweep/Reach.antt =====
-- Sweeps reach every published event that stays in their window (src/audit/receipt-audit.service.ts).
use acdp_control_plane.Prelude.{
  ℕ, zero, suc, ◌-◌, ◌*◌, ◌≡◌, ◌≤◌, ◌<◌, ◌⊎◌, ◌++◌, ◌||◌, not, ltb, Bool, false, refl, sym, subst,
  inl, inr, String, List, [], ◌∷◌, true, arith, Bool-cases, length, take,
}
use acdp_control_plane.Audit.Receipt.{ContextEvent, ReceiptHost}
use acdp_control_plane.Audit.Receipt.Classify.{RevocationPolicy}
use acdp_control_plane.Audit.Receipt.Service.{audit_event}
use acdp_control_plane.Audit.Receipt.Sweep.{
  NewReceiptAudit, to_row, has_audit, unaudited, audit_all, sweep_audits, hour_ms,
}
use acdp_control_plane.Audit.Receipt.Sweep.Missing.{
  Grows, AllIn, missing, insert_audit-Grows, has_audit-insert_audit, missing-Grows, missing_fewer,
  missing_at_most,
}
use acdp_control_plane.Audit.Receipt.Sweep.Next.{IsNext, unaudited-IsNext}

module _ (host : ReceiptHost) (policy : RevocationPolicy) where
  audit_all-Grows :
      (evs : List ContextEvent) (rows : List NewReceiptAudit)
      → Grows rows (audit_all host policy evs rows)
  unfolding audit_all
  audit_all-Grows [] rows id h = h
  audit_all-Grows (ev ∷ evs) rows id h =
      audit_all-Grows evs _ id
        (insert_audit-Grows (to_row ev (audit_event host policy ev)) rows id h)

  audit_none : (rows : List NewReceiptAudit) → audit_all host policy [] rows ≡ rows
  unfolding audit_all
  audit_none rows = refl

  audit_all_first :
      (ev : ContextEvent) (evs : List ContextEvent) (rows : List NewReceiptAudit)
      → has_audit ev.id (audit_all host policy (ev ∷ evs) rows) ≡ true
  unfolding audit_all
  audit_all_first ev evs rows =
      audit_all-Grows evs _ ev.id
        (has_audit-insert_audit (to_row ev (audit_event host policy ev)) rows)

ltb-false : (a b : ℕ) → b ≤ a → ltb a b ≡ false
ltb-false a b h = ground arith

-- A sweep, with what it meets.
pub record Sweep : Type 0 where
  pub host : ReceiptHost
  pub policy : RevocationPolicy
  pub acquired : Bool
  pub now_ms : ℕ
  pub published : List ContextEvent

module _ (is_after : String → ℕ → Bool) (lookback_hours : ℕ) where
  -- A sweep that has the lock and finds the event in its window, after none but events of the ids.
  pub record IsInReach (ids : List String) (ev : ContextEvent) (s : Sweep) : Type 0 where
    pub before : List ContextEvent
    pub after : List ContextEvent
    pub has_lock : s.acquired ≡ true
    pub has_cutoff : lookback_hours * hour_ms ≤ s.now_ms
    pub in_window : is_after ev.created_at (s.now_ms - lookback_hours * hour_ms) ≡ true
    pub order : s.published ≡ before ++ ev ∷ after
    pub early : AllIn ids before

  -- At least so many of the sweeps have the event in reach.
  pub data Enough (ids : List String) (ev : ContextEvent) : ℕ → List Sweep → Type 0 where
    enough : {ss : List Sweep} → Enough ids ev 0 ss
    other : {n : ℕ} {ss : List Sweep} {s : Sweep} → Enough ids ev n ss → Enough ids ev n (s ∷ ss)
    in_reach :
        {n : ℕ} {ss : List Sweep} {s : Sweep}
        → IsInReach ids ev s
        → Enough ids ev n ss
        → Enough ids ev (suc n) (s ∷ ss)

module _ (is_after : String → ℕ → Bool) (lookback_hours batch_size : ℕ) where
  unfoldable pub run_sweeps : List Sweep → List NewReceiptAudit → List NewReceiptAudit
  unfolding sweep_audits
  run_sweeps [] rows = rows
  run_sweeps (s ∷ ss) rows = run_sweeps ss (
      sweep_audits s.host s.policy is_after lookback_hours batch_size s.acquired s.now_ms
        s.published rows)

  abbrev due : Sweep → List NewReceiptAudit → List ContextEvent
  due s rows =
      take batch_size (unaudited is_after (s.now_ms - lookback_hours * hour_ms) s.published rows)

  abbrev swept : Sweep → List NewReceiptAudit → List NewReceiptAudit
  swept s rows =
      sweep_audits s.host s.policy is_after lookback_hours batch_size s.acquired s.now_ms
        s.published rows

  swept-due :
      (s : Sweep) (rows : List NewReceiptAudit)
      → s.acquired ≡ true
      → lookback_hours * hour_ms ≤ s.now_ms
      → swept s rows ≡ audit_all s.host s.policy (due s rows) rows
  unfolding sweep_audits
  swept-due s rows lock cutoff =
      rw (lock, ltb-false s.now_ms (lookback_hours * hour_ms) cutoff) refl

  swept-Grows : (s : Sweep) (rows : List NewReceiptAudit) → Grows rows (swept s rows)
  unfolding sweep_audits
  swept-Grows s rows id h =
      elim (Bool-cases (not s.acquired || ltb s.now_ms (lookback_hours * hour_ms))) [
        | inl skips ↦ rw skips h
        | inr runs ↦ rw runs (audit_all-Grows s.host s.policy (due s rows) rows id h)
      ]

  run_sweeps-Grows :
      (ss : List Sweep) (rows : List NewReceiptAudit) → Grows rows (run_sweeps ss rows)
  unfolding run_sweeps
  run_sweeps-Grows [] rows id h = h
  run_sweeps-Grows (s ∷ ss) rows id h =
      run_sweeps-Grows ss (swept s rows) id (swept-Grows s rows id h)

  module _ (ids : List String) (ev : ContextEvent) where
    -- A batch of at least one event gives the next event its row.
    batch_serves :
        (host : ReceiptHost) (policy : RevocationPolicy) (size : ℕ) (rows : List NewReceiptAudit)
        (us : List ContextEvent)
        → 1 ≤ size
        → IsNext ids ev rows us
        → (has_audit ev.id (audit_all host policy (take size us) rows) ≡ true)
          ⊎ (missing ids (audit_all host policy (take size us) rows) < missing ids rows)
    batch_serves host policy zero rows us room next = absurd (omega (arith, room))
    batch_serves host policy (suc size) rows us room next =
        let left = take size next.rest in
        let new = audit_all host policy (next.first ∷ left) rows in
        let added : has_audit next.first.id new ≡ true =
          audit_all_first host policy next.first left rows in
        subst
          (λ l.
            (has_audit ev.id (audit_all host policy (take (suc size) l) rows) ≡ true)
            ⊎ (missing ids (audit_all host policy (take (suc size) l) rows) < missing ids rows))
          (sym next.leads)
          (elim next.either [
            | inl same ↦ inl (subst (λ x. has_audit x.id new ≡ true) same added)
            | inr (i, absent) ↦ inr (
                missing_fewer ids rows new next.first.id
                  (audit_all-Grows host policy (next.first ∷ left) rows) i absent added)
          ])

    sweep_serves :
        (s : Sweep) (rows : List NewReceiptAudit)
        → 1 ≤ batch_size
        → IsInReach is_after lookback_hours ids ev s
        → has_audit ev.id rows ≡ false
        → (has_audit ev.id (swept s rows) ≡ true) ⊎ (missing ids (swept s rows) < missing ids rows)
    sweep_serves s rows room r absent =
        let next =
          subst
            (λ l.
              IsNext ids ev rows (unaudited is_after (s.now_ms - lookback_hours * hour_ms) l rows))
            (sym r.order)
            (unaudited-IsNext is_after (s.now_ms - lookback_hours * hour_ms) ids ev rows r.in_window
              absent r.after r.before r.early) in
        subst (λ new. (has_audit ev.id new ≡ true) ⊎ (missing ids new < missing ids rows))
          (sym (swept-due s rows r.has_lock r.has_cutoff))
          (batch_serves s.host s.policy batch_size rows
            (unaudited is_after (s.now_ms - lookback_hours * hour_ms) s.published rows) room next)

    reach :
        (n : ℕ) (ss : List Sweep) (rows : List NewReceiptAudit)
        → 1 ≤ batch_size
        → Enough is_after lookback_hours ids ev n ss
        → missing ids rows < n
        → has_audit ev.id (run_sweeps ss rows) ≡ true
    unfolding run_sweeps
    reach n ss rows room enough h = absurd (omega (arith, h))
    reach n (s ∷ ss) rows room (other e) h =
        let kept = missing-Grows ids rows (swept s rows) (swept-Grows s rows) in
        reach n ss (swept s rows) room e (omega (arith, kept, h))
    reach (suc n) (s ∷ ss) rows room (in_reach r e) h = elim (Bool-cases (has_audit ev.id rows)) [
      | inl there ↦ run_sweeps-Grows (s ∷ ss) rows ev.id there
      | inr absent ↦ elim (sweep_serves s rows room r absent) [
        | inl served ↦ run_sweeps-Grows ss (swept s rows) ev.id served
        | inr fewer ↦ reach n ss (swept s rows) room e (omega (arith, fewer, h))
      ]
    ]

    -- With room for at least one event in a batch, an event has a verdict after any sweeps of which
    -- more than there are ids have the lock and find it in the window of their lookback, preceded
    -- only by events with one of the ids: whatever verdicts there were, whatever other sweeps run
    -- between, and whatever the network, the reads of the database and the resolvers answer, as long
    -- as no insert of a verdict fails.
    pub run_sweeps_reach :
        (ss : List Sweep) (rows : List NewReceiptAudit)
        → 1 ≤ batch_size
        → Enough is_after lookback_hours ids ev (suc (length ids)) ss
        → has_audit ev.id (run_sweeps ss rows) ≡ true
    run_sweeps_reach ss rows room e =
        let most = missing_at_most ids rows in
        reach (suc (length ids)) ss rows room e (omega (arith, most))
