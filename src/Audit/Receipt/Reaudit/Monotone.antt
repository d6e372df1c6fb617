-- ===== src/Audit/Receipt/Reaudit/Monotone.antt =====
-- Re-audits only tighten what is recorded (src/audit/receipt-audit.service.ts).
use acdp_control_plane.Prelude.{
  ℕ, ◌≡◌, refl, sym, subst, ◌∙◌, ◌⊎◌, inl, inr, String, List, [], ◌∷◌, Bool, true, false, not,
  Option, none, some, arith, Bool-cases, Option-cases, str_mem, if◌then◌else◌,
}
use acdp_control_plane.Auth.Jwt.{and_then}
use acdp_control_plane.Audit.Receipt.{KeyRevocation, ReceiptHost}
use acdp_control_plane.Audit.Receipt.Classify.{
  KeyRevocationClassification, not_revoked, classified, RevocationPolicy, normalized,
}
use acdp_control_plane.Audit.Receipt.Reaudit.{
  AuditRow, is_later, is_amended, amend_key_revocation, amended_by, reaudit_row, reaudit_rows,
  with_facts, reaudit_for_fingerprint,
}

-- A pass of the re-audit, under the configuration and the facts of its time.
pub record Pass : Type 0 where
  pub policy : RevocationPolicy
  pub tenant_id : String
  pub fingerprint : String
  pub candidate : AuditRow → Bool

module _ (host : ReceiptHost) where
  abbrev NotLater : (old new : Option ℕ) → Type 0
  NotLater old new = (old ≡ new) ⊎ (is_later host old new ≡ true)

  -- What is revoked stays so, from no later a time.
  abbrev pub IsTighter : (old new : KeyRevocationClassification) → Type 0
  IsTighter not_revoked new = Unit
  IsTighter (classified s b t src) not_revoked = true ≡ false
  IsTighter (classified s b t src) (classified s' b' t' src') =
      NotLater (host.parse_date b) (host.parse_date b')

  pub record RowTighter (old new : AuditRow) : Type 0 where
    pub same_event : old.event_id ≡ new.event_id
    pub same_status : old.status ≡ new.status
    pub same_created_at : old.receipt_created_at ≡ new.receipt_created_at
    pub tighter : IsTighter old.key_revocation new.key_revocation

  abbrev pub RowsTighter : (old new : List AuditRow) → Type 0
  RowsTighter [] [] = Unit
  RowsTighter (old ∷ olds) (new ∷ news) = RowTighter old new × RowsTighter olds news
  RowsTighter _ _ = true ≡ false

  is_later_trans :
      (a b c : Option ℕ)
      → is_later host a b ≡ true
      → is_later host b c ≡ true
      → is_later host a c ≡ true
  unfolding is_later
  is_later_trans (some a) (some b) (some c) h k = ground (arith, h, k)
  is_later_trans none b c h k = absurd (ground (arith, h))
  is_later_trans (some a) none c h k = absurd (ground (arith, h))
  is_later_trans (some a) (some b) none h k = absurd (ground (arith, k))

  NotLater-trans : (a b c : Option ℕ) → NotLater a b → NotLater b c → NotLater a c
  NotLater-trans a b c (inl e) k = subst (λ x. NotLater x c) (sym e) k
  NotLater-trans a b c (inr h) (inl e) = inr (subst (λ x. is_later host a x ≡ true) e h)
  NotLater-trans a b c (inr h) (inr k) = inr (is_later_trans a b c h k)

  amend-IsTighter :
      (old new : KeyRevocationClassification) → is_amended host old new ≡ true → IsTighter old new
  unfolding is_amended
  amend-IsTighter not_revoked new h = tt
  amend-IsTighter (classified s b t src) not_revoked h = absurd (ground (arith, h))
  amend-IsTighter (classified s b t src) (classified s' b' t' src') h = inr h

  IsTighter-refl : (c : KeyRevocationClassification) → IsTighter c c
  IsTighter-refl not_revoked = tt
  IsTighter-refl (classified s b t src) = inl refl

  IsTighter-trans :
      (a b c : KeyRevocationClassification) → IsTighter a b → IsTighter b c → IsTighter a c
  IsTighter-trans not_revoked b c h k = tt
  IsTighter-trans (classified s d t src) not_revoked c h k = absurd (ground (arith, h))
  IsTighter-trans (classified s d t src) (classified s' d' t' src') not_revoked h k = k
  IsTighter-trans (classified s d t src) (classified s' d' t' src') (classified s'' d'' t'' src'') h
        k =
      NotLater-trans _ _ _ h k

  RowTighter-refl : (row : AuditRow) → RowTighter row row
  RowTighter-refl row = record {
    same_event = refl;
    same_status = refl;
    same_created_at = refl;
    tighter = IsTighter-refl row.key_revocation;
  }

  RowsTighter-refl : (rows : List AuditRow) → RowsTighter rows rows
  RowsTighter-refl [] = tt
  RowsTighter-refl (row ∷ rows) = (RowTighter-refl row, RowsTighter-refl rows)

  RowsTighter-trans : (a b c : List AuditRow) → RowsTighter a b → RowsTighter b c → RowsTighter a c
  RowsTighter-trans [] [] c h k = k
  RowsTighter-trans [] (y ∷ ys) c h k = absurd (ground (arith, h))
  RowsTighter-trans (x ∷ xs) [] c h k = absurd (ground (arith, h))
  RowsTighter-trans (x ∷ xs) (y ∷ ys) [] h k = k
  RowsTighter-trans (x ∷ xs) (y ∷ ys) (z ∷ zs) (h, hs) (k, ks) = (
    record {
      same_event = h.same_event ∙ k.same_event;
      same_status = h.same_status ∙ k.same_status;
      same_created_at = h.same_created_at ∙ k.same_created_at;
      tighter = IsTighter-trans _ _ _ h.tighter k.tighter;
    },
    RowsTighter-trans xs ys zs hs ks,
  )

  abbrev OutcomeTighter : List AuditRow → Option (List AuditRow × ℕ) → Type 0
  OutcomeTighter rows none = Unit
  OutcomeTighter rows (some (rows', amended)) = RowsTighter rows rows'

  if-OutcomeTighter :
      (rows : List AuditRow) (b : Bool) (o : Option (List AuditRow × ℕ))
      → RowsTighter rows rows
      → OutcomeTighter rows o
      → OutcomeTighter rows (if b then some (rows, 0) else o)
  if-OutcomeTighter rows true o same h = same
  if-OutcomeTighter rows false o same h = h

  found-OutcomeTighter :
      (rows : List AuditRow) (found : Option (List KeyRevocation))
      (f : List KeyRevocation → Option (List AuditRow × ℕ))
      → ((facts : List KeyRevocation) → OutcomeTighter rows (f facts))
      → OutcomeTighter rows (and_then found f)
  found-OutcomeTighter rows none f h = tt
  found-OutcomeTighter rows (some facts) f h = h facts

  module _ (policy : RevocationPolicy) where
    amended_by-RowTighter :
        (row : AuditRow) (o : Option KeyRevocationClassification)
        → RowTighter row (amended_by host policy row o).0
    unfolding amended_by amend_key_revocation
    amended_by-RowTighter row none = RowTighter-refl row
    amended_by-RowTighter row (some not_revoked) = RowTighter-refl row
    amended_by-RowTighter row (some (classified s b t src)) =
        elim (Bool-cases (is_amended host row.key_revocation (classified s b t src))) [
          | inr kept ↦ rw kept (RowTighter-refl row)
          | inl amended ↦ rw amended (record {
            same_event = refl;
            same_status = refl;
            same_created_at = refl;
            tighter = amend-IsTighter row.key_revocation (classified s b t src) amended;
          })
        ]

    reaudit_rows-RowsTighter :
        (fingerprint : String) (facts : List KeyRevocation) (candidate : AuditRow → Bool)
        (rows : List AuditRow)
        → RowsTighter rows (reaudit_rows host policy fingerprint facts candidate rows).0
    unfolding reaudit_rows reaudit_row
    reaudit_rows-RowsTighter fingerprint facts candidate [] = tt
    reaudit_rows-RowsTighter fingerprint facts candidate (row ∷ rows) =
        let rest = reaudit_rows-RowsTighter fingerprint facts candidate rows in
        elim (Bool-cases (candidate row)) [
          | inl picked ↦ rw picked (amended_by-RowTighter row _, rest)
          | inr passed ↦ rw passed (RowTighter-refl row, rest)
        ]

    with_facts-RowsTighter :
        (fingerprint : String) (candidate : AuditRow → Bool) (rows : List AuditRow)
        (facts : List KeyRevocation)
        → OutcomeTighter rows (with_facts host policy fingerprint candidate rows facts)
    with_facts-RowsTighter fingerprint candidate rows [] = RowsTighter-refl rows
    with_facts-RowsTighter fingerprint candidate rows (r ∷ rs) =
        elim (Option-cases (normalized host policy (r ∷ rs))) [
          | inl threw ↦ rw threw tt
          | inr (isos, got) ↦ rw got (reaudit_rows-RowsTighter fingerprint (r ∷ rs) candidate rows)
        ]

    reaudit-RowsTighter :
        (tenant_id fingerprint : String) (candidate : AuditRow → Bool) (rows : List AuditRow)
        → OutcomeTighter rows
            (reaudit_for_fingerprint host policy tenant_id fingerprint candidate rows)
    unfolding reaudit_for_fingerprint
    reaudit-RowsTighter tenant_id fingerprint candidate rows =
        if-OutcomeTighter rows (not policy.check_enabled) _ (RowsTighter-refl rows) (
          if-OutcomeTighter rows (not policy.sdk_supports_classification) _ (RowsTighter-refl rows)
            (if-OutcomeTighter rows (str_mem fingerprint policy.ignored_fingerprints) _
              (RowsTighter-refl rows)
              (found-OutcomeTighter rows (policy.find_by_fingerprint fingerprint tenant_id) _
                (with_facts-RowsTighter fingerprint candidate rows))))

  -- The rows after the passes; one that throws leaves them.
  abbrev after_pass : List AuditRow → Option (List AuditRow × ℕ) → List AuditRow
  after_pass rows none = rows
  after_pass rows (some (rows', amended)) = rows'

  unfoldable pub run_passes : List Pass → List AuditRow → List AuditRow
  run_passes [] rows = rows
  run_passes (p ∷ ps) rows = run_passes ps (
      after_pass rows
        (reaudit_for_fingerprint host p.policy p.tenant_id p.fingerprint p.candidate rows))

  after_pass-RowsTighter :
      (rows : List AuditRow) (o : Option (List AuditRow × ℕ))
      → OutcomeTighter rows o
      → RowsTighter rows (after_pass rows o)
  after_pass-RowsTighter rows none h = RowsTighter-refl rows
  after_pass-RowsTighter rows (some (rows', amended)) h = h

  -- After any re-audits, whatever facts, settings and candidates each has, the rows are the same
  -- ones with the same verdicts, and a row that is revoked stays so, from no later a time.
  pub run_passes-RowsTighter :
      (passes : List Pass) (rows : List AuditRow) → RowsTighter rows (run_passes passes rows)
  unfolding run_passes
  run_passes-RowsTighter [] rows = RowsTighter-refl rows
  run_passes-RowsTighter (p ∷ ps) rows =
      let outcome =
        reaudit_for_fingerprint host p.policy p.tenant_id p.fingerprint p.candidate rows in
      RowsTighter-trans rows (after_pass rows outcome) _
        (after_pass-RowsTighter rows outcome
          (reaudit-RowsTighter p.policy p.tenant_id p.fingerprint p.candidate rows))
        (run_passes-RowsTighter ps (after_pass rows outcome))
