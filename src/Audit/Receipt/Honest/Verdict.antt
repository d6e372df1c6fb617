-- ===== src/Audit/Receipt/Honest/Verdict.antt =====
-- An honest registry is never flagged (src/audit/receipt-audit.service.ts).
use acdp_control_plane.Prelude.{
  ◌≡◌, ◌≢◌, refl, sym, ap, ◌∙◌, inl, inr, List, [], ◌∷◌, Bool, true, false, Option, none, some,
  arith, Option-cases, Json, member,
}
use acdp_control_plane.Auth.Federation.Signed.{and_then-some}
use acdp_control_plane.Audit.Revocation.{fields_of}
use acdp_control_plane.Audit.Lineage.{object_of}
use acdp_control_plane.Audit.Receipt.{Flag, Note, Marks, discrepancy, ContextEvent, ReceiptHost}
use acdp_control_plane.Audit.Receipt.Crypto.{CryptoOutcome, Phase, verify_cryptographically}
use acdp_control_plane.Audit.Receipt.Classify.{RevocationPolicy}
use acdp_control_plane.Audit.Receipt.Service.{
  AuditVerdict, without_receipt, status_from, status_with, skew_of, base_of, structural_marks,
  with_receipt, by_receipt, audit_event_inner, audit_event,
}
use acdp_control_plane.Audit.Receipt.Checked.Verified.{with_revocation-base}
use acdp_control_plane.Audit.Receipt.Honest.{
  Publication, IsHonest, IsRightSdk, IsRightResolver, IsSpotless,
}
use acdp_control_plane.Audit.Receipt.Honest.World.{honest-IsSpotless}
use acdp_control_plane.Audit.Receipt.Honest.Phases.{Keeps}
use acdp_control_plane.Audit.Receipt.Honest.Structure.{structural_marks-unflagged}
use acdp_control_plane.Audit.Receipt.Honest.Unflagged.{verify_cryptographically-Keeps}

abbrev flags_or : Marks → Phase → List Flag
flags_or d none = d.flags
flags_or d (some (c, m)) = m.flags

Keeps-some :
    (marks m : Marks) (c : CryptoOutcome) (p : Phase)
    → p ≡ some (c, m)
    → Keeps marks p
    → m.flags ≡ marks.flags
Keeps-some marks m c none e h = absurd (ground (arith, e))
Keeps-some marks m c (some (c', m')) e h = ap (λ o. flags_or m' o) (sym e) ∙ h

status_from-unflagged :
    (fs : List Flag) (ns : List Note) (ran historical : Bool)
    → fs ≡ []
    → status_from fs ns ran historical ≢ discrepancy
status_from-unflagged (f ∷ fs) ns ran historical e h = absurd (ground (arith, e))
status_from-unflagged [] (n ∷ ns) ran historical e h = absurd (ground (arith, h))
status_from-unflagged [] [] true true e h = absurd (ground (arith, h))
status_from-unflagged [] [] true false e h = absurd (ground (arith, h))
status_from-unflagged [] [] false historical e h = absurd (ground (arith, h))

without_receipt-unflagged :
    (advertised : Option Bool)
    → advertised ≢ some true
    → (without_receipt advertised).status ≢ discrepancy
without_receipt-unflagged none n h = absurd (ground (arith, h))
without_receipt-unflagged (some true) n h = absurd (n refl)
without_receipt-unflagged (some false) n h = absurd (ground (arith, h))

module _ (host : ReceiptHost) (policy : RevocationPolicy) (ev : ContextEvent) where
  with_receipt-unflagged :
      (receipt : Json) (v : AuditVerdict)
      → IsSpotless host ev receipt
      → with_receipt host policy ev receipt ≡ some v
      → v.base.status ≢ discrepancy
  unfolding with_receipt base_of status_with
  with_receipt-unflagged receipt v honest h e =
      let fields = fields_of receipt in
      let marks = structural_marks ev fields (skew_of host policy ev fields) in
      let ((c, m), ended, classified) =
        and_then-some (verify_cryptographically host ev receipt marks) _ v h in
      status_from-unflagged m.flags m.notes c.ran c.historical
        (Keeps-some marks m c (verify_cryptographically host ev receipt marks) ended
            (verify_cryptographically-Keeps host ev receipt honest marks)
          ∙ structural_marks-unflagged host policy ev receipt honest.faithful)
        (ap (λ b. b.status)
            (with_revocation-base host policy ev (base_of host policy ev fields (c, m))
              c.producer_fp v classified)
          ∙ e)

  verdict-unflagged :
      (found : Option Json) (v : AuditVerdict)
      → ((receipt : Json) → found ≡ some receipt → IsSpotless host ev receipt)
      → (found ≡ none
          → host.advertises_receipts ev.registry_authority ev.tenant_id ≢ some (some true))
      → by_receipt host policy ev found ≡ some v
      → v.base.status ≢ discrepancy
  unfolding by_receipt
  verdict-unflagged none v honest silent h e =
      let (advertised, said, classified) =
        and_then-some (host.advertises_receipts ev.registry_authority ev.tenant_id) _ v h in
      without_receipt-unflagged advertised (λ a. silent refl (said ∙ ap (λ x. some x) a))
        (ap (λ b. b.status)
            (with_revocation-base host policy ev (without_receipt advertised) none v classified)
          ∙ e)
  verdict-unflagged (some receipt) v honest silent h e =
      with_receipt-unflagged receipt v (honest receipt refl) h e

  -- The event relays what an honest registry has published: its receipt, where it has one, says the
  -- same in the name of the registry and under a key of its own, what is served is the published body
  -- or nothing that can be used, and where there is no receipt the registry is not known to advertise
  -- them. With an SDK that finds the published body and receipt right (or refuses the context id),
  -- with its offline check for a did:key producer, and a resolver whose answers, where it has any,
  -- are the keys published, the audit of the event never ends in a discrepancy, whatever of the
  -- network, the database, the parsing of JSON and the resolution of keys fails.
  pub honest_never_flagged :
      (p : Publication)
      → ((receipt : Json)
          → object_of (member "registry_receipt" ev.raw_payload) ≡ some receipt
          → IsHonest host ev p receipt × IsRightSdk host ev p receipt)
      → IsRightResolver host ev p
      → (object_of (member "registry_receipt" ev.raw_payload) ≡ none
          → host.advertises_receipts ev.registry_authority ev.tenant_id ≢ some (some true))
      → (audit_event host policy ev).base.status ≢ discrepancy
  unfolding audit_event audit_event_inner
  honest_never_flagged p honest resolver silent e =
      elim (Option-cases (audit_event_inner host policy ev)) [
        | inl threw ↦ absurd (ground (arith, rw (threw, audit_event) at e))
        | inr (v, got) ↦
            verdict-unflagged (object_of (member "registry_receipt" ev.raw_payload)) v
              (λ receipt given.
                honest-IsSpotless host ev p receipt (honest receipt given).0
                  (honest receipt given).1 resolver)
              silent got (rw (got, audit_event) at e)
      ]
