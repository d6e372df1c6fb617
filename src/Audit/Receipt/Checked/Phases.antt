-- ===== src/Audit/Receipt/Checked/Phases.antt =====
-- The phases of a run of the receipt's verification that ends (src/audit/receipt-audit.service.ts).
use acdp_control_plane.Prelude.{
  ◌≡◌, refl, sym, ap, String, Bool, true, false, not, Option, none, some, arith, if◌then◌else◌,
  str_eq, eq_iff, Json,
}
use acdp_control_plane.Did.{authority_to_did_web}
use acdp_control_plane.Audit.Revocation.{fields_of}
use acdp_control_plane.Audit.Receipt.{
  Marks, ContextEvent, ReceiptHost, ReceiptVerifyOutcome, accepted, refused, malformed_body,
  ctx_id_rejected, receipt_dishonest, filled, verify_outcome, verify_receipt,
}
use acdp_control_plane.Audit.Receipt.Crypto.{
  CryptoOutcome, Phase, not_run, signature_member, judge_receipt, by_receipt_key, by_registry_did,
  by_key_id, by_producer,
}
use acdp_control_plane.Audit.Receipt.Checked.{IsSigned}

verify_receipt-accepted :
    (host : ReceiptHost) (r b k c h f : String)
    → verify_receipt host.sdk r b k c h f ≡ some accepted
    → host.sdk.verify_receipt r b k c h f ≡ none
unfolding verify_receipt verify_outcome
verify_receipt-accepted host r b k c h f e = ground (arith, e)

-- A phase that ran to its end did not stop before it.
module _ (c : CryptoOutcome) (m : Marks) (ran : c.ran ≡ true) where
  pub stopped {ℓ} :
      {A : Type ℓ} (fp : Option String) (marks : Marks) → not_run fp marks ≡ some (c, m) → A
  unfolding not_run
  stopped fp marks h = absurd (ground (arith, h, ran))

  pub past :
      (b : Bool) (fp : Option String) (marks : Marks) (rest : Phase)
      → (if b then not_run fp marks else rest) ≡ some (c, m)
      → (b ≡ false) × (rest ≡ some (c, m))
  past true fp marks rest h = stopped fp marks h
  past false fp marks rest h = (refl, h)

  pub through :
      (b : Bool) (fp : Option String) (marks : Marks) (rest : Phase)
      → (if b then rest else not_run fp marks) ≡ some (c, m)
      → (b ≡ true) × (rest ≡ some (c, m))
  through true fp marks rest h = (refl, h)
  through false fp marks rest h = stopped fp marks h

pub not_eq : (s t : String) → not (str_eq s t) ≡ false → s ≡ t
not_eq s t h = (eq_iff s t).0 (ground (arith, h))

module _ (host : ReceiptHost) (ev : ContextEvent) (receipt : Json) where
  module _ (c : CryptoOutcome) (m : Marks) (ran : c.ran ≡ true) where
    judge-accepted :
        (o : Option ReceiptVerifyOutcome) (historical : Bool) (fp : String) (marks : Marks)
        → judge_receipt host ev receipt o historical fp marks ≡ some (c, m)
        → (o ≡ some accepted) × (c.historical ≡ historical) × (marks ≡ m)
    unfolding judge_receipt not_run
    judge-accepted none historical fp marks h = absurd (ground (arith, h))
    judge-accepted (some accepted) historical fp marks h =
        (refl, ground (arith, h), ground (arith, h))
    judge-accepted (some (refused malformed_body)) historical fp marks h =
        absurd (ground (arith, h, ran))
    judge-accepted (some (refused ctx_id_rejected)) historical fp marks h =
        absurd (ground (arith, h, ran))
    judge-accepted (some (refused receipt_dishonest)) historical fp marks h =
        absurd (ground (arith, h, ran))

    by_receipt_key-accepted :
        (ctx_id : String) (resolved : Option (String × Bool)) (body_json hash fp : String)
        (marks : Marks)
        → by_receipt_key host ev receipt ctx_id resolved body_json hash fp marks ≡ some (c, m)
        → (key : String) × (resolved ≡ some (key, c.historical))
          × (host.sdk.verify_receipt (host.stringify receipt) body_json key ctx_id hash fp ≡ none)
          × (marks ≡ m)
    unfolding by_receipt_key
    by_receipt_key-accepted ctx_id none body_json hash fp marks h = stopped c m ran _ _ h
    by_receipt_key-accepted ctx_id (some (key, historical)) body_json hash fp marks h =
        let (ok, same, kept) = judge-accepted _ historical fp marks h in
        (
          key,
          ap (λ b. some (key, b)) (sym same),
          verify_receipt-accepted host _ body_json key ctx_id hash fp ok,
          kept,
        )

    by_registry_did-IsSigned :
        (ctx_id : String) (identity : Option String) (key_id body_json hash fp : String)
        (marks : Marks)
        → authority_to_did_web ev.registry_authority ≡ identity
        → filled (signature_member "key_id" (fields_of receipt)) ≡ some key_id
        → by_registry_did host ev receipt ctx_id identity key_id body_json hash fp marks
          ≡ some (c, m)
        → IsSigned host ev receipt ctx_id body_json hash fp c.historical × (marks ≡ m)
    unfolding by_registry_did
    by_registry_did-IsSigned ctx_id none key_id body_json hash fp marks e n h =
        stopped c m ran _ _ h
    by_registry_did-IsSigned ctx_id (some did) key_id body_json hash fp marks e n h =
        let (own, rest) = past c m ran _ _ _ _ h in
        let (key, got, ok, kept) = by_receipt_key-accepted ctx_id _ body_json hash fp marks rest in
        (
          record {
            key_id = key_id;
            did = did;
            key = key;
            names_key = n;
            identity = e;
            own_key = not_eq _ did own;
            resolved = got;
            sdk_accepts = ok;
          },
          kept,
        )

    by_key_id-IsSigned :
        (ctx_id : String) (key_id : Option String) (body_json hash fp : String) (marks : Marks)
        → filled (signature_member "key_id" (fields_of receipt)) ≡ key_id
        → by_key_id host ev receipt ctx_id key_id body_json hash fp marks ≡ some (c, m)
        → IsSigned host ev receipt ctx_id body_json hash fp c.historical × (marks ≡ m)
    unfolding by_key_id
    by_key_id-IsSigned ctx_id none body_json hash fp marks n h = stopped c m ran _ _ h
    by_key_id-IsSigned ctx_id (some key_id) body_json hash fp marks n h =
        let (known, rest) = past c m ran _ _ _ _ h in
        by_registry_did-IsSigned ctx_id _ key_id body_json hash fp marks refl n rest

    -- The producer that is resolved, with the marks that stay.
    pub by_producer-IsSigned :
        (ctx_id : String) (producer : Option String × Marks) (body_json hash : String)
        → by_producer host ev receipt ctx_id producer body_json hash ≡ some (c, m)
        → (fp : String) × IsSigned host ev receipt ctx_id body_json hash fp c.historical
          × (producer ≡ (some fp, m))
    unfolding by_producer
    by_producer-IsSigned ctx_id (none, marks) body_json hash h = stopped c m ran _ _ h
    by_producer-IsSigned ctx_id (some fp, marks) body_json hash h =
        let (signed, kept) = by_key_id-IsSigned ctx_id _ body_json hash fp marks refl h in
        (fp, signed, ap (λ k. (some fp, k)) kept)
