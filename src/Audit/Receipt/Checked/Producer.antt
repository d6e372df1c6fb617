-- ===== src/Audit/Receipt/Checked/Producer.antt =====
-- The producer's fingerprint that leaves no note (src/audit/receipt-audit.service.ts).
use acdp_control_plane.Prelude.{
  Bool-cases, inl, inr, ◌≡◌, refl, sym, ap, ◌∙◌, String, List, [], ◌∷◌, ◌++◌, not, Option, none,
  some, arith, str_eq, codes, starts_with, Json,
}
use acdp_control_plane.Audit.Revocation.{fields_of}
use acdp_control_plane.Audit.Receipt.{
  Marks, add_note, Note, unexpected_producer_algorithm, ContextEvent, ReceiptHost, filled,
  fingerprint_ed25519_b64, verify_body_offline,
}
use acdp_control_plane.Audit.Receipt.Crypto.{
  fingerprinted, signature_member, or_default, did_key_prefix, ed25519, by_resolved, by_did_web,
  resolve_producer_fingerprint,
}
use acdp_control_plane.Audit.Receipt.Checked.{IsProducer, offline, by_key}
use acdp_control_plane.Audit.Receipt.Checked.Phases.{not_eq}

pub no_snoc {ℓ κ} : {A : Type ℓ} {B : Type κ} (xs : List A) (x : A) → (xs ++ x ∷ []) ≡ [] → B
no_snoc [] x h = absurd (ground (arith, h))
no_snoc (y ∷ ys) x h = absurd (ground (arith, h))

module _ (host : ReceiptHost) (ev : ContextEvent) (receipt body : Json) where
  module _ (m : Marks) (fp : String) (clean : m.notes ≡ []) where
    fingerprinted-some :
        (o : Option String) (marks : Marks)
        → fingerprinted host ev receipt o marks ≡ (some fp, m)
        → (o ≡ some fp) × (marks ≡ m)
    fingerprinted-some none marks h = absurd (ground (arith, h))
    fingerprinted-some (some f) marks h = (ap (λ p. p.0) h, ap (λ p. p.1) h)

    by_resolved-some :
        (key : Option String) (marks : Marks)
        → by_resolved host ev receipt key marks ≡ (some fp, m)
        → (k : String) × (key ≡ some k)
          × (fingerprint_ed25519_b64 host.sdk k ≡ some fp)
          × (marks ≡ m)
    unfolding by_resolved
    by_resolved-some none marks h = absurd (ground (arith, h))
    by_resolved-some (some key) marks h =
        let (printed, kept) = fingerprinted-some _ marks h in (key, refl, printed, kept)

    tainted {ℓ} : {A : Type ℓ} (n : Note) (marks : Marks) → add_note n marks ≡ m → A
    tainted n marks h = no_snoc marks.notes n (ap (λ p. p.notes) h ∙ clean)

    by_did_web-IsProducer :
        (key_id : Option String) (algorithm : String) (marks : Marks)
        → filled (signature_member "key_id" (fields_of body)) ≡ key_id
        → or_default ed25519 (signature_member "algorithm" (fields_of body)) ≡ algorithm
        → by_did_web host ev receipt key_id algorithm marks ≡ (some fp, m)
        → IsProducer host ev receipt body fp × (marks ≡ m)
    unfolding by_did_web
    by_did_web-IsProducer none algorithm marks n a h = tainted _ marks (ap (λ p. p.1) h)
    by_did_web-IsProducer (some key_id) algorithm marks n a h =
        elim (Bool-cases (not (str_eq algorithm ed25519))) [
          | inl odd ↦ tainted unexpected_producer_algorithm marks (ap (λ p. p.1) (rw odd at h))
          | inr even ↦
              let (key, got, printed, kept) =
                by_resolved-some (host.resolve_key key_id) marks (rw even at h) in
              (by_key key_id key n (a ∙ not_eq algorithm ed25519 even) got printed, kept)
        ]

    pub resolve-IsProducer :
        (marks : Marks)
        → resolve_producer_fingerprint host ev receipt body marks ≡ (some fp, m)
        → IsProducer host ev receipt body fp × (marks ≡ m)
    unfolding resolve_producer_fingerprint
    resolve-IsProducer marks h =
        elim (Bool-cases (starts_with (codes did_key_prefix) (codes ev.agent_id))) [
          | inr web ↦ by_did_web-IsProducer _ _ marks refl refl (rw web at h)
          | inl key ↦ elim (Bool-cases (verify_body_offline host.sdk (host.stringify body))) [
            | inl good ↦
                let same = rw (key, good) at h in
                (
                  offline key good (ap (λ o. or_default "" o) (ap (λ p. p.0) (sym same))),
                  ap (λ p. p.1) same,
                )
            | inr bad ↦ absurd (ground (arith, ap (λ p. p.0) (rw (key, bad) at h)))
          ]
        ]
