-- ===== src/Audit/Receipt/Honest/Phases.antt =====
-- The phases of the verification of an honest registry's receipt keep the flags as they are
-- (src/audit/receipt-audit.service.ts).
use acdp_control_plane.Prelude.{
  ◌≡◌, ◌≢◌, refl, ap, inl, inr, String, Bool, true, false, not, Option, none, some, arith,
  Bool-cases, Option-cases, if◌then◌else◌, str_eq, eq_iff, codes, starts_with, Json, member,
}
use acdp_control_plane.Audit.Revocation.{str_of, fields_of}
use acdp_control_plane.Audit.Receipt.{
  Marks, add_note, unsupported_receipt_algorithm, ContextEvent, ReceiptHost, ReceiptVerifyOutcome,
  ReceiptFailureKind, accepted, refused, malformed_body, ctx_id_rejected, receipt_dishonest, filled,
  verify_outcome, verify_receipt, fingerprint_ed25519_b64,
}
use acdp_control_plane.Audit.Receipt.Crypto.{
  Phase, not_run, signature_member, or_default, did_key_prefix, ed25519, is_unsupported,
  by_resolved, by_did_web, resolve_producer_fingerprint, judge_receipt, by_receipt_key,
  by_registry_did, by_key_id, by_producer,
}
use acdp_control_plane.Audit.Receipt.Honest.{IsSound, IsSpotless}

-- A phase that ends leaves these flags.
abbrev pub Keeps : Marks → Phase → Type 0
Keeps marks none = Unit
Keeps marks (some (c, m)) = m.flags ≡ marks.flags

pub if-Keeps :
    (marks : Marks) (b : Bool) (p q : Phase)
    → Keeps marks p
    → Keeps marks q
    → Keeps marks (if b then p else q)
if-Keeps marks true p q hp hq = hp
if-Keeps marks false p q hp hq = hq

abbrev kind_of : Option ReceiptVerifyOutcome → ReceiptFailureKind
kind_of (some (refused kind)) = kind
kind_of _ = malformed_body

verify_receipt_sound :
    (host : ReceiptHost) (r b k c h f : String)
    → some (verify_outcome (host.sdk.verify_receipt r b k c h f)) ≢ some (refused receipt_dishonest)
    → verify_receipt host.sdk r b k c h f ≢ some (refused receipt_dishonest)
unfolding verify_receipt
verify_receipt_sound host r b k c h f sound = elim (Bool-cases (host.sdk.has_verify_receipt)) [
  | inl has ↦ rw has sound
  | inr lacks ↦ rw lacks (λ e. absurd (ground (arith, e)))
]

module _ (host : ReceiptHost) (ev : ContextEvent) (receipt : Json) where
  judge-Keeps :
      (o : Option ReceiptVerifyOutcome) (historical : Bool) (fp : String) (marks : Marks)
      → o ≢ some (refused receipt_dishonest)
      → Keeps marks (judge_receipt host ev receipt o historical fp marks)
  unfolding judge_receipt not_run
  judge-Keeps none historical fp marks h = tt
  judge-Keeps (some accepted) historical fp marks h = refl
  judge-Keeps (some (refused malformed_body)) historical fp marks h = refl
  judge-Keeps (some (refused ctx_id_rejected)) historical fp marks h = refl
  judge-Keeps (some (refused receipt_dishonest)) historical fp marks h = absurd (h refl)

  by_resolved-Keeps :
      (key : Option String) (marks : Marks)
      → (by_resolved host ev receipt key marks).1.flags ≡ marks.flags
  unfolding by_resolved
  by_resolved-Keeps none marks = refl
  by_resolved-Keeps (some key) marks = elim (Option-cases (fingerprint_ed25519_b64 host.sdk key)) [
    | inl threw ↦ rw threw refl
    | inr (f, got) ↦ rw got refl
  ]

  by_did_web-Keeps :
      (key_id : Option String) (algorithm : String) (marks : Marks)
      → (by_did_web host ev receipt key_id algorithm marks).1.flags ≡ marks.flags
  unfolding by_did_web
  by_did_web-Keeps none algorithm marks = refl
  by_did_web-Keeps (some key_id) algorithm marks =
      elim (Bool-cases (not (str_eq algorithm ed25519))) [
        | inl odd ↦ rw odd refl
        | inr even ↦ rw even (by_resolved-Keeps (host.resolve_key key_id) marks)
      ]

  module _ (honest : IsSpotless host ev receipt) (ctx_id : String) (body : Json)
      (sound : IsSound host ev receipt ctx_id body) (hash : String)
      (names_hash : filled (str_of (member "content_hash" (fields_of body))) ≡ some hash) where
    pub resolve-Keeps :
        (marks : Marks)
        → (resolve_producer_fingerprint host ev receipt body marks).1.flags ≡ marks.flags
    unfolding resolve_producer_fingerprint
    resolve-Keeps marks =
        elim (Bool-cases (starts_with (codes did_key_prefix) (codes ev.agent_id))) [
          | inl key ↦ rw (key, sound.offline_accepted key) refl
          | inr web ↦ rw web (
              by_did_web-Keeps (filled (signature_member "key_id" (fields_of body)))
                (or_default ed25519 (signature_member "algorithm" (fields_of body))) marks)
        ]

    module _ (fp : String) (before : Marks)
        (produced : (resolve_producer_fingerprint host ev receipt body before).0 ≡ some fp)
        (marks : Marks) where
      judged_sound :
          (key_id key : String) (historical : Bool)
          → filled (signature_member "key_id" (fields_of receipt)) ≡ some key_id
          → host.resolve_receipt_key key_id ≡ some (key, historical)
          → (o : Option String)
          → host.sdk.verify_receipt
              (host.stringify receipt)
              (host.stringify body)
              key
              ctx_id
              hash
              fp
            ≡ o
          → some (verify_outcome o) ≢ some (refused receipt_dishonest)
      unfolding verify_outcome
      judged_sound key_id key historical n r none e h = absurd (ground (arith, h))
      judged_sound key_id key historical n r (some message) e h =
          sound.receipt_accepted key_id key hash fp message historical before n r names_hash
            produced e (ap (λ o. kind_of o) h)

      by_receipt_key-Keeps :
          (key_id : String) (resolved : Option (String × Bool))
          → filled (signature_member "key_id" (fields_of receipt)) ≡ some key_id
          → host.resolve_receipt_key key_id ≡ resolved
          → Keeps marks
              (by_receipt_key host ev receipt ctx_id resolved (host.stringify body) hash fp marks)
      unfolding by_receipt_key not_run
      by_receipt_key-Keeps key_id none n r = refl
      by_receipt_key-Keeps key_id (some (key, historical)) n r = judge-Keeps _ historical fp marks (
          verify_receipt_sound host _ _ key ctx_id hash fp
            (judged_sound key_id key historical n r _ refl))

      by_registry_did-Keeps :
          (key_id : String) (did : Option String)
          → filled (signature_member "key_id" (fields_of receipt)) ≡ some key_id
          → ((d : String) → did ≡ some d → host.strip_fragment key_id ≡ d)
          → Keeps marks (
              by_registry_did host ev receipt ctx_id did key_id (host.stringify body) hash fp marks)
      unfolding by_registry_did not_run
      by_registry_did-Keeps key_id none n own = refl
      by_registry_did-Keeps key_id (some did) n own =
          rw (ap not ((eq_iff (host.strip_fragment key_id) did).1 (own did refl)))
            (by_receipt_key-Keeps key_id _ n refl)

      by_key_id-Keeps : Keeps marks (
          by_key_id host ev receipt ctx_id
            (filled (signature_member "key_id" (fields_of receipt)))
            (host.stringify body)
            hash
            fp
            marks)
      unfolding by_key_id not_run
      by_key_id-Keeps = rw honest.names_key (
          if-Keeps marks
            (is_unsupported (filled (signature_member "algorithm" (fields_of receipt))))
            (not_run (some fp) (add_note unsupported_receipt_algorithm marks)) _ refl
            (by_registry_did-Keeps honest.key_id _ honest.names_key honest.own_key))

    pub by_producer-Keeps :
        (before marks : Marks) (fp : Option String)
        → (resolve_producer_fingerprint host ev receipt body before).0 ≡ fp
        → Keeps marks (by_producer host ev receipt ctx_id (fp, marks) (host.stringify body) hash)
    unfolding by_producer not_run
    by_producer-Keeps before marks none e = refl
    by_producer-Keeps before marks (some fp) e = by_key_id-Keeps fp before e marks
