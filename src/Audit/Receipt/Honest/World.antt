-- ===== src/Audit/Receipt/Honest/World.antt =====
-- An honest registry, a right SDK and a right resolver pass the checks of an audit
-- (src/audit/receipt-audit.service.ts).
use acdp_control_plane.Prelude.{
  ◌≡◌, ◌≢◌, refl, sym, ap, ◌∙◌, subst, inl, inr, String, true, not, Option, none, some, arith,
  Bool-cases, str_eq, eq_iff, codes, starts_with, Json, member,
}
use acdp_control_plane.Audit.Revocation.{str_of, fields_of}
use acdp_control_plane.Audit.Receipt.{
  Marks, ContextEvent, ReceiptHost, ctx_id_rejected, receipt_dishonest, filled,
  classify_receipt_failure, verify_body_offline, fingerprint_ed25519_b64,
}
use acdp_control_plane.Audit.Receipt.Crypto.{
  signature_member, or_default, did_key_prefix, ed25519, fingerprinted, by_resolved,
  claimed_fingerprint, by_did_web, resolve_producer_fingerprint,
}
use acdp_control_plane.Audit.Receipt.Checked.{IsServed}
use acdp_control_plane.Audit.Receipt.Honest.{
  Publication, Relays, IsHonest, IsRightSdk, IsRightResolver, IsFaithful, IsSound, IsSpotless,
}
use acdp_control_plane.Audit.Receipt.Honest.Structure.{filled-some}

abbrev text_or : Option String → String
text_or none = ""
text_or (some s) = s

some_text : (s t : String) → some s ≡ some t → s ≡ t
some_text s t h = ap (λ o. text_or o) h

relayed : (o : Option String) (s e : String) → Relays o s → filled o ≡ some e → e ≡ s
unfolding filled
relayed o s e (inl absent) h = absurd (ground (arith, rw (absent, filled) at h))
relayed o s e (inr given) h = some_text e s (sym (filled-some o e h) ∙ given)

filled_self : (s : String) → s ≢ "" → filled (some s) ≡ some s
unfolding filled
filled_self s n = elim (Bool-cases (str_eq s "")) [
  | inl bare ↦ absurd (n ((eq_iff s "").0 bare))
  | inr full ↦ rw full refl
]

rejected_not_dishonest : ctx_id_rejected ≢ receipt_dishonest
rejected_not_dishonest h = absurd (ground (arith, h))

module _ (host : ReceiptHost) (ev : ContextEvent) (p : Publication) (receipt : Json)
    (honest : IsHonest host ev p receipt) (sdk : IsRightSdk host ev p receipt)
    (resolver : IsRightResolver host ev p) where
  honest-IsFaithful : IsFaithful host ev receipt
  honest-IsFaithful = record {
    ctx_id_agrees = λ c e.
        honest.says_ctx_id
        ∙ ap (λ x. some x) (sym (relayed ev.ctx_id p.ctx_id c honest.relays_ctx_id e));
    lineage_agrees = λ a e h k.
        some_text a p.lineage_id (
          sym (filled-some (str_of (member "lineage_id" (fields_of receipt))) a h)
          ∙ honest.says_lineage)
        ∙ sym (relayed ev.lineage_id p.lineage_id e honest.relays_lineage k);
    fingerprint_agrees = λ a e h k.
        some_text a p.fingerprint (
          sym (filled-some (str_of (member "key_fingerprint" (fields_of receipt))) a h)
          ∙ honest.says_fingerprint)
        ∙ sym (relayed ev.key_fingerprint p.fingerprint e honest.relays_fingerprint k);
    origin_agrees = honest.says_origin;
    registry_agrees = λ did e. honest.says_did ∙ e;
    on_time = λ created arrival claimed t c a.
        honest.minted_before claimed arrival
          (ap host.parse_date
              (sym (some_text created p.created_at (sym t ∙ honest.says_created_at)))
            ∙ c)
          a;
  }

  claimed-fingerprint : claimed_fingerprint host ev receipt ≡ p.fingerprint
  claimed-fingerprint = ap (λ o. or_default "" o) honest.says_fingerprint

  fingerprint_ed25519_b64-some :
      (key fp : String)
      → fingerprint_ed25519_b64 host.sdk key ≡ some fp
      → host.sdk.fingerprint key ≡ some fp
  unfolding fingerprint_ed25519_b64
  fingerprint_ed25519_b64-some key fp h = elim (Bool-cases host.sdk.has_fingerprint) [
    | inl able ↦ rw (able, fingerprint_ed25519_b64) at h
    | inr unable ↦ absurd (ground (arith, rw (unable, fingerprint_ed25519_b64) at h))
  ]

  module _ (marks : Marks) (fp : String) where
    fingerprinted_given :
        (o : Option String) → (fingerprinted host ev receipt o marks).0 ≡ some fp → o ≡ some fp
    fingerprinted_given none h = absurd (ground (arith, h))
    fingerprinted_given (some s) h = h

    by_resolved_right :
        (key_id : String) (key : Option String)
        → filled (signature_member "key_id" (fields_of p.body)) ≡ some key_id
        → host.resolve_key key_id ≡ key
        → (by_resolved host ev receipt key marks).0 ≡ some fp
        → fp ≡ p.fingerprint
    unfolding by_resolved fingerprint_ed25519_b64
    by_resolved_right key_id none n r h = absurd (ground (arith, h))
    by_resolved_right key_id (some key) n r h =
        resolver.producer_key_right key_id key fp n r
          (fingerprint_ed25519_b64-some key fp (fingerprinted_given _ h))

    by_did_web_right :
        (key_id : Option String) (algorithm : String)
        → filled (signature_member "key_id" (fields_of p.body)) ≡ key_id
        → (by_did_web host ev receipt key_id algorithm marks).0 ≡ some fp
        → fp ≡ p.fingerprint
    unfolding by_did_web
    by_did_web_right none algorithm n h = absurd (ground (arith, h))
    by_did_web_right (some key_id) algorithm n h =
        elim (Bool-cases (not (str_eq algorithm ed25519))) [
          | inl odd ↦
              some_text fp p.fingerprint (sym (rw odd at h) ∙ ap (λ x. some x) claimed-fingerprint)
          | inr even ↦ by_resolved_right key_id (host.resolve_key key_id) n refl (rw even at h)
        ]

    resolve_right :
        (resolve_producer_fingerprint host ev receipt p.body marks).0 ≡ some fp → fp ≡ p.fingerprint
    unfolding resolve_producer_fingerprint
    resolve_right h = elim (Bool-cases (starts_with (codes did_key_prefix) (codes ev.agent_id))) [
      | inl keyed ↦ elim (Bool-cases (verify_body_offline host.sdk (host.stringify p.body))) [
        | inl good ↦ some_text fp p.fingerprint (
            sym (rw (keyed, good, resolve_producer_fingerprint) at h)
            ∙ ap (λ x. some x) claimed-fingerprint)
        | inr bad ↦ absurd (ground (arith, rw (keyed, bad, resolve_producer_fingerprint) at h))
      ]
      | inr web ↦
          by_did_web_right (filled (signature_member "key_id" (fields_of p.body)))
            (or_default ed25519 (signature_member "algorithm" (fields_of p.body))) refl
            (rw (web, resolve_producer_fingerprint) at h)
    ]

  verify_body_offline-right :
      starts_with (codes did_key_prefix) (codes ev.agent_id) ≡ true
      → verify_body_offline host.sdk (host.stringify p.body) ≡ true
  unfolding verify_body_offline
  verify_body_offline-right keyed = elim sdk.offline_right [
    | inl web ↦ absurd (ground (arith, web, keyed))
    | inr (able, good) ↦ rw able good
  ]

  receipt_right_kind :
      (hash message : String)
      → filled (str_of (member "content_hash" (fields_of p.body))) ≡ some hash
      → host.sdk.verify_receipt
          (host.stringify receipt)
          (host.stringify p.body)
          p.key
          p.ctx_id
          hash
          p.fingerprint
        ≡ some message
      → classify_receipt_failure message ≢ receipt_dishonest
  receipt_right_kind hash message n h e = elim (sdk.receipt_right hash n) [
    | inl fine ↦ absurd (ground (arith, fine, h))
    | inr (m, said, kind) ↦
        let same = some_text m message (sym said ∙ h) in
        rejected_not_dishonest (sym kind ∙ ap (λ x. classify_receipt_failure x) same ∙ e)
  ]

  names_key : filled (signature_member "key_id" (fields_of receipt)) ≡ some p.key_id
  names_key = ap (λ o. filled o) honest.says_key ∙ filled_self p.key_id honest.key_is_named

  module _ (ctx_id : String) (body : Json) (found : filled ev.ctx_id ≡ some ctx_id)
      (served : IsServed host ev receipt ctx_id body) where
    same_ctx_id : ctx_id ≡ p.ctx_id
    same_ctx_id = relayed ev.ctx_id p.ctx_id ctx_id honest.relays_ctx_id found

    same_body : body ≡ p.body
    same_body = honest.serves body (subst (λ c. IsServed host ev receipt c body) same_ctx_id served)

    published-IsSound : IsSound host ev receipt p.ctx_id p.body
    published-IsSound = record {
      hash_accepted = λ hash n. sdk.hash_right hash n;
      offline_accepted = λ keyed. verify_body_offline-right keyed;
      receipt_accepted = λ key_id key hash fp message historical marks n r c f v.
          let same_key_id = some_text key_id p.key_id (sym n ∙ names_key) in
          let same_key =
            resolver.receipt_key_right key historical
              (ap host.resolve_receipt_key (sym same_key_id) ∙ r) in
          let same_fp = resolve_right marks fp f in
          receipt_right_kind hash message c (
            ap
              (λ k.
                host.sdk.verify_receipt (host.stringify receipt) (host.stringify p.body) k p.ctx_id
                  hash p.fingerprint)
              (sym same_key)
            ∙ ap
                (λ x.
                  host.sdk.verify_receipt (host.stringify receipt) (host.stringify p.body) key
                    p.ctx_id hash x)
                (sym same_fp)
            ∙ v);
    }

    served-IsSound : IsSound host ev receipt ctx_id body
    served-IsSound =
        subst (λ c. IsSound host ev receipt c body) (sym same_ctx_id)
          (subst (λ b. IsSound host ev receipt p.ctx_id b) (sym same_body) published-IsSound)

  pub honest-IsSpotless : IsSpotless host ev receipt
  honest-IsSpotless = record {
    faithful = honest-IsFaithful;
    key_id = p.key_id;
    names_key = names_key;
    own_key = honest.own_key;
    sound = λ c b n s. served-IsSound c b n s;
  }
