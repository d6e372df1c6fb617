-- ===== src/Audit/Receipt/Honest/Unflagged.antt =====
-- The whole verification of an honest registry's receipt keeps the flags as they are (src/audit/receipt-audit.service.ts).
use acdp_control_plane.Prelude.{
  ℕ, ◌≡◌, refl, ◌∙◌, ◌≤◌, ◌<◌, inl, inr, String, true, ◌||◌, Option, none, some, Bool-cases,
  Option-cases, ltb, leb, Json, null, bool, num, str, arr, obj, member,
}
use acdp_control_plane.Audit.Revocation.{str_of, fields_of}
use acdp_control_plane.Audit.Lineage.{object_of}
use acdp_control_plane.Audit.Receipt.{
  Marks, ContextEvent, ReceiptHost, filled, sdk_supports_receipts,
}
use acdp_control_plane.Audit.Receipt.CtxId.{is_canonical_ctx_id}
use acdp_control_plane.Audit.Receipt.Crypto.{
  Phase, not_run, resolve_producer_fingerprint, by_hash, by_body, by_value, by_response,
  context_url, by_base_url, by_ctx_id, verify_cryptographically, by_producer,
}
use acdp_control_plane.Audit.Receipt.Checked.Served.{in_range}
use acdp_control_plane.Audit.Receipt.Honest.{IsSound, IsSpotless}
use acdp_control_plane.Audit.Receipt.Honest.Phases.{Keeps, resolve-Keeps, by_producer-Keeps}

Keeps-trans : (m marks : Marks) (p : Phase) → m.flags ≡ marks.flags → Keeps m p → Keeps marks p
Keeps-trans m marks none e h = tt
Keeps-trans m marks (some (c, m')) e h = h ∙ e

module _ (host : ReceiptHost) (ev : ContextEvent) (receipt : Json)
    (honest : IsSpotless host ev receipt) where
  module _ (ctx_id : String) (marks : Marks) (names : filled ev.ctx_id ≡ some ctx_id) where
    by_hash-Keeps :
        (body : Json) (hash : Option String)
        → IsSound host ev receipt ctx_id body
        → filled (str_of (member "content_hash" (fields_of body))) ≡ hash
        → Keeps marks (by_hash host ev receipt ctx_id hash body marks)
    unfolding by_hash not_run
    by_hash-Keeps body none sound n = refl
    by_hash-Keeps body (some hash) sound n =
        let resolved = resolve_producer_fingerprint host ev receipt body marks in
        rw (sound.hash_accepted hash n) (
          Keeps-trans resolved.1 marks
            (by_producer host ev receipt ctx_id resolved (host.stringify body) hash)
            (resolve-Keeps host ev receipt honest ctx_id body sound hash n marks)
            (by_producer-Keeps host ev receipt honest ctx_id body sound hash n marks resolved.1
              resolved.0 refl))

    module _ (canonical : is_canonical_ctx_id ctx_id ≡ true) (stored : Option String)
        (enrolled : host.base_url ev.registry_authority ev.tenant_id ≡ some stored)
        (base_url : String) (at_url : filled stored ≡ some base_url) where
      module _ (status : ℕ) (text : String)
          (fetched : host.get (context_url host ev receipt ctx_id base_url) ≡ some (status, text))
          (success : (200 ≤ status) × (status < 300)) where
        by_body-Keeps :
            (value : Json)
            → host.parse_json text ≡ some value
            → (body : Option Json) → object_of (member "body" (fields_of value)) ≡ body
            → Keeps marks (by_body host ev receipt ctx_id body marks)
        unfolding by_body not_run context_url
        by_body-Keeps value parses none e = refl
        by_body-Keeps value parses (some body) e =
            by_hash-Keeps body _
              (honest.sound ctx_id body names record {
                stored = stored;
                base_url = base_url;
                enrolled = enrolled;
                at_url = at_url;
                text = text;
                full = value;
                status = status;
                canonical = canonical;
                fetched = fetched;
                success = success;
                parses = parses;
                has_body = e;
              })
              refl

        by_value-Keeps :
            (v : Option Json)
            → host.parse_json text ≡ v
            → Keeps marks (by_value host ev receipt ctx_id v marks)
        unfolding by_value not_run
        by_value-Keeps none p = refl
        by_value-Keeps (some null) p = refl
        by_value-Keeps (some (bool b)) p = by_body-Keeps (bool b) p _ refl
        by_value-Keeps (some (num b)) p = by_body-Keeps (num b) p _ refl
        by_value-Keeps (some (str b)) p = by_body-Keeps (str b) p _ refl
        by_value-Keeps (some (arr b)) p = by_body-Keeps (arr b) p _ refl
        by_value-Keeps (some (obj b)) p = by_body-Keeps (obj b) p _ refl

      by_response-Keeps :
          (response : Option (ℕ × String))
          → host.get (context_url host ev receipt ctx_id base_url) ≡ response
          → Keeps marks (by_response host ev receipt ctx_id response marks)
      unfolding by_response not_run
      by_response-Keeps none f = refl
      by_response-Keeps (some (status, text)) f =
          elim (Bool-cases (ltb status 200 || leb 300 status)) [
            | inl bad ↦ rw bad refl
            | inr good ↦
                rw good
                  (by_value-Keeps status text f (in_range status good) (host.parse_json text) refl)
          ]

    by_base_url-Keeps :
        (stored base_url : Option String)
        → host.base_url ev.registry_authority ev.tenant_id ≡ some stored
        → filled stored ≡ base_url
        → is_canonical_ctx_id ctx_id ≡ true
        → Keeps marks (by_base_url host ev receipt ctx_id base_url marks)
    unfolding by_base_url not_run
    by_base_url-Keeps stored none e u canonical = refl
    by_base_url-Keeps stored (some base_url) e u canonical =
        by_response-Keeps canonical stored e base_url u
          (host.get (context_url host ev receipt ctx_id base_url)) refl

  by_ctx_id-Keeps :
      (marks : Marks) (ctx_id : Option String)
      → filled ev.ctx_id ≡ ctx_id
      → Keeps marks (by_ctx_id host ev receipt ctx_id marks)
  unfolding by_ctx_id not_run
  by_ctx_id-Keeps marks none n = refl
  by_ctx_id-Keeps marks (some ctx_id) n = elim (Bool-cases (is_canonical_ctx_id ctx_id)) [
    | inr odd ↦ rw odd refl
    | inl canonical ↦ elim (Option-cases (host.base_url ev.registry_authority ev.tenant_id)) [
      | inl threw ↦ rw (canonical, threw) tt
      | inr (url, got) ↦
          rw (canonical, got) (by_base_url-Keeps ctx_id marks n url (filled url) got refl canonical)
    ]
  ]

  pub verify_cryptographically-Keeps :
      (marks : Marks) → Keeps marks (verify_cryptographically host ev receipt marks)
  unfolding verify_cryptographically not_run
  verify_cryptographically-Keeps marks = elim (Bool-cases (sdk_supports_receipts host.sdk)) [
    | inr lacks ↦ rw lacks refl
    | inl has ↦ rw has (by_ctx_id-Keeps marks (filled ev.ctx_id) refl)
  ]
