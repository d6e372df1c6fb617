-- ===== src/Audit/Receipt/Checked/Served.antt =====
-- What a run of the receipt's verification that ends has fetched (src/audit/receipt-audit.service.ts).
use acdp_control_plane.Prelude.{
  ℕ, ◌≡◌, refl, ◌≤◌, ◌<◌, String, [], Bool, true, false, ◌||◌, not, Option, none, some, arith, ltb,
  leb, Json, null, bool, num, str, arr, obj, member,
}
use acdp_control_plane.Auth.Federation.Signed.{and_then-some}
use acdp_control_plane.Audit.Revocation.{str_of, fields_of}
use acdp_control_plane.Audit.Lineage.{object_of}
use acdp_control_plane.Audit.Receipt.{Marks, ContextEvent, ReceiptHost, filled}
use acdp_control_plane.Audit.Receipt.CtxId.{is_canonical_ctx_id}
use acdp_control_plane.Audit.Receipt.Crypto.{
  CryptoOutcome, by_hash, by_body, by_value, by_response, context_url, by_base_url, by_ctx_id,
  verify_cryptographically,
}
use acdp_control_plane.Audit.Receipt.Checked.{IsServed, IsProven}
use acdp_control_plane.Audit.Receipt.Checked.Phases.{stopped, past, through, by_producer-IsSigned}
use acdp_control_plane.Audit.Receipt.Checked.Producer.{resolve-IsProducer}

pub in_range :
    (status : ℕ) → (ltb status 200 || leb 300 status) ≡ false → (200 ≤ status) × (status < 300)
in_range status h = ground (arith, h)

unnegated : (b : Bool) → not b ≡ false → b ≡ true
unnegated b h = ground (arith, h)

module _ (host : ReceiptHost) (ev : ContextEvent) (receipt : Json) (c : CryptoOutcome) (m : Marks)
    (ran : c.ran ≡ true) (clean : m.notes ≡ []) where
  module _ (ctx_id : String) (marks : Marks) where
    by_hash-IsProven :
        (hash : Option String) (body : Json)
        → filled (str_of (member "content_hash" (fields_of body))) ≡ hash
        → by_hash host ev receipt ctx_id hash body marks ≡ some (c, m)
        → IsProven host ev receipt ctx_id body c.historical × (marks ≡ m)
    unfolding by_hash
    by_hash-IsProven none body n h = stopped c m ran _ _ h
    by_hash-IsProven (some hash) body n h =
        let (ok, rest) = through c m ran _ _ _ _ h in
        let (fp, signed, produced) =
          by_producer-IsSigned host ev receipt c m ran ctx_id _ (host.stringify body) hash rest in
        let (producer, kept) = resolve-IsProducer host ev receipt body m fp clean marks produced in
        (
          record {
            hash = hash;
            fp = fp;
            names_hash = n;
            hash_accepted = ok;
            producer = producer;
            signed = signed;
          },
          kept,
        )

    abbrev Outcome : Type 0
    Outcome =
        (body : Json) × IsServed host ev receipt ctx_id body
        × IsProven host ev receipt ctx_id body c.historical
        × (marks ≡ m)

    module _ (canonical : is_canonical_ctx_id ctx_id ≡ true) (stored : Option String)
        (enrolled : host.base_url ev.registry_authority ev.tenant_id ≡ some stored)
        (base_url : String) (at_url : filled stored ≡ some base_url) where
      module _ (status : ℕ) (text : String)
          (fetched : host.get (context_url host ev receipt ctx_id base_url) ≡ some (status, text))
          (success : (200 ≤ status) × (status < 300)) where
        served_body :
            (value : Json)
            → host.parse_json text ≡ some value
            → (b : Option Json) → object_of (member "body" (fields_of value)) ≡ b
            → by_body host ev receipt ctx_id b marks ≡ some (c, m)
            → Outcome
        unfolding by_body context_url
        served_body value parses none e h = stopped c m ran _ _ h
        served_body value parses (some body) e h =
            let (proven, kept) = by_hash-IsProven _ body refl h in
            (
              body,
              record {
                stored = stored;
                base_url = base_url;
                enrolled = enrolled;
                at_url = at_url;
                text = text;
                full = value;
                status = status;
                canonical = canonical;
                fetched = fetched;
                success = success;
                parses = parses;
                has_body = e;
              },
              proven,
              kept,
            )

        by_parsed :
            (value : Json)
            → host.parse_json text ≡ some value
            → by_body host ev receipt ctx_id (object_of (member "body" (fields_of value))) marks
              ≡ some (c, m)
            → Outcome
        by_parsed value parses h = served_body value parses _ refl h

        by_value-Outcome :
            (v : Option Json)
            → host.parse_json text ≡ v
            → by_value host ev receipt ctx_id v marks ≡ some (c, m)
            → Outcome
        unfolding by_value
        by_value-Outcome none p h = stopped c m ran _ _ h
        by_value-Outcome (some null) p h = stopped c m ran _ _ h
        by_value-Outcome (some (bool b)) p h = by_parsed _ p h
        by_value-Outcome (some (num b)) p h = by_parsed _ p h
        by_value-Outcome (some (str b)) p h = by_parsed _ p h
        by_value-Outcome (some (arr b)) p h = by_parsed _ p h
        by_value-Outcome (some (obj b)) p h = by_parsed _ p h

      by_response-Outcome :
          (response : Option (ℕ × String))
          → host.get (context_url host ev receipt ctx_id base_url) ≡ response
          → by_response host ev receipt ctx_id response marks ≡ some (c, m)
          → Outcome
      unfolding by_response
      by_response-Outcome none f h = stopped c m ran _ _ h
      by_response-Outcome (some (status, text)) f h =
          let (within, rest) = past c m ran _ _ _ _ h in
          by_value-Outcome status text f (in_range status within) _ refl rest

    by_base_url-Outcome :
        (stored base_url : Option String)
        → host.base_url ev.registry_authority ev.tenant_id ≡ some stored
        → filled stored ≡ base_url
        → is_canonical_ctx_id ctx_id ≡ true
        → by_base_url host ev receipt ctx_id base_url marks ≡ some (c, m)
        → Outcome
    unfolding by_base_url
    by_base_url-Outcome stored none e u canonical h = stopped c m ran _ _ h
    by_base_url-Outcome stored (some base_url) e u canonical h =
        by_response-Outcome canonical stored e base_url u _ refl h

  by_ctx_id-Outcome :
      (ctx_id : Option String) (marks : Marks)
      → by_ctx_id host ev receipt ctx_id marks ≡ some (c, m)
      → (i : String) × (ctx_id ≡ some i) × Outcome i marks
  unfolding by_ctx_id
  by_ctx_id-Outcome none marks h = stopped c m ran _ _ h
  by_ctx_id-Outcome (some ctx_id) marks h =
      let (canonical, rest) = past c m ran _ _ _ _ h in
      let (url, enrolled, fetching) =
        and_then-some (host.base_url ev.registry_authority ev.tenant_id) _ _ rest in
      (
        ctx_id,
        refl,
        by_base_url-Outcome ctx_id marks url (filled url) enrolled refl (unnegated _ canonical)
            fetching,
      )

  pub verify_cryptographically-Outcome :
      (marks : Marks)
      → verify_cryptographically host ev receipt marks ≡ some (c, m)
      → (i : String) × (filled ev.ctx_id ≡ some i) × Outcome i marks
  unfolding verify_cryptographically
  verify_cryptographically-Outcome marks h =
      let (_, rest) = past c m ran _ _ _ _ h in by_ctx_id-Outcome _ marks rest
