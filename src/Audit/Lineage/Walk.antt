-- ===== src/Audit/Lineage/Walk.antt =====
-- The walk gives every verified revocation of a lineage, or none at all.
use acdp_control_plane.Prelude.{
  ℕ, ◌≤◌, ◌<◌, ◌≡◌, refl, sym, ap, ◌∙◌, inl, inr, String, List, [], ◌∷◌, true, false, ◌||◌, Option,
  none, some, arith, All, any, length, leb, ltb, ◌==◌, Bool-cases, Json, null, bool, num, str, obj,
  arr, Items, items,
}
use acdp_control_plane.Audit.Lineage.{
  LineageMember, LineageWalkDeps, LineageWalkParams, LineageMemberVerdictCounts, no_verdicts,
  walked, named, raw_members, collect, walk_items, walk_url, walk_value, walk_response,
  walk_revocation_lineage, responded, threw_fetch, threw_other, Fetched,
}
use acdp_control_plane.Audit.Lineage.Collect.{
  candidates, total, verified_members, IsAvailable, tally, collect_available, collect_walked,
  verified-tally, total-tally, walked_injective, failed_not_walked,
}

module _ (stringify : Json → String) (deps : LineageWalkDeps) (params : LineageWalkParams) where
  items_walked :
      (raw : List Json) (members : List LineageMember) (n : LineageMemberVerdictCounts)
      → walk_items stringify deps params raw ≡ walked members n
      → (any (λ m. named params.expect_ctx_id m.ctx_id) (raw_members raw) ≡ true)
        × (collect stringify deps params (raw_members raw) no_verdicts [] ≡ walked members n)
  unfolding walk_items
  items_walked raw members n h = ground arith

  items_named :
      (raw : List Json)
      → any (λ m. named params.expect_ctx_id m.ctx_id) (raw_members raw) ≡ true
      → walk_items stringify deps params raw
        ≡ collect stringify deps params (raw_members raw) no_verdicts []
  unfolding walk_items raw_members
  items_named [] h = ground (arith, h)
  items_named (item ∷ raw) h =
      let more : (length (item ∷ raw) == 0) ≡ false = ground arith in rw (more, h, walk_items) refl

  -- What a response must be for the walk to look at its members `raw`.
  abbrev pub Answers : (String → Option Json) → Fetched → List Json → Type 0
  Answers parse_json fetched raw =
      (n : ℕ) × (text : String) × (vs : Items) × (fetched ≡ responded n text)
      × (200 ≤ n)
      × (n < 300)
      × (parse_json text ≡ some (arr vs))
      × (items vs ≡ raw)

  module _ (encode_uri_component : String → String) (parse_json : String → Option Json) where
    value_walked :
        (v : Option Json) (members : List LineageMember) (n : LineageMemberVerdictCounts)
        → walk_value stringify deps params encode_uri_component parse_json v ≡ walked members n
        → (vs : Items) × (v ≡ some (arr vs))
          × (walk_items stringify deps params (items vs) ≡ walked members n)
    unfolding walk_value
    value_walked (some (arr vs)) members n h = (vs, refl, h)
    value_walked none members n h = absurd (failed_not_walked h)
    value_walked (some null) members n h = absurd (failed_not_walked h)
    value_walked (some (bool b)) members n h = absurd (failed_not_walked h)
    value_walked (some (num x)) members n h = absurd (failed_not_walked h)
    value_walked (some (str s)) members n h = absurd (failed_not_walked h)
    value_walked (some (obj fs)) members n h = absurd (failed_not_walked h)

    value_read :
        (vs : Items)
        → walk_value stringify deps params encode_uri_component parse_json (some (arr vs))
          ≡ walk_items stringify deps params (items vs)
    unfolding walk_value
    value_read vs = refl

    response_read :
        (code : ℕ) (text : String)
        → 200 ≤ code
        → code < 300
        → walk_response stringify deps params encode_uri_component parse_json (responded code text)
          ≡ walk_value stringify deps params encode_uri_component parse_json (parse_json text)
    unfolding walk_response
    response_read code text low high = ground arith

    response_walked :
        (fetched : Fetched) (members : List LineageMember) (n : LineageMemberVerdictCounts)
        → walk_response stringify deps params encode_uri_component parse_json fetched
          ≡ walked members n
        → (raw : List Json) × Answers parse_json fetched raw
          × (walk_items stringify deps params raw ≡ walked members n)
    unfolding walk_response
    response_walked (responded code text) members n h =
        elim (Bool-cases (ltb code 200 || leb 300 code)) [
          | inl out ↦ absurd (failed_not_walked (rw (out, walk_response) at h))
          | inr fine ↦
              let (vs, parses, run) =
                value_walked (parse_json text) members n (rw (fine, walk_response) at h) in
              (
                items vs,
                (code, text, vs, refl, ground (arith, fine), ground (arith, fine), parses, refl),
                run,
              )
        ]
    response_walked (threw_fetch c) members n h = absurd (failed_not_walked h)
    response_walked threw_other members n h = absurd (failed_not_walked h)

    -- A walk that succeeds is of a response with a status from 200 to 299 that is a JSON array whose
    -- raw members include one with the expected id. None of the members to verify was unavailable,
    -- the result is those that were verified, in their order, the count of verified ones is its
    -- length, and the counts add up to the number of the members to verify.
    pub walk_complete :
        (members : List LineageMember) (n : LineageMemberVerdictCounts)
        → walk_revocation_lineage stringify deps params encode_uri_component parse_json
          ≡ walked members n
        → (raw : List Json) × Answers parse_json
            (deps.get (walk_url stringify deps params encode_uri_component parse_json))
            raw
          × (any (λ m. named params.expect_ctx_id m.ctx_id) (raw_members raw) ≡ true)
          × All (IsAvailable stringify deps params) (candidates (raw_members raw))
          × (members ≡ verified_members stringify deps params (candidates (raw_members raw)))
          × (n.n_verified ≡ length members)
          × (total n ≡ length (candidates (raw_members raw)))
    unfolding walk_revocation_lineage
    walk_complete members n h =
        let (raw, answers, run) = response_walked (deps.get _) members n h in
        let (naming, collected) = items_walked raw members n run in
        let available =
          collect_walked stringify deps params (raw_members raw) no_verdicts n [] members
            collected in
        let same =
          sym collected
          ∙ collect_available stringify deps params (raw_members raw) no_verdicts [] available in
        let (e_members, e_n) = walked_injective same in
        (
          raw,
          answers,
          naming,
          available,
          e_members,
          rw (e_n, e_members)
              (omega (
                arith,
                verified-tally stringify deps params (candidates (raw_members raw)) no_verdicts,
              )),
          rw e_n (
              omega (
                arith,
                total-tally stringify deps params (candidates (raw_members raw)) no_verdicts,
              )),
        )

    -- A walk succeeds when its response has a status from 200 to 299 and is a JSON array, one of the
    -- raw members has the expected id, and no member to verify is unavailable.
    pub walk_succeeds :
        (raw : List Json)
        → Answers parse_json
            (deps.get (walk_url stringify deps params encode_uri_component parse_json))
            raw
        → any (λ m. named params.expect_ctx_id m.ctx_id) (raw_members raw) ≡ true
        → All (IsAvailable stringify deps params) (candidates (raw_members raw))
        → walk_revocation_lineage stringify deps params encode_uri_component parse_json
          ≡ walked
              (verified_members stringify deps params (candidates (raw_members raw)))
              (tally stringify deps params (candidates (raw_members raw)) no_verdicts)
    unfolding walk_revocation_lineage
    walk_succeeds raw (code, text, vs, fetched, low, high, parses, same) naming available =
        ap (walk_response stringify deps params encode_uri_component parse_json) fetched
        ∙ response_read code text low high
        ∙ ap (walk_value stringify deps params encode_uri_component parse_json) parses
        ∙ value_read vs
        ∙ ap (walk_items stringify deps params) same
        ∙ items_named raw naming
        ∙ collect_available stringify deps params (raw_members raw) no_verdicts [] available
