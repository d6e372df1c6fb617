-- ===== src/Audit/Tests.antt =====
-- The walk of a lineage with two members, one of which is a revocation.
use acdp_control_plane.Prelude.{
  ◌≡◌, refl, String, List, [], ◌∷◌, true, Option, none, some, arith, All, any, length, Json, str,
  arr, obj, Items, nil, cons, end, field, items,
}
use acdp_control_plane.Audit.Revocation.{is_revocation_context_type, str_of, fields_of}
use acdp_control_plane.Audit.Lineage.{
  verified, responded, LineageWalkDeps, LineageWalkParams, LineageMember,
  LineageMemberVerdictCounts, walked, named, no_verdicts, object_of, raw_members, admit, verdict_on,
  member_of, counted, collect, walk_items, walk_value, walk_response, walk_url,
  walk_revocation_lineage,
}
use acdp_control_plane.Audit.Lineage.Collect.{
  candidates, total, verified_members, IsAvailable, tally,
}
use acdp_control_plane.Audit.Lineage.Walk.{Answers, walk_complete, walk_succeeds}

abbrev as_text : Json → String
as_text v = "{}"

abbrev encoded : String → String
encoded s = s

abbrev lineage : Items
lineage =
    cons
      (obj (
        field "body" (obj (field "ctx_id" (str "acdp://r/1") (field "type" (str "report") end)))
          end))
      (cons
        (obj (
          field "body"
            (obj (field "ctx_id" (str "acdp://r/2") (field "type" (str "key-revocation") end)))
            end))
        nil)

abbrev parsed_text : String → Option Json
parsed_text text = some (arr lineage)

abbrev deps : LineageWalkDeps
deps = record {
  get = λ url. responded 200 "[…]";
  verify_member_body =
      λ authority tenant text body. record { status = verified; reason = none; revocation = none };
}

abbrev params : LineageWalkParams
params = record {
  lineage_id = "l1";
  registry_authority = "r";
  base_url = "https://r/";
  tenant_id = "t1";
  expect_ctx_id = "acdp://r/2";
}

abbrev one_verified : LineageMemberVerdictCounts
one_verified = record { n_verified = 1; n_invalid = 0; n_unavailable = 0; n_unsupported = 0 }

abbrev second_member : List LineageMember
second_member =
    record {
      ctx_id = "acdp://r/2";
      context_type = "key-revocation";
      origin_authority = none;
      revocation = none;
    }
    ∷ []

lineage_walked :
    walk_revocation_lineage as_text deps params encoded parsed_text
    ≡ walked second_member one_verified
unfolding walk_revocation_lineage walk_response walk_value walk_items raw_members object_of collect
    admit verdict_on member_of counted str_of fields_of is_revocation_context_type walk_url
lineage_walked = refl

walk_complete_example :
    (raw : List Json) × Answers as_text deps params parsed_text
      (deps.get (walk_url as_text deps params encoded parsed_text))
      raw
    × (any (λ m. named params.expect_ctx_id m.ctx_id) (raw_members raw) ≡ true)
    × All (IsAvailable as_text deps params) (candidates (raw_members raw))
    × (second_member ≡ verified_members as_text deps params (candidates (raw_members raw)))
    × (one_verified.n_verified ≡ length second_member)
    × (total one_verified ≡ length (candidates (raw_members raw)))
walk_complete_example =
    walk_complete as_text deps params encoded parsed_text second_member one_verified lineage_walked

answered :
    Answers as_text deps params parsed_text
      (deps.get (walk_url as_text deps params encoded parsed_text))
      (items lineage)
answered = (200, "[…]", lineage, refl, omega arith, omega arith, refl, refl)

lineage_has_name :
    any (λ m. named params.expect_ctx_id m.ctx_id) (raw_members (items lineage)) ≡ true
unfolding raw_members object_of str_of fields_of
lineage_has_name = refl

lineage-IsAvailable :
    All (IsAvailable as_text deps params) (candidates (raw_members (items lineage)))
unfolding candidates raw_members object_of admit verdict_on str_of fields_of
    is_revocation_context_type
lineage-IsAvailable = (λ e. ground (arith, e), tt)

walk_succeeds_example :
    walk_revocation_lineage as_text deps params encoded parsed_text
    ≡ walked
        (verified_members as_text deps params (candidates (raw_members (items lineage))))
        (tally as_text deps params (candidates (raw_members (items lineage))) no_verdicts)
walk_succeeds_example =
    walk_succeeds as_text deps params encoded parsed_text (items lineage) answered lineage_has_name
      lineage-IsAvailable
