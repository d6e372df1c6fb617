-- ===== src/Audit/Lineage.antt =====
-- src/audit/revocation-lineage.ts: the walk of a revocation's lineage at its registry. The federation
-- client, the verification of a member's body and the functions of the host are parameters; warnings
-- are left out, and of a failure's message only what tells the cases apart is kept.
pub mod Collect
pub mod Walk
use Prim.Native.String
use Prim.Native.Char.{code}
use acdp_control_plane.Prelude.{
  ℕ, suc, String, List, [], ◌∷◌, ◌++◌, Bool, true, false, ◌&&◌, ◌||◌, not, Option, none, some, ◌==◌,
  ltb, leb, str_eq, any, length, if◌then◌else◌, Json, arr, obj, Fields, member, items,
}
use acdp_control_plane.Audit.Revocation.{
  ParsedRevocation, is_revocation_context_type, str_of, fields_of,
}

pub data LineageFailureClass : Type 0 where
  transient permanent hard : LineageFailureClass

-- `FederationFetchError.code`
pub data FederationCode : Type 0 where
  fetch body_too_large ssrf redirect : FederationCode

-- `DidResolutionError.code`
pub data DidCode : Type 0 where
  did_fetch did_status did_body_too_large did_content_type did_url did_ssrf did_parse did_pick :
      DidCode

pub data FailureInput : Type 0 where
  of_status : ℕ → FailureInput
  of_federation : FederationCode → FailureInput
  of_did : DidCode → FailureInput

unfoldable pub classify_lineage_failure : FailureInput → LineageFailureClass
classify_lineage_failure (of_status n) =
    if n == 429 || n == 408 || leb 500 n && leb n 599 then transient else permanent
classify_lineage_failure (of_federation fetch) = transient
classify_lineage_failure (of_federation body_too_large) = hard
classify_lineage_failure (of_federation ssrf) = permanent
classify_lineage_failure (of_federation redirect) = permanent
classify_lineage_failure (of_did did_fetch) = transient
classify_lineage_failure (of_did did_status) = transient
classify_lineage_failure (of_did _) = permanent

pub record LineageMember : Type 0 where
  pub ctx_id : String
  pub context_type : String
  pub origin_authority : Option String
  pub revocation : Option ParsedRevocation

pub data VerdictStatus : Type 0 where
  verified invalid unavailable unsupported : VerdictStatus

pub record LineageMemberVerdict : Type 0 where
  pub status : VerdictStatus
  pub reason : Option String
  pub revocation : Option ParsedRevocation

-- What `federationClient.get` does: it answers, or throws a fetch error or any other.
pub data Fetched : Type 0 where
  responded : ℕ → String → Fetched
  threw_fetch : FederationCode → Fetched
  threw_other : Fetched

pub record LineageWalkDeps : Type 0 where
  pub get : String → Fetched
  pub verify_member_body : String → String → String → Json → LineageMemberVerdict

pub record LineageWalkParams : Type 0 where
  pub lineage_id : String
  pub registry_authority : String
  pub base_url : String
  pub tenant_id : String
  pub expect_ctx_id : String

pub record LineageMemberVerdictCounts : Type 0 where
  pub n_verified : ℕ
  pub n_invalid : ℕ
  pub n_unavailable : ℕ
  pub n_unsupported : ℕ

abbrev pub no_verdicts : LineageMemberVerdictCounts
no_verdicts = record { n_verified = 0; n_invalid = 0; n_unavailable = 0; n_unsupported = 0 }

-- `memberVerdictCounts[status] += 1`
unfoldable pub counted : VerdictStatus → LineageMemberVerdictCounts → LineageMemberVerdictCounts
counted verified n = record n { n_verified = suc n.n_verified }
counted invalid n = record n { n_invalid = suc n.n_invalid }
counted unavailable n = record n { n_unavailable = suc n.n_unavailable }
counted unsupported n = record n { n_unsupported = suc n.n_unsupported }

pub data WalkFailure : Type 0 where
  empty missing_named_ctx : WalkFailure
  failed_as : LineageFailureClass → WalkFailure

pub data LineageWalkOutcome : Type 0 where
  walked : List LineageMember → LineageMemberVerdictCounts → LineageWalkOutcome
  failed : WalkFailure → LineageMemberVerdictCounts → LineageWalkOutcome

-- `baseUrl.replace(/\/$/, '')`
unfoldable pub without_slash : String → String
without_slash String.[] = String.[]
without_slash (String.◌∷◌ c String.[]) = if code c == 47 then String.[] else String.◌∷◌ c String.[]
without_slash (String.◌∷◌ c (String.◌∷◌ d rest)) = String.◌∷◌ c (without_slash (String.◌∷◌ d rest))

pub record RawMember : Type 0 where
  pub body : Json
  pub ctx_id : Option String

-- A value whose `typeof` is 'object' and that is not null.
unfoldable pub object_of : Option Json → Option Json
object_of (some (obj fs)) = some (obj fs)
object_of (some (arr vs)) = some (arr vs)
object_of _ = none

-- The members of the response that have a body, the others skipped.
unfoldable pub raw_members : List Json → List RawMember
unfolding object_of fields_of str_of
raw_members [] = []
raw_members (item ∷ rest) = elim (object_of (member "body" (fields_of item))) [
  | none ↦ raw_members rest
  | some b ↦ record { body = b; ctx_id = str_of (member "ctx_id" (fields_of b)) } ∷ raw_members rest
]

abbrev pub named : String → Option String → Bool
named expected none = false
named expected (some id) = str_eq id expected

-- A member that the walk has verified: its id, its type and its body.
pub record Candidate : Type 0 where
  pub ctx_id : String
  pub context_type : String
  pub body : Json

abbrev id_kept : String → Json → Option String → Option Candidate
id_kept kind b none = none
id_kept kind b (some id) =
    if str_eq id "" then none else some (record { ctx_id = id; context_type = kind; body = b })

abbrev type_kept : RawMember → Option String → Option Candidate
type_kept m none = none
type_kept m (some kind) =
    if str_eq kind "" || not (is_revocation_context_type kind)
    then none
    else id_kept kind m.body m.ctx_id

-- The two tests before the verification; `none` is `continue`.
unfoldable pub admit : RawMember → Option Candidate
unfolding fields_of str_of
admit m = type_kept m (str_of (member "type" (fields_of m.body)))

module _ (stringify : Json → String) (deps : LineageWalkDeps) (params : LineageWalkParams) where
  unfoldable pub verdict_on : Candidate → LineageMemberVerdict
  verdict_on c =
      deps.verify_member_body params.registry_authority params.tenant_id (stringify c.body) c.body

  unfoldable pub member_of : Candidate → LineageMember
  unfolding verdict_on fields_of str_of
  member_of c = record {
    ctx_id = c.ctx_id;
    context_type = c.context_type;
    origin_authority = str_of (member "origin_registry" (fields_of c.body));
    revocation = (verdict_on c).revocation;
  }

  -- The loop over the raw members, with what it has counted and pushed.
  unfoldable pub collect :
      List RawMember → LineageMemberVerdictCounts → List LineageMember → LineageWalkOutcome
  unfolding counted verdict_on
  collect [] n members = walked members n
  collect (m ∷ ms) n members = elim (admit m) [
    | none ↦ collect ms n members
    | some c ↦ elim (verdict_on c).status [
      | unavailable ↦ failed (failed_as transient) (counted unavailable n)
      | invalid ↦ collect ms (counted invalid n) members
      | unsupported ↦ collect ms (counted unsupported n) members
      | verified ↦ collect ms (counted verified n) (members ++ member_of c ∷ [])
    ]
  ]

  -- What follows once the response is a JSON array.
  unfoldable pub walk_items : List Json → LineageWalkOutcome
  walk_items raw =
      if length raw == 0
      then failed empty no_verdicts
      else if not (any (λ m. named params.expect_ctx_id m.ctx_id) (raw_members raw))
      then failed missing_named_ctx no_verdicts
      else collect (raw_members raw) no_verdicts []

  module _ (encode_uri_component : String → String) (parse_json : String → Option Json) where
    unfoldable pub walk_url : String
    unfolding without_slash
    walk_url =
        String.◌++◌ (without_slash params.base_url)
          (String.◌++◌ "/lineages/" (encode_uri_component params.lineage_id))

    unfoldable pub walk_value : Option Json → LineageWalkOutcome
    walk_value (some (arr vs)) = walk_items (items vs)
    walk_value _ = failed (failed_as permanent) no_verdicts

    unfoldable pub walk_response : Fetched → LineageWalkOutcome
    unfolding classify_lineage_failure walk_value
    walk_response (threw_fetch c) =
        failed (failed_as (classify_lineage_failure (of_federation c))) no_verdicts
    walk_response threw_other = failed (failed_as transient) no_verdicts
    walk_response (responded n text) =
        if ltb n 200 || leb 300 n
        then failed (failed_as (classify_lineage_failure (of_status n))) no_verdicts
        else walk_value (parse_json text)

    unfoldable pub walk_revocation_lineage : LineageWalkOutcome
    unfolding walk_response walk_url
    walk_revocation_lineage = walk_response (deps.get walk_url)
