-- ===== src/Policy/Static.antt =====
-- src/policy/static-rules-policy.decider.ts.
pub mod Rules
use acdp_control_plane.Prelude.{
  String, List, [], ◌∷◌, Bool, true, false, Option, none, some, ◌&&◌, not, str_eq, str_mem, all,
  length, ◌==◌, if◌then◌else◌,
}
use acdp_control_plane.Policy.{
  PolicyAction, context_publish, context_retrieve, context_list, capability_declare, run_start,
  run_read, Visibility, public, restricted, private, PolicyRequest, PolicyDecision, allow, deny,
  PolicyDenyCode, truthy,
}

-- An absent member of `requiredScopes` is the empty list; an absent `resourceTenantOf` is none
-- everywhere.
pub record StaticRulesConfig : Type 0 where
  pub required_scopes : PolicyAction → List String
  pub resource_tenant_of : String → Option String

abbrev pub is_retrieve : PolicyAction → Bool
is_retrieve context_retrieve = true
is_retrieve _ = false

abbrev pub is_list : PolicyAction → Bool
is_list context_list = true
is_list _ = false

abbrev pub is_public : Option Visibility → Bool
is_public (some public) = true
is_public _ = false

-- `req.tenantId && resourceTenant && req.tenantId !== resourceTenant`
abbrev pub tenants_differ : Option String → Option String → Bool
tenants_differ (some t) (some r) = truthy (some t) && truthy (some r) && not (str_eq t r)
tenants_differ _ _ = false

-- The audience, where an absent one is empty.
abbrev pub audience_of : Option (List String) → List String
audience_of none = []
audience_of (some a) = a

-- Step 4, for an authenticated retrieve.
unfoldable pub decide_visibility : PolicyRequest → Option Visibility → PolicyDecision
decide_visibility req (some public) = allow
decide_visibility req (some private) = deny PolicyDenyCode.visibility
decide_visibility req (some restricted) =
    if length (audience_of req.resource_audience) == 0
    then deny PolicyDenyCode.audience
    else if not (str_mem req.subject_did (audience_of req.resource_audience))
    then deny PolicyDenyCode.audience
    else allow
decide_visibility req none = allow

unfoldable pub decide : StaticRulesConfig → PolicyRequest → PolicyDecision
unfolding decide_visibility
decide config req =
    if str_eq req.subject_did ""
    then (if is_retrieve req.action && is_public req.resource_visibility
        then allow
        else if is_list req.action
        then allow
        else deny PolicyDenyCode.unauthenticated)
    else if tenants_differ req.tenant_id (config.resource_tenant_of req.resource_id)
    then deny PolicyDenyCode.tenant_mismatch
    else if not (all (λ s. str_mem s req.scopes) (config.required_scopes req.action))
    then deny PolicyDenyCode.scope
    else if is_retrieve req.action
    then decide_visibility req req.resource_visibility
    else allow
