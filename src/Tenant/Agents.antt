-- ===== src/Tenant/Agents.antt =====
-- src/tenant/tenant-agents.ts: which tenant an agent belongs to. A thrown configuration error is `none`.
use acdp_control_plane.Prelude.{
  ◌≡◌, refl, ◌∙◌, String, List, [], ◌∷◌, map, Bool, false, ◌||◌, not, Option, none, some, arith,
  str_eq, eq_iff, eq_refl, trim, split_on, cut, All, if◌then◌else◌, Bool-cases, inl, inr, ◌↔◌,
}
use acdp_control_plane.Prelude.OrderedMap.{lookup, insert, lookup-insert}

abbrev pub default_tenant_id : String
default_tenant_id = "default"

pub record AgentTenantBinding : Type 0 where
  pub tenant_id : String
  pub agent_did : String

-- `filter(Boolean)`
unfoldable pub non_empty : List String → List String
non_empty [] = []
non_empty (s ∷ ss) = let rest = non_empty ss in if str_eq s "" then rest else s ∷ rest

-- `tenant_id:agent_did`, cut at the first colon, with neither part empty.
unfoldable pub binding_of : String → Option AgentTenantBinding
binding_of entry = elim (cut 58 entry) [
  | none ↦ none
  | some (tenant, agent) ↦
      if str_eq tenant "" || str_eq agent ""
      then none
      else some (record { tenant_id = tenant; agent_did = agent })
]

unfoldable pub bindings_of : List String → Option (List AgentTenantBinding)
unfolding binding_of
bindings_of [] = some []
bindings_of (entry ∷ entries) = elim (binding_of entry) [
  | none ↦ none
  | some b ↦ elim (bindings_of entries) [ none ↦ none | some bs ↦ some (b ∷ bs) ]
]

unfoldable pub parse_tenant_agents : String → Option (List AgentTenantBinding)
unfolding bindings_of non_empty
parse_tenant_agents raw =
    if str_eq (trim raw) "" then some [] else bindings_of (non_empty (map trim (split_on 44 raw)))

-- `out.has(did) && out.get(did) !== tenant`
abbrev pub conflicts : AgentTenantBinding → Option String → Bool
conflicts b none = false
conflicts b (some tenant) = not (str_eq tenant b.tenant_id)

unfoldable pub build_from :
    List AgentTenantBinding → List (String × String) → Option (List (String × String))
build_from [] out = some out
build_from (b ∷ bs) out =
    let rest = build_from bs (insert b.agent_did b.tenant_id out) in
    if conflicts b (lookup b.agent_did out) then none else rest

unfoldable pub build_agent_tenant_lookup : List AgentTenantBinding → Option (List (String × String))
unfolding build_from
build_agent_tenant_lookup bindings = build_from bindings []

unfoldable pub tenant_for_agent : List (String × String) → String → String
tenant_for_agent known agent = elim (lookup agent known) [
  | none ↦ default_tenant_id
  | some tenant ↦ tenant
]

-- What is known of an agent stays.
insert_keeps :
    (b : AgentTenantBinding) (out : List (String × String)) (agent tenant : String)
    → conflicts b (lookup b.agent_did out) ≡ false
    → lookup agent out ≡ some tenant
    → lookup agent (insert b.agent_did b.tenant_id out) ≡ some tenant
insert_keeps b out agent tenant fine h =
    lookup-insert b.agent_did agent b.tenant_id out
    ∙ ground (arith, fine, h, eq_iff b.agent_did agent, eq_iff tenant b.tenant_id)

build_keeps :
    (bs : List AgentTenantBinding) (out made : List (String × String)) (agent tenant : String)
    → lookup agent out ≡ some tenant
    → build_from bs out ≡ some made
    → lookup agent made ≡ some tenant
unfolding build_from
build_keeps [] out made agent tenant h e = ground (arith, h, e)
build_keeps (b ∷ bs) out made agent tenant h e =
    elim (Bool-cases (conflicts b (lookup b.agent_did out))) [
      | inl clash ↦ absurd (ground (arith, clash, e))
      | inr fine ↦
          build_keeps bs (insert b.agent_did b.tenant_id out) made agent tenant
            (insert_keeps b out agent tenant fine h) (ground (arith, fine, e))
    ]

build_honours :
    (bs : List AgentTenantBinding) (out made : List (String × String))
    → build_from bs out ≡ some made
    → All (λ b. tenant_for_agent made b.agent_did ≡ b.tenant_id) bs
unfolding build_from tenant_for_agent
build_honours [] out made e = tt
build_honours (b ∷ bs) out made e = elim (Bool-cases (conflicts b (lookup b.agent_did out))) [
  | inl clash ↦ absurd (ground (arith, clash, e))
  | inr fine ↦
      let rest : build_from bs (insert b.agent_did b.tenant_id out) ≡ some made =
        ground (arith, fine, e) in
      let kept : lookup b.agent_did made ≡ some b.tenant_id =
        build_keeps bs (insert b.agent_did b.tenant_id out) made b.agent_did b.tenant_id
          (lookup-insert b.agent_did b.agent_did b.tenant_id out
            ∙ ground (arith, eq_refl b.agent_did))
          rest in
      (ground (arith, kept), build_honours bs (insert b.agent_did b.tenant_id out) made rest)
]

-- What the map knows agrees with the function.
Agrees : (String → String) → List (String × String) → Type 0
Agrees t out = (agent tenant : String) → lookup agent out ≡ some tenant → tenant ≡ t agent

nil-Agrees : (t : String → String) → Agrees t []
unfolding Agrees lookup
nil-Agrees t agent tenant h = absurd (ground (arith, h))

insert-Agrees :
    (t : String → String) (b : AgentTenantBinding) (out : List (String × String))
    → t b.agent_did ≡ b.tenant_id
    → Agrees t out
    → Agrees t (insert b.agent_did b.tenant_id out)
unfolding Agrees
insert-Agrees t b out own h agent tenant found = ground (
  arith,
  h agent tenant,
  own,
  eq_iff b.agent_did agent,
  found,
  lookup-insert b.agent_did agent b.tenant_id out,
)

no_conflict :
    (t : String → String) (b : AgentTenantBinding) (found : Option String)
    → t b.agent_did ≡ b.tenant_id
    → ((tenant : String) → found ≡ some tenant → tenant ≡ t b.agent_did)
    → conflicts b found ≡ false
no_conflict t b none own h = refl
no_conflict t b (some tenant) own h = ground (arith, h tenant refl, own, eq_iff tenant b.tenant_id)

build_succeeds :
    (t : String → String) (bs : List AgentTenantBinding) (out : List (String × String))
    → All (λ b. t b.agent_did ≡ b.tenant_id) bs
    → Agrees t out
    → (made : List (String × String)) × (build_from bs out ≡ some made)
unfolding build_from Agrees
build_succeeds t [] out all agrees = (out, refl)
build_succeeds t (b ∷ bs) out (own, all) agrees =
    let fine : conflicts b (lookup b.agent_did out) ≡ false =
      no_conflict t b (lookup b.agent_did out) own (agrees b.agent_did) in
    rw (fine, build_from)
      (build_succeeds t bs (insert b.agent_did b.tenant_id out) all
        (insert-Agrees t b out own agrees))

-- A lookup that honours every binding is built exactly when some assignment of tenants to agents
-- agrees with every binding.
pub build_agent_tenant_lookup_iff :
    (bs : List AgentTenantBinding)
    → ((made : List (String × String)) × (build_agent_tenant_lookup bs ≡ some made)
        × All (λ b. tenant_for_agent made b.agent_did ≡ b.tenant_id) bs)
      ↔ ((t : String → String) × All (λ b. t b.agent_did ≡ b.tenant_id) bs)
unfolding build_agent_tenant_lookup
build_agent_tenant_lookup_iff bs = (
  λ (made, e, all). (tenant_for_agent made, all),
  λ (t, all).
      let (made, e) = build_succeeds t bs [] all (nil-Agrees t) in
      (made, e, build_honours bs [] made e),
)
