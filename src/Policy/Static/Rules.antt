-- ===== src/Policy/Static/Rules.antt =====
-- When the static rules allow a request, stated as a policy of its own.
use acdp_control_plane.Prelude.{
  String, List, [], ◌∷◌, ◌≡◌, ◌≢◌, ◌⊎◌, ◌↔◌, inl, inr, refl, true, false, Option, none, some, arith,
  str_eq, eq_iff, str_mem, All, all, Bool-cases, length, ◌==◌,
}
use acdp_control_plane.Policy.{
  context_retrieve, context_list, public, restricted, PolicyRequest, allow, indeterminate,
}
use acdp_control_plane.Policy.Static.{
  StaticRulesConfig, decide, decide_visibility, audience_of, is_retrieve, tenants_differ,
}

abbrev Listed : String → List String → Type 0
Listed x [] = ⊥
Listed x (y ∷ ys) = (y ≡ x) ⊎ Listed x ys

-- The policy in words: what an anonymous and an authenticated caller may do.
abbrev pub AnonymousMay : PolicyRequest → Type 0
AnonymousMay req =
    ((req.action ≡ context_retrieve) × (req.resource_visibility ≡ some public))
    ⊎ (req.action ≡ context_list)

abbrev pub SameTenant : StaticRulesConfig → PolicyRequest → Type 0
SameTenant config req =
    (t r : String)
    → req.tenant_id ≡ some t
    → config.resource_tenant_of req.resource_id ≡ some r
    → (t ≡ "") ⊎ ((r ≡ "") ⊎ (t ≡ r))

abbrev pub MaySee : PolicyRequest → Type 0
MaySee req =
    (req.action ≢ context_retrieve)
    ⊎ ((req.resource_visibility ≡ none)
        ⊎ ((req.resource_visibility ≡ some public)
            ⊎ ((req.resource_visibility ≡ some restricted)
                × Listed req.subject_did (audience_of req.resource_audience))))

abbrev pub HasScopes : StaticRulesConfig → PolicyRequest → Type 0
HasScopes config req = All (λ s. Listed s req.scopes) (config.required_scopes req.action)

abbrev pub May : StaticRulesConfig → PolicyRequest → Type 0
May config req =
    ((req.subject_did ≡ "") × AnonymousMay req)
    ⊎ ((req.subject_did ≢ "") × SameTenant config req × HasScopes config req × MaySee req)

str_mem_sound : (x : String) (ys : List String) → str_mem x ys ≡ true → Listed x ys
str_mem_sound x [] h = cc
str_mem_sound x (y ∷ ys) h = ground (arith, eq_iff y x, str_mem_sound x ys)

str_mem_complete : (x : String) (ys : List String) → Listed x ys → str_mem x ys ≡ true
str_mem_complete x [] l = elim l [ ]
str_mem_complete x (y ∷ ys) (inl e) = ground (arith, eq_iff y x, e)
str_mem_complete x (y ∷ ys) (inr l) = ground (arith, str_mem_complete x ys l)

Listed-nonempty : (x : String) (ys : List String) → Listed x ys → (length ys == 0) ≡ false
Listed-nonempty x [] l = elim l [ ]
Listed-nonempty x (y ∷ ys) l = ground arith

scopes_sound :
    (have need : List String)
    → all (λ s. str_mem s have) need ≡ true
    → All (λ s. Listed s have) need
scopes_sound have [] h = tt
scopes_sound have (s ∷ need) h =
    (str_mem_sound s have (ground arith), scopes_sound have need (ground arith))

scopes_complete :
    (have need : List String)
    → All (λ s. Listed s have) need
    → all (λ s. str_mem s have) need ≡ true
scopes_complete have [] h = refl
scopes_complete have (s ∷ need) (p, h) =
    ground (arith, str_mem_complete s have p, scopes_complete have need h)

anonymous_sound :
    (config : StaticRulesConfig) (req : PolicyRequest)
    → req.subject_did ≡ ""
    → decide config req ≡ allow
    → AnonymousMay req
unfolding decide
anonymous_sound config req h e = ground (arith, eq_iff req.subject_did "")

anonymous_complete :
    (config : StaticRulesConfig) (req : PolicyRequest)
    → req.subject_did ≡ ""
    → AnonymousMay req
    → decide config req ≡ allow
unfolding decide
anonymous_complete config req h may = ground (arith, eq_iff req.subject_did "")

tenants_sound :
    (t r : Option String)
    → tenants_differ t r ≡ false
    → (a b : String) → t ≡ some a
    → r ≡ some b
    → (a ≡ "") ⊎ ((b ≡ "") ⊎ (a ≡ b))
tenants_sound t r h a b p q = ground (arith, eq_iff a "", eq_iff b "", eq_iff a b)

tenants_complete :
    (t r : Option String)
    → ((a b : String) → t ≡ some a → r ≡ some b → (a ≡ "") ⊎ ((b ≡ "") ⊎ (a ≡ b)))
    → tenants_differ t r ≡ false
tenants_complete none r h = refl
tenants_complete (some a) none h = refl
tenants_complete (some a) (some b) h =
    let either = h a b refl refl in ground (arith, eq_iff a "", eq_iff b "", eq_iff a b, either)

visibility_sound :
    (req : PolicyRequest) → decide_visibility req req.resource_visibility ≡ allow → MaySee req
unfolding decide_visibility
visibility_sound req h =
    ground (arith, str_mem_sound req.subject_did (audience_of req.resource_audience))

visibility_complete :
    (req : PolicyRequest)
    → req.action ≡ context_retrieve
    → MaySee req
    → decide_visibility req req.resource_visibility ≡ allow
unfolding decide_visibility
visibility_complete req r (inl other) = absurd (other r)
visibility_complete req r (inr (inl e)) = rw e
visibility_complete req r (inr (inr (inl e))) = rw e
visibility_complete req r (inr (inr (inr (e, l)))) =
    rw (e, Listed-nonempty _ _ l, str_mem_complete req.subject_did _ l)

authenticated_sound :
    (config : StaticRulesConfig) (req : PolicyRequest)
    → req.subject_did ≢ ""
    → decide config req ≡ allow
    → SameTenant config req × HasScopes config req × MaySee req
unfolding decide
authenticated_sound config req h e =
    let known : str_eq req.subject_did "" ≡ false = ground (arith, eq_iff req.subject_did "") in
    let tenants : tenants_differ req.tenant_id (config.resource_tenant_of req.resource_id) ≡ false =
      ground (arith, known) in
    let scoped : all (λ s. str_mem s req.scopes) (config.required_scopes req.action) ≡ true =
      ground (arith, known, tenants) in
    (
      tenants_sound req.tenant_id (config.resource_tenant_of req.resource_id) tenants,
      scopes_sound req.scopes (config.required_scopes req.action) scoped,
      elim (Bool-cases (is_retrieve req.action)) [
        | inl retrieve ↦ visibility_sound req (ground (arith, known, tenants, scoped, retrieve))
        | inr other ↦ inl (ground (arith, other))
      ],
    )

authenticated_complete :
    (config : StaticRulesConfig) (req : PolicyRequest)
    → req.subject_did ≢ ""
    → SameTenant config req
    → HasScopes config req
    → MaySee req
    → decide config req ≡ allow
unfolding decide
authenticated_complete config req h same scoped may =
    let known : str_eq req.subject_did "" ≡ false = ground (arith, eq_iff req.subject_did "") in
    let tenants = tenants_complete req.tenant_id (config.resource_tenant_of req.resource_id) same in
    let have = scopes_complete req.scopes (config.required_scopes req.action) scoped in
    rw (known, tenants, have)
      (elim (Bool-cases (is_retrieve req.action)) [
        | inl retrieve ↦ rw retrieve (visibility_complete req (ground (arith, retrieve)) may)
        | inr other ↦ rw other
      ])

-- The static rules allow a request exactly when an anonymous caller retrieves a public resource or
-- lists, or an authenticated one is in no other tenant than the resource, has every scope that the
-- action requires, and, when it retrieves, the resource's visibility is not yet known, or public,
-- or restricted to an audience that lists the caller.
pub decide-eq-allow_iff :
    (config : StaticRulesConfig) (req : PolicyRequest)
    → (decide config req ≡ allow) ↔ May config req
decide-eq-allow_iff config req = elim (Bool-cases (str_eq req.subject_did "")) [
  | inl anonymous ↦
      let nobody = (eq_iff req.subject_did "").0 anonymous in
      (
        λ e. inl (nobody, anonymous_sound config req nobody e),
        λ may. elim may [
          | inl (_, m) ↦ anonymous_complete config req nobody m
          | inr (some_one, _, _, _) ↦ absurd (some_one nobody)
        ],
      )
  | inr known ↦
      let some_one : req.subject_did ≢ "" = ground (arith, eq_iff req.subject_did "") in
      (
        λ e.
            let (same, scoped, see) = authenticated_sound config req some_one e in
            inr (some_one, same, scoped, see),
        λ may. elim may [
          | inl (nobody, _) ↦ absurd (some_one nobody)
          | inr (_, same, scoped, see) ↦ authenticated_complete config req some_one same scoped see
        ],
      )
]

decide-ne-indeterminate :
    (config : StaticRulesConfig) (req : PolicyRequest) → decide config req ≢ indeterminate
unfolding decide
decide-ne-indeterminate config req h = ground arith
