-- ===== src/Policy/Tests.antt =====
-- The deciders at concrete requests.
use acdp_control_plane.Prelude.{
  ℕ, ◌+◌, ◌<◌, ◌≡◌, ◌↔◌, refl, true, some, none, List, [], ◌∷◌, arith, sort_strings, join,
}
use acdp_control_plane.Prelude.OrderedMap.{lookup, insert}
use acdp_control_plane.Policy.{context_retrieve, restricted, PolicyRequest, allow, deny, scope}
use acdp_control_plane.Policy.Static
use acdp_control_plane.Policy.Static.{StaticRulesConfig, decide_visibility}
use acdp_control_plane.Policy.Static.Rules.{May, decide-eq-allow_iff}
use acdp_control_plane.Policy.Caching
use acdp_control_plane.Policy.Caching.{cache_key, begin, evict, finish, is_definite, new, size}
use acdp_control_plane.Policy.Caching.Staleness.{
  Event, began, finished, step, run, Given, cached_is_recent,
}
use acdp_control_plane.Policy.Caching.Keys.{with_scopes, decide_shared_key}

abbrev config : StaticRulesConfig
config = record { required_scopes = λ a. "read" ∷ []; resource_tenant_of = λ r. some "t1" }

abbrev request : PolicyRequest
request = record {
  subject_did = "did:web:a";
  action = context_retrieve;
  resource_id = "ctx";
  resource_visibility = some restricted;
  resource_audience = some ("did:web:b" ∷ "did:web:a" ∷ []);
  scopes = "read" ∷ "write" ∷ [];
  issuer = none;
  federated = none;
  tenant_id = some "t1";
}

static_tests :
    (Static.decide config request ≡ allow)
    × (Static.decide config (record request { scopes = [] }) ≡ deny scope)
unfolding Static.decide
static_tests = (refl, refl)

decide-eq-allow_iff_example : (Static.decide config request ≡ allow) ↔ May config request
decide-eq-allow_iff_example = decide-eq-allow_iff config request

-- Two calls for one key, the second within the TTL of the first.
abbrev past : List Event
past = finished "k" 100 allow ∷ began "k" 100 ∷ []

cached_hit : (begin "k" 105 (run past (new (some 10) none))).0 ≡ some allow
unfolding run step begin finish evict new lookup insert
cached_hit = refl

cached_is_recent_example :
    (is_definite allow ≡ true)
    × ((at : ℕ) × (105 < at + (new (some 10) none).ttl_ms) × Given past "k" at allow)
cached_is_recent_example = cached_is_recent past (some 10) none "k" 105 allow cached_hit

decide_shared_key_example :
    (Caching.decide
      (Static.decide config)
      (with_scopes request ("read,write" ∷ []))
      104
      (Caching.decide (Static.decide config) request 100 (new (some 10) none)).1).0
    ≡ allow
unfolding Static.decide cache_key join sort_strings
decide_shared_key_example =
    decide_shared_key (Static.decide config) request (with_scopes request ("read,write" ∷ [])) 100
      104 10 refl refl (omega arith)
