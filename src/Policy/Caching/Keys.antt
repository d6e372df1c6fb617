-- ===== src/Policy/Caching/Keys.antt =====
-- The cache key, and what two requests with one key share.
use Prim.Native.String
use acdp_control_plane.Prelude.{
  ℕ, ◌+◌, ◌<◌, ◌≡◌, refl, String, List, [], ◌∷◌, true, none, some, arith, lt→ltb, codes, codes_le,
  insert_sorted, sort_strings, join, eq_refl,
}
use acdp_control_plane.Prelude.OrderedMap.{lookup, insert}
use acdp_control_plane.Policy.{PolicyRequest, PolicyDecision, allow}
use acdp_control_plane.Policy.Caching.{Decider, cache_key, decide, begin, finish, evict, new}

-- The request with these scopes.
abbrev pub with_scopes : PolicyRequest → List String → PolicyRequest
with_scopes req scopes = record req { scopes = scopes }

joined_pair :
    (a b : String)
    → codes_le (codes a) (codes b) ≡ true
    → join "," (sort_strings (a ∷ b ∷ [])) ≡ String.◌++◌ a (String.◌++◌ "," b)
unfolding join sort_strings insert_sorted
joined_pair a b h = rw h

-- The members of the key are joined by separators that they may hold themselves: two scopes, in
-- their order, and the one scope that joins them by a comma have one key.
pub cache_key_comma :
    (req : PolicyRequest) (a b : String)
    → codes_le (codes a) (codes b) ≡ true
    → cache_key (with_scopes req (a ∷ b ∷ []))
      ≡ cache_key (with_scopes req (String.◌++◌ a (String.◌++◌ "," b) ∷ []))
unfolding cache_key
cache_key_comma req a b h = rw (joined_pair a b h) (unfold join sort_strings in refl)

-- The cache after one allowed request.
abbrev stored : String → ℕ → ℕ → Decider
stored key now ttl_ms = record {
  ttl_ms = ttl_ms;
  max_entries = 10000;
  cache = (key, record { decision = allow; expires_at = now + ttl_ms }) ∷ [];
  hits = 0;
  misses = 1;
}

decide-new :
    (inner : PolicyRequest → PolicyDecision) (req : PolicyRequest) (now ttl_ms : ℕ)
    → inner req ≡ allow
    → (decide inner req now (new (some ttl_ms) none)).1 ≡ stored (cache_key req) now ttl_ms
unfolding decide begin finish new evict lookup insert
decide-new inner req now ttl_ms permitted = rw permitted

decide-stored :
    (inner : PolicyRequest → PolicyDecision) (req : PolicyRequest) (now later ttl_ms : ℕ)
    → later < now + ttl_ms
    → (decide inner req later (stored (cache_key req) now ttl_ms)).0 ≡ allow
unfolding decide begin lookup
decide-stored inner req now later ttl_ms recent =
    ground (arith, eq_refl (cache_key req), lt→ltb later (now + ttl_ms) recent)

-- Within the TTL, a request gets the decision that the cache has just stored for another request
-- with its key, whatever the inner decider says of it.
pub decide_shared_key :
    (inner : PolicyRequest → PolicyDecision) (first second : PolicyRequest) (now later : ℕ)
    (ttl_ms : ℕ)
    → cache_key first ≡ cache_key second
    → inner first ≡ allow
    → later < now + ttl_ms
    → (decide inner second later (decide inner first now (new (some ttl_ms) none)).1).0 ≡ allow
decide_shared_key inner first second now later ttl_ms same permitted recent =
    rw (decide-new inner first now ttl_ms permitted, same)
      (decide-stored inner second now later ttl_ms recent)
