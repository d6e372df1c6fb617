-- ===== src/Policy/Caching.antt =====
-- src/policy/caching-policy.decider.ts. `decide` awaits the inner decider between its lookup and
-- its store, so that other calls may run there: the two halves are functions of their own, and a run
-- is a sequence of such halves.
pub mod Staleness
pub mod Keys
use acdp_control_plane.Prelude.{
  ℕ, suc, ◌+◌, String, List, [], ◌∷◌, Bool, true, false, Option, none, some, ltb, if◌then◌else◌,
  length, join, sort_strings,
}
use acdp_control_plane.Prelude.OrderedMap.{lookup, insert, remove}
use acdp_control_plane.Policy.{
  PolicyAction, context_publish, context_retrieve, context_list, capability_declare, run_start,
  run_read, Visibility, public, restricted, private, PolicyRequest, PolicyDecision, allow, deny,
  indeterminate,
}

pub record CacheEntry : Type 0 where
  pub decision : PolicyDecision
  pub expires_at : ℕ

pub record Decider : Type 0 where
  pub ttl_ms : ℕ
  pub max_entries : ℕ
  pub cache : List (String × CacheEntry)
  pub hits : ℕ
  pub misses : ℕ

-- `opts.ttlMs ?? 5_000` and `opts.maxEntries ?? 10_000`
unfoldable pub new : Option ℕ → Option ℕ → Decider
new ttl_ms max_entries = record {
  ttl_ms = elim ttl_ms [ none ↦ 5000 | some t ↦ t ];
  max_entries = elim max_entries [ none ↦ 10000 | some n ↦ n ];
  cache = [];
  hits = 0;
  misses = 0;
}

abbrev pub action_text : PolicyAction → String
action_text context_publish = "context.publish"
action_text context_retrieve = "context.retrieve"
action_text context_list = "context.list"
action_text capability_declare = "capability.declare"
action_text run_start = "run.start"
action_text run_read = "run.read"

abbrev pub visibility_text : Option Visibility → String
visibility_text none = ""
visibility_text (some public) = "public"
visibility_text (some restricted) = "restricted"
visibility_text (some private) = "private"

abbrev pub text_or_empty : Option String → String
text_or_empty none = ""
text_or_empty (some s) = s

abbrev pub audience_text : Option (List String) → String
audience_text none = ""
audience_text (some a) = join "," (sort_strings a)

abbrev pub federated_text : Option Bool → String
federated_text (some true) = "1"
federated_text _ = "0"

unfoldable pub cache_key : PolicyRequest → String
cache_key req = join ";" (
    req.subject_did
    ∷ action_text req.action
    ∷ req.resource_id
    ∷ visibility_text req.resource_visibility
    ∷ audience_text req.resource_audience
    ∷ join "," (sort_strings req.scopes)
    ∷ text_or_empty req.tenant_id
    ∷ text_or_empty req.issuer
    ∷ federated_text req.federated
    ∷ [])

-- `hit && hit.expiresAt > now`
abbrev pub live : Option CacheEntry → ℕ → Option CacheEntry
live none now = none
live (some e) now = if ltb now e.expires_at then some e else none

-- A hit moves its entry to the end.
refresh : Decider → String → Option CacheEntry → Option PolicyDecision × Decider
refresh d key none = (none, record d { misses = suc d.misses })
refresh d key (some e) =
    (some e.decision, record d { cache = insert key e (remove key d.cache); hits = suc d.hits })

-- The half of `decide` before the inner call: a decision on a hit, and none on a miss.
unfoldable pub begin : String → ℕ → Decider → Option PolicyDecision × Decider
unfolding refresh
begin key now d = refresh d key (live (lookup key d.cache) now)

-- `while (this.cache.size > this.maxEntries) { … delete(oldest) }`
unfoldable pub evict : ℕ → List (String × CacheEntry) → List (String × CacheEntry)
evict max_entries [] = []
evict max_entries (e ∷ m) =
    let rest = evict max_entries m in if ltb max_entries (length (e ∷ m)) then rest else e ∷ m

abbrev pub is_definite : PolicyDecision → Bool
is_definite indeterminate = false
is_definite _ = true

-- The half after it; `now` is the time that the first half has read.
unfoldable pub finish : String → ℕ → PolicyDecision → Decider → Decider
unfolding evict
finish key now decision d =
    if is_definite decision
    then record d {
      cache =
          evict d.max_entries
            (insert key (record { decision = decision; expires_at = now + d.ttl_ms }) d.cache);
    }
    else d

-- A call that nothing interrupts.
unfoldable pub decide :
    (PolicyRequest → PolicyDecision) → PolicyRequest → ℕ → Decider → PolicyDecision × Decider
decide inner req now d =
    let (found, d') = begin (cache_key req) now d in
    elim found [
      | some decision ↦ (decision, d')
      | none ↦ (inner req, finish (cache_key req) now (inner req) d')
    ]

unfoldable pub invalidate : PolicyRequest → Decider → Decider
invalidate req d = record d { cache = remove (cache_key req) d.cache }

unfoldable pub invalidate_all : Decider → Decider
invalidate_all d = record d { cache = [] }

unfoldable pub size : Decider → ℕ
size d = length d.cache
