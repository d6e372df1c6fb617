-- ===== src/Quota.antt =====
-- Tenant quotas (src/quota): the limits, the in-memory counter and the check.
mod Tests
pub mod Windows
use acdp_control_plane.Prelude.{
  ℕ, suc, ◌+◌, ◌-◌, ◌*◌, ◌/◌, max, String, List, [], ◌∷◌, Bool, true, false, Option, none, some,
  ltb, leb, ◌==◌, if◌then◌else◌, join,
}
use acdp_control_plane.Prelude.OrderedMap.{lookup, insert}

pub data QuotaAction : Type 0 where
  publish run_start capability_declare token_issue : QuotaAction

abbrev pub action_text : QuotaAction → String
action_text publish = "publish"
action_text run_start = "run.start"
action_text capability_declare = "capability.declare"
action_text token_issue = "token.issue"

pub record QuotaLimit : Type 0 where
  pub count : ℕ
  pub window_seconds : ℕ

-- `byTenant`: tenant, then action or `*`, then limit.
pub record ParsedQuotaConfig : Type 0 where
  pub by_tenant : List (String × List (String × QuotaLimit))

-- `tenantLimits[action] ?? tenantLimits['*'] ?? null`
unfoldable pub resolve_limit : ParsedQuotaConfig → String → QuotaAction → Option QuotaLimit
resolve_limit config tenant_id action = elim (lookup tenant_id config.by_tenant) [
  | none ↦ none
  | some limits ↦ elim (lookup (action_text action) limits) [
    | some limit ↦ some limit
    | none ↦ lookup "*" limits
  ]
]

pub record QuotaIncrementResult : Type 0 where
  pub count : ℕ
  pub ttl_seconds : ℕ

-- `InMemoryQuotaStore`
pub record Bucket : Type 0 where
  pub count : ℕ
  pub expires_at : ℕ

abbrev pub Buckets : Type 0
Buckets = List (String × Bucket)

-- `Math.ceil((expiresAt - now) / 1000)`, where the bucket has not expired.
seconds_left : ℕ → ℕ → ℕ
seconds_left expires_at now = (expires_at - now + 999) / 1000

-- `!existing || existing.expiresAt <= now`
abbrev pub open_bucket : Option Bucket → ℕ → Option Bucket
open_bucket none now = none
open_bucket (some b) now = if leb b.expires_at now then none else some b

-- A fresh bucket, or one more in the open one.
count_in : String → ℕ → ℕ → Buckets → Option Bucket → QuotaIncrementResult × Buckets
unfolding seconds_left
count_in key window_seconds now buckets none = (
  record { count = 1; ttl_seconds = window_seconds },
  insert key (record { count = 1; expires_at = now + window_seconds * 1000 }) buckets,
)
count_in key window_seconds now buckets (some existing) = (
  record { count = suc existing.count; ttl_seconds = max 1 (seconds_left existing.expires_at now) },
  insert key (record existing { count = suc existing.count }) buckets,
)

unfoldable pub increment : String → ℕ → ℕ → Buckets → QuotaIncrementResult × Buckets
unfolding count_in
increment key window_seconds now buckets =
    count_in key window_seconds now buckets (open_bucket (lookup key buckets) now)

-- What `enforce` does: it returns, or it throws the 429 with this `Retry-After`.
pub data Verdict : Type 0 where
  proceed : Verdict
  too_many : (retry_after : ℕ) → Verdict

abbrev pub quota_key : String → QuotaAction → String
quota_key tenant_id action = join ":" ("acdp" ∷ "quota" ∷ tenant_id ∷ action_text action ∷ [])

-- The store, which is some state and its `increment`.
abbrev pub Store : Type 0 → Type 0
Store S = String → ℕ → S → QuotaIncrementResult × S

unfoldable pub check_count : QuotaLimit → QuotaIncrementResult → Verdict
check_count limit result =
    if result.count == 0
    then proceed
    else if ltb limit.count result.count
    then too_many (max 1 result.ttl_seconds)
    else proceed

charge : {S : Type 0} → Store S → String → QuotaAction → S → Option QuotaLimit → Verdict × S
charge increment tenant_id action s none = (proceed, s)
charge increment tenant_id action s (some limit) =
    let (result, s') = increment (quota_key tenant_id action) limit.window_seconds s in
    (check_count limit result, s')

-- `enforce`, without a configuration or a store, and with both.
unfoldable pub enforce :
    {S : Type 0}
    → Option ParsedQuotaConfig
    → Option (Store S)
    → String
    → QuotaAction
    → S
    → Verdict × S
unfolding charge
enforce none store tenant_id action s = (proceed, s)
enforce (some config) none tenant_id action s = (proceed, s)
enforce (some config) (some increment) tenant_id action s =
    charge increment tenant_id action s (resolve_limit config tenant_id action)
