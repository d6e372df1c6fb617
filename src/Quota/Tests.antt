-- ===== src/Quota/Tests.antt =====
-- The quota check at a concrete configuration.
use acdp_control_plane.Prelude.{◌+◌, ◌≤◌, ◌≡◌, ◌↔◌, refl, List, [], ◌∷◌, arith}
use acdp_control_plane.Prelude.OrderedMap.{lookup}
use acdp_control_plane.Quota.{
  publish, QuotaLimit, ParsedQuotaConfig, resolve_limit, Buckets, proceed, quota_key,
}
use acdp_control_plane.Quota.Windows.{Call, run, calls_of, enforce_at, enforce_exact}

abbrev one_per_minute : QuotaLimit
one_per_minute = record { count = 1; window_seconds = 60 }

abbrev config : ParsedQuotaConfig
config = record { by_tenant = ("a", ("publish", one_per_minute) ∷ []) ∷ [] }

abbrev past : List Call
past = record { key = "acdp:quota:b:publish"; window_seconds = 60; now = 2000 } ∷ []

enforce_exact_example :
    ((enforce_at config "a" publish 3000 (run past (enforce_at config "a" publish 1000 []).1)).0
      ≡ proceed)
    ↔ (calls_of (quota_key "a" publish) past + 2 ≤ 1)
unfolding resolve_limit lookup
enforce_exact_example =
    enforce_exact config "a" publish one_per_minute 1000 3000 past [] refl refl (omega arith)
      (omega arith)

abbrev used : Buckets
used = ("acdp:quota:a:publish", record { count = 1; expires_at = 61000 }) ∷ []
