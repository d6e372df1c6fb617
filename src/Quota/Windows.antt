-- ===== src/Quota/Windows.antt =====
-- The fixed windows of the quota check, over the in-memory store and calls of any keys.
use acdp_control_plane.Prelude.{
  ℕ, suc, ◌+◌, ◌-◌, ◌*◌, ◌/◌, max, ◌≤◌, ◌<◌, ◌≡◌, refl, ap, sym, ◌∙◌, ◌↔◌, inl, inr, String, List,
  [], ◌∷◌, false, none, some, arith, leb, if◌then◌else◌, str_eq, eq_iff, eq_refl, All, Bool-cases,
  Option-cases, subst,
}
use acdp_control_plane.Prelude.OrderedMap.{lookup, lookup-insert}
use acdp_control_plane.Quota.{
  QuotaAction, QuotaLimit, ParsedQuotaConfig, resolve_limit, QuotaIncrementResult, Bucket, Buckets,
  open_bucket, increment, Verdict, proceed, too_many, quota_key, check_count, enforce, seconds_left,
}

-- One call of `increment`.
pub record Call : Type 0 where
  pub key : String
  pub window_seconds : ℕ
  pub now : ℕ

-- The buckets after some calls, the latest first.
pub run : List Call → Buckets → Buckets
run [] buckets = buckets
run (c ∷ past) buckets = (increment c.key c.window_seconds c.now (run past buckets)).1

pub calls_of : String → List Call → ℕ
calls_of key [] = 0
calls_of key (c ∷ past) = calls_of key past + (if str_eq c.key key then 1 else 0)

abbrev pub Before : ℕ → List Call → Type 0
Before at past = All (λ (c : Call). c.now < at) past

abbrev counted : Bucket → ℕ → Bucket
counted b n = record b { count = b.count + n }

increment_other :
    (key other : String) (window now : ℕ) (buckets : Buckets)
    → str_eq other key ≡ false
    → lookup key (increment other window now buckets).1 ≡ lookup key buckets
unfolding increment
increment_other key other window now buckets h =
    elim (Option-cases (open_bucket (lookup other buckets) now)) [
      | inl shut ↦ rw shut (simp lookup-insert (rw h))
      | inr (b, found) ↦ rw found (simp lookup-insert (rw h))
    ]

increment_shut :
    (key : String) (window now : ℕ) (buckets : Buckets)
    → open_bucket (lookup key buckets) now ≡ none
    → lookup key (increment key window now buckets).1
      ≡ some (record { count = 1; expires_at = now + window * 1000 })
unfolding increment
increment_shut key window now buckets shut = rw shut (simp (lookup-insert, eq_refl))

increment_open :
    (key : String) (window now : ℕ) (buckets : Buckets) (b : Bucket)
    → lookup key buckets ≡ some b
    → now < b.expires_at
    → ((increment key window now buckets).0.count ≡ suc b.count)
      × (lookup key (increment key window now buckets).1 ≡ some (record b { count = suc b.count }))
unfolding increment
increment_open key window now buckets b found fresh =
    let alive : leb b.expires_at now ≡ false = ground arith in
    (rw (found, alive), rw (found, alive) (simp (lookup-insert, eq_refl)))

counted_zero : (b : Bucket) → b ≡ counted b 0
counted_zero b = ground arith

counted-suc : (b : Bucket) (n : ℕ) → record b { count = suc (b.count + n) } ≡ counted b (n + 1)
counted-suc b n = ground arith

counted_more : (b : Bucket) (n : ℕ) → counted b n ≡ counted b (n + 0)
counted_more b n = ground arith

-- In an open window each call of the key counts one more, and calls of other keys do nothing.
window_counts :
    (key : String) (buckets : Buckets) (b : Bucket) (past : List Call)
    → lookup key buckets ≡ some b
    → Before b.expires_at past
    → lookup key (run past buckets) ≡ some (counted b (calls_of key past))
unfolding run calls_of
window_counts key buckets b [] found h = rw found (ap some (counted_zero b))
window_counts key buckets b (c ∷ past) found (early, h) =
    let ih = window_counts key buckets b past found h in
    elim (Bool-cases (str_eq c.key key)) [
      | inl same ↦
          let at = (eq_iff c.key key).0 same in
          rw same (
            subst
              (λ k.
                lookup key (increment k c.window_seconds c.now (run past buckets)).1
                ≡ some (counted b (calls_of key past + 1)))
              (sym at)
              ((increment_open key c.window_seconds c.now (run past buckets) _ ih early).1
                ∙ ap some (counted-suc b (calls_of key past))))
      | inr other ↦ rw other (
          increment_other key c.key c.window_seconds c.now (run past buckets) other
          ∙ ih
          ∙ ap some (counted_more b (calls_of key past)))
    ]

-- `enforce` over the in-memory store, at a time.
abbrev pub enforce_at : ParsedQuotaConfig → String → QuotaAction → ℕ → Buckets → Verdict × Buckets
enforce_at config tenant_id action now buckets =
    enforce (some config) (some (λ key window s. increment key window now s)) tenant_id action
      buckets

enforce_limited :
    (config : ParsedQuotaConfig) (tenant_id : String) (action : QuotaAction) (now : ℕ)
    (buckets : Buckets) (limit : QuotaLimit)
    → resolve_limit config tenant_id action ≡ some limit
    → enforce_at config tenant_id action now buckets ≡ (
      check_count limit (increment (quota_key tenant_id action) limit.window_seconds now buckets).0,
      (increment (quota_key tenant_id action) limit.window_seconds now buckets).1,
    )
unfolding enforce
enforce_limited config tenant_id action now buckets limit h = rw h

check_count_iff :
    (limit : QuotaLimit) (result : QuotaIncrementResult)
    → 0 < result.count
    → (check_count limit result ≡ proceed) ↔ (result.count ≤ limit.count)
unfolding check_count
check_count_iff limit result h = ground arith

-- A tenant with a limit for an action, whose window is not open: the check at `opened` opens one.
-- After any later calls in that window, of any tenants and actions, the next check in it lets the
-- request through exactly when the calls of this key, the first and this one counted, are within
-- the limit.
pub enforce_exact :
    (config : ParsedQuotaConfig) (tenant_id : String) (action : QuotaAction) (limit : QuotaLimit)
    (opened now : ℕ) (past : List Call) (buckets : Buckets)
    → resolve_limit config tenant_id action ≡ some limit
    → open_bucket (lookup (quota_key tenant_id action) buckets) opened ≡ none
    → Before (opened + limit.window_seconds * 1000) past
    → now < opened + limit.window_seconds * 1000
    → ((enforce_at config tenant_id action now
          (run past (enforce_at config tenant_id action opened buckets).1)).0
        ≡ proceed)
      ↔ (calls_of (quota_key tenant_id action) past + 2 ≤ limit.count)
enforce_exact config tenant_id action limit opened now past buckets limited shut early inside =
    let key = quota_key tenant_id action in
    let started = (increment key limit.window_seconds opened buckets).1 in
    let fresh : Bucket = record { count = 1; expires_at = opened + limit.window_seconds * 1000 } in
    let found =
      window_counts key started fresh past
        (increment_shut key limit.window_seconds opened buckets shut) early in
    let counts : (increment key limit.window_seconds now (run past started)).0.count
        ≡ suc (1 + calls_of key past) =
      (increment_open key limit.window_seconds now (run past started) _ found inside).0 in
    let (to, from) =
      check_count_iff limit (increment key limit.window_seconds now (run past started)).0
        (omega (arith, counts)) in
    rw
      (
        enforce_limited config tenant_id action opened buckets limit limited,
        enforce_limited config tenant_id action now (run past started) limit limited,
      )
      ((λ e. omega (arith, to e, counts)), (λ le. from (omega (arith, counts))))

check_count_refused :
    (limit : QuotaLimit) (result : QuotaIncrementResult) (retry : ℕ)
    → check_count limit result ≡ too_many retry
    → (limit.count < result.count) × (retry ≡ max 1 result.ttl_seconds)
unfolding check_count
check_count_refused limit result retry h = ground arith

increment_first :
    (key : String) (window now : ℕ) (buckets : Buckets)
    → open_bucket (lookup key buckets) now ≡ none
    → (increment key window now buckets).0.count ≡ 1
unfolding increment
increment_first key window now buckets shut = rw shut

wait_enough :
    (now later expires left : ℕ)
    → left ≡ (expires - now + 999) / 1000
    → now + max 1 left * 1000 ≤ later
    → expires ≤ later
wait_enough now later expires left e h = omega arith

-- A check that is refused leaves a bucket that the wait of its answer outlives.
refused_wait :
    (key : String) (window now later retry : ℕ) (limit : QuotaLimit) (buckets : Buckets)
    → 0 < limit.count
    → check_count limit (increment key window now buckets).0 ≡ too_many retry
    → now + retry * 1000 ≤ later
    → (1 ≤ retry) × (open_bucket (lookup key (increment key window now buckets).1) later ≡ none)
unfolding increment seconds_left
refused_wait key window now later retry limit buckets left refused wait =
    elim (Option-cases (open_bucket (lookup key buckets) now)) [
      | inl shut ↦
          let (over, _) = check_count_refused limit _ retry refused in
          absurd (omega (arith, over, increment_first key window now buckets shut))
      | inr (b, found) ↦
          let (over, named) =
            check_count_refused limit
              (record { count = suc b.count; ttl_seconds = max 1 (seconds_left b.expires_at now) })
              retry (rw (found, increment) at refused) in
          let gone =
            wait_enough now later b.expires_at (seconds_left b.expires_at now) refl
              (omega (arith, named)) in
          (
            omega (arith, named),
            rw (found, increment) (simp (lookup-insert, eq_refl) (ground (arith, gone))),
          )
    ]

-- A refused check names a wait in seconds, at least one, after which the window is over: the same
-- check, then or later and with no call of the key in between, lets the request through, if the
-- limit lets any.
pub retry_after_enough :
    (config : ParsedQuotaConfig) (tenant_id : String) (action : QuotaAction) (limit : QuotaLimit)
    (now later retry : ℕ) (buckets : Buckets)
    → resolve_limit config tenant_id action ≡ some limit
    → 0 < limit.count
    → (enforce_at config tenant_id action now buckets).0 ≡ too_many retry
    → now + retry * 1000 ≤ later
    → (1 ≤ retry)
      × ((enforce_at config tenant_id action later
            (enforce_at config tenant_id action now buckets).1).0
          ≡ proceed)
retry_after_enough config tenant_id action limit now later retry buckets limited left refused wait =
    let key = quota_key tenant_id action in
    let next = (increment key limit.window_seconds now buckets).1 in
    let (positive, shut) =
      refused_wait key limit.window_seconds now later retry limit buckets left
        (rw (enforce_limited config tenant_id action now buckets limit limited) at refused) wait in
    let first = increment_first key limit.window_seconds later next shut in
    (
      positive,
      rw
          (
            enforce_limited config tenant_id action now buckets limit limited,
            enforce_limited config tenant_id action later next limit limited,
          )
          ((check_count_iff limit (increment key limit.window_seconds later next).0
              (omega (arith, first))).1
            (omega (arith, first))),
    )
