-- ===== src/Auth/Revocations.antt =====
-- src/auth/in-memory-revocation.repository.ts. Each operation takes the clock; `localeCompare` on
-- token ids is a parameter.
pub mod Order
pub mod Boundary
pub mod Pages
pub mod Served
pub mod Stays
use acdp_control_plane.Prelude.{
  ℕ, suc, ◌+◌, ◌%◌, ◌^◌, max, min, String, List, [], ◌∷◌, ◌++◌, map, Option, none, some, Bool, true,
  false, ◌&&◌, ltb, ◌==◌, if◌then◌else◌, length, take, drop, join, Number,
}
use acdp_control_plane.Prelude.OrderedMap.{lookup, has, insert, remove}

pub data RevocationReason : Type 0 where
  user_logout admin_revoke key_rotation security_incident unspecified : RevocationReason

-- What a caller hands in; `revoked_at` is in milliseconds, as `Date` is.
pub record RevocationRecord : Type 0 where
  pub jti : String
  pub sub : String
  pub iss : String
  pub exp : ℕ
  pub revoked_by : String
  pub reason : RevocationReason
  pub revoked_at : Option ℕ

pub record Revocations : Type 0 where
  pub store : List (String × RevocationRecord)
  pub cursors : List (String × Number)

abbrev pub empty : Revocations
empty = record { store = []; cursors = [] }

-- The composite key; NUL stands in neither part.
unfoldable pub key_of : String → String → String
key_of iss jti = join "\0" (iss ∷ jti ∷ [])

-- `r.revokedAt?.getTime() ?? 0`
abbrev pub time_of : RevocationRecord → ℕ
time_of r = elim r.revoked_at [ none ↦ 0 | some at ↦ at ]

abbrev pub stamped : RevocationRecord → ℕ → RevocationRecord
stamped r now_ms = record r {
  revoked_at = elim r.revoked_at [ none ↦ some now_ms | some at ↦ some at ];
}

unfoldable pub revoke : RevocationRecord → ℕ → Revocations → Bool × Revocations
revoke r now_ms s =
    if has (key_of r.iss r.jti) s.store
    then (false, s)
    else (true, record s { store = insert (key_of r.iss r.jti) (stamped r now_ms) s.store })

is_revoked_found : String → ℕ → Revocations → Option RevocationRecord → Bool × Revocations
is_revoked_found key now s none = (false, s)
is_revoked_found key now s (some rec) =
    if ltb rec.exp now then (false, record s { store = remove key s.store }) else (true, s)

-- `now` is in seconds.
unfoldable pub is_revoked : String → String → ℕ → Revocations → Bool × Revocations
unfolding is_revoked_found
is_revoked iss jti now s = is_revoked_found (key_of iss jti) now s (lookup (key_of iss jti) s.store)

unfoldable pub get : String → String → Revocations → Option RevocationRecord
get iss jti s = lookup (key_of iss jti) s.store

evict_from : ℕ → List (String × RevocationRecord) → ℕ × List (String × RevocationRecord)
evict_from now [] = (0, [])
evict_from now ((key, rec) ∷ store) =
    let rest = evict_from now store in
    if ltb rec.exp now then (suc rest.0, rest.1) else (rest.0, (key, rec) ∷ rest.1)

unfoldable pub evict_expired : ℕ → Revocations → ℕ × Revocations
unfolding evict_from
evict_expired now s = let swept = evict_from now s.store in (swept.0, record s { store = swept.1 })

unfoldable pub size : ℕ → Revocations → ℕ × Revocations
size now s = (length (evict_expired now s).1.store, (evict_expired now s).1)

-- `Math.max(1, Math.min(limit | 0, 500))`, for a natural limit; `| 0` reads 32 bits with a sign.
unfoldable pub page_cap : ℕ → ℕ
page_cap limit = let bits = limit % 2 ^ 32 in if ltb bits (2 ^ 31) then max 1 (min bits 500) else 1

unfoldable pub newer_than : ℕ → List RevocationRecord → List RevocationRecord
newer_than since [] = []
newer_than since (r ∷ rs) =
    let rest = newer_than since rs in if ltb since (time_of r) then r ∷ rest else rest

-- The loop that pushes the rest of the boundary's millisecond, up to the first other one.
unfoldable pub same_ms : ℕ → List RevocationRecord → List RevocationRecord
same_ms boundary [] = []
same_ms boundary (r ∷ rs) =
    let rest = same_ms boundary rs in if time_of r == boundary then r ∷ rest else []

abbrev pub last_time : List RevocationRecord → Option ℕ
last_time [] = none
last_time (r ∷ []) = some (time_of r)
last_time (r ∷ s ∷ rs) = last_time (s ∷ rs)

abbrev or_zero : Option ℕ → ℕ
or_zero none = 0
or_zero (some n) = n

pub record Page : Type 0 where
  pub entries : List RevocationRecord
  pub next_cursor : Option ℕ

-- The page of a sorted list: the first `most`, and what shares the last one's millisecond.
unfoldable pub page_entries : ℕ → List RevocationRecord → List RevocationRecord
page_entries most sorted =
    let entries = take most sorted in
    if length entries == most && ltb most (length sorted)
    then entries ++ same_ms (or_zero (last_time entries)) (drop most sorted)
    else entries

unfoldable pub page_of : ℕ → List RevocationRecord → Page
unfolding page_entries
page_of most sorted =
    let entries = page_entries most sorted in
    record {
      entries = entries;
      next_cursor = if ltb (length entries) (length sorted) then last_time entries else none;
    }

-- `locale_le a b` stands for `a.localeCompare(b) <= 0`.
module _ (locale_le : String → String → Bool) where
  -- `comparator(a, b) <= 0`
  unfoldable pub in_order : RevocationRecord → RevocationRecord → Bool
  in_order a b =
      if time_of a == time_of b then locale_le a.jti b.jti else ltb (time_of a) (time_of b)

  unfoldable pub insert_by : RevocationRecord → List RevocationRecord → List RevocationRecord
  insert_by r [] = r ∷ []
  insert_by r (s ∷ rs) = let rest = insert_by r rs in if in_order r s then r ∷ s ∷ rs else s ∷ rest

  -- `.sort(…)`, which is stable.
  unfoldable pub sort_by : List RevocationRecord → List RevocationRecord
  sort_by [] = []
  sort_by (r ∷ rs) = insert_by r (sort_by rs)

  unfoldable pub list_since : ℕ → ℕ → Revocations → Page
  list_since since_ms limit s =
      page_of (page_cap limit) (sort_by (newer_than since_ms (map (λ e. e.1) s.store)))

unfoldable pub get_revocation_cursor : String → Revocations → Option Number
get_revocation_cursor issuer s = lookup issuer s.cursors

unfoldable pub set_revocation_cursor : String → Number → Revocations → Revocations
set_revocation_cursor issuer cursor_ms s = record s { cursors = insert issuer cursor_ms s.cursors }
