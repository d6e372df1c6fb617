-- ===== src/Policy/Caching/Staleness.antt =====
-- What a cached decision is worth: it was given by the inner decider for the same key, less than
-- the TTL ago; and the cache holds no more entries than it may.
use acdp_control_plane.Prelude.{
  ℕ, ◌+◌, ◌≤◌, ◌<◌, ◌≡◌, refl, ◌∙◌, ◌⊎◌, inl, inr, String, List, [], ◌∷◌, true, Option, some, arith,
  ltb, ltb→lt, length, Bool-cases, Option-cases,
}
use acdp_control_plane.Prelude.OrderedMap.{
  lookup, insert, remove, Entries, Entries-lookup, Entries-insert, Entries-remove, length-insert,
  length-remove, length-remove_present,
}
use acdp_control_plane.Policy.{PolicyRequest, PolicyDecision}
use acdp_control_plane.Policy.Caching.{
  CacheEntry, Decider, begin, evict, is_definite, finish, invalidate, invalidate_all, cache_key,
  size, new,
}

-- One half of a call, or a call of the two invalidations.
pub data Event : Type 0 where
  began : String → ℕ → Event
  finished : String → ℕ → PolicyDecision → Event
  dropped : PolicyRequest → Event
  dropped_all : Event

unfoldable pub step : Event → Decider → Decider
step (began key now) d = (begin key now d).1
step (finished key now decision) d = finish key now decision d
step (dropped req) d = invalidate req d
step dropped_all d = invalidate_all d

-- Any interleaving of calls: a sequence of halves, the latest first.
unfoldable pub run : List Event → Decider → Decider
run [] d = d
run (e ∷ past) d = step e (run past d)

-- The inner decider has given this decision, for this key, to a call that began at this time.
abbrev pub Given : List Event → String → ℕ → PolicyDecision → Type 0
Given [] key at decision = ⊥
Given (e ∷ es) key at decision = (e ≡ finished key at decision) ⊎ Given es key at decision

-- The decision of an entry is definite, and its expiry is the TTL after the call that it is from.
abbrev pub IsFrom : List Event → ℕ → String → CacheEntry → Type 0
IsFrom past ttl key e =
    (is_definite e.decision ≡ true)
    × ((at : ℕ) × (e.expires_at ≡ at + ttl) × Given past key at e.decision)

pub record IsSound (past : List Event) (d : Decider) : Type 0 where
  pub entries : Entries (IsFrom past d.ttl_ms) d.cache
  pub bounded : length d.cache ≤ d.max_entries

Entries-evict :
    (P : String → CacheEntry → Type 0) (n : ℕ) (m : List (String × CacheEntry))
    → Entries P m
    → Entries P (evict n m)
unfolding evict
Entries-evict P n [] h = tt
Entries-evict P n (e ∷ m) (p, h) = ground (arith, Entries-evict P n m h)

length-evict : (n : ℕ) (m : List (String × CacheEntry)) → length (evict n m) ≤ n
unfolding evict
length-evict n [] = omega arith
length-evict n (e ∷ m) = ground (arith, length-evict n m)

module _ (past : List Event) (e : Event) (ttl : ℕ) where
  Entries-later :
      (m : List (String × CacheEntry))
      → Entries (IsFrom past ttl) m
      → Entries (IsFrom (e ∷ past) ttl) m
  Entries-later [] h = tt
  Entries-later ((k, v) ∷ m) ((definite, (at, expiry, given)), h) =
      ((definite, (at, expiry, inr given)), Entries-later m h)

IsSound-later :
    (past : List Event) (e : Event) (d : Decider) → IsSound past d → IsSound (e ∷ past) d
IsSound-later past e d h = record {
  entries = Entries-later past e d.ttl_ms d.cache h.entries;
  bounded = h.bounded;
}

begin-IsSound :
    (past : List Event) (key : String) (now : ℕ) (d : Decider)
    → IsSound past d
    → IsSound past (begin key now d).1
unfolding begin
begin-IsSound past key now d h = elim (Option-cases (lookup key d.cache)) [
  | inl missing ↦ record { entries = rw (missing, begin) h.entries; bounded = rw missing h.bounded }
  | inr (e, found) ↦ elim (Bool-cases (ltb now e.expires_at)) [
    | inl fresh ↦ record {
      entries =
          rw (found, fresh)
            (Entries-insert (IsFrom past d.ttl_ms) key e (remove key d.cache)
              (Entries-remove (IsFrom past d.ttl_ms) key d.cache h.entries)
              (Entries-lookup (IsFrom past d.ttl_ms) key d.cache e h.entries found));
      bounded =
          rw (found, fresh)
            (omega (
              arith,
              length-insert key e (remove key d.cache),
              length-remove_present key d.cache e found,
              h.bounded,
            ));
    }
    | inr stale ↦ record {
      entries = rw (found, stale) h.entries;
      bounded = rw (found, stale) h.bounded;
    }
  ]
]

finish-IsSound :
    (past : List Event) (key : String) (now : ℕ) (decision : PolicyDecision) (d : Decider)
    → IsSound past d
    → IsSound (finished key now decision ∷ past) (finish key now decision d)
unfolding finish
finish-IsSound past key now decision d h = elim (Bool-cases (is_definite decision)) [
  | inr open_end ↦ rw open_end (IsSound-later past (finished key now decision) d h)
  | inl definite ↦
      let e = finished key now decision in
      let entry : CacheEntry = record { decision = decision; expires_at = now + d.ttl_ms } in
      rw definite (record {
        entries =
            Entries-evict (IsFrom (e ∷ past) d.ttl_ms) d.max_entries (insert key entry d.cache) (
              Entries-insert (IsFrom (e ∷ past) d.ttl_ms) key entry d.cache
                (Entries-later past e d.ttl_ms d.cache h.entries)
                (definite, (now, refl, inl refl)));
        bounded = length-evict d.max_entries (insert key entry d.cache);
      })
]

step-IsSound :
    (past : List Event) (e : Event) (d : Decider) → IsSound past d → IsSound (e ∷ past) (step e d)
unfolding step invalidate invalidate_all
step-IsSound past (began key now) d h =
    IsSound-later past (began key now) (begin key now d).1 (begin-IsSound past key now d h)
step-IsSound past (finished key now decision) d h = finish-IsSound past key now decision d h
step-IsSound past (dropped req) d h = record {
  entries =
      Entries-remove (IsFrom (dropped req ∷ past) d.ttl_ms) (cache_key req) d.cache
        (Entries-later past (dropped req) d.ttl_ms d.cache h.entries);
  bounded = omega (arith, length-remove (cache_key req) d.cache, h.bounded);
}
step-IsSound past dropped_all d h = record { entries = tt; bounded = omega arith }

new-IsSound : (ttl_ms max_entries : Option ℕ) → IsSound [] (new ttl_ms max_entries)
unfolding new
new-IsSound ttl_ms max_entries = record { entries = tt; bounded = omega arith }

run-IsSound :
    (past : List Event) (ttl_ms max_entries : Option ℕ)
    → IsSound past (run past (new ttl_ms max_entries))
unfolding run
run-IsSound [] ttl_ms max_entries = new-IsSound ttl_ms max_entries
run-IsSound (e ∷ past) ttl_ms max_entries =
    step-IsSound past e (run past (new ttl_ms max_entries)) (run-IsSound past ttl_ms max_entries)

begin_hit :
    (past : List Event) (key : String) (now : ℕ) (d : Decider) (decision : PolicyDecision)
    → IsSound past d
    → (begin key now d).0 ≡ some decision
    → (is_definite decision ≡ true)
      × ((at : ℕ) × (now < at + d.ttl_ms) × Given past key at decision)
unfolding begin
begin_hit past key now d decision h e = elim (Option-cases (lookup key d.cache)) [
  | inl missing ↦ absurd (ground (arith, missing))
  | inr (entry, found) ↦
      let fresh : ltb now entry.expires_at ≡ true = ground (arith, found) in
      let same : entry.decision ≡ decision = ground (arith, found, fresh) in
      let (definite, (at, expiry, given)) =
        Entries-lookup (IsFrom past d.ttl_ms) key d.cache entry h.entries found in
      (
        rw (← same) definite,
        (at, omega (arith, ltb→lt now entry.expires_at fresh), rw (← same) given),
      )
]

-- What no step changes.
step_limits :
    (e : Event) (d : Decider)
    → ((step e d).ttl_ms ≡ d.ttl_ms) × ((step e d).max_entries ≡ d.max_entries)
unfolding step begin finish invalidate invalidate_all
step_limits (began key now) d = ground arith
step_limits (finished key now decision) d = ground arith
step_limits (dropped req) d = (refl, refl)
step_limits dropped_all d = (refl, refl)

run_limits :
    (past : List Event) (d : Decider)
    → ((run past d).ttl_ms ≡ d.ttl_ms) × ((run past d).max_entries ≡ d.max_entries)
unfolding run
run_limits [] d = (refl, refl)
run_limits (e ∷ past) d =
    let (ttl, most) = step_limits e (run past d) in
    let (ttl', most') = run_limits past d in (ttl ∙ ttl', most ∙ most')

-- Whatever calls and invalidations have run on a new cache, interleaved in any way: a decision that
-- it returns without the inner decider is definite, and the inner decider has given that decision
-- for the same key to a call that began less than the TTL before now.
pub cached_is_recent :
    (past : List Event) (ttl_ms max_entries : Option ℕ) (key : String) (now : ℕ)
    (decision : PolicyDecision)
    → (begin key now (run past (new ttl_ms max_entries))).0 ≡ some decision
    → (is_definite decision ≡ true)
      × ((at : ℕ) × (now < at + (new ttl_ms max_entries).ttl_ms) × Given past key at decision)
cached_is_recent past ttl_ms max_entries key now decision h =
    let d = run past (new ttl_ms max_entries) in
    let (definite, (at, recent, given)) =
      begin_hit past key now d decision (run-IsSound past ttl_ms max_entries) h in
    (definite, (at, omega (arith, (run_limits past (new ttl_ms max_entries)).0), given))

-- Whatever has run on a new cache, it holds no more entries than the limit that it was made with.
pub size_bounded :
    (past : List Event) (ttl_ms max_entries : Option ℕ)
    → size (run past (new ttl_ms max_entries)) ≤ (new ttl_ms max_entries).max_entries
unfolding size
size_bounded past ttl_ms max_entries = omega (
  arith,
  (run-IsSound past ttl_ms max_entries).bounded,
  (run_limits past (new ttl_ms max_entries)).1,
)
