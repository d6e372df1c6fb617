-- ===== src/Auth/Revocations/Stays.antt =====
-- A revoked token stays revoked until it expires.
use acdp_control_plane.Prelude.{
  ℕ, ◌≤◌, ◌≡◌, refl, String, List, [], ◌∷◌, true, Option, none, some, arith, ltb, eq_iff, eq_refl,
  All, Bool-cases, inl, inr, Number,
}
use acdp_control_plane.Prelude.OrderedMap.{lookup, has, lookup-insert, lookup-remove, has-eq-lookup}
use acdp_control_plane.Auth.Revocations.{
  RevocationRecord, Revocations, key_of, stamped, revoke, is_revoked, is_revoked_found, evict_from,
  evict_expired, size, set_revocation_cursor,
}

-- An operation of the repository, with the clock that it reads, in seconds but for `revoking`.
pub data Op : Type 0 where
  revoking : RevocationRecord → ℕ → Op
  asking : String → String → ℕ → Op
  evicting : ℕ → Op
  sizing : ℕ → Op
  moving : String → Number → Op

pub step : Op → Revocations → Revocations
step (revoking r now_ms) s = (revoke r now_ms s).1
step (asking iss jti now) s = (is_revoked iss jti now s).1
step (evicting now) s = (evict_expired now s).1
step (sizing now) s = (size now s).1
step (moving issuer cursor) s = set_revocation_cursor issuer cursor s

-- The latest operation stands first.
pub run : List Op → Revocations → Revocations
run [] s = s
run (op ∷ past) s = step op (run past s)

-- The operation reads no clock past `exp`.
abbrev pub Until : ℕ → Op → Type 0
Until exp (asking iss jti now) = now ≤ exp
Until exp (evicting now) = now ≤ exp
Until exp (sizing now) = now ≤ exp
Until exp _ = Unit

lookup-evict_from :
    (key : String) (now : ℕ) (rec : RevocationRecord) (store : List (String × RevocationRecord))
    → now ≤ rec.exp
    → lookup key store ≡ some rec
    → lookup key (evict_from now store).1 ≡ some rec
unfolding evict_from lookup
lookup-evict_from key now rec [] h found = cc
lookup-evict_from key now rec ((k, r) ∷ store) h found =
    ground (arith, eq_iff k key, lookup-evict_from key now rec store h)

module _ (key : String) (rec : RevocationRecord) where
  keeps_revoke :
      (r : RevocationRecord) (now_ms : ℕ) (s : Revocations)
      → lookup key s.store ≡ some rec
      → lookup key (revoke r now_ms s).1.store ≡ some rec
  unfolding revoke
  keeps_revoke r now_ms s found = elim (Bool-cases (has (key_of r.iss r.jti) s.store)) [
    | inl old ↦ rw old found
    | inr new ↦ rw new (
        simp lookup-insert (
          ground (
            arith,
            found,
            new,
            has-eq-lookup (key_of r.iss r.jti) s.store,
            eq_iff (key_of r.iss r.jti) key,
          )))
  ]

  keeps_found :
      (other : String) (now : ℕ) (s : Revocations) (r : Option RevocationRecord)
      → lookup other s.store ≡ r
      → now ≤ rec.exp
      → lookup key s.store ≡ some rec
      → lookup key (is_revoked_found other now s r).1.store ≡ some rec
  unfolding is_revoked_found
  keeps_found other now s none at h found = found
  keeps_found other now s (some r) at h found = elim (Bool-cases (ltb r.exp now)) [
    | inr alive ↦ rw alive found
    | inl gone ↦ rw gone (simp lookup-remove (ground (arith, found, at, gone, h, eq_iff other key)))
  ]

  step_keeps :
      (op : Op) (s : Revocations)
      → Until rec.exp op
      → lookup key s.store ≡ some rec
      → lookup key (step op s).store ≡ some rec
  unfolding step is_revoked evict_expired size set_revocation_cursor
  step_keeps (revoking r now_ms) s h found = keeps_revoke r now_ms s found
  step_keeps (asking iss jti now) s h found = keeps_found (key_of iss jti) now s _ refl h found
  step_keeps (evicting now) s h found = lookup-evict_from key now rec s.store h found
  step_keeps (sizing now) s h found = lookup-evict_from key now rec s.store h found
  step_keeps (moving issuer cursor) s h found = found

  run_keeps :
      (past : List Op) (s : Revocations)
      → All (Until rec.exp) past
      → lookup key s.store ≡ some rec
      → lookup key (run past s).store ≡ some rec
  unfolding run
  run_keeps [] s h found = found
  run_keeps (op ∷ past) s (p, h) found = step_keeps op (run past s) p (run_keeps past s h found)

is_revoked_of_found :
    (iss jti : String) (now : ℕ) (s : Revocations) (rec : RevocationRecord)
    → lookup (key_of iss jti) s.store ≡ some rec
    → now ≤ rec.exp
    → (is_revoked iss jti now s).0 ≡ true
unfolding is_revoked
is_revoked_of_found iss jti now s rec found h = rw found (ground (arith, h))

stored :
    (r : RevocationRecord) (now_ms : ℕ) (s : Revocations)
    → (revoke r now_ms s).0 ≡ true
    → lookup (key_of r.iss r.jti) (revoke r now_ms s).1.store ≡ some (stamped r now_ms)
unfolding revoke
stored r now_ms s fresh = elim (Bool-cases (has (key_of r.iss r.jti) s.store)) [
  | inl old ↦ absurd (ground (arith, old))
  | inr new ↦ rw new (simp (lookup-insert, eq_refl))
]

-- A token that is newly revoked reads as revoked from then on, after any operations, at any clock
-- up to its expiry, as long as none of them reads a later clock.
pub revoked_stays :
    (r : RevocationRecord) (now_ms now : ℕ) (past : List Op) (s : Revocations)
    → (revoke r now_ms s).0 ≡ true
    → All (Until r.exp) past
    → now ≤ r.exp
    → (is_revoked r.iss r.jti now (run past (revoke r now_ms s).1)).0 ≡ true
revoked_stays r now_ms now past s fresh early h =
    is_revoked_of_found r.iss r.jti now (run past (revoke r now_ms s).1) (stamped r now_ms)
      (run_keeps (key_of r.iss r.jti) (stamped r now_ms) past (revoke r now_ms s).1 early
        (stored r now_ms s fresh))
      h
