-- ===== src/Auth/Challenges.antt =====
-- src/auth/in-memory-challenge.repository.ts. Each operation takes the clock, in seconds.
pub mod OneTime
use acdp_control_plane.Prelude.{
  ℕ, suc, ◌+◌, ◌/◌, String, List, [], ◌∷◌, Option, none, some, Bool, ltb, if◌then◌else◌, length,
}
use acdp_control_plane.Prelude.OrderedMap.{lookup, insert, remove}

pub record ChallengeRecord : Type 0 where
  pub nonce : String
  pub agent_did : String
  pub registry_authority : String
  pub signing_input : String
  pub expires_at : ℕ

abbrev pub Challenges : Type 0
Challenges = List (String × ChallengeRecord)

-- `Math.floor(Date.now() / 1000)`
unfoldable pub now_seconds : ℕ → ℕ
now_seconds now_ms = now_ms / 1000

unfoldable pub put : ChallengeRecord → Challenges → Challenges
put rec store = insert rec.nonce rec store

take_found : String → ℕ → Challenges → Option ChallengeRecord → Option ChallengeRecord × Challenges
take_found nonce now store none = (none, store)
take_found nonce now store (some rec) =
    (if ltb rec.expires_at now then none else some rec, remove nonce store)

unfoldable pub take : String → ℕ → Challenges → Option ChallengeRecord × Challenges
unfolding take_found
take nonce now store = take_found nonce now store (lookup nonce store)

-- The store after the loop, and how many entries it deleted.
unfoldable pub evict_expired : ℕ → Challenges → ℕ × Challenges
evict_expired now [] = (0, [])
evict_expired now ((nonce, rec) ∷ store) =
    let rest = evict_expired now store in
    if ltb rec.expires_at now then (suc rest.0, rest.1) else (rest.0, (nonce, rec) ∷ rest.1)

unfoldable pub size : ℕ → Challenges → ℕ × Challenges
unfolding evict_expired
size now store = (length (evict_expired now store).1, (evict_expired now store).1)
