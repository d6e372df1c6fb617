-- ===== src/Auth/Tests.antt =====
-- The in-memory stores at concrete records.
use acdp_control_plane.Prelude.{ℕ, ◌<◌, ◌≡◌, ◌⊎◌, refl, inl, true, some, [], ◌∷◌, arith}
use acdp_control_plane.Prelude.OrderedMap.{has}
use acdp_control_plane.Auth.Challenges.{ChallengeRecord}
use acdp_control_plane.Auth.Revocations.{
  RevocationRecord, Revocations, unspecified, empty, revoke, is_revoked, list_since, time_of,
}
use acdp_control_plane.Auth.Revocations.Order.{Listed}
use acdp_control_plane.Auth.Revocations.Pages.{list_since_complete}
use acdp_control_plane.Auth.Revocations.Stays
use acdp_control_plane.Auth.Revocations.Stays.{evicting, revoked_stays}

abbrev challenge : ChallengeRecord
challenge = record {
  nonce = "n1";
  agent_did = "did:web:a";
  registry_authority = "registry.example";
  signing_input = "input";
  expires_at = 50;
}

abbrev token : RevocationRecord
token = record {
  jti = "j1";
  sub = "did:web:a";
  iss = "issuer";
  exp = 100;
  revoked_by = "admin";
  reason = unspecified;
  revoked_at = some 7000;
}

abbrev revoked : Revocations
revoked = record { store = ("k", token) ∷ []; cursors = [] }

list_since_complete_example :
    Listed token (list_since (λ a b. true) 5000 10 revoked).entries
    ⊎ ((c : ℕ) × ((list_since (λ a b. true) 5000 10 revoked).next_cursor ≡ some c)
        × (c < time_of token))
list_since_complete_example =
    list_since_complete (λ a b. true) 5000 10 revoked token (inl refl) (omega arith)

revoked_stays_example :
    (is_revoked "issuer" "j1" 99 (Stays.run (evicting 98 ∷ []) (revoke token 7000 empty).1)).0
    ≡ true
unfolding revoke has
revoked_stays_example =
    revoked_stays token 7000 99 (evicting 98 ∷ []) empty refl (omega arith) (omega arith)
