-- ===== src/Auth/Issuer.antt =====
-- The token issuer (src/auth/token-issuer.service.ts) over the challenge store, the pinned keys, the
-- tenants of agents and the ledger. The SDK's check of a signature, the resolver of did:web keys, the
-- JWT codec and the random ids are parameters, and each read of the clock is an argument.
pub mod Nonce
pub mod Ends
pub mod Accepts
pub mod Trail
pub mod KeyIds
mod Tests
use Prim.Native.String
use acdp_control_plane.Prelude.{
  ℕ, ◌+◌, ◌/◌, String, List, [], ◌∷◌, Bool, true, false, ◌&&◌, ◌||◌, not, Option, none, some, ◌==◌,
  str_eq, str_mem, codes, any, starts_with, is_white, cut, if◌then◌else◌,
}
use acdp_control_plane.Auth.Challenges.{ChallengeRecord, Challenges, put, take, now_seconds}
use acdp_control_plane.Auth.Ledger.{
  IssuanceDecision, mint, reject_alg, reject_nonce, reject_agent_mismatch, reject_expires_mismatch,
  reject_unpinned, reject_key_id_mismatch, reject_key_id_malformed, reject_signature,
  IssuanceLedgerEntry, Link, record_memory,
}
use acdp_control_plane.Auth.PinnedKeys.{PinnedKey}
use acdp_control_plane.Auth.PinnedKeys
use acdp_control_plane.Tenant.Agents.{
  default_tenant_id, parse_tenant_agents, build_agent_tenant_lookup, tenant_for_agent,
}

pub record TokenRequest : Type 0 where
  pub agent_did : String
  pub key_id : String
  pub nonce : String
  pub expires_at : ℕ
  pub algorithm : String
  pub signature : String

pub record IssuedToken : Type 0 where
  pub token : String
  pub token_type : String
  pub expires_at : ℕ

-- The claims that are minted, with `nbf`.
pub record AcdpBearerClaims : Type 0 where
  pub iss : String
  pub sub : String
  pub aud : String
  pub jti : String
  pub iat : ℕ
  pub nbf : ℕ
  pub exp : ℕ
  pub registry : String
  pub key_id : String
  pub tenant : Option String

-- What `resolveKey` gives of a DID document.
pub record ResolvedKey : Type 0 where
  pub algorithm : String
  pub public_key_b64 : String

pub record IssuerConfig : Type 0 where
  pub jwt_authority : String
  pub jwt_audience : String
  pub jwt_ttl_seconds : ℕ
  pub challenge_ttl_seconds : ℕ
  pub tenant_agents_raw : String
  pub pinned : List (String × PinnedKey)
  pub with_ledger : Bool

-- `resolve_key` is `none` without a resolver, and gives `none` where it throws; so does `sign_jwt`.
pub record Services : Type 0 where
  pub verify_signature_b64 : String → String → String → String → Bool
  pub resolve_key : Option (String → String → Option ResolvedKey)
  pub sign_jwt : AcdpBearerClaims → Option String
  pub decode_jwt : String → Option AcdpBearerClaims
  pub sha256_hex : String → String
  pub decimal : ℕ → String

-- The clock of each step, in milliseconds, and the random id.
pub record Moments : Type 0 where
  pub take_ms : ℕ
  pub pin_ms : ℕ
  pub mint_ms : ℕ
  pub jti : String

pub record Issuer : Type 0 where
  pub challenges : Challenges
  pub ledger : List Link
  pub agent_tenant_lookup : Option (List (String × String))

-- The exceptions; `internal` is any other error that escapes.
pub data Refusal : Type 0 where
  bad_request unauthorized invalid_signature internal : Refusal

pub data Attempt : Type 0 where
  issued : IssuedToken → Attempt
  refused : Refusal → Attempt

pub data KeyBinding : Type 0 where
  bound : String → KeyBinding
  mismatched malformed : KeyBinding

abbrev pub supported_signature_algorithms : List String
supported_signature_algorithms = "ed25519" ∷ "ecdsa-p256" ∷ []

-- `/[:\s%]/`
abbrev pub is_reserved : ℕ → Bool
is_reserved c = c == 58 || is_white c || c == 37

unfoldable pub bare_fragment : String → String → KeyBinding
bare_fragment agent key_id =
    if str_eq key_id "" || any is_reserved (codes key_id)
    then malformed
    else bound (String.◌++◌ agent (String.◌++◌ "#" key_id))

unfoldable pub bind_key_id : String → String → KeyBinding
unfolding bare_fragment
bind_key_id agent key_id = elim (cut 35 key_id) [
  | none ↦ bare_fragment agent key_id
  | some (did, fragment) ↦
      if str_eq did "" || str_eq fragment "" || any (λ c. c == 35) (codes fragment)
      then malformed
      else if not (str_eq did agent)
      then mismatched
      else bound key_id
]

unfoldable pub signing_input_for : (ℕ → String) → String → String → String → ℕ → String
signing_input_for decimal nonce agent authority expires_at = String.◌++◌ "acdp-registry-auth:v1:" (
    String.◌++◌ nonce (
      String.◌++◌ ":" (
        String.◌++◌ agent
          (String.◌++◌ ":" (String.◌++◌ authority (String.◌++◌ ":" (decimal expires_at)))))))

abbrev pub is_did_web : String → Bool
is_did_web did = starts_with (codes "did:web:") (codes did)

module _ (config : IssuerConfig) (services : Services) where
  -- `issueChallenge`, with the nonce that is drawn.
  unfoldable pub issue_challenge : String → String → ℕ → Issuer → ChallengeRecord × Issuer
  unfolding signing_input_for
  issue_challenge agent nonce now_ms s =
      let expires = now_seconds now_ms + config.challenge_ttl_seconds in
      let rec : ChallengeRecord = record {
        nonce = nonce;
        agent_did = agent;
        registry_authority = config.jwt_authority;
        signing_input = signing_input_for services.decimal nonce agent config.jwt_authority expires;
        expires_at = expires;
      } in
      (rec, record s { challenges = put rec s.challenges })

  unfoldable pub recorded : IssuanceLedgerEntry → Issuer → Issuer
  recorded entry s =
      if config.with_ledger
      then record s { ledger = record_memory services.sha256_hex services.decimal entry s.ledger }
      else s

  module _ (req : TokenRequest) (signer_ip : Option String) (at : Moments) where
    -- A refusal writes one row to the ledger and throws.
    unfoldable pub reject : IssuanceDecision → Option String → Refusal → Issuer → Attempt × Issuer
    unfolding recorded
    reject decision detail refusal s = (
      refused refusal,
      recorded
          (record {
            jti = none;
            sub = some req.agent_did;
            iss = some config.jwt_authority;
            iat = none;
            exp = none;
            signer_ip = signer_ip;
            decision = decision;
            decision_detail = detail;
          })
          s,
    )

    -- The lookup of tenants, built at the first mint.
    unfoldable pub tenant_lookup : Issuer → Option (List (String × String))
    tenant_lookup s = elim s.agent_tenant_lookup [
      | some known ↦ some known
      | none ↦ elim (parse_tenant_agents config.tenant_agents_raw) [
        | none ↦ none
        | some bindings ↦ build_agent_tenant_lookup bindings
      ]
    ]

    unfoldable pub claims_for : String → AcdpBearerClaims
    claims_for tenant = record {
      iss = config.jwt_authority;
      sub = req.agent_did;
      aud = config.jwt_audience;
      jti = at.jti;
      iat = now_seconds at.mint_ms;
      nbf = now_seconds at.mint_ms;
      exp = now_seconds at.mint_ms + config.jwt_ttl_seconds;
      registry = config.jwt_authority;
      key_id = req.key_id;
      tenant = if str_eq tenant default_tenant_id then none else some tenant;
    }

    -- The row of a mint is read off the token, where there is a ledger; one that cannot be read throws.
    unfoldable pub ledgered : IssuedToken → Option AcdpBearerClaims → Issuer → Attempt × Issuer
    unfolding recorded
    ledgered token none s = (if config.with_ledger then refused internal else issued token, s)
    ledgered token (some c) s = (
      issued token,
      recorded
          (record {
            jti = some c.jti;
            sub = some c.sub;
            iss = some c.iss;
            iat = some c.iat;
            exp = some c.exp;
            signer_ip = signer_ip;
            decision = mint;
            decision_detail = some (String.◌++◌ "key_id=" req.key_id);
          })
          s,
    )

    unfoldable pub signed : AcdpBearerClaims → Issuer → Attempt × Issuer
    unfolding ledgered
    signed claims s = elim (services.sign_jwt claims) [
      | none ↦ (refused internal, s)
      | some token ↦
          ledgered (record { token = token; token_type = "Bearer"; expires_at = claims.exp })
            (services.decode_jwt token) s
    ]

    -- `mintJwt`, and what follows it.
    unfoldable pub mint_token : Issuer → Attempt × Issuer
    unfolding tenant_lookup claims_for signed
    mint_token s = elim (tenant_lookup s) [
      | none ↦ (refused internal, s)
      | some known ↦
          signed (claims_for (tenant_for_agent known req.agent_did))
            (record s { agent_tenant_lookup = some known })
    ]

    -- From the key on.
    unfoldable pub with_key : ChallengeRecord → PinnedKey → Issuer → Attempt × Issuer
    unfolding mint_token reject
    with_key rec key s =
        if not (str_eq req.algorithm key.algorithm)
        then reject reject_alg
            (some (
              String.◌++◌ "request="
                (String.◌++◌ req.algorithm (String.◌++◌ " pinned=" key.algorithm))))
            unauthorized s
        else if not (
            services.verify_signature_b64 key.algorithm key.raw_b64 rec.signing_input req.signature)
        then reject reject_signature none invalid_signature s
        else mint_token s

    abbrev pub key_of_document : ResolvedKey → PinnedKey
    key_of_document found = record {
      agent_did = req.agent_did;
      algorithm = found.algorithm;
      raw_b64 = found.public_key_b64;
      valid_from_sec = none;
      valid_until_sec = none;
    }

    unfoldable pub resolved : ChallengeRecord → Option ResolvedKey → Issuer → Attempt × Issuer
    unfolding with_key reject
    resolved rec none s = reject reject_unpinned (some "did:web resolution failed") unauthorized s
    resolved rec (some found) s = with_key rec (key_of_document found) s

    unfoldable pub unpinned :
        ChallengeRecord
        → String
        → Option (String → String → Option ResolvedKey)
        → Issuer
        → Attempt × Issuer
    unfolding resolved reject
    unpinned rec key_url none s = reject reject_unpinned none unauthorized s
    unpinned rec key_url (some resolve_key) s =
        if is_did_web req.agent_did
        then resolved rec (resolve_key key_url req.algorithm) s
        else reject reject_unpinned none unauthorized s

    abbrev key_detail : String
    key_detail =
        String.◌++◌ "agent=" (String.◌++◌ req.agent_did (String.◌++◌ " key_id=" req.key_id))

    -- From the bound key id on.
    unfoldable pub with_binding : ChallengeRecord → KeyBinding → Issuer → Attempt × Issuer
    unfolding with_key unpinned reject
    with_binding rec mismatched s = reject reject_key_id_mismatch (some key_detail) unauthorized s
    with_binding rec malformed s = reject reject_key_id_malformed (some key_detail) unauthorized s
    with_binding rec (bound key_url) s =
        elim (PinnedKeys.get config.pinned req.agent_did at.pin_ms) [
          | some key ↦ with_key rec key s
          | none ↦ unpinned rec key_url services.resolve_key s
        ]

    -- From the consumed challenge on.
    unfoldable pub consumed : Option ChallengeRecord → Issuer → Attempt × Issuer
    unfolding with_binding reject
    consumed none s = reject reject_nonce (some "unknown, expired, or already-used") unauthorized s
    consumed (some rec) s =
        if not (str_eq rec.agent_did req.agent_did)
        then reject reject_agent_mismatch
            (some (
              String.◌++◌ "challenge="
                (String.◌++◌ rec.agent_did (String.◌++◌ " got=" req.agent_did))))
            unauthorized s
        else if not (rec.expires_at == req.expires_at)
        then reject reject_expires_mismatch
            (some (
              String.◌++◌ "challenge=" (
                String.◌++◌ (services.decimal rec.expires_at)
                  (String.◌++◌ " got=" (services.decimal req.expires_at)))))
            unauthorized s
        else with_binding rec (bind_key_id req.agent_did req.key_id) s

    unfoldable pub issue_token : Issuer → Attempt × Issuer
    unfolding consumed reject
    issue_token s =
        let taken = take req.nonce (now_seconds at.take_ms) s.challenges in
        if not (str_mem req.algorithm supported_signature_algorithms)
        then reject reject_alg (some (String.◌++◌ "algorithm=" req.algorithm)) bad_request s
        else consumed taken.0 (record s { challenges = taken.1 })
