-- ===== src/Auth/Issuer/Accepts.antt =====
-- When a token is issued: exactly when the challenge, the key and the signature agree.

use acdp_control_plane.Prelude.{
  ◌+◌, ◌≡◌, ◌↔◌, ◌⊎◌, none, refl, subst, false, sym, ◌∙◌, ap, String, List, true, Option, some,
  arith, str_mem, Bool-cases, Option-cases, inl, inr,
}
use acdp_control_plane.Auth.Challenges.{ChallengeRecord, take, now_seconds}
use acdp_control_plane.Tenant.Agents.{tenant_for_agent}
use acdp_control_plane.Auth.Issuer.{
  TokenRequest, IssuedToken, AcdpBearerClaims, IssuerConfig, Services, Moments, Issuer, Attempt,
  issued, refused, supported_signature_algorithms, reject, ledgered, signed, mint_token,
  tenant_lookup, consumed, issue_token, claims_for,
}
use acdp_control_plane.Auth.Issuer.Ends.{
  Ends, Earned, Admitted, after_take, issue_token_unsupported, issue_token_supported, consumed-Ends,
  consumed-mint_token,
}

abbrev token_or : IssuedToken → Attempt → IssuedToken
token_or d (issued tok) = tok
token_or d (refused r) = d

issued_inj : (a b : IssuedToken) → issued a ≡ issued b → a ≡ b
issued_inj a b h = ap (λ o. token_or a o) h

module _ (config : IssuerConfig) (services : Services) (req : TokenRequest)
    (signer_ip : Option String) (at : Moments) where
  -- A minted token is read back where there is a ledger to write it to.
  abbrev pub ReadBack : Option AcdpBearerClaims → Type 0
  ReadBack decoded = (config.with_ledger ≡ false) ⊎ ((c : AcdpBearerClaims) × (decoded ≡ some c))

  -- The token of a mint: the claims are those of the request and the configuration, for the agent's
  -- tenant.
  abbrev pub Minted : Issuer → IssuedToken → Type 0
  Minted s tok =
      (known : List (String × String)) × (tenant_lookup config services req signer_ip at s
        ≡ some known)
      × (services.sign_jwt
            (claims_for config services req signer_ip at (tenant_for_agent known req.agent_did))
          ≡ some tok.token)
      × ReadBack (services.decode_jwt tok.token)
      × (tok.token_type ≡ "Bearer")
      × (tok.expires_at ≡ now_seconds at.mint_ms + config.jwt_ttl_seconds)

  ledgered_issued :
      (token tok : IssuedToken) (decoded : Option AcdpBearerClaims) (s : Issuer)
      → (ledgered config services req signer_ip at token decoded s).0 ≡ issued tok
      → (token ≡ tok) × ReadBack decoded
  unfolding ledgered
  ledgered_issued token tok none s h = elim (Bool-cases (config.with_ledger)) [
    | inl on ↦ absurd (ground (arith, rw on at h))
    | inr off ↦ (issued_inj token tok (rw off at h), inl off)
  ]
  ledgered_issued token tok (some c) s h = (issued_inj token tok h, inr (c, refl))

  ReadBack-ledgered :
      (token : IssuedToken) (decoded : Option AcdpBearerClaims) (s : Issuer)
      → ReadBack decoded
      → (ledgered config services req signer_ip at token decoded s).0 ≡ issued token
  unfolding ledgered
  ReadBack-ledgered token none s (inl off) = rw off refl
  ReadBack-ledgered token none s (inr (c, e)) = absurd (ground (arith, e))
  ReadBack-ledgered token (some c) s r = refl

  signed_issued :
      (claims : AcdpBearerClaims) (s : Issuer) (tok : IssuedToken)
      → (signed config services req signer_ip at claims s).0 ≡ issued tok
      → (services.sign_jwt claims ≡ some tok.token)
        × ReadBack (services.decode_jwt tok.token)
        × (tok.token_type ≡ "Bearer")
        × (tok.expires_at ≡ claims.exp)
  unfolding signed
  signed_issued claims s tok h = elim (Option-cases (services.sign_jwt claims)) [
    | inl fails ↦ absurd (ground (arith, fails, h))
    | inr (token, e) ↦
        let (same, read) =
          ledgered_issued (record { token = token; token_type = "Bearer"; expires_at = claims.exp })
            tok (services.decode_jwt token) s (rw (e, signed) at h) in
        (
          e ∙ ap (λ t. some t.token) same,
          subst (λ t. ReadBack (services.decode_jwt t.token)) same read,
          sym (ap (λ t. t.token_type) same),
          sym (ap (λ t. t.expires_at) same),
        )
  ]

  mint_token_issued :
      (s : Issuer) (tok : IssuedToken)
      → (mint_token config services req signer_ip at s).0 ≡ issued tok
      → Minted s tok
  unfolding mint_token claims_for
  mint_token_issued s tok h =
      elim (Option-cases (tenant_lookup config services req signer_ip at s)) [
        | inl broken ↦ absurd (ground (arith, broken, h))
        | inr (known, e) ↦
            let (sign, decode, bearer, expires) =
              signed_issued
                (claims_for config services req signer_ip at (tenant_for_agent known req.agent_did))
                (record s { agent_tenant_lookup = some known }) tok (rw (e, mint_token) at h) in
            (known, e, sign, decode, bearer, expires)
      ]

  Minted-issued :
      (s : Issuer) (tok : IssuedToken)
      → Minted s tok
      → (mint_token config services req signer_ip at s).0 ≡ issued tok
  unfolding mint_token signed claims_for
  Minted-issued s tok (known, e, sign, decode, bearer, expires) =
      let made : IssuedToken = record {
        token = tok.token;
        token_type = "Bearer";
        expires_at = now_seconds at.mint_ms + config.jwt_ttl_seconds;
      } in
      let back =
        ReadBack-ledgered made (services.decode_jwt tok.token)
          (record s { agent_tenant_lookup = some known }) decode in
      let same : issued made ≡ issued tok = ground (arith, bearer, expires) in
      simp (e, mint_token) (simp (sign, signed) (back ∙ same))

  consumed_issued :
      (taken : Option ChallengeRecord) (s : Issuer) (tok : IssuedToken)
      → Ends config services req signer_ip at
          ((rec : ChallengeRecord) × (taken ≡ some rec)
            × Earned config services req signer_ip at rec)
          s
          (consumed config services req signer_ip at taken s)
      → (consumed config services req signer_ip at taken s).0 ≡ issued tok
      → ((rec : ChallengeRecord) × (taken ≡ some rec) × Earned config services req signer_ip at rec)
        × Minted s tok
  unfolding reject
  consumed_issued taken s tok (inl (d, detail, r, why, e)) h = absurd (ground (arith, e, h))
  consumed_issued taken s tok (inr (earned, e)) h =
      (earned, mint_token_issued s tok (sym (ap (λ x. x.0) e) ∙ h))

  -- A token is issued exactly when the algorithm of the request is supported, its nonce gives a
  -- challenge that has not expired, the challenge is the agent's own with the time that the request
  -- names, the key id is the agent's, and a key of the agent under that id, pinned or else read off its
  -- DID document, has the request's algorithm and verifies the signature of the challenge's text; and
  -- when the token of the resulting claims can be signed and, where there is a ledger, read back.
  pub issue_token-issued_iff :
      (s : Issuer) (tok : IssuedToken)
      → ((issue_token config services req signer_ip at s).0 ≡ issued tok) ↔ (
          (str_mem req.algorithm supported_signature_algorithms ≡ true)
          × Admitted config services req signer_ip at s
          × Minted (after_take config services req signer_ip at s) tok)
  unfolding issue_token reject
  issue_token-issued_iff s tok = (
    λ h. elim (Bool-cases (str_mem req.algorithm supported_signature_algorithms)) [
      | inr other ↦ absurd (
          ground (
            arith,
            ap (λ x. x.0) (issue_token_unsupported config services req signer_ip at s other),
            h,
          ))
      | inl known ↦
          let taken = (take req.nonce (now_seconds at.take_ms) s.challenges).0 in
          let (admitted, minted) =
            consumed_issued taken (after_take config services req signer_ip at s) tok
              (consumed-Ends config services req signer_ip at taken
                (after_take config services req signer_ip at s))
              (sym (ap (λ x. x.0) (issue_token_supported config services req signer_ip at s known))
                ∙ h) in
          (known, admitted, minted)
    ],
    λ (known, (rec, found, earned), minted).
        ap (λ x. x.0) (issue_token_supported config services req signer_ip at s known)
        ∙ ap
            (λ t.
              (consumed config services req signer_ip at t
                (after_take config services req signer_ip at s)).0)
            found
        ∙ ap (λ x. x.0)
            (consumed-mint_token config services req signer_ip at rec
              (after_take config services req signer_ip at s) earned)
        ∙ Minted-issued (after_take config services req signer_ip at s) tok minted,
  )
