-- ===== src/Auth/Issuer/Trail.antt =====
-- What an attempt writes to the ledger.
use acdp_control_plane.Prelude.{
  ◌≡◌, ◌⊎◌, refl, sym, subst, String, List, true, Option, none, some, arith, Option-cases, inl, inr,
}
use acdp_control_plane.Auth.Ledger.{
  IssuanceDecision, mint, reject_alg, IssuanceLedgerEntry, Link, record_memory,
}
use acdp_control_plane.Tenant.Agents.{tenant_for_agent}
use acdp_control_plane.Auth.Issuer.{
  TokenRequest, IssuedToken, AcdpBearerClaims, IssuerConfig, Services, Moments, Issuer, Attempt,
  Refusal, issued, refused, internal, bad_request, recorded, reject, ledgered, signed, mint_token,
  tenant_lookup, claims_for, issue_token,
}
use acdp_control_plane.Auth.Issuer.Ends.{explains, issue_token-Ends, Ends, Admitted, after_take}

-- The decision of a row and the outcome of its attempt fit.
abbrev pub Fits : IssuanceDecision → Attempt → Type 0
Fits d (issued tok) = d ≡ mint
Fits d (refused r) = explains d r ≡ true

module _ (config : IssuerConfig) (services : Services) (req : TokenRequest)
    (signer_ip : Option String) (at : Moments) (with_ledger : config.with_ledger ≡ true) where
  -- One row is added, whose decision fits the outcome.
  abbrev pub Noted : List Link → Attempt × Issuer → Type 0
  Noted before out =
      (e : IssuanceLedgerEntry) × (out.1.ledger
        ≡ record_memory services.sha256_hex services.decimal e before)
      × Fits e.decision out.0

  -- The same, or the attempt ended in an internal error, and nothing is added.
  abbrev pub Trail : List Link → Attempt × Issuer → Type 0
  Trail before out = Noted before out ⊎ ((out.0 ≡ refused internal) × (out.1.ledger ≡ before))

  recorded_ledger :
      (e : IssuanceLedgerEntry) (s : Issuer)
      → (recorded config services e s).ledger
        ≡ record_memory services.sha256_hex services.decimal e s.ledger
  unfolding recorded
  recorded_ledger e s = ground (arith, with_ledger)

  reject-Noted :
      (d : IssuanceDecision) (detail : Option String) (r : Refusal) (s : Issuer)
      → explains d r ≡ true
      → Noted s.ledger (reject config services req signer_ip at d detail r s)
  unfolding reject
  reject-Noted d detail r s why = (_, recorded_ledger _ s, why)

  ledgered-Trail :
      (token : IssuedToken) (c : Option AcdpBearerClaims) (s : Issuer)
      → Trail s.ledger (ledgered config services req signer_ip at token c s)
  unfolding ledgered
  ledgered-Trail token none s = inr (rw with_ledger refl, refl)
  ledgered-Trail token (some c) s = inl (_, recorded_ledger _ s, refl)

  signed-Trail :
      (claims : AcdpBearerClaims) (s : Issuer)
      → Trail s.ledger (signed config services req signer_ip at claims s)
  unfolding signed
  signed-Trail claims s = elim (Option-cases (services.sign_jwt claims)) [
    | inl fails ↦ rw (fails, signed) (inr (refl, refl))
    | inr (token, e) ↦ rw (e, signed) (ledgered-Trail _ (services.decode_jwt token) s)
  ]

  mint-Trail : (s : Issuer) → Trail s.ledger (mint_token config services req signer_ip at s)
  unfolding mint_token
  mint-Trail s = elim (Option-cases (tenant_lookup config services req signer_ip at s)) [
    | inl broken ↦ rw (broken, mint_token) (inr (refl, refl))
    | inr (known, e) ↦
        rw (e, mint_token)
          (signed-Trail
            (claims_for config services req signer_ip at (tenant_for_agent known req.agent_did))
            (record s { agent_tenant_lookup = some known }))
  ]

  Ends-Trail :
      (s : Issuer) (out : Attempt × Issuer)
      → Ends config services req signer_ip at
          (Admitted config services req signer_ip at s)
          (after_take config services req signer_ip at s)
          out
      → Trail s.ledger out
  Ends-Trail s out (inl (d, detail, r, why, e)) = inl (
      subst (Noted s.ledger) (sym e)
        (reject-Noted d detail r (after_take config services req signer_ip at s) why))
  Ends-Trail s out (inr (admitted, e)) =
      subst (Trail s.ledger) (sym e) (mint-Trail (after_take config services req signer_ip at s))

  -- Where the ledger is there, every attempt adds one row to it, `mint` if a token is issued and else the decision that
  -- goes with its exception; only an attempt that ends in an internal error, while it mints, adds none.
  pub issue_token-Trail :
      (s : Issuer) → Trail s.ledger (issue_token config services req signer_ip at s)
  issue_token-Trail s = elim (issue_token-Ends config services req signer_ip at s) [
    | inl (other, e) ↦
        inl (subst (Noted s.ledger) (sym e) (reject-Noted reject_alg _ bad_request s refl))
    | inr (known, ends) ↦ Ends-Trail s (issue_token config services req signer_ip at s) ends
  ]
