-- ===== src/Auth/Issuer/Nonce.antt =====
-- A nonce is good for one attempt, in any history of the token service.
use Prim.Native.String
use acdp_control_plane.Prelude.{
  ℕ, ◌≡◌, ◌≢◌, refl, ◌∙◌, ap, String, List, [], ◌∷◌, true, Option, none, some, arith, str_mem, All,
  if◌then◌else◌, Bool-cases, Option-cases, inl, inr,
}
use acdp_control_plane.Prelude.OrderedMap.{lookup}
use acdp_control_plane.Auth.Challenges.{take, evict_expired, now_seconds}
use acdp_control_plane.Auth.Challenges.OneTime
use acdp_control_plane.Auth.Challenges.OneTime.{putting, taking, evicting}
use acdp_control_plane.Auth.Issuer.Ends.{issue_token-Ends, after_take}
use acdp_control_plane.Auth.Ledger.{reject_alg, IssuanceDecision, IssuanceLedgerEntry}
use acdp_control_plane.Auth.Issuer.{
  TokenRequest, IssuedToken, AcdpBearerClaims, IssuerConfig, Services, Moments, Issuer, Refusal,
  refused, unauthorized, bad_request, supported_signature_algorithms, issue_challenge, recorded,
  reject, ledgered, signed, mint_token, tenant_lookup, consumed, issue_token,
}

-- What the service is asked to do; `swept` is the sweeper of expired challenges.
pub data Event : Type 0 where
  challenged : String → String → ℕ → Event
  asked : TokenRequest → Option String → Moments → Event
  swept : ℕ → Event

module _ (config : IssuerConfig) (services : Services) where
  unfoldable pub step : Event → Issuer → Issuer
  step (challenged agent nonce now_ms) s = (issue_challenge config services agent nonce now_ms s).1
  step (asked req signer_ip at) s = (issue_token config services req signer_ip at s).1
  step (swept now) s = record s { challenges = (evict_expired now s.challenges).1 }

  -- Latest event first.
  unfoldable pub run : List Event → Issuer → Issuer
  unfolding step
  run [] s = s
  run (e ∷ past) s = step e (run past s)

  -- No challenge is issued with this nonce.
  abbrev pub NotIssued : String → Event → Type 0
  NotIssued nonce (challenged agent drawn now_ms) = drawn ≢ nonce
  NotIssued nonce _ = Unit

  recorded_challenges :
      (e : IssuanceLedgerEntry) (s : Issuer)
      → (recorded config services e s).challenges ≡ s.challenges
  unfolding recorded
  recorded_challenges e s = ground arith

  module _ (req : TokenRequest) (signer_ip : Option String) (at : Moments) where
    reject_challenges :
        (d : IssuanceDecision) (detail : Option String) (r : Refusal) (s : Issuer)
        → (reject config services req signer_ip at d detail r s).1.challenges ≡ s.challenges
    unfolding reject
    reject_challenges d detail r s = recorded_challenges _ s

    ledgered_challenges :
        (token : IssuedToken) (c : Option AcdpBearerClaims) (s : Issuer)
        → (ledgered config services req signer_ip at token c s).1.challenges ≡ s.challenges
    unfolding ledgered
    ledgered_challenges token none s = refl
    ledgered_challenges token (some c) s = recorded_challenges _ s

    signed_challenges :
        (claims : AcdpBearerClaims) (s : Issuer)
        → (signed config services req signer_ip at claims s).1.challenges ≡ s.challenges
    unfolding signed
    signed_challenges claims s = elim (Option-cases (services.sign_jwt claims)) [
      | inl fails ↦ rw (fails, signed) refl
      | inr (token, e) ↦ rw (e, signed) (ledgered_challenges _ (services.decode_jwt token) s)
    ]

    mint_challenges :
        (s : Issuer) → (mint_token config services req signer_ip at s).1.challenges ≡ s.challenges
    unfolding mint_token
    mint_challenges s = elim (Option-cases (tenant_lookup config services req signer_ip at s)) [
      | inl broken ↦ rw (broken, mint_token) refl
      | inr (known, e) ↦ rw (e, mint_token) (signed_challenges _ _)
    ]

    -- An attempt does to the challenges nothing, or what `take` does.
    issue_challenges :
        (s : Issuer)
        → (issue_token config services req signer_ip at s).1.challenges ≡ (
            if str_mem req.algorithm supported_signature_algorithms
            then (take req.nonce (now_seconds at.take_ms) s.challenges).1
            else s.challenges)
    issue_challenges s = elim (issue_token-Ends config services req signer_ip at s) [
      | inl (other, e) ↦
          ap (λ x. x.1.challenges) e
          ∙ reject_challenges reject_alg (some (String.◌++◌ "algorithm=" req.algorithm)) bad_request
              s
          ∙ rw other refl
      | inr (known, inl (d, detail, r, why, e)) ↦
          ap (λ x. x.1.challenges) e
          ∙ reject_challenges d detail r (after_take config services req signer_ip at s)
          ∙ rw known refl
      | inr (known, inr (admitted, e)) ↦
          ap (λ x. x.1.challenges) e
          ∙ mint_challenges (after_take config services req signer_ip at s)
          ∙ rw known refl
    ]

    -- A nonce that is not there is refused.
    missing_refused :
        (s : Issuer)
        → lookup req.nonce s.challenges ≡ none
        → (issue_token config services req signer_ip at s).0
          ≡ refused (
              if str_mem req.algorithm supported_signature_algorithms
              then unauthorized
              else bad_request)
    unfolding issue_token consumed reject
    missing_refused s gone =
        let none_taken : (take req.nonce (now_seconds at.take_ms) s.challenges).0 ≡ none =
          OneTime.take_missing req.nonce (now_seconds at.take_ms) s.challenges gone in
        elim (Bool-cases (str_mem req.algorithm supported_signature_algorithms)) [
          | inr other ↦ simp (other, issue_token)
          | inl known ↦ simp (known, none_taken, issue_token, consumed)
        ]

  kept_missing :
      (nonce : String) (req : TokenRequest) (at : Moments) (s : Issuer)
      → lookup nonce s.challenges ≡ none
      → lookup nonce (
          if str_mem req.algorithm supported_signature_algorithms
          then (take req.nonce (now_seconds at.take_ms) s.challenges).1
          else s.challenges)
        ≡ none
  unfolding OneTime.step
  kept_missing nonce req at s gone =
      elim (Bool-cases (str_mem req.algorithm supported_signature_algorithms)) [
        | inr other ↦ rw other gone
        | inl known ↦ rw known (
            OneTime.step-none nonce (taking req.nonce (now_seconds at.take_ms)) s.challenges tt
              gone)
      ]

  step_missing :
      (nonce : String) (e : Event) (s : Issuer)
      → NotIssued nonce e
      → lookup nonce s.challenges ≡ none
      → lookup nonce (step e s).challenges ≡ none
  unfolding step issue_challenge OneTime.step
  step_missing nonce (challenged agent drawn now_ms) s other gone =
      OneTime.step-none nonce (putting (issue_challenge config services agent drawn now_ms s).0)
        s.challenges other gone
  step_missing nonce (swept now) s other gone =
      OneTime.step-none nonce (evicting now) s.challenges tt gone
  step_missing nonce (asked req signer_ip at) s other gone =
      ap (lookup nonce) (issue_challenges req signer_ip at s) ∙ kept_missing nonce req at s gone

  run_missing :
      (nonce : String) (past : List Event) (s : Issuer)
      → All (NotIssued nonce) past
      → lookup nonce s.challenges ≡ none
      → lookup nonce (run past s).challenges ≡ none
  unfolding run
  run_missing nonce [] s other gone = gone
  run_missing nonce (e ∷ past) s (o, other) gone =
      step_missing nonce e (run past s) o (run_missing nonce past s other gone)

  -- An attempt with a supported algorithm uses its nonce up, whatever comes of it: after any challenges
  -- with other nonces, attempts and sweeps, every attempt with that nonce is refused, by 401 or, if its
  -- algorithm is not supported, by 400.
  pub nonce_used_up :
      (req : TokenRequest) (signer_ip : Option String) (at : Moments) (s : Issuer)
      (past : List Event) (again : TokenRequest) (again_ip : Option String) (later : Moments)
      → str_mem req.algorithm supported_signature_algorithms ≡ true
      → All (NotIssued req.nonce) past
      → again.nonce ≡ req.nonce
      → (issue_token config services again again_ip later
          (run past (issue_token config services req signer_ip at s).1)).0
        ≡ refused (
            if str_mem again.algorithm supported_signature_algorithms
            then unauthorized
            else bad_request)
  nonce_used_up req signer_ip at s past again again_ip later known other same =
      missing_refused again again_ip later _ (
        ap (λ n. lookup n (run past (issue_token config services req signer_ip at s).1).challenges)
          same
        ∙ run_missing req.nonce past (issue_token config services req signer_ip at s).1 other (
            ap (lookup req.nonce) (issue_challenges req signer_ip at s)
            ∙ rw known (OneTime.lookup-take_self req.nonce (now_seconds at.take_ms) s.challenges)))
