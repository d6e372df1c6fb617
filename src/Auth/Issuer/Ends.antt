-- ===== src/Auth/Issuer/Ends.antt =====
-- How an attempt ends: in a refusal for a reason that is recorded, or at the mint.
use Prim.Native.String
use acdp_control_plane.Prelude.{
  ◌≡◌, ◌⊎◌, refl, sym, subst, String, Bool, true, false, Option, none, some, arith, str_eq, eq_iff,
  str_mem, ◌==◌, ==→eq, Bool-cases, Option-cases, inl, inr,
}
use acdp_control_plane.Auth.Challenges.{ChallengeRecord, take, now_seconds}
use acdp_control_plane.Auth.Ledger.{
  IssuanceDecision, reject_alg, reject_nonce, reject_agent_mismatch, reject_expires_mismatch,
  reject_unpinned, reject_key_id_mismatch, reject_key_id_malformed, reject_signature,
}
use acdp_control_plane.Auth.PinnedKeys.{PinnedKey}
use acdp_control_plane.Auth.PinnedKeys
use acdp_control_plane.Auth.Issuer.{
  TokenRequest, ResolvedKey, IssuerConfig, Services, Moments, Issuer, Attempt, Refusal,
  unauthorized, bad_request, invalid_signature, KeyBinding, bound, mismatched, malformed,
  supported_signature_algorithms, is_did_web, bind_key_id, reject, mint_token, with_key, resolved,
  unpinned, with_binding, consumed, issue_token, key_of_document,
}

-- The exception that goes with a decision.
abbrev pub explains : IssuanceDecision → Refusal → Bool
explains reject_alg bad_request = true
explains reject_alg unauthorized = true
explains reject_nonce unauthorized = true
explains reject_agent_mismatch unauthorized = true
explains reject_expires_mismatch unauthorized = true
explains reject_unpinned unauthorized = true
explains reject_key_id_mismatch unauthorized = true
explains reject_key_id_malformed unauthorized = true
explains reject_signature invalid_signature = true
explains _ _ = false

module _ (config : IssuerConfig) (services : Services) (req : TokenRequest)
    (signer_ip : Option String) (at : Moments) where
  -- The key is pinned and in its window; or none is, and a did:web agent's document names it.
  abbrev pub KeySource : String → PinnedKey → Type 0
  KeySource url key =
      (PinnedKeys.get config.pinned req.agent_did at.pin_ms ≡ some key)
      ⊎ ((PinnedKeys.get config.pinned req.agent_did at.pin_ms ≡ none)
          × (is_did_web req.agent_did ≡ true)
          × ((resolve : String → String → Option ResolvedKey) × (found : ResolvedKey)
              × (services.resolve_key ≡ some resolve)
              × (resolve url req.algorithm ≡ some found)
              × (key ≡ key_of_document config services req signer_ip at found)))

  abbrev pub Checks : ChallengeRecord → PinnedKey → Type 0
  Checks rec key =
      (req.algorithm ≡ key.algorithm)
      × (services.verify_signature_b64 key.algorithm key.raw_b64 rec.signing_input req.signature
          ≡ true)

  abbrev pub Keyed : ChallengeRecord → String → Type 0
  Keyed rec url = (key : PinnedKey) × KeySource url key × Checks rec key

  -- The challenge is the agent's own with the time that it names, and the key of the named id, whose
  -- algorithm the request has, verifies the signature of the challenge's text.
  abbrev pub Earned : ChallengeRecord → Type 0
  Earned rec =
      (rec.agent_did ≡ req.agent_did)
      × (rec.expires_at ≡ req.expires_at)
      × ((url : String) × (bind_key_id req.agent_did req.key_id ≡ bound url) × Keyed rec url)

  -- A step refuses, for a reason that is recorded, or goes on to mint.
  abbrev pub Ends : Type 0 → Issuer → Attempt × Issuer → Type 0
  Ends P s out =
      ((d : IssuanceDecision) × (detail : Option String) × (r : Refusal) × (explains d r ≡ true)
        × (out ≡ reject config services req signer_ip at d detail r s))
      ⊎ (P × (out ≡ mint_token config services req signer_ip at s))

  map-Ends :
      {P Q : Type 0} (s : Issuer) (out : Attempt × Issuer) → (P → Q) → Ends P s out → Ends Q s out
  map-Ends s out f (inl refusal) = inl refusal
  map-Ends s out f (inr (p, e)) = inr (f p, e)

  with_key-mint_token :
      (rec : ChallengeRecord) (key : PinnedKey) (s : Issuer)
      → Checks rec key
      → with_key config services req signer_ip at rec key s
        ≡ mint_token config services req signer_ip at s
  unfolding with_key
  with_key-mint_token rec key s (same, good) =
      let equal : str_eq req.algorithm key.algorithm ≡ true =
        (eq_iff req.algorithm key.algorithm).1 same in
      rw (equal, good, with_key) refl

  with_key-Ends :
      (rec : ChallengeRecord) (key : PinnedKey) (s : Issuer)
      → Ends (Checks rec key) s (with_key config services req signer_ip at rec key s)
  unfolding with_key
  with_key-Ends rec key s = elim (Bool-cases (str_eq req.algorithm key.algorithm)) [
    | inr other ↦ rw (other, with_key) (inl (reject_alg, _, unauthorized, refl, refl))
    | inl same ↦
        elim (Bool-cases (
          services.verify_signature_b64 key.algorithm key.raw_b64 rec.signing_input
            req.signature)) [
              | inr bad ↦
                  inl
                    (reject_signature, none, invalid_signature, refl, rw (same, bad, with_key) refl)
              | inl good ↦
                  let checks : Checks rec key =
                    ((eq_iff req.algorithm key.algorithm).0 same, good) in
                  inr (checks, with_key-mint_token rec key s checks)
            ]
  ]

  -- Where no key is pinned.
  abbrev FromDocument : ChallengeRecord → String → Type 0
  FromDocument rec url =
      (is_did_web req.agent_did ≡ true)
      × ((resolve : String → String → Option ResolvedKey) × (found : ResolvedKey)
          × (services.resolve_key ≡ some resolve)
          × (resolve url req.algorithm ≡ some found)
          × Checks rec (key_of_document config services req signer_ip at found))

  resolved-Ends :
      (rec : ChallengeRecord) (found : Option ResolvedKey) (s : Issuer)
      → Ends
          ((k : ResolvedKey) × (found ≡ some k)
            × Checks rec (key_of_document config services req signer_ip at k))
          s
          (resolved config services req signer_ip at rec found s)
  unfolding resolved
  resolved-Ends rec none s = inl (reject_unpinned, _, unauthorized, refl, refl)
  resolved-Ends rec (some k) s =
      map-Ends s _ (λ c. (k, refl, c))
        (with_key-Ends rec (key_of_document config services req signer_ip at k) s)

  unpinned-Ends :
      (rec : ChallengeRecord) (url : String)
      (resolve_key : Option (String → String → Option ResolvedKey)) (s : Issuer)
      → services.resolve_key ≡ resolve_key
      → Ends
          (FromDocument rec url)
          s
          (unpinned config services req signer_ip at rec url resolve_key s)
  unfolding unpinned
  unpinned-Ends rec url none s e = inl (reject_unpinned, _, unauthorized, refl, refl)
  unpinned-Ends rec url (some resolve) s e = elim (Bool-cases (is_did_web req.agent_did)) [
    | inr other ↦ inl (reject_unpinned, none, unauthorized, refl, rw (other, unpinned) refl)
    | inl web ↦ subst (Ends (FromDocument rec url) s) (rw (web, unpinned) refl) (
        map-Ends s _ (λ (k, found, c). (web, (resolve, k, e, found, c)))
          (resolved-Ends rec (resolve url req.algorithm) s))
  ]

  with_binding-Ends :
      (rec : ChallengeRecord) (b : KeyBinding) (s : Issuer)
      → Ends
          ((url : String) × (b ≡ bound url) × Keyed rec url)
          s
          (with_binding config services req signer_ip at rec b s)
  unfolding with_binding
  with_binding-Ends rec mismatched s = inl (reject_key_id_mismatch, _, unauthorized, refl, refl)
  with_binding-Ends rec malformed s = inl (reject_key_id_malformed, _, unauthorized, refl, refl)
  with_binding-Ends rec (bound url) s =
      elim (Option-cases (PinnedKeys.get config.pinned req.agent_did at.pin_ms)) [
        | inl absent ↦
            subst (Ends ((u : String) × (bound url ≡ bound u) × Keyed rec u) s)
              (rw (absent, with_binding) refl)
              (map-Ends s _
                (λ (web, (resolve, k, e, found, c)). (
                  url,
                  refl,
                  (
                    key_of_document config services req signer_ip at k,
                    inr (absent, web, (resolve, k, e, found, refl)),
                    c,
                  ),
                ))
                (unpinned-Ends rec url services.resolve_key s refl))
        | inr (key, e) ↦
            subst (Ends ((u : String) × (bound url ≡ bound u) × Keyed rec u) s)
              (rw (e, with_binding) refl)
              (map-Ends s _ (λ c. (url, refl, (key, inl e, c))) (with_key-Ends rec key s))
      ]

  pub consumed-Ends :
      (taken : Option ChallengeRecord) (s : Issuer)
      → Ends
          ((rec : ChallengeRecord) × (taken ≡ some rec) × Earned rec)
          s
          (consumed config services req signer_ip at taken s)
  unfolding consumed
  consumed-Ends none s = inl (reject_nonce, _, unauthorized, refl, refl)
  consumed-Ends (some rec) s = elim (Bool-cases (str_eq rec.agent_did req.agent_did)) [
    | inr other ↦ rw (other, consumed) (inl (reject_agent_mismatch, _, unauthorized, refl, refl))
    | inl own ↦ elim (Bool-cases (rec.expires_at == req.expires_at)) [
      | inr other ↦
          rw (own, other, consumed) (inl (reject_expires_mismatch, _, unauthorized, refl, refl))
      | inl same ↦
          subst (Ends ((r : ChallengeRecord) × (some rec ≡ some r) × Earned r) s)
            (rw (own, same, consumed) refl)
            (map-Ends s _
              (λ (url, b, keyed). (
                rec,
                refl,
                (
                  (eq_iff rec.agent_did req.agent_did).0 own,
                  ==→eq rec.expires_at req.expires_at same,
                  (url, b, keyed),
                ),
              ))
              (with_binding-Ends rec (bind_key_id req.agent_did req.key_id) s))
    ]
  ]

  -- The state from the consumed challenge on.
  abbrev pub after_take : Issuer → Issuer
  after_take s = record s { challenges = (take req.nonce (now_seconds at.take_ms) s.challenges).1 }

  abbrev pub Admitted : Issuer → Type 0
  Admitted s =
      (rec : ChallengeRecord) × ((take req.nonce (now_seconds at.take_ms) s.challenges).0
        ≡ some rec)
      × Earned rec

  pub issue_token_unsupported :
      (s : Issuer)
      → str_mem req.algorithm supported_signature_algorithms ≡ false
      → issue_token config services req signer_ip at s
        ≡ reject config services req signer_ip at reject_alg
            (some (String.◌++◌ "algorithm=" req.algorithm))
            bad_request
            s
  unfolding issue_token
  issue_token_unsupported s h = simp (h, issue_token)

  pub issue_token_supported :
      (s : Issuer)
      → str_mem req.algorithm supported_signature_algorithms ≡ true
      → issue_token config services req signer_ip at s
        ≡ consumed config services req signer_ip at
            (take req.nonce (now_seconds at.take_ms) s.challenges).0
            (after_take s)
  unfolding issue_token
  issue_token_supported s h = simp (h, issue_token)

  -- How an attempt ends, by the support of its algorithm.
  pub issue_token-Ends :
      (s : Issuer)
      → ((str_mem req.algorithm supported_signature_algorithms ≡ false)
          × (issue_token config services req signer_ip at s
              ≡ reject config services req signer_ip at reject_alg
                  (some (String.◌++◌ "algorithm=" req.algorithm))
                  bad_request
                  s))
        ⊎ ((str_mem req.algorithm supported_signature_algorithms ≡ true)
            × Ends (Admitted s) (after_take s) (issue_token config services req signer_ip at s))
  issue_token-Ends s = elim (Bool-cases (str_mem req.algorithm supported_signature_algorithms)) [
    | inr other ↦ inl (other, issue_token_unsupported s other)
    | inl known ↦ inr (
      known,
      subst (Ends (Admitted s) (after_take s)) (sym (issue_token_supported s known))
          (consumed-Ends (take req.nonce (now_seconds at.take_ms) s.challenges).0 (after_take s)),
    )
  ]

  Keyed-mint_token :
      (rec : ChallengeRecord) (url : String) (s : Issuer)
      → Keyed rec url
      → with_binding config services req signer_ip at rec (bound url) s
        ≡ mint_token config services req signer_ip at s
  unfolding with_binding unpinned resolved
  Keyed-mint_token rec url s (key, inl pinned, checks) =
      rw (pinned, with_binding) (with_key-mint_token rec key s checks)
  Keyed-mint_token rec url s (key, inr (absent, web, (resolve, found, e, f, same)), checks) =
      let made : Checks rec (key_of_document config services req signer_ip at found) =
        subst (Checks rec) same checks in
      simp (absent, e, web, f, with_binding, unpinned, resolved)
        (with_key-mint_token rec (key_of_document config services req signer_ip at found) s made)

  pub consumed-mint_token :
      (rec : ChallengeRecord) (s : Issuer)
      → Earned rec
      → consumed config services req signer_ip at (some rec) s
        ≡ mint_token config services req signer_ip at s
  unfolding consumed
  consumed-mint_token rec s (agent, expires, (url, b, keyed)) =
      let own : str_eq rec.agent_did req.agent_did ≡ true =
        (eq_iff rec.agent_did req.agent_did).1 agent in
      let same : (rec.expires_at == req.expires_at) ≡ true = ground (arith, expires) in
      simp (own, same, b, consumed) (Keyed-mint_token rec url s keyed)
