-- ===== src/Auth/Poller/Own.antt =====
-- The polls of a started control plane leave its own tokens alone.
use acdp_control_plane.Prelude.{
  ◌≡◌, ◌≢◌, ◌⊎◌, refl, sym, ap, subst, ◌∙◌, inl, inr, String, List, [], ◌∷◌, Bool, true, false,
  arith, if◌then◌else◌, Option, eq_iff, All, Json,
}
use acdp_control_plane.Auth.Feeds.{
  JsNumber, RevocationFeedConfig, ParsedFeeds, feeds, threw, parse_revocation_feeds,
}
use acdp_control_plane.Auth.Revocations.{get}
use acdp_control_plane.Auth.Poller.{Surroundings, Poller, poll_feed}
use acdp_control_plane.Auth.Poller.Start.{
  own_authority, started, has_issuer, resume, on_module_init, start,
}
use acdp_control_plane.Auth.Poller.Confined.{has_nul, poll_feed_confined}

-- The feed is one of the list.
abbrev pub Polled : RevocationFeedConfig → List RevocationFeedConfig → Type 0
Polled f [] = ⊥
Polled f (g ∷ fs) = (f ≡ g) ⊎ Polled f fs

not_own :
    (authority : String) (f : RevocationFeedConfig) (fs : List RevocationFeedConfig)
    → has_issuer authority fs ≡ false
    → Polled f fs
    → authority ≢ f.issuer
not_own authority f [] h l = elim l [ ]
not_own authority f (g ∷ fs) h (inl e) =
    λ same. ground (arith, h, (eq_iff g.issuer authority).1 (sym (same ∙ ap (λ x. x.issuer) e)))
not_own authority f (g ∷ fs) h (inr l) = not_own authority f fs (ground (arith, h)) l

revocations-resume :
    (cursor_throws : String → Bool) (fs : List RevocationFeedConfig) (p : Poller)
    → (resume cursor_throws fs p).revocations ≡ p.revocations
unfolding resume
revocations-resume cursor_throws [] p = refl
revocations-resume cursor_throws (f ∷ fs) p = revocations-resume cursor_throws fs _

began :
    (own : Bool) (gs fs : List RevocationFeedConfig) (p q : Poller)
    → (if own then own_authority else started gs p) ≡ started fs q
    → (own ≡ false) × (gs ≡ fs) × (p ≡ q)
began true gs fs p q h = absurd (ground (arith, h))
began false gs fs p q h = (refl, ground (arith, h), ground (arith, h))

start_parts :
    (cursor_throws : String → Bool) (authority : String) (p q : Poller) (parsed : ParsedFeeds)
    (fs : List RevocationFeedConfig)
    → start cursor_throws authority p parsed ≡ started fs q
    → (has_issuer authority fs ≡ false) × (q.revocations ≡ p.revocations)
unfolding start
start_parts cursor_throws authority p q (threw error) fs h = absurd (ground (arith, h))
start_parts cursor_throws authority p q (feeds configured) fs h =
    let (free, same, made) =
      began (has_issuer authority configured) configured fs (resume cursor_throws configured p) q
        h in
    (
      subst (λ gs. has_issuer authority gs ≡ false) same free,
      subst (λ s. s.revocations ≡ p.revocations) made
          (revocations-resume cursor_throws configured p),
    )

Bare-Polled :
    (f : RevocationFeedConfig) (fs : List RevocationFeedConfig)
    → All (λ g. has_nul g.issuer ≡ false) fs
    → Polled f fs
    → has_nul f.issuer ≡ false
Bare-Polled f [] h l = elim l [ ]
Bare-Polled f (g ∷ fs) (p, h) (inl e) = subst (λ x. has_nul x.issuer ≡ false) (sym e) p
Bare-Polled f (g ∷ fs) (p, h) (inr l) = Bare-Polled f fs h l

module _ (to_number : Option Json → JsNumber) (to_lower_case : String → String)
    (is_development : Bool) where
  -- Polls of any feeds, in any order, each in surroundings of its own; the first comes first.
  unfoldable pub poll_each : List (RevocationFeedConfig × Surroundings) → Poller → Poller
  poll_each [] p = p
  poll_each ((feed, w) ∷ polls) p =
      poll_each polls (poll_feed to_number to_lower_case is_development feed w p).1

  each_own :
      (authority jti : String) (fs : List RevocationFeedConfig)
      (polls : List (RevocationFeedConfig × Surroundings)) (q : Poller)
      → has_issuer authority fs ≡ false
      → All (λ f. has_nul f.issuer ≡ false) fs
      → has_nul authority ≡ false
      → All (λ e. Polled e.0 fs) polls
      → get authority jti (poll_each polls q).revocations ≡ get authority jti q.revocations
  unfolding poll_each
  each_own authority jti fs [] q free bare plain known = refl
  each_own authority jti fs ((feed, w) ∷ polls) q free bare plain (k, known) =
      each_own authority jti fs polls _ free bare plain known
      ∙ poll_feed_confined to_number to_lower_case is_development feed w q authority jti
          (Bare-Polled feed fs bare k) plain (not_own authority feed fs free k)

  -- Once the poller has started, no polls of its feeds, in any order and whatever the peers answer,
  -- change anything of the revocations of the control plane's own tokens; the issuers hold no NUL.
  pub own_tokens_kept :
      (number_of : String → JsNumber) (cursor_throws : String → Bool) (authority raw jti : String)
      (fs : List RevocationFeedConfig) (polls : List (RevocationFeedConfig × Surroundings))
      (p q : Poller)
      → on_module_init number_of cursor_throws authority raw p ≡ started fs q
      → All (λ f. has_nul f.issuer ≡ false) fs
      → has_nul authority ≡ false
      → All (λ e. Polled e.0 fs) polls
      → get authority jti (poll_each polls q).revocations ≡ get authority jti p.revocations
  unfolding on_module_init
  own_tokens_kept number_of cursor_throws authority raw jti fs polls p q h bare plain known =
      let (free, same) =
        start_parts cursor_throws authority p q (parse_revocation_feeds number_of raw) fs h in
      each_own authority jti fs polls q free bare plain known ∙ ap (get authority jti) same
