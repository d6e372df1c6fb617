-- ===== src/Auth/Feeds/Valid.antt =====
-- What every parsed feed is.
use acdp_control_plane.Prelude.{
  ℕ, ◌≤◌, ◌≡◌, ◌⊎◌, refl, sym, subst, inl, inr, String, List, [], ◌∷◌, ◌++◌, Bool, true, false,
  ◌||◌, not, Option, none, some, arith, if◌then◌else◌, str_eq, str_mem, eq_refl, eq_iff, Bool-cases,
  All, split_on,
}
use acdp_control_plane.Auth.Feeds.{
  JsNumber, not_finite, negative, fraction, whole, is_finite, below_one, floor,
  RevocationFeedConfig, RevocationFeedError, empty_field, not_http, duplicate_issuer,
  bad_poll_seconds, feeds, trimmed, is_http, fourth, poll_seconds_of, parse_entry, parse_entries,
  parse_revocation_feeds,
}

-- All three fields are given, the URL is http(s), and the interval is a second at least.
pub record IsFeed (f : RevocationFeedConfig) : Type 0 where
  pub has_issuer : str_eq f.issuer "" ≡ false
  pub has_url : is_http f.feed_url ≡ true
  pub has_token : str_eq f.admin_token "" ≡ false
  pub has_interval : 1 ≤ f.poll_seconds

-- No two feeds have one issuer.
abbrev pub Distinct : List RevocationFeedConfig → Type 0
Distinct [] = Unit
Distinct (f ∷ fs) = All (λ g. str_eq g.issuer f.issuer ≡ false) fs × Distinct fs

both_given : (a b c : Bool) → (a || b || c) ≡ false → (a ≡ false) × (c ≡ false)
both_given a b c h = ground (arith, h)

-- The checks that an entry has passed.
parsed_parts :
    (missing http seen : Bool) (seconds : Option ℕ) (make : ℕ → RevocationFeedConfig)
    (f : RevocationFeedConfig)
    → ◌≡◌ {A = RevocationFeedError ⊎ RevocationFeedConfig}
        (if missing
          then inl empty_field
          else if not http
          then inl not_http
          else if seen
          then inl duplicate_issuer
          else elim seconds [ none ↦ inl bad_poll_seconds | some n ↦ inr (make n) ])
        (inr f)
    → (missing ≡ false)
      × (http ≡ true)
      × (seen ≡ false)
      × ((n : ℕ) × (seconds ≡ some n) × (make n ≡ f))
parsed_parts true http seen seconds make f h = absurd (ground (arith, h))
parsed_parts false false seen seconds make f h = absurd (ground (arith, h))
parsed_parts false true true seconds make f h = absurd (ground (arith, h))
parsed_parts false true false none make f h = absurd (ground (arith, h))
parsed_parts false true false (some n) make f h = (refl, refl, refl, (n, refl, cc h))

All-snoc {ℓ κ} :
    {A : Type ℓ} (P : A → Type κ) (xs : List A) (x : A) → All P xs → P x → All P (xs ++ x ∷ [])
All-snoc P [] x h p = (p, tt)
All-snoc P (y ∷ xs) x (q, h) p = (q, All-snoc P xs x h p)

Distinct-snoc :
    (fs : List RevocationFeedConfig) (f : RevocationFeedConfig)
    → Distinct fs
    → All (λ g. str_eq f.issuer g.issuer ≡ false) fs
    → Distinct (fs ++ f ∷ [])
Distinct-snoc [] f d h = (tt, tt)
Distinct-snoc (g ∷ fs) f (p, d) (q, h) =
    (All-snoc (λ k. str_eq k.issuer g.issuer ≡ false) fs f p q, Distinct-snoc fs f d h)

All-map {ℓ κ μ} :
    {A : Type ℓ} (P : A → Type κ) (Q : A → Type μ) (xs : List A)
    → ((x : A) → P x → Q x)
    → All P xs
    → All Q xs
All-map P Q [] f h = tt
All-map P Q (x ∷ xs) f (p, h) = (f x p, All-map P Q xs f h)

apart :
    (new old : String) (seen : List String)
    → str_mem new seen ≡ false
    → str_mem old seen ≡ true
    → str_eq new old ≡ false
apart new old seen h k = elim (Bool-cases (str_eq new old)) [
  | inl same ↦
      absurd
        (ground (arith, h, subst (λ s. str_mem s seen ≡ true) (sym ((eq_iff new old).0 same)) k))
  | inr other ↦ other
]

still_seen :
    (new old : String) (seen : List String)
    → str_mem old seen ≡ true
    → str_mem old (new ∷ seen) ≡ true
still_seen new old seen h = ground (arith, h)

now_seen : (new : String) (seen : List String) → str_mem new (new ∷ seen) ≡ true
now_seen new seen = ground (arith, eq_refl new)

Sum-cases {ℓ κ} :
    {A : Type ℓ} {B : Type κ} (o : A ⊎ B) → ((a : A) × (o ≡ inl a)) ⊎ ((b : B) × (o ≡ inr b))
Sum-cases (inl a) = inl (a, refl)
Sum-cases (inr b) = inr (b, refl)

module _ (to_number : String → JsNumber) where
  floor_pos : (n : JsNumber) → (not (is_finite n) || below_one n) ≡ false → 1 ≤ floor n
  floor_pos not_finite h = ground (arith, h)
  floor_pos negative h = ground (arith, h)
  floor_pos (fraction n) h = ground (arith, h)
  floor_pos (whole n) h = ground (arith, h)

  poll_seconds_pos :
      (raw : Option String) (seconds : ℕ)
      → poll_seconds_of to_number raw ≡ some seconds
      → 1 ≤ seconds
  unfolding poll_seconds_of
  poll_seconds_pos none seconds h = ground (arith, h)
  poll_seconds_pos (some raw) seconds h = elim (Bool-cases (str_eq raw "")) [
    | inl empty ↦ ground (arith, h, empty)
    | inr given ↦ elim (Bool-cases (not (is_finite (to_number raw)) || below_one (to_number raw))) [
      | inl bad ↦ absurd (ground (arith, given, bad, h))
      | inr good ↦ ground (arith, given, good, h, floor_pos (to_number raw) good)
    ]
  ]

  parse_entry-IsFeed :
      (seen parts : List String) (f : RevocationFeedConfig)
      → parse_entry to_number seen parts ≡ inr f
      → IsFeed f × (str_mem f.issuer seen ≡ false)
  unfolding parse_entry
  parse_entry-IsFeed seen [] f h = absurd (ground (arith, h))
  parse_entry-IsFeed seen (issuer ∷ []) f h = absurd (ground (arith, h))
  parse_entry-IsFeed seen (issuer ∷ url ∷ []) f h = absurd (ground (arith, h))
  parse_entry-IsFeed seen (issuer ∷ url ∷ token ∷ more) f h =
      let (given, http, new, (seconds, read, same)) =
        parsed_parts (str_eq issuer "" || str_eq url "" || str_eq token "") (is_http url)
          (str_mem issuer seen) (poll_seconds_of to_number (fourth more))
          (λ s. record { issuer = issuer; feed_url = url; admin_token = token; poll_seconds = s }) f
          h in
      let (named, tokened) = both_given _ _ _ given in
      subst (λ g. IsFeed g × (str_mem g.issuer seen ≡ false)) same
        (
          record {
            has_issuer = named;
            has_url = http;
            has_token = tokened;
            has_interval = poll_seconds_pos (fourth more) seconds read;
          },
          new,
        )

  parsed_entries :
      (seen entries : List String) (out fs : List RevocationFeedConfig)
      → All IsFeed out
      → Distinct out
      → All (λ g. str_mem g.issuer seen ≡ true) out
      → parse_entries to_number seen entries out ≡ feeds fs
      → All IsFeed fs × Distinct fs
  unfolding parse_entries
  parsed_entries seen [] out fs valid distinct known h =
      subst (λ xs. All IsFeed xs × Distinct xs) (ground (arith, h)) (valid, distinct)
  parsed_entries seen (entry ∷ entries) out fs valid distinct known h =
      elim (Sum-cases (parse_entry to_number seen (split_on 124 entry))) [
        | inl (error, e) ↦ absurd (ground (arith, h, e))
        | inr (f, e) ↦
            let (valid', new) = parse_entry-IsFeed seen (split_on 124 entry) f e in
            let h' : parse_entries to_number (f.issuer ∷ seen) entries (out ++ f ∷ []) ≡ feeds fs =
              rw (e, parse_entries) at h in
            parsed_entries (f.issuer ∷ seen) entries (out ++ f ∷ []) fs
              (All-snoc IsFeed out f valid valid')
              (Distinct-snoc out f distinct (
                All-map (λ g. str_mem g.issuer seen ≡ true) (λ g. str_eq f.issuer g.issuer ≡ false)
                  out (λ g k. apart f.issuer g.issuer seen new k) known))
              (All-snoc (λ g. str_mem g.issuer (f.issuer ∷ seen) ≡ true) out f
                (All-map (λ g. str_mem g.issuer seen ≡ true)
                  (λ g. str_mem g.issuer (f.issuer ∷ seen) ≡ true) out
                  (λ g k. still_seen f.issuer g.issuer seen k) known)
                (now_seen f.issuer seen))
              h'
      ]

  -- Every list of feeds that `REVOCATION_FEEDS` is read as is valid, and its issuers are distinct.
  pub parse_revocation_feeds-IsFeed :
      (raw : String) (fs : List RevocationFeedConfig)
      → parse_revocation_feeds to_number raw ≡ feeds fs
      → All IsFeed fs × Distinct fs
  unfolding parse_revocation_feeds
  parse_revocation_feeds-IsFeed raw fs h =
      parsed_entries [] (trimmed (split_on 44 raw)) [] fs tt tt tt h
