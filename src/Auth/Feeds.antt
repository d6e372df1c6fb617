-- ===== src/Auth/Feeds.antt =====
-- The configured revocation feeds (src/auth/revocation-feeds.ts). `Number(…)` is a parameter.
pub mod Valid
use acdp_control_plane.Prelude.{
  ◌⊎◌, inl, inr, ℕ, suc, zero, String, List, [], ◌∷◌, ◌++◌, Bool, true, false, ◌&&◌, ◌||◌, not,
  Option, none, some, ltb, leb, if◌then◌else◌, str_eq, str_mem, codes, starts_with, trim, split_on,
  length,
}

-- What `Number(…)` gives; of a positive number that is not whole, its whole part.
pub data JsNumber : Type 0 where
  not_finite negative : JsNumber
  fraction : (whole_part : ℕ) → JsNumber
  whole : ℕ → JsNumber

abbrev pub is_finite : JsNumber → Bool
is_finite not_finite = false
is_finite _ = true

-- `x < 1`, and `Math.floor(x)` where it is at least that.
abbrev pub below_one : JsNumber → Bool
below_one (whole n) = ltb n 1
below_one (fraction n) = ltb n 1
below_one negative = true
below_one not_finite = false

abbrev pub floor : JsNumber → ℕ
floor (whole n) = n
floor (fraction n) = n
floor _ = 0

pub record RevocationFeedConfig : Type 0 where
  pub issuer : String
  pub feed_url : String
  pub admin_token : String
  pub poll_seconds : ℕ

-- The errors that `parseRevocationFeeds` throws.
pub data RevocationFeedError : Type 0 where
  too_few_fields empty_field not_http duplicate_issuer bad_poll_seconds : RevocationFeedError

pub data ParsedFeeds : Type 0 where
  feeds : List RevocationFeedConfig → ParsedFeeds
  threw : RevocationFeedError → ParsedFeeds

abbrev pub default_revocation_poll_seconds : ℕ
default_revocation_poll_seconds = 300

-- `.map((s) => s.trim()).filter(Boolean)`
unfoldable pub trimmed : List String → List String
trimmed [] = []
trimmed (s ∷ ss) = let rest = trimmed ss in if str_eq (trim s) "" then rest else trim s ∷ rest

-- `/^https?:\/\//.test(url)`
unfoldable pub is_http : String → Bool
is_http url =
    starts_with (codes "http://") (codes url) || starts_with (codes "https://") (codes url)

-- `pollRaw`, where it is given.
abbrev pub fourth : List String → Option String
fourth [] = none
fourth (poll_raw ∷ more) = some poll_raw

module _ (to_number : String → JsNumber) where
  unfoldable pub poll_seconds_of : Option String → Option ℕ
  poll_seconds_of none = some default_revocation_poll_seconds
  poll_seconds_of (some raw) =
      if str_eq raw ""
      then some default_revocation_poll_seconds
      else if not (is_finite (to_number raw)) || below_one (to_number raw)
      then none
      else some (floor (to_number raw))

  -- The body of the loop: `seen` is the issuers so far, in the order of `out`.
  unfoldable pub parse_entry :
      List String → List String → RevocationFeedError ⊎ RevocationFeedConfig
  unfolding is_http
  parse_entry seen (issuer ∷ feed_url ∷ admin_token ∷ more) =
      if str_eq issuer "" || str_eq feed_url "" || str_eq admin_token ""
      then inl empty_field
      else if not (is_http feed_url)
      then inl not_http
      else if str_mem issuer seen
      then inl duplicate_issuer
      else elim (poll_seconds_of (fourth more)) [
        | none ↦ inl bad_poll_seconds
        | some seconds ↦ inr (record {
          issuer = issuer;
          feed_url = feed_url;
          admin_token = admin_token;
          poll_seconds = seconds;
        })
      ]
  parse_entry seen _ = inl too_few_fields

  unfoldable pub parse_entries : List String → List String → List RevocationFeedConfig → ParsedFeeds
  parse_entries seen [] out = feeds out
  parse_entries seen (entry ∷ entries) out = elim (parse_entry seen (split_on 124 entry)) [
    | inl error ↦ threw error
    | inr feed ↦ parse_entries (feed.issuer ∷ seen) entries (out ++ feed ∷ [])
  ]

  unfoldable pub parse_revocation_feeds : String → ParsedFeeds
  unfolding trimmed
  parse_revocation_feeds raw = parse_entries [] (trimmed (split_on 44 raw)) []
