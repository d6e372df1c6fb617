-- ===== src/Auth/FeedPage.antt =====
-- A page of a peer's feed as src/auth/revocation-poller.service.ts reads it (`normalizeFeedResponse`).
-- `Number(…)` is a parameter.

use acdp_control_plane.Prelude.{
  String, List, [], ◌∷◌, Option, none, some, if◌then◌else◌, str_eq, Number, nat, neg, Json, num,
  str, arr, obj, items, member,
}
use acdp_control_plane.Auth.Feeds.{JsNumber, negative, whole}

pub record FeedEntry : Type 0 where
  pub jti : String
  pub sub : String
  pub iss : String
  pub exp : JsNumber
  pub revoked_at_ms : JsNumber

pub record FeedResponse : Type 0 where
  pub entries : List FeedEntry
  pub next_cursor : Option Number

-- The errors that `fetchOnce` throws; `unreachable` is every one of the host's.
pub data FetchError : Type 0 where
  not_https unreachable redirect http_status over_cap invalid_json not_an_object no_entries :
      FetchError

pub data Fetched : Type 0 where
  page : FeedResponse → Fetched
  failed : FetchError → Fetched

-- `typeof v === 'string' ? v : ''`
abbrev pub text_or_empty : Option Json → String
text_or_empty (some (str s)) = s
text_or_empty _ = ""

-- `typeof v === 'number' ? v : null`
abbrev pub number_or_null : Option Json → Option Number
number_or_null (some (num n)) = some n
number_or_null _ = none

-- A `continue`, or a `push`.
abbrev push_some : Option FeedEntry → List FeedEntry → List FeedEntry
push_some none es = es
push_some (some e) es = e ∷ es

-- `to_number v` stands for `Number(v)`, and for the value of a number that is not whole.
module _ (to_number : Option Json → JsNumber) where
  unfoldable pub number_of : Option Json → JsNumber
  number_of (some (num (nat n))) = whole n
  number_of (some (num (neg n))) = negative
  number_of v = to_number v

  unfoldable pub entry_of : Json → Option FeedEntry
  entry_of (obj fields) =
      if str_eq (text_or_empty (member "jti" fields)) ""
      then none
      else some (record {
        jti = text_or_empty (member "jti" fields);
        sub = text_or_empty (member "sub" fields);
        iss = text_or_empty (member "iss" fields);
        exp = number_of (member "exp" fields);
        revoked_at_ms = number_of (member "revoked_at_ms" fields);
      })
  entry_of _ = none

  unfoldable pub entries_of : List Json → List FeedEntry
  entries_of [] = []
  entries_of (raw ∷ raws) = push_some (entry_of raw) (entries_of raws)

  response_of : Option Json → Option Json → Fetched
  unfolding entries_of
  response_of (some (arr raws)) next =
      page (record { entries = entries_of (items raws); next_cursor = number_or_null next })
  response_of _ next = failed no_entries

  unfoldable pub normalize_feed_response : Json → Fetched
  unfolding response_of
  normalize_feed_response (obj fields) =
      response_of (member "entries" fields) (member "next_cursor" fields)
  normalize_feed_response (arr raws) = failed no_entries
  normalize_feed_response _ = failed not_an_object
