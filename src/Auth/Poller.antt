-- ===== src/Auth/Poller.antt =====
-- The poller of the peers' revocation feeds (src/auth/revocation-poller.service.ts). The network, the
-- failures of the repository, `Number(…)` and `toLowerCase` are parameters, and a tick of a feed's timer
-- is a call of `poll_feed`.
pub mod Apply
pub mod Served
pub mod Reach
pub mod Confined
pub mod Own
pub mod Start
mod Tests
use Prim.Native.String
use acdp_control_plane.Prelude.{
  ℕ, suc, zero, String, List, [], ◌∷◌, ◌++◌, Bool, true, false, ◌&&◌, ◌||◌, not, Option, none, some,
  ltb, leb, if◌then◌else◌, str_eq, codes, starts_with, length, Number, nat, neg, frac, Json, null,
  bool, num, str, arr, obj, Items, items, Fields, member,
}
use acdp_control_plane.Prelude.OrderedMap.{lookup, insert}
use acdp_control_plane.Auth.Feeds.{
  JsNumber, not_finite, negative, fraction, whole, is_finite, floor, RevocationFeedConfig,
  ParsedFeeds, feeds, threw, parse_revocation_feeds,
}
use acdp_control_plane.Auth.FeedPage.{
  FeedEntry, FeedResponse, FetchError, not_https, unreachable, redirect, http_status, over_cap,
  invalid_json, not_an_object, no_entries, Fetched, page, failed, text_or_empty, number_or_null,
  number_of, entry_of, entries_of, normalize_feed_response,
}
use acdp_control_plane.Auth.Revocations.{
  RevocationRecord, Revocations, unspecified, revoke, get_revocation_cursor, set_revocation_cursor,
}

abbrev pub max_feed_bytes : ℕ
max_feed_bytes = 1048576

-- `x > n` and `x <= 0`
abbrev pub above : ℕ → JsNumber → Bool
above n (whole k) = ltb n k
above n (fraction k) = leb n k
above n _ = false

abbrev pub at_most_zero : JsNumber → Bool
at_most_zero (whole n) = leb n 0
at_most_zero negative = true
at_most_zero _ = false

-- The request, and what comes back: `read_failed` is a body that cannot be read, and `bytes` has its
-- size and what `JSON.parse` makes of it.
pub record FeedRequest : Type 0 where
  pub url : String
  pub since : Number
  pub limit : ℕ
  pub authorization : String

pub data Body : Type 0 where
  read_failed : Body
  bytes : (size : ℕ) → (json : Option Json) → Body

pub record Response : Type 0 where
  pub status : ℕ
  pub content_length : JsNumber
  pub body : Body

-- A call of the repository: it throws, or it reads this clock.
pub data StoreCall : Type 0 where
  throws : StoreCall
  runs : (now_ms : ℕ) → StoreCall

-- What a poll meets: the host's `fetch`, which gives `none` when it rejects, the calls of `revoke`
-- by the entry's place on the page, and whether the call that persists the cursor throws.
pub record Surroundings : Type 0 where
  pub fetch : FeedRequest → Option Response
  pub revoke_call : ℕ → StoreCall
  pub cursor_call_throws : Bool

pub record Poller : Type 0 where
  pub cursors : List (String × Number)
  pub revocations : Revocations

pub record PollResult : Type 0 where
  pub fetched : ℕ
  pub applied : ℕ
  pub dropped : ℕ
  pub all_succeeded : Bool
  pub cursor : Number

pub record Applied : Type 0 where
  pub applied : ℕ
  pub dropped : ℕ
  pub all_succeeded : Bool
  pub store : Revocations

-- The counts before the loop.
abbrev pub no_entry : Revocations → Applied
no_entry store = record { applied = 0; dropped = 0; all_succeeded = true; store = store }

-- `e.iss && e.iss !== feed.issuer`
abbrev pub is_foreign : RevocationFeedConfig → FeedEntry → Bool
is_foreign feed e = not (str_eq e.iss "") && not (str_eq e.iss feed.issuer)

-- `!Number.isFinite(e.exp) || e.exp <= 0`
abbrev pub has_bad_exp : FeedEntry → Bool
has_bad_exp e = not (is_finite e.exp) || at_most_zero e.exp

-- The record that an entry is stored as. The source keeps a fraction of a second of `exp`, which no
-- comparison with the whole seconds of the store's clock tells from its floor.
unfoldable pub record_of : RevocationFeedConfig → FeedEntry → RevocationRecord
record_of feed e = record {
  jti = e.jti;
  sub = e.sub;
  iss = if str_eq e.iss "" then feed.issuer else e.iss;
  exp = floor e.exp;
  revoked_by = String.◌++◌ "cross-issuer-poll:" feed.issuer;
  reason = unspecified;
  revoked_at = none;
}

-- The body of the loop of `applyEntries`.
unfoldable pub apply_entry : RevocationFeedConfig → StoreCall → FeedEntry → Applied → Applied
apply_entry feed call e a =
    if is_foreign feed e || has_bad_exp e then record a { dropped = suc a.dropped } else elim call [
      | throws ↦ record a { all_succeeded = false }
      | runs now_ms ↦ record a {
        applied = suc a.applied;
        store = (revoke (record_of feed e) now_ms a.store).1;
      }
    ]

unfoldable pub apply_entries :
    RevocationFeedConfig → (ℕ → StoreCall) → List FeedEntry → Applied → Applied
unfolding apply_entry
apply_entries feed calls [] a = a
apply_entries feed calls (e ∷ es) a =
    apply_entries feed (λ n. calls (suc n)) es (apply_entry feed (calls 0) e a)

abbrev pub or_start : Option Number → Number
or_start none = nat 0
or_start (some cursor) = cursor

-- `this.cursors.get(issuer) ?? 0`
unfoldable pub cursor_of : String → Poller → Number
cursor_of issuer p = or_start (lookup issuer p.cursors)

-- The cursor that a page leads to, once its entries are applied.
abbrev pub advanced : Bool → Option Number → Option Number
advanced true next = next
advanced false next = none

-- `this.cursors.set` and `setRevocationCursor`, where the cursor advances.
unfoldable pub move_cursor : String → Option Number → Bool → Poller → Poller
move_cursor issuer none fails p = p
move_cursor issuer (some cursor) fails p = record {
  cursors = insert issuer cursor p.cursors;
  revocations = if fails then p.revocations else set_revocation_cursor issuer cursor p.revocations;
}

abbrev pub request_of : RevocationFeedConfig → Number → FeedRequest
request_of feed cursor = record {
  url = feed.feed_url;
  since = cursor;
  limit = 200;
  authorization = String.◌++◌ "Bearer " feed.admin_token;
}

module _ (to_number : Option Json → JsNumber) (to_lower_case : String → String)
    (is_development : Bool) where
  abbrev body_of : Body → Fetched
  body_of read_failed = failed unreachable
  body_of (bytes size none) =
      if ltb max_feed_bytes size then failed over_cap else failed invalid_json
  body_of (bytes size (some json)) =
      if ltb max_feed_bytes size then failed over_cap else normalize_feed_response to_number json

  unfoldable pub read_response : Option Response → Fetched
  read_response none = failed unreachable
  read_response (some r) =
      if leb 300 r.status && ltb r.status 400
      then failed redirect
      else if not (leb 200 r.status && ltb r.status 300)
      then failed http_status
      else if above max_feed_bytes r.content_length
      then failed over_cap
      else body_of r.body

  unfoldable pub fetch_once :
      RevocationFeedConfig → Number → (FeedRequest → Option Response) → Fetched
  unfolding read_response
  fetch_once feed cursor fetch =
      if not is_development
        && not (starts_with (codes "https://") (codes (to_lower_case feed.feed_url)))
      then failed not_https
      else read_response (fetch (request_of feed cursor))

  unfoldable pub poll_page :
      RevocationFeedConfig → Surroundings → Poller → Fetched → PollResult × Poller
  unfolding apply_entries cursor_of move_cursor
  poll_page feed w p (failed error) = (
    record {
      fetched = 0;
      applied = 0;
      dropped = 0;
      all_succeeded = false;
      cursor = cursor_of feed.issuer p;
    },
    p,
  )
  poll_page feed w p (page response) =
      let a = apply_entries feed w.revoke_call response.entries (no_entry p.revocations) in
      let next = advanced a.all_succeeded response.next_cursor in
      (
        record {
          fetched = length response.entries;
          applied = a.applied;
          dropped = a.dropped;
          all_succeeded = a.all_succeeded;
          cursor = elim next [ none ↦ cursor_of feed.issuer p | some cursor ↦ cursor ];
        },
        move_cursor feed.issuer next w.cursor_call_throws (record p { revocations = a.store }),
      )

  unfoldable pub poll_feed : RevocationFeedConfig → Surroundings → Poller → PollResult × Poller
  unfolding poll_page fetch_once
  poll_feed feed w p = poll_page feed w p (fetch_once feed (cursor_of feed.issuer p) w.fetch)
