-- ===== src/Auth/Poller/Tests.antt =====
-- Polls of a small peer.

use acdp_control_plane.Prelude.{
  ℕ, suc, zero, ◌≡◌, refl, String, [], ◌∷◌, true, false, Option, some, length, arith, starts_with,
  inl, inr, split_on, trim, trim_start, trim_end, codes, Json, obj, field, end, arr, nil, cons, str,
  num, nat, Number,
}
use acdp_control_plane.Prelude.OrderedMap.{has, lookup, insert}
use acdp_control_plane.Auth.Feeds.{
  JsNumber, not_finite, whole, RevocationFeedConfig, feeds, parse_revocation_feeds, parse_entries,
  parse_entry, poll_seconds_of, trimmed, is_http,
}
use acdp_control_plane.Auth.Revocations.{
  RevocationRecord, Revocations, empty, admin_revoke, get, get_revocation_cursor, Page,
}
use acdp_control_plane.Auth.FeedController.{page_json}
use acdp_control_plane.Auth.FeedController.RoundTrip.{response_served, normalize-page_json}
use acdp_control_plane.Auth.Poller.{
  bytes, runs, Surroundings, Poller, poll_feed, poll_page, fetch_once, read_response, apply_entries,
  apply_entry, move_cursor, cursor_of,
}
use acdp_control_plane.Auth.Poller.Start.{started, on_module_init, start, resume}
use acdp_control_plane.Auth.FeedPage.{
  FeedEntry, page, normalize_feed_response, entries_of, entry_of, number_of,
}
use acdp_control_plane.Auth.Poller.Apply.{entry_key}
use acdp_control_plane.Auth.Poller.Served.{Tick}
use acdp_control_plane.Auth.Poller.Confined.{moved_cursor_stored}
use acdp_control_plane.Auth.Poller.Own.{poll_each, own_tokens_kept}

-- Numbers in a URL, in unary.
abbrev unary : ℕ → String
unary zero = String.[]
unary (suc n) = String.◌∷◌ "1" (unary n)

abbrev unary_text : Number → String
unary_text (nat n) = unary n
unary_text _ = String.[]

abbrev read_unary : String → Option ℕ
read_unary s = some (length (codes s))

abbrev config : RevocationFeedConfig
config = record {
  issuer = "peer";
  feed_url = "https://peer/feed";
  admin_token = "t";
  poll_seconds = 300;
}

abbrev token : RevocationRecord
token = record {
  jti = "j1";
  sub = "did:web:a";
  iss = "peer";
  exp = 99;
  revoked_by = "admin";
  reason = admin_revoke;
  revoked_at = some 7;
}

abbrev peer : Revocations
peer = record { store = ("k", token) ∷ []; cursors = [] }

abbrev fresh : Poller
fresh = record { cursors = []; revocations = empty }

abbrev nothing : Option Json → JsNumber
nothing v = not_finite

abbrev tick : Tick
tick = record { clock = λ n. 50; cursor_call_throws = false }

abbrev one_page : Page
one_page = record { entries = token ∷ []; next_cursor = some 7 }

normalize-page_json_example :
    normalize_feed_response nothing (page_json one_page) ≡ page (response_served one_page)
normalize-page_json_example = normalize-page_json nothing one_page (refl, tt)

-- A peer that answers every request with this page.
abbrev paging : Surroundings
paging = record {
  fetch = λ req. some (record {
    status = 200;
    content_length = whole 10;
    body = bytes 10 (
        some (
          obj (
            field "entries"
              (arr (
                cons
                  (obj (
                    field "jti" (str "j1")
                      (field "iss" (str "us") (field "exp" (num (nat 9)) end))))
                  (cons (obj (field "jti" (str "j2") (field "exp" (num (nat 9)) end))) nil)))
              (field "next_cursor" (num (nat 7)) end))));
  });
  revoke_call = λ n. runs 50;
  cursor_call_throws = false;
}

abbrev foreign_entry : FeedEntry
foreign_entry = record {
  jti = "j1";
  sub = "";
  iss = "us";
  exp = whole 9;
  revoked_at_ms = not_finite;
}

abbrev second : FeedEntry
second = record { jti = "j2"; sub = ""; iss = ""; exp = whole 9; revoked_at_ms = not_finite }

abbrev after_poll : Poller
after_poll = (poll_feed nothing (λ s. s) false config paging fresh).1

paging_fetched :
    fetch_once nothing (λ s. s) false config (cursor_of "peer" fresh) paging.fetch
    ≡ page (record { entries = foreign_entry ∷ second ∷ []; next_cursor = some (nat 7) })
unfolding fetch_once read_response normalize_feed_response entries_of entry_of number_of starts_with
paging_fetched = refl

paging_moved : cursor_of "peer" after_poll ≡ nat 7
unfolding poll_feed poll_page fetch_once read_response normalize_feed_response entries_of entry_of
    number_of starts_with apply_entries apply_entry move_cursor cursor_of insert lookup
paging_moved = refl

paging_from : cursor_of "peer" fresh ≡ nat 0
unfolding cursor_of lookup
paging_from = refl

moved_cursor_stored_example : has (entry_key config second) after_poll.revocations.store ≡ true
moved_cursor_stored_example =
    moved_cursor_stored nothing (λ s. s) false config paging fresh
      (record { entries = foreign_entry ∷ second ∷ []; next_cursor = some (nat 7) }) second
      paging_fetched (λ e. ground (arith, e, paging_moved, paging_from)) (inr (inl refl)) refl

abbrev raw_feeds : String
raw_feeds = " peer|https://peer/feed|t,"

raw_read : parse_revocation_feeds (λ s. not_finite) raw_feeds ≡ feeds (config ∷ [])
unfolding parse_revocation_feeds parse_entries parse_entry poll_seconds_of trimmed is_http split_on
    trim trim_start trim_end starts_with
raw_read = refl

abbrev begun : Poller
begun = record { cursors = ("peer", nat 0) ∷ []; revocations = empty }

boots :
    on_module_init (λ s. not_finite) (λ s. false) "us" raw_feeds fresh ≡ started (config ∷ []) begun
unfolding on_module_init start resume get_revocation_cursor lookup insert parse_revocation_feeds
    parse_entries parse_entry poll_seconds_of trimmed is_http split_on trim trim_start trim_end
    starts_with
boots = refl

own_tokens_kept_example :
    get "us" "j1" (poll_each nothing (λ s. s) false ((config, paging) ∷ []) begun).revocations
    ≡ get "us" "j1" empty
own_tokens_kept_example =
    own_tokens_kept nothing (λ s. s) false (λ s. not_finite) (λ s. false) "us" raw_feeds "j1"
      (config ∷ []) ((config, paging) ∷ []) fresh begun boots (refl, tt) refl (inl refl, tt)
