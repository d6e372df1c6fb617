-- ===== src/Auth/Poller/Start.antt =====
-- The start of the poller (`onModuleInit` of src/auth/revocation-poller.service.ts).

use acdp_control_plane.Prelude.{
  String, List, [], ◌∷◌, Bool, false, ◌||◌, if◌then◌else◌, str_eq, nat,
}
use acdp_control_plane.Prelude.OrderedMap.{insert}
use acdp_control_plane.Auth.Feeds.{
  JsNumber, RevocationFeedConfig, ParsedFeeds, feeds, threw, parse_revocation_feeds,
}
use acdp_control_plane.Auth.Revocations.{get_revocation_cursor}
use acdp_control_plane.Auth.Poller.{Poller, or_start}

-- `onModuleInit`: the error it throws, or the feeds it starts the polls of, with their cursors.
pub data Started : Type 0 where
  bad_feeds own_authority : Started
  started : List RevocationFeedConfig → Poller → Started

abbrev pub has_issuer : String → List RevocationFeedConfig → Bool
has_issuer authority [] = false
has_issuer authority (feed ∷ more) = str_eq feed.issuer authority || has_issuer authority more

-- `cursor_throws issuer` says whether the call that loads the issuer's cursor throws.
unfoldable pub resume :
    (cursor_throws : String → Bool) → List RevocationFeedConfig → Poller → Poller
resume cursor_throws [] p = p
resume cursor_throws (feed ∷ more) p =
    let persisted = or_start (get_revocation_cursor feed.issuer p.revocations) in
    let cursor = if cursor_throws feed.issuer then nat 0 else persisted in
    resume cursor_throws more (record p { cursors = insert feed.issuer cursor p.cursors })

unfoldable pub start : (String → Bool) → String → Poller → ParsedFeeds → Started
unfolding resume
start cursor_throws authority p (threw error) = bad_feeds
start cursor_throws authority p (feeds configured) =
    if has_issuer authority configured
    then own_authority
    else started configured (resume cursor_throws configured p)

unfoldable pub on_module_init :
    (String → JsNumber)
    → (cursor_throws : String → Bool) → (jwt_authority : String) → (revocation_feeds_raw : String)
    → Poller
    → Started
unfolding start
on_module_init to_number cursor_throws jwt_authority raw p =
    start cursor_throws jwt_authority p (parse_revocation_feeds to_number raw)
