-- ===== src/Auth/Poller/Reach.antt =====
-- Polls of a peer that answers reach every revocation that it serves.
use acdp_control_plane.Prelude.{
  ℕ, String, List, [], ◌∷◌, Bool, Option, none, some, Json, Number, nat,
}
use acdp_control_plane.Auth.Feeds.{JsNumber, whole, RevocationFeedConfig}
use acdp_control_plane.Auth.Revocations.{Revocations}
use acdp_control_plane.Auth.FeedController.{FeedReply, admin_required, ok, feed}
use acdp_control_plane.Auth.Poller.{
  FeedRequest, Response, bytes, runs, Surroundings, Poller, poll_feed,
}
use acdp_control_plane.Auth.Poller.Served.{Tick}

module _ (parse_int : String → Option ℕ) (number_text : Number → String)
    (locale_le : String → String → Bool) (is_admin : String → Bool) (size_of : Json → ℕ)
    (peer : Revocations) where
  abbrev respond : FeedReply → Response
  respond admin_required = record { status = 403; content_length = whole 0; body = bytes 0 none }
  respond (ok body) = record {
    status = 200;
    content_length = whole (size_of body);
    body = bytes (size_of body) (some body);
  }

  -- The peer is another control plane, which answers each request with its `feed`.
  unfoldable pub ask : FeedRequest → Option Response
  ask req = some (
      respond (
        feed parse_int locale_le (is_admin req.authorization) (some (number_text req.since))
          (some (number_text (nat req.limit))) peer))

  abbrev pub serving : Tick → Surroundings
  serving t = record {
    fetch = ask;
    revoke_call = λ n. runs (t.clock n);
    cursor_call_throws = t.cursor_call_throws;
  }

  module _ (to_number : Option Json → JsNumber) (to_lower_case : String → String)
      (is_development : Bool) (config : RevocationFeedConfig) where
    -- The ticks of a timer in their order.
    unfoldable pub poll_all : List Tick → Poller → Poller
    poll_all [] p = p
    poll_all (t ∷ ts) p =
        poll_all ts (poll_feed to_number to_lower_case is_development config (serving t) p).1
