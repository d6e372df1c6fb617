-- ===== src/Auth/FeedController/RoundTrip.antt =====
-- The poller reads back what the controller serves.
use acdp_control_plane.Prelude.{
  ℕ, ◌≡◌, refl, ap, ◌∙◌, List, [], ◌∷◌, false, Option, none, some, map, str_eq, All, Json, Number,
  nat, items,
}
use acdp_control_plane.Auth.Feeds.{JsNumber, whole}
use acdp_control_plane.Auth.Revocations.{RevocationRecord, Page, time_of}
use acdp_control_plane.Auth.FeedPage.{
  FeedEntry, FeedResponse, page, number_of, entry_of, entries_of, normalize_feed_response,
  number_or_null,
}
use acdp_control_plane.Auth.FeedController.{entry_json, entries_json, cursor_json, page_json}

-- The entry that a served record is read as.
abbrev pub entry_served : RevocationRecord → FeedEntry
entry_served r = record {
  jti = r.jti;
  sub = r.sub;
  iss = r.iss;
  exp = whole r.exp;
  revoked_at_ms = whole (time_of r);
}

abbrev pub cursor_served : Option ℕ → Option Number
cursor_served none = none
cursor_served (some cursor) = some (nat cursor)

abbrev pub response_served : Page → FeedResponse
response_served p = record {
  entries = map entry_served p.entries;
  next_cursor = cursor_served p.next_cursor;
}

abbrev pub HasId : RevocationRecord → Type 0
HasId r = str_eq r.jti "" ≡ false

cursor_read : (next : Option ℕ) → number_or_null (some (cursor_json next)) ≡ cursor_served next
cursor_read none = refl
cursor_read (some cursor) = refl

module _ (to_number : Option Json → JsNumber) where
  entry_of-entry_json :
      (r : RevocationRecord) → HasId r → entry_of to_number (entry_json r) ≡ some (entry_served r)
  unfolding entry_of number_of
  entry_of-entry_json r h = rw h refl

  entries_of-some :
      (raw : Json) (raws : List Json) (e : FeedEntry)
      → entry_of to_number raw ≡ some e
      → entries_of to_number (raw ∷ raws) ≡ e ∷ entries_of to_number raws
  unfolding entries_of
  entries_of-some raw raws e h = rw h refl

  entries_of-entries_json :
      (rs : List RevocationRecord)
      → All HasId rs
      → entries_of to_number (items (entries_json rs)) ≡ map entry_served rs
  unfolding entries_of
  entries_of-entries_json [] h = refl
  entries_of-entries_json (r ∷ rs) (p, h) =
      entries_of-some (entry_json r) (items (entries_json rs)) (entry_served r)
        (entry_of-entry_json r p)
      ∙ ap (λ es. entry_served r ∷ es) (entries_of-entries_json rs h)

  -- A page whose tokens have ids is read back by the poller as it was served.
  pub normalize-page_json :
      (p : Page)
      → All HasId p.entries
      → normalize_feed_response to_number (page_json p) ≡ page (response_served p)
  unfolding normalize_feed_response page_json
  normalize-page_json p h =
      ap
        (λ es. page (record {
          entries = es;
          next_cursor = number_or_null (some (cursor_json p.next_cursor));
        }))
        (entries_of-entries_json p.entries h)
      ∙ ap (λ next. page (record { entries = map entry_served p.entries; next_cursor = next }))
          (cursor_read p.next_cursor)
