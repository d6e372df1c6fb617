-- ===== src/Auth/FeedController.antt =====
-- The served revocation feed (src/auth/revocation-feed.controller.ts) with the gate of admin routes
-- (src/auth/admin.ts). `parseInt` is a parameter: `none` is NaN, and a parsed number is a natural one.
pub mod RoundTrip
use acdp_control_plane.Prelude.{
  ℕ, String, List, [], ◌∷◌, Bool, Option, none, some, if◌then◌else◌, Json, null, num, str, arr, obj,
  nat, Items, nil, cons, Fields, end, field,
}
use acdp_control_plane.Auth.Revocations.{RevocationRecord, Revocations, Page, time_of, list_since}

-- The answer: the body of a 200, or the 403 of `assertAdmin`.
pub data FeedReply : Type 0 where
  admin_required : FeedReply
  ok : (body : Json) → FeedReply

abbrev pub entry_json : RevocationRecord → Json
entry_json r = obj (
    field "jti" (str r.jti) (
      field "sub" (str r.sub) (
        field "iss" (str r.iss)
          (field "exp" (num (nat r.exp)) (field "revoked_at_ms" (num (nat (time_of r))) end)))))

abbrev pub entries_json : List RevocationRecord → Items
entries_json [] = nil
entries_json (r ∷ rs) = cons (entry_json r) (entries_json rs)

abbrev pub cursor_json : Option ℕ → Json
cursor_json none = null
cursor_json (some cursor) = num (nat cursor)

-- The JSON that an `ok` body is sent as.
unfoldable pub page_json : Page → Json
page_json p = obj (
    field "entries" (arr (entries_json p.entries))
      (field "next_cursor" (cursor_json p.next_cursor) end))

-- `s ?? other`
abbrev or_text : Option String → String → String
or_text none other = other
or_text (some s) other = s

-- `Number.isFinite(n) ? n : other`
abbrev or_number : Option ℕ → ℕ → ℕ
or_number none other = other
or_number (some n) other = n

unfoldable pub feed :
    (parse_int : String → Option ℕ)
    → (locale_le : String → String → Bool) → (actor_is_admin : Bool) → (since limit : Option String)
    → Revocations
    → FeedReply
unfolding page_json
feed parse_int locale_le actor_is_admin since limit s =
    if actor_is_admin
    then ok (
        page_json (
          list_since locale_le (or_number (parse_int (or_text since "0")) 0)
            (or_number (parse_int (or_text limit "200")) 200) s))
    else admin_required
