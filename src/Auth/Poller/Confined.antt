-- ===== src/Auth/Poller/Confined.antt =====
-- What a poll cannot do, whatever the peer answers: revoke for another issuer, or move the cursor past
-- an entry that is not stored.
use Prim.Native.String
use Prim.Native.Char.{code}
use text.Mathlib.TextLemmas.{nil-append, cons-append}
use acdp_control_plane.Prelude.{
  ℕ, suc, ◌≡◌, ◌≢◌, refl, sym, ap, subst, ◌∙◌, inl, inr, String, List, [], ◌∷◌, Bool, true, false,
  ◌||◌, Option, some, arith, eq_iff, Bool-cases, any, Json, codes, join, cut, ◌==◌,
}
use acdp_control_plane.Prelude.OrderedMap.{lookup, has, lookup-insert}
use acdp_control_plane.Auth.Feeds.{JsNumber, RevocationFeedConfig}
use acdp_control_plane.Auth.Revocations.{RevocationRecord, Revocations, key_of, get, revoke}
use acdp_control_plane.Auth.Poller.{
  StoreCall, throws, runs, Surroundings, Poller, Applied, no_entry, record_of, is_foreign,
  has_bad_exp, apply_entry, apply_entries, cursor_of, move_cursor, fetch_once, poll_feed, poll_page,
  PollResult,
}
use acdp_control_plane.Auth.FeedPage.{FeedEntry, FeedResponse, Fetched, page, failed}
use acdp_control_plane.Auth.Poller.Apply.{
  store-move_cursor, Among, is_honoured, entry_key, stored-apply_entries,
}

-- No NUL stands in the text.
abbrev pub has_nul : String → Bool
has_nul s = any (λ c. c == 0) (codes s)

cut_front :
    (s t : String) → has_nul s ≡ false → cut 0 (String.◌++◌ s (String.◌++◌ "\0" t)) ≡ some (s, t)
unfolding cut
cut_front String.[] t h = ap (cut 0) (
    nil-append (String.◌++◌ "\0" t)
    ∙ cons-append "\0" String.[] t
    ∙ ap (String.◌∷◌ "\0") (nil-append t))
cut_front (String.◌∷◌ c rest) t h = elim (Bool-cases (code c == 0)) [
  | inl nul ↦ absurd (ground (arith, nul, h))
  | inr other ↦
      ap (cut 0) (cons-append c rest (String.◌++◌ "\0" t))
      ∙ rw (other, cut_front rest t (ground (arith, other, h))) refl
]

-- The issuer of a composite key can be read off, where it holds no NUL.
key_of_issuer :
    (iss jti iss' jti' : String)
    → has_nul iss ≡ false
    → has_nul iss' ≡ false
    → key_of iss jti ≡ key_of iss' jti'
    → iss ≡ iss'
unfolding key_of join
key_of_issuer iss jti iss' jti' h h' e =
    let parts : some (iss, jti) ≡ some (iss', jti') =
      sym (cut_front iss jti h) ∙ ap (cut 0) e ∙ cut_front iss' jti' h' in
    ground (arith, parts)

or_false : (a b : Bool) → (a || b) ≡ false → a ≡ false
or_false a b h = ground (arith, h)

lookup-revoke_other :
    (key : String) (r : RevocationRecord) (now_ms : ℕ) (s : Revocations)
    → key_of r.iss r.jti ≢ key
    → lookup key (revoke r now_ms s).1.store ≡ lookup key s.store
unfolding revoke
lookup-revoke_other key r now_ms s h = elim (Bool-cases (has (key_of r.iss r.jti) s.store)) [
  | inl old ↦ rw old refl
  | inr new ↦ rw new (simp lookup-insert (ground (arith, h, eq_iff (key_of r.iss r.jti) key)))
]

-- An entry that is not foreign is stored under the feed's issuer.
own_issuer :
    (feed : RevocationFeedConfig) (e : FeedEntry)
    → is_foreign feed e ≡ false
    → (record_of feed e).iss ≡ feed.issuer
unfolding record_of
own_issuer feed e h = ground (arith, h, eq_iff e.iss feed.issuer)

module _ (feed : RevocationFeedConfig) (iss jti : String) (bare : has_nul feed.issuer ≡ false)
    (plain : has_nul iss ≡ false) (other : iss ≢ feed.issuer) where
  other_key : (r : RevocationRecord) → r.iss ≡ feed.issuer → key_of r.iss r.jti ≢ key_of iss jti
  other_key r own e = other (
      sym (
        key_of_issuer feed.issuer r.jti iss jti bare plain
          (subst (λ i. key_of i r.jti ≡ key_of iss jti) own e)))

  lookup-apply_entry :
      (call : StoreCall) (e : FeedEntry) (a : Applied)
      → lookup (key_of iss jti) (apply_entry feed call e a).store.store
        ≡ lookup (key_of iss jti) a.store.store
  unfolding apply_entry
  lookup-apply_entry throws e a = ground arith
  lookup-apply_entry (runs now_ms) e a = elim (Bool-cases (is_foreign feed e || has_bad_exp e)) [
    | inl dropped ↦ rw dropped refl
    | inr kept ↦ rw kept (
        lookup-revoke_other (key_of iss jti) (record_of feed e) now_ms a.store
          (other_key (record_of feed e) (own_issuer feed e (or_false _ _ kept))))
  ]

  lookup-apply_entries :
      (calls : ℕ → StoreCall) (es : List FeedEntry) (a : Applied)
      → lookup (key_of iss jti) (apply_entries feed calls es a).store.store
        ≡ lookup (key_of iss jti) a.store.store
  unfolding apply_entries
  lookup-apply_entries calls [] a = refl
  lookup-apply_entries calls (e ∷ es) a =
      lookup-apply_entries (λ n. calls (suc n)) es (apply_entry feed (calls 0) e a)
      ∙ lookup-apply_entry (calls 0) e a

module _ (to_number : Option Json → JsNumber) (to_lower_case : String → String)
    (is_development : Bool) (feed : RevocationFeedConfig) (w : Surroundings) (p : Poller) where
  poll_page_confined :
      (f : Fetched) (iss jti : String)
      → has_nul feed.issuer ≡ false
      → has_nul iss ≡ false
      → iss ≢ feed.issuer
      → get iss jti (poll_page to_number to_lower_case is_development feed w p f).1.revocations
        ≡ get iss jti p.revocations
  unfolding poll_page get
  poll_page_confined (failed error) iss jti bare plain other = refl
  poll_page_confined (page response) iss jti bare plain other =
      ap (lookup (key_of iss jti)) (store-move_cursor feed.issuer _ w.cursor_call_throws _)
      ∙ lookup-apply_entries feed iss jti bare plain other w.revoke_call response.entries
          (no_entry p.revocations)

  -- Whatever its peer answers, a poll of a feed changes nothing of the tokens of any other issuer; the
  -- issuers hold no NUL, which the keys of the store join by.
  pub poll_feed_confined :
      (iss jti : String)
      → has_nul feed.issuer ≡ false
      → has_nul iss ≡ false
      → iss ≢ feed.issuer
      → get iss jti (poll_feed to_number to_lower_case is_development feed w p).1.revocations
        ≡ get iss jti p.revocations
  unfolding poll_feed
  poll_feed_confined iss jti bare plain other =
      poll_page_confined
        (fetch_once to_number to_lower_case is_development feed (cursor_of feed.issuer p) w.fetch)
        iss jti bare plain other

  abbrev tick : Fetched → PollResult × Poller
  tick = poll_page to_number to_lower_case is_development feed w p

  held :
      (response : FeedResponse)
      → (apply_entries feed w.revoke_call response.entries (no_entry p.revocations)).all_succeeded
        ≡ false
      → cursor_of feed.issuer (tick (page response)).1 ≡ cursor_of feed.issuer p
  unfolding poll_page move_cursor cursor_of
  held response lost = rw lost refl

  page_moved :
      (response : FeedResponse) (e : FeedEntry)
      → cursor_of feed.issuer (tick (page response)).1 ≢ cursor_of feed.issuer p
      → Among e response.entries
      → is_honoured feed e ≡ true
      → has (entry_key feed e) (tick (page response)).1.revocations.store ≡ true
  unfolding poll_page
  page_moved response e moved l h =
      let tally = apply_entries feed w.revoke_call response.entries (no_entry p.revocations) in
      elim (Bool-cases tally.all_succeeded) [
        | inl ok ↦
            subst (λ s. has (entry_key feed e) s ≡ true)
              (sym (store-move_cursor feed.issuer _ w.cursor_call_throws _))
              (stored-apply_entries feed w.revoke_call response.entries (no_entry p.revocations) e l
                h ok)
        | inr lost ↦ elim (moved (held response lost)) [ ]
      ]

  -- Where a poll moves its cursor, every entry of the page that is not dropped is stored.
  pub moved_cursor_stored :
      (response : FeedResponse) (e : FeedEntry)
      → fetch_once to_number to_lower_case is_development feed (cursor_of feed.issuer p) w.fetch
        ≡ page response
      → cursor_of feed.issuer (poll_feed to_number to_lower_case is_development feed w p).1
        ≢ cursor_of feed.issuer p
      → Among e response.entries
      → is_honoured feed e ≡ true
      → has
          (entry_key feed e)
          (poll_feed to_number to_lower_case is_development feed w p).1.revocations.store
        ≡ true
  unfolding poll_feed
  moved_cursor_stored response e got moved l h =
      subst
        (λ f.
          cursor_of feed.issuer (tick f).1 ≢ cursor_of feed.issuer p
          → has (entry_key feed e) (tick f).1.revocations.store ≡ true)
        (sym got) (λ m. page_moved response e m l h) moved
