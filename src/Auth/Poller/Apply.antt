-- ===== src/Auth/Poller/Apply.antt =====
-- What the application of a page leaves in the store.
use mathlib.Core.Bool.{true≢false}
use acdp_control_plane.Prelude.{
  ℕ, suc, ◌≡◌, ◌⊎◌, refl, sym, subst, ◌∙◌, inl, inr, String, List, [], ◌∷◌, Bool, true, false, ◌||◌,
  not, Option, none, some, arith, if◌then◌else◌, str_eq, eq_refl, eq_iff, Bool-cases, Number,
}
use acdp_control_plane.Prelude.OrderedMap.{has, insert}
use acdp_control_plane.Auth.Feeds.{RevocationFeedConfig}
use acdp_control_plane.Auth.Revocations.{
  RevocationRecord, Revocations, key_of, revoke, stamped, set_revocation_cursor,
}
use acdp_control_plane.Auth.Poller.{
  StoreCall, throws, runs, Applied, is_foreign, has_bad_exp, record_of, apply_entry, apply_entries,
  Poller, move_cursor,
}
use acdp_control_plane.Auth.FeedPage.{FeedEntry}

-- The entry is one that the loop does not drop.
abbrev pub is_honoured : RevocationFeedConfig → FeedEntry → Bool
is_honoured feed e = not (is_foreign feed e || has_bad_exp e)

-- The key that the entry is stored under.
abbrev pub entry_key : RevocationFeedConfig → FeedEntry → String
entry_key feed e = key_of (record_of feed e).iss e.jti

not-true : (b : Bool) → not b ≡ true → b ≡ false
not-true b h = ground (arith, h)

abbrev pub Among : FeedEntry → List FeedEntry → Type 0
Among e [] = ⊥
Among e (f ∷ es) = (e ≡ f) ⊎ Among e es

has-insert {ℓ} :
    {V : Type ℓ} (asked set : String) (v : V) (m : List (String × V))
    → has asked (insert set v m) ≡ (if str_eq set asked then true else has asked m)
unfolding has insert
has-insert asked set v [] = refl
has-insert asked set v ((other, old) ∷ m) =
    ground (arith, has-insert asked set v m, eq_iff set asked, eq_iff other set, eq_iff other asked)

has-revoke_self :
    (r : RevocationRecord) (now_ms : ℕ) (s : Revocations)
    → has (key_of r.iss r.jti) (revoke r now_ms s).1.store ≡ true
unfolding revoke
has-revoke_self r now_ms s = elim (Bool-cases (has (key_of r.iss r.jti) s.store)) [
  | inl old ↦ rw old old
  | inr new ↦ rw new (simp (has-insert, eq_refl))
]

pub has-revoke :
    (key : String) (r : RevocationRecord) (now_ms : ℕ) (s : Revocations)
    → has key s.store ≡ true
    → has key (revoke r now_ms s).1.store ≡ true
unfolding revoke
has-revoke key r now_ms s h = elim (Bool-cases (has (key_of r.iss r.jti) s.store)) [
  | inl old ↦ rw old h
  | inr new ↦
      rw new (has-insert key (key_of r.iss r.jti) (stamped r now_ms) s.store ∙ ground (arith, h))
]

pub store-move_cursor :
    (issuer : String) (next : Option Number) (fails : Bool) (p : Poller)
    → (move_cursor issuer next fails p).revocations.store ≡ p.revocations.store
unfolding move_cursor set_revocation_cursor
store-move_cursor issuer none fails p = refl
store-move_cursor issuer (some cursor) true p = refl
store-move_cursor issuer (some cursor) false p = refl

module _ (feed : RevocationFeedConfig) where
  has-apply_entry :
      (key : String) (call : StoreCall) (e : FeedEntry) (a : Applied)
      → has key a.store.store ≡ true
      → has key (apply_entry feed call e a).store.store ≡ true
  unfolding apply_entry
  has-apply_entry key throws e a h = ground (arith, h)
  has-apply_entry key (runs now_ms) e a h =
      ground (arith, h, has-revoke key (record_of feed e) now_ms a.store h)

  pub has-apply_entries :
      (key : String) (calls : ℕ → StoreCall) (es : List FeedEntry) (a : Applied)
      → has key a.store.store ≡ true
      → has key (apply_entries feed calls es a).store.store ≡ true
  unfolding apply_entries
  has-apply_entries key calls [] a h = h
  has-apply_entries key calls (e ∷ es) a h =
      has-apply_entries key (λ n. calls (suc n)) es (apply_entry feed (calls 0) e a)
        (has-apply_entry key (calls 0) e a h)

  lost-apply_entry :
      (call : StoreCall) (e : FeedEntry) (a : Applied)
      → a.all_succeeded ≡ false
      → (apply_entry feed call e a).all_succeeded ≡ false
  unfolding apply_entry
  lost-apply_entry throws e a h = ground (arith, h)
  lost-apply_entry (runs now_ms) e a h = ground (arith, h)

  lost-apply_entries :
      (calls : ℕ → StoreCall) (es : List FeedEntry) (a : Applied)
      → a.all_succeeded ≡ false
      → (apply_entries feed calls es a).all_succeeded ≡ false
  unfolding apply_entries
  lost-apply_entries calls [] a h = h
  lost-apply_entries calls (e ∷ es) a h =
      lost-apply_entries (λ n. calls (suc n)) es (apply_entry feed (calls 0) e a)
        (lost-apply_entry (calls 0) e a h)

  -- An honoured entry that the loop passes is stored, unless it fails.
  stored-apply_entry :
      (call : StoreCall) (e : FeedEntry) (a : Applied)
      → is_honoured feed e ≡ true
      → (has (entry_key feed e) (apply_entry feed call e a).store.store ≡ true)
        ⊎ ((apply_entry feed call e a).all_succeeded ≡ false)
  unfolding apply_entry record_of
  stored-apply_entry throws e a h = inr (ground (arith, h))
  stored-apply_entry (runs now_ms) e a h =
      inl (rw (not-true _ h) (has-revoke_self (record_of feed e) now_ms a.store))

  -- An honoured entry of a page of which every one succeeded is stored.
  pub stored-apply_entries :
      (calls : ℕ → StoreCall) (es : List FeedEntry) (a : Applied) (e : FeedEntry)
      → Among e es
      → is_honoured feed e ≡ true
      → (apply_entries feed calls es a).all_succeeded ≡ true
      → has (entry_key feed e) (apply_entries feed calls es a).store.store ≡ true
  unfolding apply_entries
  stored-apply_entries calls [] a e l h ok = elim l [ ]
  stored-apply_entries calls (f ∷ es) a e (inl same) h ok =
      elim (stored-apply_entry (calls 0) e a h) [
        | inl kept ↦
            has-apply_entries (entry_key feed e) (λ n. calls (suc n)) es
              (apply_entry feed (calls 0) f a)
              (subst
                (λ g. has (entry_key feed e) (apply_entry feed (calls 0) g a).store.store ≡ true)
                same kept)
        | inr lost ↦
            elim (true≢false (
              sym ok
              ∙ lost-apply_entries (λ n. calls (suc n)) es (apply_entry feed (calls 0) f a)
                  (subst (λ g. (apply_entry feed (calls 0) g a).all_succeeded ≡ false) same
                    lost))) [ ]
      ]
  stored-apply_entries calls (f ∷ es) a e (inr l) h ok =
      stored-apply_entries (λ n. calls (suc n)) es (apply_entry feed (calls 0) f a) e l h ok

  succeeds-apply_entry :
      (now_ms : ℕ) (e : FeedEntry) (a : Applied)
      → a.all_succeeded ≡ true
      → (apply_entry feed (runs now_ms) e a).all_succeeded ≡ true
  unfolding apply_entry
  succeeds-apply_entry now_ms e a h = ground (arith, h)

  -- A page is applied in full where no call throws.
  pub succeeds-apply_entries :
      (clock : ℕ → ℕ) (es : List FeedEntry) (a : Applied)
      → a.all_succeeded ≡ true
      → (apply_entries feed (λ n. runs (clock n)) es a).all_succeeded ≡ true
  unfolding apply_entries
  succeeds-apply_entries clock [] a h = h
  succeeds-apply_entries clock (e ∷ es) a h =
      succeeds-apply_entries (λ n. clock (suc n)) es (apply_entry feed (runs (clock 0)) e a)
        (succeeds-apply_entry (clock 0) e a h)
