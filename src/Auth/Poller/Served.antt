-- ===== src/Auth/Poller/Served.antt =====
-- The records that a peer serves to the poller, and what it makes of them.
use acdp_control_plane.Prelude.{
  ℕ, ◌≤◌, ◌≡◌, refl, sym, ap, subst, inl, inr, String, List, [], ◌∷◌, Bool, true, false, ◌||◌, ◌&&◌,
  not, Option, none, some, arith, length, map, if◌then◌else◌, eq_refl, eq_iff, All, Number, nat,
}
use acdp_control_plane.Prelude.OrderedMap.{lookup-insert}
use acdp_control_plane.Auth.Feeds.{RevocationFeedConfig}
use acdp_control_plane.Auth.Revocations.{RevocationRecord, Revocations, key_of}
use acdp_control_plane.Auth.Revocations.Order.{Listed}
use acdp_control_plane.Auth.FeedController.RoundTrip.{entry_served, cursor_served, HasId}
use acdp_control_plane.Auth.Poller.{Poller, record_of, cursor_of, move_cursor}
use acdp_control_plane.Auth.Poller.Apply.{Among, is_honoured, entry_key}

pub passed {ℓ} : {A : Type ℓ} (b : Bool) (x y : A) → b ≡ false → (if b then x else y) ≡ y
passed b x y h = rw h refl

pub none_refused : (a b : Bool) → (a || b) ≡ true → (not a && not b) ≡ false
none_refused a b h = ground (arith, h)

-- What a peer may serve, so that the poller of this feed takes it: a token of its own, with an id and
-- an expiry past 0.
abbrev pub IsServable : RevocationFeedConfig → RevocationRecord → Type 0
IsServable config r = HasId r × (r.iss ≡ config.issuer) × (1 ≤ r.exp)

-- A tick of the timer: the clocks that `revoke` reads, and whether persisting the cursor fails.
pub record Tick : Type 0 where
  pub clock : ℕ → ℕ
  pub cursor_call_throws : Bool

pub All-Listed :
    (P : RevocationRecord → Type 0) (r : RevocationRecord) (rs : List RevocationRecord)
    → All P rs
    → Listed r rs
    → P r
All-Listed P r [] h l = elim l [ ]
All-Listed P r (s ∷ rs) (p, h) (inl e) = subst P (sym e) p
All-Listed P r (s ∷ rs) (p, h) (inr l) = All-Listed P r rs h l

pub All-of :
    (P : RevocationRecord → Type 0) (rs : List RevocationRecord)
    → ((r : RevocationRecord) → Listed r rs → P r)
    → All P rs
All-of P [] h = tt
All-of P (r ∷ rs) h = (h r (inl refl), All-of P rs (λ s l. h s (inr l)))

pub Among-map :
    (r : RevocationRecord) (rs : List RevocationRecord)
    → Listed r rs
    → Among (entry_served r) (map entry_served rs)
Among-map r [] l = elim l [ ]
Among-map r (s ∷ rs) (inl e) = inl (ap entry_served e)
Among-map r (s ∷ rs) (inr l) = inr (Among-map r rs l)

pub Listed-pos : (r : RevocationRecord) (rs : List RevocationRecord) → Listed r rs → 1 ≤ length rs
Listed-pos r [] l = elim l [ ]
Listed-pos r (s ∷ rs) l = omega arith

-- The poller does not drop it, and stores it under its own key.
pub served-is_honoured :
    (config : RevocationFeedConfig) (r : RevocationRecord)
    → r.iss ≡ config.issuer
    → 1 ≤ r.exp
    → is_honoured config (entry_served r) ≡ true
served-is_honoured config r same late = ground (arith, late, same, eq_iff r.iss config.issuer)

pub served-entry_key :
    (config : RevocationFeedConfig) (r : RevocationRecord)
    → r.iss ≡ config.issuer
    → entry_key config (entry_served r) ≡ key_of r.iss r.jti
unfolding record_of
served-entry_key config r same = ap (λ iss. key_of iss r.jti) (ground (arith, same))

pub cursor_of-move_cursor :
    (issuer : String) (cursor : Number) (fails : Bool) (p : Poller)
    → cursor_of issuer (move_cursor issuer (some cursor) fails p) ≡ cursor
unfolding move_cursor cursor_of
cursor_of-move_cursor issuer cursor fails p = simp (lookup-insert, eq_refl)

-- The cursor after a page.
abbrev pub moved_to : ℕ → Option ℕ → ℕ
moved_to c none = c
moved_to c (some d) = d

pub cursor_moved :
    (issuer : String) (next : Option ℕ) (fails : Bool) (p : Poller) (s : Revocations) (c : ℕ)
    → cursor_of issuer p ≡ nat c
    → cursor_of issuer
        (move_cursor issuer (cursor_served next) fails (record p { revocations = s }))
      ≡ nat (moved_to c next)
unfolding move_cursor cursor_of
cursor_moved issuer none fails p s c at = at
cursor_moved issuer (some d) fails p s c at = cursor_of-move_cursor issuer (nat d) fails p
