-- ===== src/Auth/PinnedKeys.antt =====
-- The lookup of src/auth/pinned-keys.service.ts; `now_ms` is the clock.
use acdp_control_plane.Prelude.{
  ℕ, ◌/◌, String, List, Bool, false, not, Option, none, some, ltb, if◌then◌else◌,
}
use acdp_control_plane.Prelude.OrderedMap.{lookup}

pub record PinnedKey : Type 0 where
  pub agent_did : String
  pub algorithm : String
  pub raw_b64 : String
  pub valid_from_sec : Option ℕ
  pub valid_until_sec : Option ℕ

-- A clock before the first second of the window, or past its end.
unfoldable pub too_early : Option ℕ → ℕ → Bool
too_early none now = false
too_early (some from) now = ltb now from

unfoldable pub too_late : Option ℕ → ℕ → Bool
too_late none now = false
too_late (some until) now = not (ltb now until)

unfoldable pub within : ℕ → Option PinnedKey → Option PinnedKey
unfolding too_early too_late
within now none = none
within now (some key) =
    if too_early key.valid_from_sec now
    then none
    else if too_late key.valid_until_sec now
    then none
    else some key

unfoldable pub get : List (String × PinnedKey) → String → ℕ → Option PinnedKey
unfolding within
get pinned agent now_ms = within (now_ms / 1000) (lookup agent pinned)
