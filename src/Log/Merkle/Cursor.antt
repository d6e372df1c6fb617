-- ===== src/Log/Merkle/Cursor.antt =====
-- The cursor (fn, sn) of the two path folds: which side an element goes to, and where the cursor
-- moves after it.
use acdp_control_plane.Prelude.{
  ℕ, zero, suc, ◌/◌, ◌%◌, ◌≤◌, ◌≡◌, refl, ◌≢◌, Bool, true, false, ◌&&◌, ◌||◌, not, ◌⊎◌, inl, inr,
  arith, ◌==◌, if◌then◌else◌, Bool-cases,
}

-- `fn % 2n === 1n || fn === sn`
unfoldable pub on_right : ℕ → ℕ → Bool
on_right fn sn = fn % 2 == 1 || fn == sn

-- `while (fn % 2n === 0n && fn !== 0n) { fn >>= 1n; sn >>= 1n; }`; `fn` rounds are enough.
unfoldable pub skip_unpaired : ℕ → ℕ → ℕ → ℕ × ℕ
skip_unpaired zero fn sn = (fn, sn)
skip_unpaired (suc fuel) fn sn = elim (fn % 2 == 0 && not (fn == 0)) [
  | true ↦ skip_unpaired fuel (fn / 2) (sn / 2)
  | false ↦ (fn, sn)
]

-- `while (fn % 2n === 1n) { fn >>= 1n; sn >>= 1n; }`; `fn` rounds are enough.
unfoldable pub skip_right : ℕ → ℕ → ℕ → ℕ × ℕ
skip_right zero fn sn = (fn, sn)
skip_right (suc fuel) fn sn = elim (fn % 2 == 1) [
  | true ↦ skip_right fuel (fn / 2) (sn / 2)
  | false ↦ (fn, sn)
]

abbrev pub shift : ℕ × ℕ → ℕ × ℕ
shift c = (c.0 / 2, c.1 / 2)

-- The cursor after one element of the path.
unfoldable pub advance : ℕ → ℕ → ℕ × ℕ
unfolding on_right
advance fn sn =
    if on_right fn sn
    then shift (if fn % 2 == 0 then skip_unpaired fn fn sn else (fn, sn))
    else shift (fn, sn)

pub skip_unpaired_fuel :
    (f g fn sn : ℕ) → fn ≤ f → fn ≤ g → skip_unpaired f fn sn ≡ skip_unpaired g fn sn
unfolding skip_unpaired
skip_unpaired_fuel zero zero fn sn p q = refl
skip_unpaired_fuel zero (suc g) fn sn p q = ground arith
skip_unpaired_fuel (suc f) zero fn sn p q = ground arith
skip_unpaired_fuel (suc f) (suc g) fn sn p q =
    ground (arith, skip_unpaired_fuel f g (fn / 2) (sn / 2))

pub advance_odd : (fn sn : ℕ) → fn % 2 ≡ 1 → advance fn sn ≡ (fn / 2, sn / 2)
unfolding advance
advance_odd fn sn h = ground arith

pub advance_even : (fn sn : ℕ) → fn % 2 ≡ 0 → fn ≢ sn → advance fn sn ≡ (fn / 2, sn / 2)
unfolding advance
advance_even fn sn h k = ground arith

pub on_right_odd : (fn sn : ℕ) → fn % 2 ≡ 1 → on_right fn sn ≡ true
unfolding on_right
on_right_odd fn sn h = ground arith

pub on_right_even : (fn sn : ℕ) → fn % 2 ≡ 0 → fn ≢ sn → on_right fn sn ≡ false
unfolding on_right
on_right_even fn sn h k = ground arith

pub on_right_last : (fn : ℕ) → on_right fn fn ≡ true
unfolding on_right
on_right_last fn = ground arith

skip_unpaired_step :
    (fn sn : ℕ)
    → fn % 2 ≡ 0
    → fn ≢ 0
    → skip_unpaired fn fn sn ≡ skip_unpaired (fn / 2) (fn / 2) (sn / 2)
unfolding skip_unpaired
skip_unpaired_step zero sn h k = absurd (k refl)
skip_unpaired_step (suc f) sn h k =
    ground (arith, skip_unpaired_fuel f (suc f / 2) (suc f / 2) (sn / 2))

skip_unpaired_odd : (fuel fn sn : ℕ) → fn % 2 ≡ 1 → skip_unpaired fuel fn sn ≡ (fn, sn)
unfolding skip_unpaired
skip_unpaired_odd zero fn sn h = refl
skip_unpaired_odd (suc f) fn sn h = ground arith

-- An unpaired last node moves up a layer and waits for the same element.
pub advance_last : (fn : ℕ) → fn % 2 ≡ 0 → fn ≢ 0 → advance fn fn ≡ advance (fn / 2) (fn / 2)
unfolding advance
advance_last fn h k =
    ground (arith, skip_unpaired_step fn fn, skip_unpaired_odd (fn / 2) (fn / 2) (fn / 2))

-- Where the cursor stands in its layer: on a right child, on an unpaired last node, or on a left
-- child that has a sibling.
pub place : (fn sn : ℕ) → (fn % 2 ≡ 1) ⊎ ((fn % 2 ≡ 0) × (fn ≡ sn)) ⊎ ((fn % 2 ≡ 0) × (fn ≢ sn))
place fn sn = elim (Bool-cases (fn == sn)) [ inl same ↦ ground arith | inr other ↦ ground arith ]

pub skip_right_odd :
    (fuel fn sn : ℕ) → fn % 2 ≡ 1 → skip_right (suc fuel) fn sn ≡ skip_right fuel (fn / 2) (sn / 2)
unfolding skip_right
skip_right_odd fuel fn sn h = ground arith

pub skip_right_even : (fuel fn sn : ℕ) → fn % 2 ≡ 0 → skip_right fuel fn sn ≡ (fn, sn)
unfolding skip_right
skip_right_even zero fn sn h = refl
skip_right_even (suc fuel) fn sn h = ground arith
