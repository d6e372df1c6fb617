-- ===== src/Log/Merkle/Fold.antt =====
-- The two loops of src/audit/log-verify.ts over decoded paths, as one fold of a pair of hashes.
use acdp_control_plane.Prelude.{
  ℕ, ◌/◌, ◌%◌, ◌≡◌, ◌≢◌, refl, Option, none, some, List, [], ◌∷◌, arith, ◌==◌, if◌then◌else◌,
}
use acdp_control_plane.Log.Merkle.Cursor.{
  on_right, advance, advance_odd, advance_even, advance_last, on_right_odd, on_right_even,
  on_right_last,
}

module _ {H : Type 0} (node : H → H → H) where
  -- `a` is the node of the smaller tree at the cursor, and `b` that of the larger one.
  unfoldable pub fold : ℕ → ℕ → H → H → List H → Option (H × H)
  fold fn sn a b [] = if sn == 0 then some (a, b) else none
  fold fn sn a b (c ∷ cs) =
      if sn == 0
      then none
      else fold (advance fn sn).0 (advance fn sn).1 (if on_right fn sn then node c a else a)
          (if on_right fn sn then node c b else node b c) cs

  pub fold_odd :
      (fn sn : ℕ) (a b c : H) (cs : List H)
      → fn % 2 ≡ 1
      → sn ≢ 0
      → fold fn sn a b (c ∷ cs) ≡ fold (fn / 2) (sn / 2) (node c a) (node c b) cs
  unfolding fold
  fold_odd fn sn a b c cs h k = rw (advance_odd fn sn h, on_right_odd fn sn h) (ground arith)

  pub fold_even :
      (fn sn : ℕ) (a b c : H) (cs : List H)
      → fn % 2 ≡ 0
      → fn ≢ sn
      → sn ≢ 0
      → fold fn sn a b (c ∷ cs) ≡ fold (fn / 2) (sn / 2) a (node b c) cs
  unfolding fold
  fold_even fn sn a b c cs h k l =
      rw (advance_even fn sn h k, on_right_even fn sn h k) (ground arith)

  pub fold_last :
      (fn : ℕ) (a b : H) (cs : List H)
      → fn % 2 ≡ 0
      → fn ≢ 0
      → fold fn fn a b cs ≡ fold (fn / 2) (fn / 2) a b cs
  unfolding fold
  fold_last fn a b [] h k = ground arith
  fold_last fn a b (c ∷ cs) h k =
      rw (advance_last fn h k, on_right_last fn, on_right_last (fn / 2)) (ground arith)

  pub fold-nil_pos : (fn sn : ℕ) (a b : H) → sn ≢ 0 → fold fn sn a b [] ≡ none
  unfolding fold
  fold-nil_pos fn sn a b h = ground arith

  pub fold_zero : (fn : ℕ) (a b : H) → fold fn 0 a b [] ≡ some (a, b)
  unfolding fold
  fold_zero fn a b = refl

  pub fold-cons_zero : (fn : ℕ) (a b c : H) (cs : List H) → fold fn 0 a b (c ∷ cs) ≡ none
  unfolding fold
  fold-cons_zero fn a b c cs = refl
