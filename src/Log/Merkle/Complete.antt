-- ===== src/Log/Merkle/Complete.antt =====
-- The audit path of a leaf, collected layer by layer, folds to the root; and the root by layers
-- obeys the recursion of RFC 6962 section 2.1.
use Prim.Native.Nat.{◌^◌}
use mathlib.Core.Path.{ap₂}
use native.Mathlib.Nat.{pow-suc}
use acdp_control_plane.Prelude.{
  ℕ, zero, suc, ◌+◌, ◌-◌, ◌/◌, ◌%◌, ◌≤◌, ◌<◌, ◌≡◌, refl, sym, ap, ◌∙◌, inl, inr, some, List, [],
  ◌∷◌, ◌++◌, arith, length, get_or, ◌==◌, leb, ltb, if◌then◌else◌,
}
use acdp_control_plane.Log.Merkle.Layers.{
  double, double_lem, pairs, length-pairs, get_or-pairs_full, get_or-pairs_last, root,
  root-singleton,
}
use acdp_control_plane.Log.Merkle.Cursor.{place}
use acdp_control_plane.Log.Merkle.Fold.{fold, fold_odd, fold_even, fold_last, fold_zero}

module _ {H : Type 0} (node : H → H → H) (e : H) where
  unfoldable pub audit_path : ℕ → ℕ → List H → List H
  audit_path zero i l = []
  audit_path (suc d) i l =
      let rest = audit_path d (i / 2) (pairs node l) in
      if leb (length l) 1
      then []
      else if i % 2 == 1
      then get_or l (i - 1) e ∷ rest
      else if ltb (suc i) (length l)
      then get_or l (suc i) e ∷ rest
      else rest

  audit_path_odd :
      (d i : ℕ) (l : List H)
      → 1 < length l
      → i % 2 ≡ 1
      → audit_path (suc d) i l ≡ get_or l (i - 1) e ∷ audit_path d (i / 2) (pairs node l)
  unfolding audit_path
  audit_path_odd d i l h odd = ground arith

  audit_path_even :
      (d i : ℕ) (l : List H)
      → suc i < length l
      → i % 2 ≡ 0
      → audit_path (suc d) i l ≡ get_or l (suc i) e ∷ audit_path d (i / 2) (pairs node l)
  unfolding audit_path
  audit_path_even d i l h even = ground arith

  audit_path_last :
      (d i : ℕ) (l : List H)
      → 1 < length l
      → length l ≡ suc i
      → i % 2 ≡ 0
      → audit_path (suc d) i l ≡ audit_path d (i / 2) (pairs node l)
  unfolding audit_path
  audit_path_last d i l h last even = ground arith

  audit_path_one : (d i : ℕ) (l : List H) → length l ≡ 1 → audit_path d i l ≡ []
  unfolding audit_path
  audit_path_one zero i l h = refl
  audit_path_one (suc d) i l h = ground arith

  root_one : (d : ℕ) (l : List H) → length l ≡ 1 → root node e d l ≡ get_or l 0 e
  root_one d [] h = absurd (omega arith)
  root_one d (x ∷ []) h = root-singleton node e d x
  root_one d (x ∷ y ∷ l) h = absurd (omega arith)

  -- `b` is what the fold makes of the smaller tree's side, which an inclusion proof does not use.
  abbrev pub FoldsToRoot : ℕ → List H → ℕ → ℕ → H → H → List H → Type 0
  FoldsToRoot d l fn sn a b cs = (a' : H) × (fold node fn sn a b cs ≡ some (a', root node e d l))

  parent_odd :
      (i : ℕ) (l : List H)
      → i % 2 ≡ 1
      → i < length l
      → get_or (pairs node l) (i / 2) e ≡ node (get_or l (i - 1) e) (get_or l i e)
  parent_odd i l odd h =
      let left : double (i / 2) ≡ i - 1 = omega (arith, double_lem (i / 2)) in
      let right : suc (double (i / 2)) ≡ i = omega (arith, double_lem (i / 2)) in
      get_or-pairs_full node (i / 2) l e (omega arith)
      ∙ ap₂ node (ap (λ k. get_or l k e) left) (ap (λ k. get_or l k e) right)

  parent_even :
      (i : ℕ) (l : List H)
      → i % 2 ≡ 0
      → suc i < length l
      → get_or (pairs node l) (i / 2) e ≡ node (get_or l i e) (get_or l (suc i) e)
  parent_even i l even h =
      let left : double (i / 2) ≡ i = omega (arith, double_lem (i / 2)) in
      get_or-pairs_full node (i / 2) l e (omega arith)
      ∙ ap₂ node (ap (λ k. get_or l k e) left) (ap (λ k. get_or l (suc k) e) left)

  parent_last :
      (i : ℕ) (l : List H)
      → i % 2 ≡ 0
      → length l ≡ suc i
      → get_or (pairs node l) (i / 2) e ≡ get_or l i e
  parent_last i l even h =
      let left : double (i / 2) ≡ i = omega (arith, double_lem (i / 2)) in
      get_or-pairs_last node (i / 2) l e (omega arith) ∙ ap (λ k. get_or l k e) left

  pub fold_complete :
      (d : ℕ) (l : List H) (fn sn : ℕ) (a : H)
      → length l ≡ suc sn
      → fn ≤ sn
      → sn ≤ d
      → FoldsToRoot d l fn sn a (get_or l fn e) (audit_path d fn l)
  unfolding root
  fold_complete d l fn zero a len le dep =
      let at : fn ≡ 0 = omega arith in
      (a, rw (at, audit_path_one d 0 l len, root_one d l len) (fold_zero node 0 a (get_or l 0 e)))
  fold_complete zero l fn (suc sn) a len le dep = absurd (omega arith)
  fold_complete (suc d) l fn (suc sn) a len le dep = elim (place fn (suc sn)) [
    | inl odd ↦
        let c = get_or l (fn - 1) e in
        let (a', run) =
          fold_complete d (pairs node l) (fn / 2) (suc sn / 2) (node c a)
            (omega (arith, length-pairs node l)) (omega arith) (omega arith) in
        (
          a',
          ap (fold node fn (suc sn) a (get_or l fn e)) (audit_path_odd d fn l (omega arith) odd)
              ∙ fold_odd node fn (suc sn) a (get_or l fn e) c _ odd (omega arith)
              ∙ ap
                  (λ x.
                    fold node (fn / 2) (suc sn / 2) (node c a) x
                      (audit_path d (fn / 2) (pairs node l)))
                  (sym (parent_odd fn l odd (omega arith)))
              ∙ run,
        )
    | inr (inl (even, last)) ↦
        let (a', run) =
          fold_complete d (pairs node l) (fn / 2) (fn / 2) a (omega (arith, length-pairs node l))
            (omega arith) (omega arith) in
        (
          a',
          ap (fold node fn (suc sn) a (get_or l fn e))
                (audit_path_last d fn l (omega arith) (omega arith) even)
              ∙ ap (λ k. fold node fn k a (get_or l fn e) (audit_path d (fn / 2) (pairs node l)))
                  (sym last)
              ∙ fold_last node fn a (get_or l fn e) _ even (omega arith)
              ∙ ap (λ x. fold node (fn / 2) (fn / 2) a x (audit_path d (fn / 2) (pairs node l)))
                  (sym (parent_last fn l even (omega arith)))
              ∙ run,
        )
    | inr (inr (even, paired)) ↦
        let c = get_or l (suc fn) e in
        let (a', run) =
          fold_complete d (pairs node l) (fn / 2) (suc sn / 2) a
            (omega (arith, length-pairs node l)) (omega arith) (omega arith) in
        (
          a',
          ap (fold node fn (suc sn) a (get_or l fn e)) (audit_path_even d fn l (omega arith) even)
              ∙ fold_even node fn (suc sn) a (get_or l fn e) c _ even paired (omega arith)
              ∙ ap (λ x. fold node (fn / 2) (suc sn / 2) a x (audit_path d (fn / 2) (pairs node l)))
                  (sym (parent_even fn l even (omega arith)))
              ∙ run,
        )
  ]

  pairs-append :
      (left right : List H) (n : ℕ)
      → length left ≡ n + n
      → pairs node (left ++ right) ≡ pairs node left ++ pairs node right
  unfolding pairs
  pairs-append [] right n h = refl
  pairs-append (x ∷ []) right n h = absurd (omega arith)
  pairs-append (x ∷ y ∷ left) right n h =
      ap (λ t. node x y ∷ t) (pairs-append left right (n - 1) (omega arith))

  root_pair :
      (d : ℕ) (x y : H)
      → root node e (suc d) (x ∷ y ∷ [])
        ≡ node (root node e (suc d) (x ∷ [])) (root node e (suc d) (y ∷ []))
  unfolding root pairs
  root_pair d x y =
      root-singleton node e d (node x y)
      ∙ ap₂ node (sym (root-singleton node e d x)) (sym (root-singleton node e d y))

  -- The RFC's recursion: a perfect left part of 2 ^ k leaves, and at most as many on the right.
  pub root_split :
      (k d : ℕ) (left right : List H)
      → length left ≡ 2 ^ k
      → 0 < length right
      → length right ≤ length left
      → length left + length right ≤ suc d
      → root node e d (left ++ right) ≡ node (root node e d left) (root node e d right)
  unfolding root
  root_split zero zero left right h p q r = absurd (omega arith)
  root_split zero (suc d) [] right h p q r = absurd (omega arith)
  root_split zero (suc d) (x ∷ y ∷ left) right h p q r = absurd (omega arith)
  root_split zero (suc d) (x ∷ []) [] h p q r = absurd (omega arith)
  root_split zero (suc d) (x ∷ []) (y ∷ z ∷ right) h p q r = absurd (omega arith)
  root_split zero (suc d) (x ∷ []) (y ∷ []) h p q r = root_pair d x y
  root_split (suc k) zero left right h p q r = absurd (omega arith)
  root_split (suc k) (suc d) left right h p q r =
      let twice : length left ≡ 2 ^ k + 2 ^ k = omega (arith, pow-suc 2 k) in
      ap (root node e d) (pairs-append left right (2 ^ k) twice)
      ∙ root_split k d (pairs node left) (pairs node right) (omega (arith, length-pairs node left))
          (omega (arith, length-pairs node right))
          (omega (arith, length-pairs node left, length-pairs node right))
          (omega (arith, length-pairs node left, length-pairs node right))
