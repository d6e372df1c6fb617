-- ===== src/Log/Merkle/Layers.antt =====
-- The tree as its layers: adjacent nodes are hashed together, and an unpaired last node moves up.
use acdp_control_plane.Prelude.{
  ℕ, zero, suc, ◌+◌, ◌/◌, ◌≤◌, ◌<◌, ◌≡◌, refl, ap, ◌⊎◌, List, [], ◌∷◌, ◌++◌, arith, length, take,
  get_or, All, ◌∙◌, inl, inr, Bool-cases, ◌==◌, ==→eq, ==_false,
}

abbrev pub double : ℕ → ℕ
double zero = zero
double (suc q) = suc (suc (double q))

pub double_lem : (q : ℕ) → double q ≡ q + q
double_lem zero = omega arith
double_lem (suc q) = omega (arith, double_lem q)

-- Every number is twice its half, or one more.
pub parity : (n : ℕ) → (n ≡ double (n / 2)) ⊎ (n ≡ suc (double (n / 2)))
parity n = omega (arith, double_lem (n / 2))

module _ {H : Type 0} (node : H → H → H) where
  unfoldable pub pairs : List H → List H
  pairs [] = []
  pairs (a ∷ []) = a ∷ []
  pairs (a ∷ b ∷ l) = node a b ∷ pairs l

  pub length-pairs : (l : List H) → length (pairs l) ≡ (length l + 1) / 2
  unfolding pairs
  length-pairs [] = omega arith
  length-pairs (a ∷ []) = omega arith
  length-pairs (a ∷ b ∷ l) = omega (arith, length-pairs l)

  pub get_or-pairs_full :
      (q : ℕ) (l : List H) (d : H)
      → suc (double q) < length l
      → get_or (pairs l) q d ≡ node (get_or l (double q) d) (get_or l (suc (double q)) d)
  unfolding pairs
  get_or-pairs_full q [] d h = absurd (omega arith)
  get_or-pairs_full q (a ∷ []) d h = absurd (omega arith)
  get_or-pairs_full zero (a ∷ b ∷ l) d h = refl
  get_or-pairs_full (suc q) (a ∷ b ∷ l) d h = get_or-pairs_full q l d (omega arith)

  pub get_or-pairs_last :
      (q : ℕ) (l : List H) (d : H)
      → length l ≡ suc (double q)
      → get_or (pairs l) q d ≡ get_or l (double q) d
  unfolding pairs
  get_or-pairs_last q [] d h = absurd (omega arith)
  get_or-pairs_last zero (a ∷ []) d h = refl
  get_or-pairs_last (suc q) (a ∷ []) d h = absurd (omega arith)
  get_or-pairs_last zero (a ∷ b ∷ l) d h = absurd (omega arith)
  get_or-pairs_last (suc q) (a ∷ b ∷ l) d h = get_or-pairs_last q l d (omega arith)

  pub pairs-take_even :
      (q : ℕ) (l : List H) (a : H)
      → double q ≤ length l
      → pairs (take (double q) l ++ a ∷ []) ≡ take q (pairs l) ++ a ∷ []
  unfolding pairs
  pairs-take_even zero l a h = refl
  pairs-take_even (suc q) [] a h = absurd (omega arith)
  pairs-take_even (suc q) (x ∷ []) a h = absurd (omega arith)
  pairs-take_even (suc q) (x ∷ y ∷ l) a h =
      ap (λ t. node x y ∷ t) (pairs-take_even q l a (omega arith))

  pub pairs-take_odd :
      (q : ℕ) (l : List H) (a d : H)
      → double q < length l
      → pairs (take (suc (double q)) l ++ a ∷ [])
        ≡ take q (pairs l) ++ node (get_or l (double q) d) a ∷ []
  unfolding pairs
  pairs-take_odd zero [] a d h = absurd (omega arith)
  pairs-take_odd zero (x ∷ l) a d h = refl
  pairs-take_odd (suc q) [] a d h = absurd (omega arith)
  pairs-take_odd (suc q) (x ∷ []) a d h = absurd (omega arith)
  pairs-take_odd (suc q) (x ∷ y ∷ l) a d h =
      ap (λ t. node x y ∷ t) (pairs-take_odd q l a d (omega arith))

  pub pairs-take-double :
      (q : ℕ) (l : List H) → double q ≤ length l → pairs (take (double q) l) ≡ take q (pairs l)
  unfolding pairs
  pairs-take-double zero l h = refl
  pairs-take-double (suc q) [] h = absurd (omega arith)
  pairs-take-double (suc q) (x ∷ []) h = absurd (omega arith)
  pairs-take-double (suc q) (x ∷ y ∷ l) h =
      ap (λ t. node x y ∷ t) (pairs-take-double q l (omega arith))

  -- The root after `d` layers. One layer for each leaf is enough, and more change nothing.
  unfoldable pub root : H → ℕ → List H → H
  root e zero l = get_or l 0 e
  root e (suc d) l = root e d (pairs l)

  pub root-singleton : (e : H) (d : ℕ) (a : H) → root e d (a ∷ []) ≡ a
  unfolding root pairs
  root-singleton e zero a = refl
  root-singleton e (suc d) a = root-singleton e d a

  root_depth_step : (e : H) (d : ℕ) (l : List H) → length l ≤ suc d → root e (suc d) l ≡ root e d l
  unfolding root pairs
  root_depth_step e zero [] h = refl
  root_depth_step e zero (a ∷ []) h = refl
  root_depth_step e zero (a ∷ b ∷ l) h = absurd (omega arith)
  root_depth_step e (suc d) l h = root_depth_step e d (pairs l) (omega (arith, length-pairs l))

  pub root_depth :
      (e : H) (d d' : ℕ) (l : List H) → length l ≤ d → d ≤ d' → root e d' l ≡ root e d l
  root_depth e d zero l h le = let same : d ≡ 0 = omega arith in rw same
  root_depth e d (suc d') l h le = elim (Bool-cases (d == suc d')) [
    | inl same ↦ rw (==→eq d (suc d') same)
    | inr other ↦
        root_depth_step e d' l (omega (arith, ==_false d (suc d') other))
        ∙ root_depth e d d' l h (omega (arith, ==_false d (suc d') other))
  ]

  module _ (Good : H → Type 0) (node-Good : (a b : H) → Good (node a b)) where
    pub All-pairs : (l : List H) → All Good l → All Good (pairs l)
    unfolding pairs
    All-pairs [] h = tt
    All-pairs (a ∷ []) h = h
    All-pairs (a ∷ b ∷ l) (p, (q, h)) = (node-Good a b, All-pairs l h)
