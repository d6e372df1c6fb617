-- ===== src/Cosign/Quorum/Sets.antt =====
-- A `Set` of texts as a list: what `add` keeps.
use acdp_control_plane.Prelude.{
  ◌≡◌, refl, inl, inr, String, List, [], ◌∷◌, ◌++◌, true, false, ◌||◌, arith, All, str_eq, eq_iff,
  eq_refl, str_mem, Bool-cases,
}
use acdp_control_plane.Cosign.Quorum.{add}

-- No text stands twice in the list.
abbrev pub Distinct : List String → Type 0
Distinct [] = Unit
Distinct (x ∷ xs) = (str_mem x xs ≡ false) × Distinct xs

-- What holds of each text.
abbrev pub Each {κ} : (String → Type κ) → List String → Type κ
Each P xs = All P xs

mem_snoc :
    (x y : String) (xs : List String) → str_mem x (xs ++ y ∷ []) ≡ (str_mem x xs || str_eq y x)
mem_snoc x y [] = ground arith
mem_snoc x y (z ∷ xs) = ground (arith, mem_snoc x y xs)

pub mem-add : (x y : String) (xs : List String) → str_mem x xs ≡ true → str_mem x (add y xs) ≡ true
unfolding add
mem-add x y xs h = ground (arith, h, mem_snoc x y xs)

pub mem-add_self : (x : String) (xs : List String) → str_mem x (add x xs) ≡ true
unfolding add
mem-add_self x xs = ground (arith, mem_snoc x x xs, eq_refl x)

snoc-Distinct :
    (x : String) (xs : List String) → str_mem x xs ≡ false → Distinct xs → Distinct (xs ++ x ∷ [])
snoc-Distinct x [] h d = (refl, tt)
snoc-Distinct x (y ∷ xs) h (new, d) = (
  ground (arith, mem_snoc y x xs, eq_iff x y, eq_iff y x),
  snoc-Distinct x xs (ground (arith, h)) d,
)

pub add-Distinct : (x : String) (xs : List String) → Distinct xs → Distinct (add x xs)
unfolding add
add-Distinct x xs d = elim (Bool-cases (str_mem x xs)) [
  | inl h ↦ rw h d
  | inr h ↦ rw h (snoc-Distinct x xs h d)
]

module _ {κ} (P : String → Type κ) where
  snoc-Each : (x : String) (xs : List String) → P x → Each P xs → Each P (xs ++ x ∷ [])
  snoc-Each x [] p h = (p, tt)
  snoc-Each x (y ∷ xs) p (q, h) = (q, snoc-Each x xs p h)

  pub add-Each : (x : String) (xs : List String) → P x → Each P xs → Each P (add x xs)
  unfolding add
  add-Each x xs p h = elim (Bool-cases (str_mem x xs)) [
    | inl e ↦ rw e h
    | inr e ↦ rw e (snoc-Each x xs p h)
  ]
