-- ===== src/Auth/Revocations/Order.antt =====
-- The order of the feed: sorting keeps every record, and the times of the result do not fall.
use acdp_control_plane.Prelude.{
  ℕ, suc, ◌≤◌, ◌<◌, ◌≡◌, ◌⊎◌, refl, inl, inr, String, List, [], ◌∷◌, Bool, true, false, arith, ltb,
  lt→ltb, subst, All, Bool-cases,
}
use acdp_control_plane.Auth.Revocations.{
  RevocationRecord, time_of, newer_than, in_order, insert_by, sort_by,
}

abbrev pub Listed : RevocationRecord → List RevocationRecord → Type 0
Listed r [] = ⊥
Listed r (s ∷ rs) = (r ≡ s) ⊎ Listed r rs

-- In the order of the revocation times.
abbrev pub IsSorted : List RevocationRecord → Type 0
IsSorted [] = Unit
IsSorted (r ∷ rs) = All (λ s. time_of r ≤ time_of s) rs × IsSorted rs

abbrev pub NoneBefore : ℕ → List RevocationRecord → Type 0
NoneBefore at rs = All (λ s. at ≤ time_of s) rs

pub NoneBefore-le :
    (a b : ℕ) (rs : List RevocationRecord) → a ≤ b → NoneBefore b rs → NoneBefore a rs
NoneBefore-le a b [] h p = tt
NoneBefore-le a b (r ∷ rs) h (p, q) = (omega arith, NoneBefore-le a b rs h q)

pub NoneBefore-Listed :
    (at : ℕ) (r : RevocationRecord) (rs : List RevocationRecord)
    → NoneBefore at rs
    → Listed r rs
    → at ≤ time_of r
NoneBefore-Listed at r [] h l = elim l [ ]
NoneBefore-Listed at r (s ∷ rs) (p, h) (inl e) = rw e p
NoneBefore-Listed at r (s ∷ rs) (p, h) (inr l) = NoneBefore-Listed at r rs h l

pub Listed-newer_than :
    (since : ℕ) (r : RevocationRecord) (rs : List RevocationRecord)
    → Listed r rs
    → since < time_of r
    → Listed r (newer_than since rs)
unfolding newer_than
Listed-newer_than since r [] l h = elim l [ ]
Listed-newer_than since r (s ∷ rs) (inl e) h =
    let kept : since < time_of s = subst (λ x. since < time_of x) e h in
    rw (lt→ltb since (time_of s) kept) (inl e)
Listed-newer_than since r (s ∷ rs) (inr l) h = elim (Bool-cases (ltb since (time_of s))) [
  | inl kept ↦ rw kept (inr (Listed-newer_than since r rs l h))
  | inr old ↦ rw old (Listed-newer_than since r rs l h)
]

pub newer_than-after :
    (since : ℕ) (rs : List RevocationRecord) → NoneBefore (suc since) (newer_than since rs)
unfolding newer_than
newer_than-after since [] = tt
newer_than-after since (s ∷ rs) = ground (arith, newer_than-after since rs)

module _ (locale_le : String → String → Bool) where
  pub NoneBefore-insert_by :
      (at : ℕ) (r : RevocationRecord) (rs : List RevocationRecord)
      → at ≤ time_of r
      → NoneBefore at rs
      → NoneBefore at (insert_by locale_le r rs)
  unfolding insert_by
  NoneBefore-insert_by at r [] h p = (h, tt)
  NoneBefore-insert_by at r (s ∷ rs) h (p, q) = elim (Bool-cases (in_order locale_le r s)) [
    | inl first ↦ rw first (h, (p, q))
    | inr later ↦ rw later (p, NoneBefore-insert_by at r rs h q)
  ]

  pub in_order_le : (r s : RevocationRecord) → in_order locale_le r s ≡ true → time_of r ≤ time_of s
  unfolding in_order
  in_order_le r s h = ground arith

  pub in_order_ge :
      (r s : RevocationRecord) → in_order locale_le r s ≡ false → time_of s ≤ time_of r
  unfolding in_order
  in_order_ge r s h = ground arith

  pub insert_by-IsSorted :
      (r : RevocationRecord) (rs : List RevocationRecord)
      → IsSorted rs
      → IsSorted (insert_by locale_le r rs)
  unfolding insert_by
  insert_by-IsSorted r [] h = (tt, tt)
  insert_by-IsSorted r (s ∷ rs) (p, h) = elim (Bool-cases (in_order locale_le r s)) [
    | inl first ↦
        let le = in_order_le r s first in
        rw first ((le, NoneBefore-le (time_of r) (time_of s) rs le p), (p, h))
    | inr later ↦
        rw later (
          NoneBefore-insert_by (time_of s) r rs (in_order_ge r s later) p,
          insert_by-IsSorted r rs h,
        )
  ]

  pub sort_by-IsSorted : (rs : List RevocationRecord) → IsSorted (sort_by locale_le rs)
  unfolding sort_by
  sort_by-IsSorted [] = tt
  sort_by-IsSorted (r ∷ rs) = insert_by-IsSorted r (sort_by locale_le rs) (sort_by-IsSorted rs)

  pub NoneBefore-sort_by :
      (at : ℕ) (rs : List RevocationRecord)
      → NoneBefore at rs
      → NoneBefore at (sort_by locale_le rs)
  unfolding sort_by
  NoneBefore-sort_by at [] h = tt
  NoneBefore-sort_by at (r ∷ rs) (p, h) =
      NoneBefore-insert_by at r (sort_by locale_le rs) p (NoneBefore-sort_by at rs h)

  pub Listed-insert_self :
      (r : RevocationRecord) (rs : List RevocationRecord) → Listed r (insert_by locale_le r rs)
  unfolding insert_by
  Listed-insert_self r [] = inl refl
  Listed-insert_self r (s ∷ rs) = elim (Bool-cases (in_order locale_le r s)) [
    | inl first ↦ rw first (inl refl)
    | inr later ↦ rw later (inr (Listed-insert_self r rs))
  ]

  pub Listed-insert_by :
      (r s : RevocationRecord) (rs : List RevocationRecord)
      → Listed r rs
      → Listed r (insert_by locale_le s rs)
  unfolding insert_by
  Listed-insert_by r s [] l = elim l [ ]
  Listed-insert_by r s (t ∷ rs) l = elim (Bool-cases (in_order locale_le s t)) [
    | inl first ↦ rw first (inr l)
    | inr later ↦ rw later (elim l [ inl e ↦ inl e | inr l' ↦ inr (Listed-insert_by r s rs l') ])
  ]

  pub Listed-sort_by :
      (r : RevocationRecord) (rs : List RevocationRecord)
      → Listed r rs
      → Listed r (sort_by locale_le rs)
  unfolding sort_by
  Listed-sort_by r [] l = elim l [ ]
  Listed-sort_by r (s ∷ rs) (inl e) = rw e (Listed-insert_self s (sort_by locale_le rs))
  Listed-sort_by r (s ∷ rs) (inr l) =
      Listed-insert_by r s (sort_by locale_le rs) (Listed-sort_by r rs l)
