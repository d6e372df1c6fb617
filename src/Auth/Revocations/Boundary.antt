-- ===== src/Auth/Revocations/Boundary.antt =====
-- The boundary of a page: what shares its millisecond, and what lies past it.
use acdp_control_plane.Prelude.{
  ℕ, suc, ◌+◌, ◌≤◌, ◌<◌, ◌≡◌, ◌⊎◌, refl, ap, inl, inr, List, [], ◌∷◌, ◌++◌, some, arith, ==→eq,
  ==_false, subst, ◌==◌, length, take, drop, Bool-cases, zero,
}
use acdp_control_plane.Auth.Revocations.{RevocationRecord, time_of, same_ms, last_time}
use acdp_control_plane.Auth.Revocations.Order.{
  Listed, IsSorted, NoneBefore, NoneBefore-le, NoneBefore-Listed,
}

-- Past the boundary's millisecond everything is later.
pub after_same_ms :
    (at : ℕ) (r : RevocationRecord) (rs : List RevocationRecord)
    → IsSorted rs
    → NoneBefore at rs
    → Listed r rs
    → Listed r (same_ms at rs) ⊎ ((at < time_of r) × (length (same_ms at rs) < length rs))
unfolding same_ms
after_same_ms at r [] sorted h l = elim l [ ]
after_same_ms at r (s ∷ rs) (below, sorted) (p, h) l = elim (Bool-cases (time_of s == at)) [
  | inr past ↦
      let later : at < time_of s = omega (arith, ==_false (time_of s) at past) in
      let reach =
        NoneBefore-Listed (suc at) r (s ∷ rs)
          (later, NoneBefore-le (suc at) (time_of s) rs later below) l in
      rw past (inr (reach, omega arith))
  | inl same ↦ rw same (elim l [
    | inl e ↦ inl (inl e)
    | inr l' ↦ elim (after_same_ms at r rs sorted h l') [
      | inl found ↦ inl (inr found)
      | inr (later, shorter) ↦ inr (later, omega (arith, shorter))
    ]
  ])
]

pub Listed-append_left :
    (r : RevocationRecord) (xs ys : List RevocationRecord) → Listed r xs → Listed r (xs ++ ys)
Listed-append_left r [] ys l = elim l [ ]
Listed-append_left r (x ∷ xs) ys (inl e) = inl e
Listed-append_left r (x ∷ xs) ys (inr l) = inr (Listed-append_left r xs ys l)

pub Listed-append_right :
    (r : RevocationRecord) (xs ys : List RevocationRecord) → Listed r ys → Listed r (xs ++ ys)
Listed-append_right r [] ys l = l
Listed-append_right r (x ∷ xs) ys l = inr (Listed-append_right r xs ys l)

pub Listed-split :
    (n : ℕ) (r : RevocationRecord) (rs : List RevocationRecord)
    → Listed r rs
    → Listed r (take n rs) ⊎ Listed r (drop n rs)
Listed-split zero r rs l = inr l
Listed-split (suc n) r [] l = elim l [ ]
Listed-split (suc n) r (s ∷ rs) (inl e) = inl (inl e)
Listed-split (suc n) r (s ∷ rs) (inr l) = elim (Listed-split n r rs l) [
  | inl a ↦ inl (inr a)
  | inr b ↦ inr b
]

pub drop-IsSorted : (n : ℕ) (rs : List RevocationRecord) → IsSorted rs → IsSorted (drop n rs)
drop-IsSorted zero rs h = h
drop-IsSorted (suc n) [] h = tt
drop-IsSorted (suc n) (r ∷ rs) (p, h) = drop-IsSorted n rs h

pub NoneBefore-drop :
    (n t : ℕ) (rs : List RevocationRecord)
    → IsSorted rs
    → last_time (take (suc n) rs) ≡ some t
    → NoneBefore t (drop (suc n) rs)
NoneBefore-drop n t [] sorted h = tt
NoneBefore-drop zero t (r ∷ rs) (p, sorted) h =
    let same : time_of r ≡ t = cc h in subst (λ k. NoneBefore k rs) same p
NoneBefore-drop (suc n) t (r ∷ []) sorted h = tt
NoneBefore-drop (suc n) t (r ∷ s ∷ rs) (p, sorted) h = NoneBefore-drop n t (s ∷ rs) sorted h

pub last_time-take :
    (n : ℕ) (rs : List RevocationRecord)
    → 0 < length rs
    → (t : ℕ) × (last_time (take (suc n) rs) ≡ some t)
last_time-take n [] h = absurd (omega arith)
last_time-take zero (r ∷ rs) h = (time_of r, refl)
last_time-take (suc n) (r ∷ []) h = (time_of r, refl)
last_time-take (suc n) (r ∷ s ∷ rs) h = last_time-take n (s ∷ rs) (omega arith)

pub last_time-cons_same :
    (t : ℕ) (r : RevocationRecord) (rs : List RevocationRecord)
    → time_of r ≡ t
    → last_time (r ∷ same_ms t rs) ≡ some t
unfolding same_ms
last_time-cons_same t r [] h = ap some h
last_time-cons_same t r (s ∷ rs) h = elim (Bool-cases (time_of s == t)) [
  | inl same ↦ rw same (last_time-cons_same t s rs (==→eq (time_of s) t same))
  | inr past ↦ rw past (ap some h)
]

pub last_time-append_same :
    (t : ℕ) (xs ys : List RevocationRecord)
    → last_time xs ≡ some t
    → last_time (xs ++ same_ms t ys) ≡ some t
last_time-append_same t [] ys h = cc
last_time-append_same t (x ∷ []) ys h = last_time-cons_same t x ys (cc h)
last_time-append_same t (x ∷ y ∷ xs) ys h = last_time-append_same t (y ∷ xs) ys h

pub NoneBefore-take :
    (at n : ℕ) (rs : List RevocationRecord) → NoneBefore at rs → NoneBefore at (take n rs)
NoneBefore-take at zero rs h = tt
NoneBefore-take at (suc n) [] h = tt
NoneBefore-take at (suc n) (r ∷ rs) (p, h) = (p, NoneBefore-take at n rs h)

pub NoneBefore-drop_any :
    (at n : ℕ) (rs : List RevocationRecord) → NoneBefore at rs → NoneBefore at (drop n rs)
NoneBefore-drop_any at zero rs h = h
NoneBefore-drop_any at (suc n) [] h = tt
NoneBefore-drop_any at (suc n) (r ∷ rs) (p, h) = NoneBefore-drop_any at n rs h

pub NoneBefore-append :
    (at : ℕ) (xs ys : List RevocationRecord)
    → NoneBefore at xs
    → NoneBefore at ys
    → NoneBefore at (xs ++ ys)
NoneBefore-append at [] ys h k = k
NoneBefore-append at (x ∷ xs) ys (p, h) k = (p, NoneBefore-append at xs ys h k)

pub NoneBefore-same_ms :
    (at t : ℕ) (rs : List RevocationRecord) → NoneBefore at rs → NoneBefore at (same_ms t rs)
unfolding same_ms
NoneBefore-same_ms at t [] h = tt
NoneBefore-same_ms at t (r ∷ rs) (p, h) = elim (Bool-cases (time_of r == t)) [
  | inl same ↦ rw same (p, NoneBefore-same_ms at t rs h)
  | inr past ↦ rw past tt
]

pub last_time-NoneBefore :
    (at t : ℕ) (rs : List RevocationRecord) → NoneBefore at rs → last_time rs ≡ some t → at ≤ t
last_time-NoneBefore at t [] h e = cc
last_time-NoneBefore at t (r ∷ []) (p, h) e = let same : time_of r ≡ t = cc e in rw (← same) p
last_time-NoneBefore at t (r ∷ s ∷ rs) (p, h) e = last_time-NoneBefore at t (s ∷ rs) h e

pub length-take-drop :
    (n : ℕ) (rs : List RevocationRecord) → length (take n rs) + length (drop n rs) ≡ length rs
length-take-drop zero rs = omega arith
length-take-drop (suc n) [] = omega arith
length-take-drop (suc n) (r ∷ rs) = omega (arith, length-take-drop n rs)
