-- ===== src/Auth/Revocations/Served.antt =====
-- A page shows only records of the store, and its cursor is the time of one of them.
use acdp_control_plane.Prelude.{
  ℕ, suc, zero, ◌≤◌, ◌<◌, ◌≡◌, ◌⊎◌, refl, subst, inl, inr, String, List, [], ◌∷◌, ◌++◌, Bool, true,
  false, ◌&&◌, some, arith, ltb, ◌==◌, length, take, drop, map, if◌then◌else◌,
}
use acdp_control_plane.Auth.Revocations.{
  RevocationRecord, Revocations, time_of, newer_than, same_ms, last_time, page_entries, page_of,
  page_cap, in_order, insert_by, sort_by, list_since,
}
use acdp_control_plane.Auth.Revocations.Order.{Listed}
use acdp_control_plane.Auth.Revocations.Pages.{list_since_progress}

-- A list shows only what another does.
abbrev Within : List RevocationRecord → List RevocationRecord → Type 0
Within xs ys = (r : RevocationRecord) → Listed r xs → Listed r ys

Listed-if :
    (r : RevocationRecord) (b : Bool) (xs ys : List RevocationRecord)
    → Listed r (if b then xs else ys)
    → Listed r xs ⊎ Listed r ys
Listed-if r true xs ys l = inl l
Listed-if r false xs ys l = inr l

Within-if :
    (b : Bool) (xs ys zs : List RevocationRecord)
    → Within xs zs
    → Within ys zs
    → Within (if b then xs else ys) zs
Within-if true xs ys zs p q = p
Within-if false xs ys zs p q = q

Listed-append_back :
    (r : RevocationRecord) (xs ys : List RevocationRecord)
    → Listed r (xs ++ ys)
    → Listed r xs ⊎ Listed r ys
Listed-append_back r [] ys l = inr l
Listed-append_back r (x ∷ xs) ys (inl e) = inl (inl e)
Listed-append_back r (x ∷ xs) ys (inr l) = elim (Listed-append_back r xs ys l) [
  | inl a ↦ inl (inr a)
  | inr b ↦ inr b
]

newer_than-Within : (since : ℕ) (rs : List RevocationRecord) → Within (newer_than since rs) rs
unfolding newer_than
newer_than-Within since [] = λ r l. l
newer_than-Within since (s ∷ rs) =
    Within-if (ltb since (time_of s)) (s ∷ newer_than since rs) (newer_than since rs) (s ∷ rs)
      (λ r l. elim l [ inl e ↦ inl e | inr k ↦ inr (newer_than-Within since rs r k) ])
      (λ r l. inr (newer_than-Within since rs r l))

take-Within : (n : ℕ) (rs : List RevocationRecord) → Within (take n rs) rs
take-Within zero rs r l = elim l [ ]
take-Within (suc n) [] r l = elim l [ ]
take-Within (suc n) (s ∷ rs) r (inl e) = inl e
take-Within (suc n) (s ∷ rs) r (inr l) = inr (take-Within n rs r l)

drop-Within : (n : ℕ) (rs : List RevocationRecord) → Within (drop n rs) rs
drop-Within zero rs r l = l
drop-Within (suc n) [] r l = l
drop-Within (suc n) (s ∷ rs) r l = inr (drop-Within n rs r l)

same_ms-Within : (t : ℕ) (rs : List RevocationRecord) → Within (same_ms t rs) rs
unfolding same_ms
same_ms-Within t [] = λ r l. l
same_ms-Within t (s ∷ rs) =
    Within-if (time_of s == t) (s ∷ same_ms t rs) [] (s ∷ rs)
      (λ r l. elim l [ inl e ↦ inl e | inr k ↦ inr (same_ms-Within t rs r k) ]) (λ r l. elim l [ ])

page_entries-Within : (most : ℕ) (rs : List RevocationRecord) → Within (page_entries most rs) rs
unfolding page_entries
page_entries-Within most rs =
    Within-if (length (take most rs) == most && ltb most (length rs)) _ (take most rs) rs
      (λ r l. elim (Listed-append_back r (take most rs) _ l) [
        | inl early ↦ take-Within most rs r early
        | inr late ↦ drop-Within most rs r (same_ms-Within _ (drop most rs) r late)
      ])
      (take-Within most rs)

module _ (le : String → String → Bool) where
  insert_by-Within :
      (s : RevocationRecord) (rs : List RevocationRecord) → Within (insert_by le s rs) (s ∷ rs)
  unfolding insert_by
  insert_by-Within s [] = λ r l. l
  insert_by-Within s (t ∷ rs) =
      Within-if (in_order le s t) (s ∷ t ∷ rs) (t ∷ insert_by le s rs) (s ∷ t ∷ rs) (λ r l. l)
        (λ r l. elim l [
          | inl e ↦ inr (inl e)
          | inr k ↦ elim (insert_by-Within s rs r k) [ inl e ↦ inl e | inr m ↦ inr (inr m) ]
        ])

  sort_by-Within : (rs : List RevocationRecord) → Within (sort_by le rs) rs
  unfolding sort_by
  sort_by-Within [] r l = l
  sort_by-Within (s ∷ rs) r l = elim (insert_by-Within s (sort_by le rs) r l) [
    | inl e ↦ inl e
    | inr k ↦ inr (sort_by-Within rs r k)
  ]

  -- The records of a page stand in the store.
  pub list_since-Within :
      (since_ms limit : ℕ) (s : Revocations) (r : RevocationRecord)
      → Listed r (list_since le since_ms limit s).entries
      → Listed r (map (λ e. e.1) s.store)
  unfolding list_since page_of
  list_since-Within since_ms limit s r l =
      let rows = map (λ e. e.1) s.store in
      newer_than-Within since_ms rows r (
        sort_by-Within (newer_than since_ms rows) r
          (page_entries-Within (page_cap limit) (sort_by le (newer_than since_ms rows)) r l))

-- The last time of a list is the time of one of its records.
last_time_of :
    (t : ℕ) (rs : List RevocationRecord)
    → last_time rs ≡ some t
    → (r : RevocationRecord) × Listed r rs × (time_of r ≡ t)
last_time_of t [] h = absurd (ground (arith, h))
last_time_of t (r ∷ []) h = (r, inl refl, cc h)
last_time_of t (r ∷ s ∷ rs) h = let (q, l, e) = last_time_of t (s ∷ rs) h in (q, inr l, e)

-- Fewer records are newer than a later cursor, and none more.
pub length-newer_than_le :
    (a b : ℕ) (rs : List RevocationRecord)
    → a ≤ b
    → length (newer_than b rs) ≤ length (newer_than a rs)
unfolding newer_than
length-newer_than_le a b [] h = omega arith
length-newer_than_le a b (r ∷ rs) h = ground (arith, length-newer_than_le a b rs h)

pub length-newer_than_lt :
    (a b : ℕ) (r : RevocationRecord) (rs : List RevocationRecord)
    → Listed r rs
    → a < time_of r
    → time_of r ≤ b
    → length (newer_than b rs) < length (newer_than a rs)
unfolding newer_than
length-newer_than_lt a b r [] l h k = elim l [ ]
length-newer_than_lt a b r (s ∷ rs) (inl e) h k =
    let h' = subst (λ x. a < time_of x) e h in
    let k' = subst (λ x. time_of x ≤ b) e k in
    ground (arith, h', k', length-newer_than_le a b rs (omega (arith, h', k')))
length-newer_than_lt a b r (s ∷ rs) (inr l) h k =
    ground (arith, h, k, length-newer_than_lt a b r rs l h k)

module _ (le : String → String → Bool) where
  next_cursor-last_time :
      (since_ms limit c : ℕ) (s : Revocations)
      → (list_since le since_ms limit s).next_cursor ≡ some c
      → last_time (list_since le since_ms limit s).entries ≡ some c
  unfolding list_since page_of
  next_cursor-last_time since_ms limit c s h = ground (arith, h)

  -- The cursor of a page is past fewer records than the one it was asked with.
  pub next_cursor-shrinks :
      (since_ms limit c : ℕ) (s : Revocations)
      → (list_since le since_ms limit s).next_cursor ≡ some c
      → length (newer_than c (map (λ e. e.1) s.store))
        < length (newer_than since_ms (map (λ e. e.1) s.store))
  next_cursor-shrinks since_ms limit c s h =
      let (r, l, e) =
        last_time_of c (list_since le since_ms limit s).entries
          (next_cursor-last_time since_ms limit c s h) in
      length-newer_than_lt since_ms c r (map (λ e. e.1) s.store)
        (list_since-Within le since_ms limit s r l)
        (rw e ((list_since_progress le since_ms limit s).1 c h)) (omega (arith, e))
