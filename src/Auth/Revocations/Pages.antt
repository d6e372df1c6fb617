-- ===== src/Auth/Revocations/Pages.antt =====
-- The revocation feed loses nothing: what a page leaves out lies strictly past its cursor.
use acdp_control_plane.Prelude.{
  ℕ, suc, ◌≤◌, ◌<◌, ◌≡◌, ◌⊎◌, refl, inl, inr, String, List, ◌++◌, map, some, Bool, false, ◌&&◌,
  arith, ltb, lt→ltb, ltb-false, ltb→lt, eq→==, length-take, ◌==◌, length, take, drop, All,
  Bool-cases, length-append, zero, take_all,
}
use acdp_control_plane.Auth.Revocations.{
  RevocationRecord, Revocations, time_of, newer_than, same_ms, last_time, page_entries, page_of,
  page_cap, sort_by, list_since,
}
use acdp_control_plane.Auth.Revocations.Order.{
  Listed, IsSorted, NoneBefore, Listed-newer_than, newer_than-after, sort_by-IsSorted,
  NoneBefore-sort_by, Listed-sort_by,
}
use acdp_control_plane.Auth.Revocations.Boundary.{
  after_same_ms, Listed-append_left, Listed-append_right, Listed-split, drop-IsSorted,
  NoneBefore-drop, last_time-take, last_time-append_same, NoneBefore-take, NoneBefore-drop_any,
  NoneBefore-append, NoneBefore-same_ms, last_time-NoneBefore, length-take-drop,
}

-- The page that ends inside the list.
page_cut :
    (n t : ℕ) (sorted : List RevocationRecord)
    → suc n < length sorted
    → last_time (take (suc n) sorted) ≡ some t
    → page_entries (suc n) sorted ≡ take (suc n) sorted ++ same_ms t (drop (suc n) sorted)
unfolding page_entries
page_cut n t sorted h last = rw (
  eq→== (length (take (suc n) sorted)) (suc n) (length-take (suc n) sorted (omega arith)),
  lt→ltb (suc n) (length sorted) h,
  last,
)

page_whole :
    (n : ℕ) (sorted : List RevocationRecord)
    → length sorted ≤ suc n
    → page_entries (suc n) sorted ≡ sorted
unfolding page_entries
page_whole n sorted h =
    let none_left : ltb (suc n) (length sorted) ≡ false = ground (arith, h) in
    elim (Bool-cases (length (take (suc n) sorted) == suc n)) [
      | inl full ↦ rw (full, none_left) (take_all (suc n) sorted h)
      | inr short ↦ rw short (take_all (suc n) sorted h)
    ]

next_cursor_of :
    (most t : ℕ) (sorted : List RevocationRecord)
    → length (page_entries most sorted) < length sorted
    → last_time (page_entries most sorted) ≡ some t
    → (page_of most sorted).next_cursor ≡ some t
unfolding page_of
next_cursor_of most t sorted h last =
    rw (lt→ltb (length (page_entries most sorted)) (length sorted) h) last

entries_of :
    (most : ℕ) (sorted : List RevocationRecord)
    → (page_of most sorted).entries ≡ page_entries most sorted
unfolding page_of
entries_of most sorted = refl

-- A page that ends inside the list leaves out only what lies strictly past its cursor.
page_cut_complete :
    (n : ℕ) (r : RevocationRecord) (sorted : List RevocationRecord)
    → IsSorted sorted
    → suc n < length sorted
    → Listed r sorted
    → Listed r (page_of (suc n) sorted).entries
      ⊎ ((c : ℕ) × ((page_of (suc n) sorted).next_cursor ≡ some c) × (c < time_of r))
page_cut_complete n r sorted order h l =
    let (t, last) = last_time-take n sorted (omega arith) in
    let cut = page_cut n t sorted h last in
    let head = take (suc n) sorted in
    let rest = drop (suc n) sorted in
    rw (entries_of (suc n) sorted, cut)
      (elim (Listed-split (suc n) r sorted l) [
        | inl early ↦ inl (Listed-append_left r head (same_ms t rest) early)
        | inr late ↦
            elim (after_same_ms t r rest (drop-IsSorted (suc n) sorted order)
              (NoneBefore-drop n t sorted order last) late) [
                | inl same ↦ inl (Listed-append_right r head (same_ms t rest) same)
                | inr (later, shorter) ↦ inr (
                  t,
                  next_cursor_of (suc n) t sorted
                      (rw cut (
                        omega (
                          arith,
                          length-append head (same_ms t rest),
                          length-take-drop (suc n) sorted,
                          shorter,
                        )))
                      (rw cut (last_time-append_same t head rest last)),
                  later,
                )
              ]
      ])

page_of_complete :
    (most : ℕ) (r : RevocationRecord) (sorted : List RevocationRecord)
    → 1 ≤ most
    → IsSorted sorted
    → Listed r sorted
    → Listed r (page_of most sorted).entries
      ⊎ ((c : ℕ) × ((page_of most sorted).next_cursor ≡ some c) × (c < time_of r))
page_of_complete zero r sorted h order l = absurd (omega arith)
page_of_complete (suc n) r sorted h order l = elim (Bool-cases (ltb (suc n) (length sorted))) [
  | inl more ↦ page_cut_complete n r sorted order (ltb→lt (suc n) (length sorted) more) l
  | inr all ↦ inl (
      rw (entries_of (suc n) sorted, page_whole n sorted (ltb-false (suc n) (length sorted) all)) l)
]

pub page_cap_pos : (limit : ℕ) → (1 ≤ page_cap limit) × (page_cap limit ≤ 500)
unfolding page_cap
page_cap_pos limit = ground arith

module _ (locale_le : String → String → Bool) where
  -- No revocation is lost between two polls: of the records newer than `since_ms`, each stands on
  -- the page, or lies strictly past the page's cursor, where the next poll begins.
  pub list_since_complete :
      (since_ms limit : ℕ) (s : Revocations) (r : RevocationRecord)
      → Listed r (map (λ e. e.1) s.store)
      → since_ms < time_of r
      → Listed r (list_since locale_le since_ms limit s).entries
        ⊎ ((c : ℕ) × ((list_since locale_le since_ms limit s).next_cursor ≡ some c)
            × (c < time_of r))
  unfolding list_since
  list_since_complete since_ms limit s r l newer =
      let rows = map (λ e. e.1) s.store in
      page_of_complete (page_cap limit) r (sort_by locale_le (newer_than since_ms rows))
        (page_cap_pos limit).0 (sort_by-IsSorted locale_le (newer_than since_ms rows))
        (Listed-sort_by locale_le r (newer_than since_ms rows)
          (Listed-newer_than since_ms r rows l newer))

NoneBefore-page_entries :
    (at most : ℕ) (rs : List RevocationRecord)
    → NoneBefore at rs
    → NoneBefore at (page_entries most rs)
unfolding page_entries
NoneBefore-page_entries at most rs h =
    elim (Bool-cases (length (take most rs) == most && ltb most (length rs))) [
      | inl cut ↦ rw cut (
          NoneBefore-append at (take most rs) _ (NoneBefore-take at most rs h)
            (NoneBefore-same_ms at _ (drop most rs) (NoneBefore-drop_any at most rs h)))
      | inr whole ↦ rw whole (NoneBefore-take at most rs h)
    ]

next_cursor_last :
    (most c : ℕ) (rs : List RevocationRecord)
    → (page_of most rs).next_cursor ≡ some c
    → last_time (page_entries most rs) ≡ some c
unfolding page_of
next_cursor_last most c rs h = ground arith

module _ (locale_le : String → String → Bool) where
  -- A poll makes progress: everything on its page is newer than `since_ms`, and so is its cursor.
  pub list_since_progress :
      (since_ms limit : ℕ) (s : Revocations)
      → All (λ r. since_ms < time_of r) (list_since locale_le since_ms limit s).entries
        × ((c : ℕ) → (list_since locale_le since_ms limit s).next_cursor ≡ some c → since_ms < c)
  unfolding list_since
  list_since_progress since_ms limit s =
      let sorted = sort_by locale_le (newer_than since_ms (map (λ e. e.1) s.store)) in
      let after =
        NoneBefore-page_entries (suc since_ms) (page_cap limit) sorted
          (NoneBefore-sort_by locale_le (suc since_ms) _ (newer_than-after since_ms _)) in
      (
        rw (entries_of (page_cap limit) sorted) after,
        λ c h.
            last_time-NoneBefore (suc since_ms) c _ after
              (next_cursor_last (page_cap limit) c sorted h),
      )
