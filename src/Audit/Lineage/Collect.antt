-- ===== src/Audit/Lineage/Collect.antt =====
-- The loop of the walk, against the members that it has to verify.
use acdp_control_plane.Prelude.{
  ℕ, suc, ◌+◌, ◌≡◌, ◌≢◌, refl, sym, ap, ◌∙◌, ◌⊎◌, inl, inr, String, List, [], ◌∷◌, ◌++◌, none, some,
  arith, All, length, Option-cases, Json,
}
use acdp_control_plane.Audit.Lineage.{
  LineageMember, VerdictStatus, verified, invalid, unavailable, unsupported, LineageWalkDeps,
  LineageWalkParams, LineageMemberVerdictCounts, counted, WalkFailure, walked, failed, RawMember,
  Candidate, admit, verdict_on, member_of, collect,
}

-- The members of a lineage that the walk has to verify, in order.
unfoldable pub candidates : List RawMember → List Candidate
candidates [] = []
candidates (m ∷ ms) = elim (admit m) [ none ↦ candidates ms | some c ↦ c ∷ candidates ms ]

abbrev pub total : LineageMemberVerdictCounts → ℕ
total n = n.n_verified + n.n_invalid + n.n_unavailable + n.n_unsupported

append_assoc {ℓ} : {A : Type ℓ} (xs ys zs : List A) → (xs ++ ys) ++ zs ≡ xs ++ (ys ++ zs)
append_assoc [] ys zs = refl
append_assoc (x ∷ xs) ys zs = ap (λ t. x ∷ t) (append_assoc xs ys zs)

append_nil {ℓ} : {A : Type ℓ} (xs : List A) → xs ++ [] ≡ xs
append_nil [] = refl
append_nil (x ∷ xs) = ap (λ t. x ∷ t) (append_nil xs)

status_cases :
    (s : VerdictStatus) → (s ≡ verified) ⊎ ((s ≡ invalid) ⊎ ((s ≡ unavailable) ⊎ (s ≡ unsupported)))
status_cases verified = inl refl
status_cases invalid = inr (inl refl)
status_cases unavailable = inr (inr (inl refl))
status_cases unsupported = inr (inr (inr refl))

total-counted :
    (s : VerdictStatus) (n : LineageMemberVerdictCounts) → total (counted s n) ≡ suc (total n)
unfolding counted
total-counted verified n = omega arith
total-counted invalid n = omega arith
total-counted unavailable n = omega arith
total-counted unsupported n = omega arith

pub failed_not_walked :
    {k : WalkFailure} {n n' : LineageMemberVerdictCounts} {ms : List LineageMember}
    → failed k n ≢ walked ms n'
failed_not_walked h = ground (arith, h)

pub walked_injective :
    {ms ms' : List LineageMember} {n n' : LineageMemberVerdictCounts}
    → walked ms n ≡ walked ms' n'
    → (ms ≡ ms') × (n ≡ n')
walked_injective h = (ground (arith, h), ground (arith, h))

module _ (stringify : Json → String) (deps : LineageWalkDeps) (params : LineageWalkParams) where
  -- The members that a successful walk gives: the candidates whose verdict is `verified`.
  unfoldable pub verified_members : List Candidate → List LineageMember
  verified_members [] = []
  verified_members (c ∷ cs) = elim (verdict_on stringify deps params c).status [
    | verified ↦ member_of stringify deps params c ∷ verified_members cs
    | _ ↦ verified_members cs
  ]

  abbrev pub IsAvailable : Candidate → Type 0
  IsAvailable c = (verdict_on stringify deps params c).status ≢ unavailable

  -- The counts after the verdicts on some candidates.
  unfoldable pub tally : List Candidate → LineageMemberVerdictCounts → LineageMemberVerdictCounts
  tally [] n = n
  tally (c ∷ cs) n = tally cs (counted (verdict_on stringify deps params c).status n)

  pub total-tally :
      (cs : List Candidate) (n : LineageMemberVerdictCounts)
      → total (tally cs n) ≡ total n + length cs
  unfolding tally
  total-tally [] n = omega arith
  total-tally (c ∷ cs) n = omega (
    arith,
    total-counted (verdict_on stringify deps params c).status n,
    total-tally cs (counted (verdict_on stringify deps params c).status n),
  )

  pub verified-tally :
      (cs : List Candidate) (n : LineageMemberVerdictCounts)
      → (tally cs n).n_verified ≡ n.n_verified + length (verified_members cs)
  unfolding tally verified_members counted
  verified-tally [] n = omega arith
  verified-tally (c ∷ cs) n = elim (status_cases (verdict_on stringify deps params c).status) [
    | inl e ↦
        rw (e, tally, verified_members, counted)
          (omega (arith, verified-tally cs (counted verified n)))
    | inr (inl e) ↦
        rw (e, tally, verified_members, counted)
          (omega (arith, verified-tally cs (counted invalid n)))
    | inr (inr (inl e)) ↦
        rw (e, tally, verified_members, counted)
          (omega (arith, verified-tally cs (counted unavailable n)))
    | inr (inr (inr e)) ↦
        rw (e, tally, verified_members, counted)
          (omega (arith, verified-tally cs (counted unsupported n)))
  ]

  pub collect_available :
      (ms : List RawMember) (n : LineageMemberVerdictCounts) (done : List LineageMember)
      → All IsAvailable (candidates ms)
      → collect stringify deps params ms n done
        ≡ walked (done ++ verified_members (candidates ms)) (tally (candidates ms) n)
  unfolding collect candidates verified_members tally
  collect_available [] n done h = ap (λ l. walked l n) (sym (append_nil done))
  collect_available (m ∷ ms) n done h = elim (Option-cases (admit m)) [
    | inl e ↦ rw (e, collect, candidates) (collect_available ms n done (rw (e, candidates) at h))
    | inr (c, e) ↦ elim (status_cases (verdict_on stringify deps params c).status) [
      | inl s ↦
          rw (e, s, collect, candidates, verified_members, tally)
            (collect_available ms (counted verified n)
                (done ++ member_of stringify deps params c ∷ []) (rw (e, candidates) at h).1
              ∙ ap (λ l. walked l (tally (candidates ms) (counted verified n)))
                  (append_assoc done (member_of stringify deps params c ∷ [])
                    (verified_members (candidates ms))))
      | inr (inl s) ↦
          rw (e, s, collect, candidates, verified_members, tally)
            (collect_available ms (counted invalid n) done (rw (e, candidates) at h).1)
      | inr (inr (inl s)) ↦ absurd ((rw (e, candidates) at h).0 s)
      | inr (inr (inr s)) ↦
          rw (e, s, collect, candidates, verified_members, tally)
            (collect_available ms (counted unsupported n) done (rw (e, candidates) at h).1)
    ]
  ]

  pub collect_walked :
      (ms : List RawMember) (n n' : LineageMemberVerdictCounts) (done members : List LineageMember)
      → collect stringify deps params ms n done ≡ walked members n'
      → All IsAvailable (candidates ms)
  unfolding collect candidates
  collect_walked [] n n' done members h = tt
  collect_walked (m ∷ ms) n n' done members h = elim (Option-cases (admit m)) [
    | inl e ↦ rw (e, candidates) (collect_walked ms n n' done members (rw (e, collect) at h))
    | inr (c, e) ↦ elim (status_cases (verdict_on stringify deps params c).status) [
      | inl s ↦
          rw (e, candidates)
            (
              λ u. ground (arith, s, u),
              collect_walked ms (counted verified n) n'
                  (done ++ member_of stringify deps params c ∷ []) members
                  (rw (e, s, collect) at h),
            )
      | inr (inl s) ↦
          rw (e, candidates)
            (
              λ u. ground (arith, s, u),
              collect_walked ms (counted invalid n) n' done members (rw (e, s, collect) at h),
            )
      | inr (inr (inl s)) ↦ absurd (failed_not_walked (rw (e, s, collect) at h))
      | inr (inr (inr s)) ↦
          rw (e, candidates)
            (
              λ u. ground (arith, s, u),
              collect_walked ms (counted unsupported n) n' done members (rw (e, s, collect) at h),
            )
    ]
  ]
