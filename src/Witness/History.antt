-- ===== src/Witness/History.antt =====
-- Any history of passes and acknowledgements, and what the heads that it has held say of one another.
use acdp_control_plane.Prelude.{
  ℕ, zero, suc, ◌≡◌, ◌≤◌, refl, sym, ◌∙◌, ap, subst, ◌⊎◌, inl, inr, String, List, [], ◌∷◌, Bool,
  true, false, ◌&&◌, Option, none, some, arith, str_eq, eq_iff, length, take, length-take, take_all,
  Bool-cases, str,
}
use acdp_control_plane.Log.Hash.{wire_hash_to_buf}
use acdp_control_plane.Log.Hash.Collisions.{IsDigest, Collision, tree_head}
use acdp_control_plane.Log.Parse.{LogCheckpoint, ConsistencyProof}
use acdp_control_plane.Log.Verify.{
  verify_consistency, ts_verify_consistency, ts_verify_consistency_sound,
}
use acdp_control_plane.Witness.Store.{
  Cursor, World, acknowledge_alert, acknowledge_row, put_cursor, same_key,
}
use acdp_control_plane.Witness.Quorum.{Host, WitnessConfig}
use acdp_control_plane.Witness.Pass.{Answers, Anchor, RegistryEnrollment, guarded_pass}
use acdp_control_plane.Witness.Moves.{anchors, head_of, Fits, Grows, Follows, Moves}
use acdp_control_plane.Witness.Moves.Passes.{pass-Moves}

pub data Event : Type 0 where
  passed : RegistryEnrollment → Answers → Event
  acknowledged : String → String → String → ℕ → Event

take-take : {A : Type 0} (m n : ℕ) (xs : List A) → m ≤ n → take m (take n xs) ≡ take m xs
take-take zero n xs h = refl
take-take (suc m) zero xs h = absurd (omega arith)
take-take (suc m) (suc n) [] h = refl
take-take (suc m) (suc n) (x ∷ xs) h = ap (λ t. x ∷ t) (take-take m n xs (omega arith))

-- Acknowledging leaves the head of the row that it updates.
row_anchors :
    (tenant authority by : String) (now : ℕ) (row : Option Cursor) (w : World) (t a : String)
    → w.cursors tenant authority ≡ row
    → anchors (acknowledge_row tenant authority by now row w).1 t a ≡ anchors w t a
unfolding acknowledge_row put_cursor
row_anchors tenant authority by now none w t a e = refl
row_anchors tenant authority by now (some c) w t a e = elim (Bool-cases c.alerted) [
  | inr quiet ↦ ground (arith, quiet)
  | inl loud ↦ ground (arith, loud, e, eq_iff tenant t, eq_iff authority a)
]

acknowledge_anchors :
    (tenant authority by : String) (now : ℕ) (w : World) (t a : String)
    → anchors (acknowledge_alert tenant authority by now w).1 t a ≡ anchors w t a
unfolding acknowledge_alert
acknowledge_anchors tenant authority by now w t a =
    row_anchors tenant authority by now (w.cursors tenant authority) w t a refl

and_both : (a b : Bool) → (a && b) ≡ true → (a ≡ true) × (b ≡ true)
and_both a b h = ground (arith, h)

own_anchor :
    (e : RegistryEnrollment) (w : World) (t a : String)
    → same_key e.tenant_id e.authority t a ≡ true
    → anchors w e.tenant_id e.authority ≡ anchors w t a
own_anchor e w t a h =
    let (tenant, authority) = and_both (str_eq e.tenant_id t) (str_eq e.authority a) h in
    ap (λ x. anchors w x e.authority) ((eq_iff e.tenant_id t).0 tenant)
    ∙ ap (anchors w t) ((eq_iff e.authority a).0 authority)

module _ (host : Host) (config : WitnessConfig) where
  unfoldable pub step : Event → World → World
  step (passed e answers) w =
      (guarded_pass host config answers e.tenant_id e.authority e.base_url w).1
  step (acknowledged t a by now) w = (acknowledge_alert t a by now w).1

  -- The state after a history, latest event first.
  unfoldable pub run : List Event → World → World
  unfolding step
  run [] w = w
  run (e ∷ past) w = step e (run past w)

  passed-Follows :
      (e : RegistryEnrollment) (answers : Answers) (w w' : World) (t a : String)
      → Moves host config answers e.tenant_id e.authority w w'
      → Follows host (anchors w t a) (anchors w' t a)
  passed-Follows e answers w w' t a (inl (kept, rows)) = inl (kept t a)
  passed-Follows e answers w w' t a (inr (c, signed, fits, advanced, rows)) =
      elim (Bool-cases (same_key e.tenant_id e.authority t a)) [
        | inr other ↦ inl (advanced t a ∙ rw other refl)
        | inl ours ↦ inr (
          c,
          signed,
          subst (λ o. Fits host o c) (own_anchor e w t a ours) fits,
          advanced t a ∙ rw ours refl,
        )
      ]

  -- After one event each registry has the head that it had, or that of a signed checkpoint which fits
  -- it: no head before, the same, or one of the same log from which an accepted proof of consistency
  -- leads to it.
  pub step-Follows :
      (e : Event) (w : World) (t a : String) → Follows host (anchors w t a) (anchors (step e w) t a)
  unfolding step
  step-Follows (passed e answers) w t a =
      passed-Follows e answers w
        (guarded_pass host config answers e.tenant_id e.authority e.base_url w).1 t a
        (pass-Moves host config answers e.tenant_id e.authority e.base_url w)
  step-Follows (acknowledged tenant authority by now) w t a =
      inl (acknowledge_anchors tenant authority by now w t a)

  -- A head that is held is never dropped.
  pub Follows-some :
      (before after : Option Anchor) (p : Anchor)
      → Follows host before after
      → before ≡ some p
      → (q : Anchor) × (after ≡ some q)
  Follows-some before after p (inl same) e = (p, same ∙ e)
  Follows-some before after p (inr (c, signed, fits, now)) e = (head_of c, now)

  run_some :
      (history : List Event) (w : World) (t a : String) (p : Anchor)
      → anchors w t a ≡ some p
      → (q : Anchor) × (anchors (run history w) t a ≡ some q)
  unfolding run
  run_some [] w t a p e = (p, e)
  run_some (ev ∷ past) w t a p e =
      let (m, em) = run_some past w t a p e in
      Follows-some (anchors (run past w) t a) _ m (step-Follows ev (run past w) t a) em

  pub Follows-grows :
      (p q : Anchor) → Follows host (some p) (some q) → (p.log_id ≡ q.log_id) × (p.size ≤ q.size)
  Follows-grows p q (inl same) = ground (arith, same)
  Follows-grows p q (inr (c, signed, inl fits, now)) = ground (arith, fits, now)
  Follows-grows p q (inr (c, signed, inr (log, larger, grows), now)) =
      ground (arith, log, larger, now)

  pub last-Follows :
      (ev : Event) (w : World) (t a : String) (m q : Anchor)
      → anchors w t a ≡ some m
      → anchors (step ev w) t a ≡ some q
      → Follows host (some m) (some q)
  last-Follows ev w t a m q em e =
      subst (λ o. Follows host o (some q)) em
        (subst (λ o. Follows host (anchors w t a) o) e (step-Follows ev w t a))

  -- After any history a registry whose head is held has one of the same log, and no smaller.
  pub run_grows :
      (history : List Event) (w : World) (t a : String) (p q : Anchor)
      → anchors w t a ≡ some p
      → anchors (run history w) t a ≡ some q
      → (p.log_id ≡ q.log_id) × (p.size ≤ q.size)
  unfolding run
  run_grows [] w t a p q e e' = ground (arith, sym e ∙ e')
  run_grows (ev ∷ past) w t a p q e e' =
      let (m, em) = run_some past w t a p e in
      let (log, le) = run_grows past w t a p m e em in
      let (log', le') = Follows-grows m q (last-Follows ev (run past w) t a m q em e') in
      (log ∙ log', omega (arith, le, le'))

  module _ (host_fold : host.surface.present ≡ false)
      (length-sha256 : (x : List ℕ) → IsDigest (host.sha256 x)) where
    -- The head is that of the first of the leaves, as many as its size; or there is a collision.
    abbrev pub Heads : Anchor → List (List ℕ) → Type 0
    Heads p leaves =
        (wire_hash_to_buf (str p.root) ≡ some (tree_head host.sha256 (take p.size leaves)))
        ⊎ Collision host.sha256

    -- What the head of exactly these leaves shows of `p`.
    abbrev pub Shows : Anchor → Anchor → List (List ℕ) → Type 0
    Shows p q leaves =
        length leaves ≡ q.size
        → wire_hash_to_buf (str q.root) ≡ some (tree_head host.sha256 leaves)
        → Heads p leaves

    by_host :
        (proof : ConsistencyProof) (c : LogCheckpoint) (r : String)
        → verify_consistency host.sha256 host.crypto.canonicalize host.surface proof c r
          ≡ ts_verify_consistency host.sha256 host.crypto.canonicalize proof c r
    unfolding verify_consistency
    by_host proof c r = simp (host_fold, verify_consistency)

    grown-Shows :
        (m : Anchor) (c : LogCheckpoint) (leaves : List (List ℕ))
        → Grows host m c
        → Shows m (head_of c) leaves
    grown-Shows m c leaves (proof, first, second, accepted) size root =
        let (_, prefix) =
          ts_verify_consistency_sound host.sha256 host.crypto.canonicalize length-sha256 leaves
            proof c m.root (size ∙ sym second) root (sym (by_host proof c m.root) ∙ accepted) in
        subst
          (λ n.
            (wire_hash_to_buf (str m.root) ≡ some (tree_head host.sha256 (take n leaves)))
            ⊎ Collision host.sha256)
          first prefix

    Shows-trans :
        (p m : Anchor) (leaves : List (List ℕ))
        → p.size ≤ m.size
        → m.size ≤ length leaves
        → ((ls : List (List ℕ)) → Shows p m ls)
        → Heads m leaves
        → Heads p leaves
    Shows-trans p m leaves le size earlier (inr clash) = inr clash
    Shows-trans p m leaves le size earlier (inl root) =
        subst
          (λ ls.
            (wire_hash_to_buf (str p.root) ≡ some (tree_head host.sha256 ls))
            ⊎ Collision host.sha256)
          (take-take p.size m.size leaves le)
          (earlier (take m.size leaves) (length-take m.size leaves size) root)

    equal-Shows :
        (p m q : Anchor) (leaves : List (List ℕ))
        → q ≡ m
        → ((ls : List (List ℕ)) → Shows p m ls)
        → Shows p q leaves
    equal-Shows p m q leaves e earlier = subst (λ x. Shows p x leaves) (sym e) (earlier leaves)

    step-Shows :
        (p m q : Anchor) (leaves : List (List ℕ))
        → p.size ≤ m.size
        → ((ls : List (List ℕ)) → Shows p m ls)
        → Follows host (some m) (some q)
        → Shows p q leaves
    step-Shows p m q leaves le earlier (inl same) size root =
        equal-Shows p m q leaves (cc same) earlier size root
    step-Shows p m q leaves le earlier (inr (c, signed, inl fits, now)) size root =
        equal-Shows p m q leaves (cc (fits, now)) earlier size root
    step-Shows p m q leaves le earlier (inr (c, signed, inr (log, larger, grows), now)) size root =
        let e : q ≡ head_of c = cc now in
        subst (λ x. Shows p x leaves) (sym e)
          (λ n r.
            Shows-trans p m leaves le (omega (arith, larger, n)) earlier
              (grown-Shows m c leaves grows n r))
          size root

    -- The witness holds on to one append-only log. Let it hold the head `p` for a registry before some
    -- history, and `q` after it. If `q` has as many leaves as `leaves`, and their tree head as its root,
    -- then the root of `p` is the tree head of the first of them, as many as its size, or a SHA-256
    -- collision is at hand. The SDK has no log surface of its own, and SHA-256 gives 32 bytes.
    pub append_only :
        (history : List Event) (w : World) (t a : String) (p q : Anchor) (leaves : List (List ℕ))
        → anchors w t a ≡ some p
        → anchors (run history w) t a ≡ some q
        → length leaves ≡ q.size
        → wire_hash_to_buf (str q.root) ≡ some (tree_head host.sha256 leaves)
        → (wire_hash_to_buf (str p.root) ≡ some (tree_head host.sha256 (take p.size leaves)))
          ⊎ Collision host.sha256
    unfolding run
    append_only [] w t a p q leaves e e' size root =
        let same : p ≡ q = cc (e, e') in
        inl (
          subst
            (λ x. wire_hash_to_buf (str x.root) ≡ some (tree_head host.sha256 (take x.size leaves)))
            (sym same) (rw (take_all q.size leaves (omega (arith, size))) root))
    append_only (ev ∷ past) w t a p q leaves e e' size root =
        let (m, em) = run_some past w t a p e in
        step-Shows p m q leaves (run_grows past w t a p m e em).1
          (λ ls n r. append_only past w t a p m ls e em n r)
          (last-Follows ev (run past w) t a m q em e') size root
