-- ===== src/Log/Merkle/Sound.antt =====
-- What an accepted fold shows: a second root that is the root of a known list fixes the node at the
-- cursor and the first root, unless two inputs of the node hash collide.
use acdp_control_plane.Prelude.{
  ℕ, zero, suc, ◌/◌, ◌%◌, ◌≤◌, ◌<◌, ◌≡◌, refl, sym, ap, ◌∙◌, subst, ◌⊎◌, inl, inr, some, List, [],
  ◌∷◌, ◌++◌, arith, length, take, get_or, All, All-get_or, ◌==◌, Bool-cases, ==→eq, ==_false,
  take-snoc,
}
use acdp_control_plane.Log.Merkle.Layers.{
  double, double_lem, pairs, length-pairs, get_or-pairs_full, get_or-pairs_last, pairs-take_even,
  pairs-take_odd, pairs-take-double, root, root-singleton, All-pairs,
}
use acdp_control_plane.Log.Merkle.Cursor.{place, skip_right, skip_right_odd, skip_right_even}
use acdp_control_plane.Log.Merkle.Fold.{
  fold, fold_odd, fold_even, fold_last, fold-nil_pos, fold_zero, fold-cons_zero,
}

module _ {H : Type 0} (node : H → H → H) (e : H) (Good : H → Type 0) (Collision : Type 0)
    (node-Good : (a b : H) → Good (node a b))
    (node_injective : (a b c d : H)
      → Good a
      → Good c
      → node a b ≡ node c d
      → ((a ≡ c) × (b ≡ d)) ⊎ Collision) where
  root-suc : (d : ℕ) (l : List H) → root node e d (pairs node l) ≡ root node e (suc d) l
  unfolding root
  root-suc d l = refl

  -- The layer of the smaller tree: the nodes left of the cursor, and its own last node.
  abbrev pub old_layer : ℕ → H → List H → List H
  old_layer fn a l = take fn l ++ a ∷ []

  abbrev pub Fixed : ℕ → List H → ℕ → H → H → H → Type 0
  Fixed d l fn a b a' = ((b ≡ get_or l fn e) × (a' ≡ root node e d (old_layer fn a l))) ⊎ Collision

  Fixed-odd :
      (d : ℕ) (l : List H) (q : ℕ) (a b c a' : H)
      → suc (double q) < length l
      → All Good l
      → Good c
      → Fixed d (pairs node l) q (node c a) (node c b) a'
      → Fixed (suc d) l (suc (double q)) a b a'
  unfolding root
  Fixed-odd d l q a b c a' h gl gc (inr hit) = inr hit
  Fixed-odd d l q a b c a' h gl gc (inl (same, top)) =
      elim (node_injective c b (get_or l (double q) e) (get_or l (suc (double q)) e) gc
        (All-get_or Good l (double q) e gl (omega arith)) (same ∙ get_or-pairs_full node q l e h)) [
          | inr hit ↦ inr hit
          | inl (left, right) ↦
              inl (right, rw (pairs-take_odd node q l a e (omega arith), ← left) top)
        ]

  Fixed-even :
      (d : ℕ) (l : List H) (q : ℕ) (a b c a' : H)
      → suc (double q) < length l
      → All Good l
      → Good b
      → Fixed d (pairs node l) q a (node b c) a'
      → Fixed (suc d) l (double q) a b a'
  unfolding root
  Fixed-even d l q a b c a' h gl gb (inr hit) = inr hit
  Fixed-even d l q a b c a' h gl gb (inl (same, top)) =
      elim (node_injective b c (get_or l (double q) e) (get_or l (suc (double q)) e) gb
        (All-get_or Good l (double q) e gl (omega arith)) (same ∙ get_or-pairs_full node q l e h)) [
          | inr hit ↦ inr hit
          | inl (left, right) ↦ inl (left, rw (pairs-take_even node q l a (omega arith)) top)
        ]

  Fixed-last :
      (d : ℕ) (l : List H) (q : ℕ) (a b a' : H)
      → length l ≡ suc (double q)
      → Fixed d (pairs node l) q a b a'
      → Fixed (suc d) l (double q) a b a'
  unfolding root
  Fixed-last d l q a b a' h (inr hit) = inr hit
  Fixed-last d l q a b a' h (inl (same, top)) =
      inl (same ∙ get_or-pairs_last node q l e h, rw (pairs-take_even node q l a (omega arith)) top)

  Fixed-leaf :
      (d : ℕ) (l : List H) (fn : ℕ) (a b : H) (cs : List H) (a' b' : H)
      → length l ≡ 1
      → fn ≤ 0
      → fold node fn 0 a b cs ≡ some (a', b')
      → b' ≡ root node e d l
      → Fixed d l fn a b a'
  Fixed-leaf d [] fn a b cs a' b' len le run top = absurd (omega arith)
  Fixed-leaf d (x ∷ y ∷ l) fn a b cs a' b' len le run top = absurd (omega arith)
  Fixed-leaf d (x ∷ []) (suc fn) a b cs a' b' len le run top = absurd (omega arith)
  Fixed-leaf d (x ∷ []) zero a b (c ∷ cs) a' b' len le run top = cc (fold-cons_zero node 0 a b c cs)
  Fixed-leaf d (x ∷ []) zero a b [] a' b' len le run top = inl (
    cc (fold_zero node 0 a b, root-singleton node e d x),
    cc (fold_zero node 0 a b, root-singleton node e d a),
  )

  pub fold_sound :
      (d : ℕ) (l : List H) (fn sn : ℕ) (a b : H) (cs : List H) (a' b' : H)
      → length l ≡ suc sn
      → fn ≤ sn
      → sn ≤ d
      → All Good l
      → Good b
      → All Good cs
      → fold node fn sn a b cs ≡ some (a', b')
      → b' ≡ root node e d l
      → Fixed d l fn a b a'
  fold_sound d l fn zero a b cs a' b' len le dep gl gb gcs run top =
      Fixed-leaf d l fn a b cs a' b' len le run top
  fold_sound zero l fn (suc sn) a b cs a' b' len le dep gl gb gcs run top = absurd (omega arith)
  fold_sound (suc d) l fn (suc sn) a b [] a' b' len le dep gl gb gcs run top =
      cc (fold-nil_pos node fn (suc sn) a b (omega arith))
  fold_sound (suc d) l fn (suc sn) a b (c ∷ cs) a' b' len le dep gl gb (gc, gcs) run top =
      elim (place fn (suc sn)) [
        | inl odd ↦
            let at : fn ≡ suc (double (fn / 2)) = omega (arith, double_lem (fn / 2)) in
            subst (λ k. Fixed (suc d) l k a b a') (sym at)
              (Fixed-odd d l (fn / 2) a b c a' (omega arith) gl gc (
                fold_sound d (pairs node l) (fn / 2) (suc sn / 2) (node c a) (node c b) cs a' b'
                  (omega (arith, length-pairs node l)) (omega arith) (omega arith)
                  (All-pairs node Good node-Good l gl) (node-Good c b) gcs
                  (sym (fold_odd node fn (suc sn) a b c cs odd (omega arith)) ∙ run)
                  (unfold root in top)))
        | inr (inl (even, last)) ↦
            let at : fn ≡ double (fn / 2) = omega (arith, double_lem (fn / 2)) in
            subst (λ k. Fixed (suc d) l k a b a') (sym at)
              (Fixed-last d l (fn / 2) a b a' (omega arith) (
                fold_sound d (pairs node l) (fn / 2) (fn / 2) a b (c ∷ cs) a' b'
                  (omega (arith, length-pairs node l)) (omega arith) (omega arith)
                  (All-pairs node Good node-Good l gl) gb (gc, gcs)
                  (sym (fold_last node fn a b (c ∷ cs) even (omega arith))
                    ∙ (subst (λ k. fold node fn k a b (c ∷ cs) ≡ some (a', b')) (sym last) run))
                  (unfold root in top)))
        | inr (inr (even, paired)) ↦
            let at : fn ≡ double (fn / 2) = omega (arith, double_lem (fn / 2)) in
            subst (λ k. Fixed (suc d) l k a b a') (sym at)
              (Fixed-even d l (fn / 2) a b c a' (omega arith) gl gb (
                fold_sound d (pairs node l) (fn / 2) (suc sn / 2) a (node b c) cs a' b'
                  (omega (arith, length-pairs node l)) (omega arith) (omega arith)
                  (All-pairs node Good node-Good l gl) (node-Good b c) gcs
                  (sym (fold_even node fn (suc sn) a b c cs even paired (omega arith)) ∙ run)
                  (unfold root in top)))
      ]

  skip_done :
      (fuel d : ℕ) (l : List H) (fn sn : ℕ) (seed : H) (cs : List H) (a' b' : H)
      → length l ≡ suc sn
      → fn ≤ sn
      → sn ≤ d
      → fn % 2 ≡ 0
      → All Good l
      → Good seed
      → All Good cs
      → fold node (skip_right fuel fn sn).0 (skip_right fuel fn sn).1 seed seed cs ≡ some (a', b')
      → b' ≡ root node e d l
      → (a' ≡ root node e d (take (suc fn) l)) ⊎ Collision
  skip_done fuel d l fn sn seed cs a' b' len le dep even gl gs gcs run top =
      elim (fold_sound d l fn sn seed seed cs a' b' len le dep gl gs gcs
        (rw (skip_right_even fuel fn sn even) at run) top) [
          | inr hit ↦ inr hit
          | inl (same, old) ↦ inl (
              old
              ∙ ap (λ (x : H). root node e d (take fn l ++ x ∷ [])) same
              ∙ ap (root node e d) (take-snoc fn l e (omega arith)))
        ]

  -- The cursor of a consistency proof first climbs while it is a right child. The fold from there
  -- fixes the root of the smaller tree.
  pub skip_sound :
      (fuel d : ℕ) (l : List H) (fn sn : ℕ) (seed : H) (cs : List H) (a' b' : H)
      → length l ≡ suc sn
      → fn ≤ sn
      → sn ≤ d
      → fn ≤ fuel
      → All Good l
      → Good seed
      → All Good cs
      → fold node (skip_right fuel fn sn).0 (skip_right fuel fn sn).1 seed seed cs ≡ some (a', b')
      → b' ≡ root node e d l
      → (a' ≡ root node e d (take (suc fn) l)) ⊎ Collision
  skip_sound zero d l fn sn seed cs a' b' len le dep fit gl gs gcs run top =
      skip_done zero d l fn sn seed cs a' b' len le dep (omega arith) gl gs gcs run top
  skip_sound (suc fuel) zero l fn sn seed cs a' b' len le dep fit gl gs gcs run top =
      skip_done (suc fuel) zero l fn sn seed cs a' b' len le dep (omega arith) gl gs gcs run top
  skip_sound (suc fuel) (suc d) l fn sn seed cs a' b' len le dep fit gl gs gcs run top =
      elim (Bool-cases (fn % 2 == 0)) [
        | inl even ↦
            skip_done (suc fuel) (suc d) l fn sn seed cs a' b' len le dep (==→eq _ _ even) gl gs gcs
              run top
        | inr odd ↦
            let odd' : fn % 2 ≡ 1 = omega (arith, ==_false _ _ odd) in
            let at : suc fn ≡ double (suc (fn / 2)) = omega (arith, double_lem (suc (fn / 2))) in
            let rest : (a' ≡ root node e d (take (suc (fn / 2)) (pairs node l))) ⊎ Collision =
              skip_sound fuel d (pairs node l) (fn / 2) (sn / 2) seed cs a' b'
                (omega (arith, length-pairs node l)) (omega arith) (omega arith) (omega arith)
                (All-pairs node Good node-Good l gl) gs gcs
                (rw (skip_right_odd fuel fn sn odd') at run) (unfold root in top) in
            elim rest [
              | inr hit ↦ inr hit
              | inl old ↦ inl (
                  old
                  ∙ ap (root node e d) (
                      sym (
                        pairs-take-double node (suc (fn / 2)) l
                          (omega (arith, double_lem (suc (fn / 2))))))
                  ∙ ap (λ n. root node e d (pairs node (take n l))) (sym at)
                  ∙ root-suc d (take (suc fn) l))
            ]
      ]
