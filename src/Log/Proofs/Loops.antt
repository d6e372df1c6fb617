-- ===== src/Log/Proofs/Loops.antt =====
-- The two loops of the proof checks, when they accept, are runs of the shared fold.
use acdp_control_plane.Prelude.{
  ℕ, ◌≡◌, refl, sym, inl, inr, true, false, some, String, List, [], ◌∷◌, arith, All, Option-cases,
  ◌==◌, str, subst, if◌then◌else◌,
}
use acdp_control_plane.Log.Hash.{
  Buffer, equals→eq, equals_refl, wire_hash_to_buf, length-wire_hash_to_buf, node_hash,
}
use acdp_control_plane.Log.Hash.Collisions.{IsDigest}
use acdp_control_plane.Log.Merkle.Cursor.{on_right, advance}
use acdp_control_plane.Log.Merkle.Fold.{fold}
use acdp_control_plane.Log.Proofs.{ok, decode_path, fold_inclusion, fold_consistency}

pub All-decode_path :
    (path : List String) (ps : List Buffer) → decode_path path ≡ some ps → All IsDigest ps
unfolding decode_path
All-decode_path [] [] h = tt
All-decode_path [] (p ∷ ps) h = cc
All-decode_path (s ∷ path) ps h = elim (Option-cases (wire_hash_to_buf (str s))) [
  | inl bad ↦ absurd (ground (arith, bad))
  | inr (p, good) ↦ elim (Option-cases (decode_path path)) [
    | inl bad ↦ absurd (ground (arith, good, bad))
    | inr (rest, goods) ↦
        let same : ps ≡ p ∷ rest = ground (arith, good, goods) in
        subst (All IsDigest) (sym same)
          (length-wire_hash_to_buf (str s) p good, All-decode_path path rest goods)
  ]
]

module _ (sha256 : List ℕ → Buffer) where
  pub record FoldsTo (expected : Buffer) (fn sn : ℕ) (a r : Buffer) (path : List String)
      : Type 0 where
    pub decoded : List Buffer
    pub first : Buffer
    pub decodes : decode_path path ≡ some decoded
    pub folds : fold (node_hash sha256) fn sn a r decoded ≡ some (first, expected)

  pub fold_inclusion_ok :
      (expected : Buffer) (fn sn : ℕ) (a r : Buffer) (path : List String)
      → fold_inclusion sha256 expected fn sn r path ≡ ok
      → FoldsTo expected fn sn a r path
  unfolding fold_inclusion fold decode_path
  fold_inclusion_ok expected fn sn a r [] h = record {
    decoded = [];
    first = a;
    decodes = refl;
    folds = ground (arith, equals→eq r expected);
  }
  fold_inclusion_ok expected fn sn a r (s ∷ path) h =
      elim (Option-cases (wire_hash_to_buf (str s))) [
        | inl bad ↦ absurd (ground (arith, bad))
        | inr (p, good) ↦
            let more : (sn == 0) ≡ false = ground (arith, good) in
            let ih =
              fold_inclusion_ok expected (advance fn sn).0 (advance fn sn).1
                (if on_right fn sn then node_hash sha256 p a else a)
                (if on_right fn sn then node_hash sha256 p r else node_hash sha256 r p) path
                (ground (arith, good, more)) in
            record {
              decoded = p ∷ ih.decoded;
              first = ih.first;
              decodes = ground (arith, good, ih.decodes);
              folds = ground (arith, more, ih.folds);
            }
      ]

  pub fold_inclusion_accepts :
      (expected : Buffer) (fn sn : ℕ) (a r a' : Buffer) (path : List String) (ps : List Buffer)
      → decode_path path ≡ some ps
      → fold (node_hash sha256) fn sn a r ps ≡ some (a', expected)
      → fold_inclusion sha256 expected fn sn r path ≡ ok
  unfolding fold_inclusion fold decode_path
  fold_inclusion_accepts expected fn sn a r a' [] ps d h =
      let same : ps ≡ [] = cc d in
      let run = subst (λ t. fold (node_hash sha256) fn sn a r t ≡ some (a', expected)) same h in
      let zero_left : (sn == 0) ≡ true = ground (arith, run) in
      let equal : r ≡ expected = ground (arith, run, zero_left) in
      ground (arith, zero_left, equal, equals_refl expected)
  fold_inclusion_accepts expected fn sn a r a' (s ∷ path) ps d h =
      elim (Option-cases (wire_hash_to_buf (str s))) [
        | inl bad ↦ absurd (ground (arith, bad))
        | inr (p, good) ↦ elim (Option-cases (decode_path path)) [
          | inl bad ↦ absurd (ground (arith, good, bad))
          | inr (rest, goods) ↦
              let same : ps ≡ p ∷ rest = ground (arith, good, goods) in
              let run =
                subst (λ t. fold (node_hash sha256) fn sn a r t ≡ some (a', expected)) same h in
              let more : (sn == 0) ≡ false = ground (arith, run) in
              let ih =
                fold_inclusion_accepts expected (advance fn sn).0 (advance fn sn).1
                  (if on_right fn sn then node_hash sha256 p a else a)
                  (if on_right fn sn then node_hash sha256 p r else node_hash sha256 r p) a' path
                  rest goods (ground (arith, more, run)) in
              ground (arith, good, more, ih)
        ]
      ]

  pub fold_consistency_ok :
      (first second : Buffer) (fn sn : ℕ) (fr sr : Buffer) (path : List Buffer)
      → fold_consistency sha256 first second fn sn fr sr path ≡ ok
      → fold (node_hash sha256) fn sn fr sr path ≡ some (first, second)
  unfolding fold_consistency fold
  fold_consistency_ok first second fn sn fr sr [] h =
      ground (arith, equals→eq fr first, equals→eq sr second)
  fold_consistency_ok first second fn sn fr sr (c ∷ path) h = ground (
    arith,
    fold_consistency_ok first second (advance fn sn).0 (advance fn sn).1
        (if on_right fn sn then node_hash sha256 c fr else fr)
        (if on_right fn sn then node_hash sha256 c sr else node_hash sha256 sr c) path,
  )
