-- ===== src/Log/Proofs/Sound.antt =====
-- What an accepted inclusion or consistency proof shows about the log.
use acdp_control_plane.Prelude.{
  ℕ, suc, ◌-◌, ◌≡◌, ◌≢◌, ◌≤◌, ◌<◌, refl, sym, ap, ◌∙◌, ◌⊎◌, inl, inr, true, false, none, some,
  String, List, [], ◌∷◌, map, arith, All, Bool-cases, Option-cases, ◌==◌, ltb, str, nat, length,
  take, get_or, ltb→lt, length-map, take-map, get_or-map, length-take, take_all, ◌||◌, ==→eq,
  ==_false,
}
use acdp_control_plane.Log.Hash.{
  Buffer, equals→eq, wire_hash_to_buf, length-wire_hash_to_buf, node_hash, leaf_bytes_hash,
}
use acdp_control_plane.Log.Hash.Collisions.{
  IsDigest, Collision, node_hash_injective, leaf_bytes_hash_injective, tree_head,
  node_hash-IsDigest, leaf_bytes_hash-IsDigest, leaves-IsDigest,
}
use acdp_control_plane.Log.Merkle.Layers.{root, root_depth}
use acdp_control_plane.Log.Merkle.Cursor.{skip_right}
use acdp_control_plane.Log.Merkle.Sound.{fold_sound, skip_sound}
use acdp_control_plane.Log.Proofs.{
  ok, decode_path, fold_inclusion, fold_consistency, verify_inclusion_path, verify_consistency_path,
  is_power_of_two, check_sizes, run_consistency,
}
use acdp_control_plane.Log.Proofs.Loops.{All-decode_path, fold_inclusion_ok, fold_consistency_ok}

module _ (sha256 : List ℕ → Buffer) (length-sha256 : (x : List ℕ) → IsDigest (sha256 x)) where
  inclusion_run :
      (i n : ℕ) (leaf : Buffer) (path : List String) (root_hash : String) (top : Buffer)
      → wire_hash_to_buf (str root_hash) ≡ some top
      → verify_inclusion_path sha256 (nat i) (nat n) leaf path root_hash ≡ ok
      → (i < n) × (fold_inclusion sha256 top i (n - 1) leaf path ≡ ok)
  unfolding verify_inclusion_path
  inclusion_run i n leaf path root_hash top decodes h =
      let in_range : ltb i n ≡ true = ground (arith, decodes) in
      (ltb→lt i n in_range, ground (arith, decodes, in_range))

  -- An accepted inclusion proof for the leaf with canonical bytes `bytes` at index `i`, against the
  -- tree head of `leaves`, shows that `bytes` is the leaf at that index, or a SHA-256 collision.
  pub inclusion_sound :
      (leaves : List (List ℕ)) (i n : ℕ) (bytes : List ℕ) (path : List String) (root_hash : String)
      → length leaves ≡ n
      → wire_hash_to_buf (str root_hash) ≡ some (tree_head sha256 leaves)
      → verify_inclusion_path sha256 (nat i) (nat n) (leaf_bytes_hash sha256 bytes) path root_hash
        ≡ ok
      → (i < n) × ((bytes ≡ get_or leaves i []) ⊎ Collision sha256)
  unfolding tree_head
  inclusion_sound leaves i n bytes path root_hash size decodes h =
      let (in_range, run) = inclusion_run i n _ path root_hash _ decodes h in
      let r = leaf_bytes_hash sha256 bytes in
      let fs = fold_inclusion_ok sha256 _ i (n - 1) r r path run in
      let digests = map (leaf_bytes_hash sha256) leaves in
      let fixed =
        fold_sound (node_hash sha256) (sha256 []) IsDigest (Collision sha256)
          (node_hash-IsDigest sha256 length-sha256) (node_hash_injective sha256) (length leaves)
          digests i (n - 1) r r fs.decoded fs.first _
          (omega (arith, length-map (leaf_bytes_hash sha256) leaves)) (omega arith) (omega arith)
          (leaves-IsDigest sha256 length-sha256 leaves)
          (leaf_bytes_hash-IsDigest sha256 length-sha256 bytes)
          (All-decode_path path fs.decoded fs.decodes) fs.folds refl in
      (
        in_range,
        elim fixed [
          | inr hit ↦ inr hit
          | inl (same, _) ↦
              leaf_bytes_hash_injective sha256 bytes (get_or leaves i [])
                (same ∙ get_or-map (leaf_bytes_hash sha256) i leaves [] (sha256 []) (omega arith))
        ],
      )

  tree_head_prefix :
      (leaves : List (List ℕ)) (m : ℕ)
      → m ≤ length leaves
      → root
          (node_hash sha256)
          (sha256 [])
          (length leaves)
          (take m (map (leaf_bytes_hash sha256) leaves))
        ≡ tree_head sha256 (take m leaves)
  unfolding tree_head
  tree_head_prefix leaves m le =
      ap (root (node_hash sha256) (sha256 []) (length leaves)) (take-map _ m leaves)
      ∙ root_depth (node_hash sha256) (sha256 []) (length (take m leaves)) (length leaves)
          (map (leaf_bytes_hash sha256) (take m leaves))
          (omega (arith, length-map (leaf_bytes_hash sha256) (take m leaves)))
          (omega (arith, length-take m leaves))

  -- What a run past the checks of `verifyConsistencyPath` has established.
  record Ran (first second : ℕ) (old top : Buffer) : Type 0 where
    below : first < second
    positive : 0 < first
    seed : Buffer
    rest : List Buffer
    seed-IsDigest : IsDigest seed
    rest-IsDigest : All IsDigest rest
    run :
        fold_consistency sha256 old top
          (skip_right (first - 1) (first - 1) (second - 1)).0
          (skip_right (first - 1) (first - 1) (second - 1)).1
          seed
          seed
          rest
        ≡ ok

  consistency_checked :
      (first second : ℕ) (path : List String) (old_hash new_hash : String) (old top : Buffer)
      → wire_hash_to_buf (str old_hash) ≡ some old
      → wire_hash_to_buf (str new_hash) ≡ some top
      → verify_consistency_path sha256 (nat first) (nat second) path old_hash new_hash ≡ ok
      → check_sizes sha256 first second path old top ≡ ok
  unfolding verify_consistency_path
  consistency_checked first second path old_hash new_hash old top d d' h = ground (arith, d, d')

  consistency_same :
      (first second : ℕ) (path : List String) (old top : Buffer)
      → check_sizes sha256 first second path old top ≡ ok
      → first ≡ second
      → old ≡ top
  unfolding check_sizes
  consistency_same first second path old top h same = ground (arith, equals→eq old top)

  consistency_undecoded :
      (first second : ℕ) (path : List String) (old_hash new_hash : String)
      → wire_hash_to_buf (str old_hash) ≡ none
      → verify_consistency_path sha256 (nat first) (nat second) path old_hash new_hash ≢ ok
  unfolding verify_consistency_path
  consistency_undecoded first second path old_hash new_hash bad h = ground (arith, bad)

  Ran-of_path :
      (first second : ℕ) (old top : Buffer) (raw : List Buffer)
      → first < second
      → 0 < first
      → All IsDigest raw
      → run_consistency sha256 first second old top raw ≡ ok
      → Ran first second old top
  unfolding run_consistency
  Ran-of_path first second old top [] below positive good h = cc
  Ran-of_path first second old top (c ∷ raw) below positive good h = record {
    below = below;
    positive = positive;
    seed = c;
    rest = raw;
    seed-IsDigest = good.0;
    rest-IsDigest = good.1;
    run = h;
  }

  Ran-of_checked :
      (first second : ℕ) (path : List String) (old top : Buffer)
      → IsDigest old
      → check_sizes sha256 first second path old top ≡ ok
      → first ≢ second
      → Ran first second old top
  unfolding check_sizes
  Ran-of_checked first second path old top good h other =
      let shape : (first == 0 || ltb second first || length path == 0) ≡ false = ground arith in
      let differ : (first == second) ≡ false = ground arith in
      elim (Option-cases (decode_path path)) [
        | inl bad ↦ absurd (ground (arith, bad, shape, differ))
        | inr (raw, decodes) ↦ elim (Bool-cases (is_power_of_two first)) [
          | inl power ↦
              Ran-of_path first second old top (old ∷ raw) (ground arith) (ground arith)
                (good, All-decode_path path raw decodes) (ground (arith, decodes, power))
          | inr power ↦
              Ran-of_path first second old top raw (ground arith) (ground arith)
                (All-decode_path path raw decodes) (ground (arith, decodes, power))
        ]
      ]

  prefix_of_Ran :
      (leaves : List (List ℕ)) (first second : ℕ) (old : Buffer)
      → length leaves ≡ second
      → Ran first second old (tree_head sha256 leaves)
      → (old ≡ tree_head sha256 (take first leaves)) ⊎ Collision sha256
  prefix_of_Ran leaves first second old size r =
      let digests = map (leaf_bytes_hash sha256) leaves in
      let fixed : (old
            ≡ root (node_hash sha256) (sha256 []) (length leaves) (take (suc (first - 1)) digests))
          ⊎ Collision sha256 =
        skip_sound (node_hash sha256) (sha256 []) IsDigest (Collision sha256)
          (node_hash-IsDigest sha256 length-sha256) (node_hash_injective sha256) (first - 1)
          (length leaves) digests (first - 1) (second - 1) r.seed r.rest old
          (tree_head sha256 leaves)
          (omega (arith, length-map (leaf_bytes_hash sha256) leaves, r.below))
          (omega (arith, r.below)) (omega arith) (omega arith)
          (leaves-IsDigest sha256 length-sha256 leaves) r.seed-IsDigest r.rest-IsDigest
          (fold_consistency_ok sha256 old _ _ _ r.seed r.seed r.rest r.run)
          (unfold tree_head in refl) in
      elim fixed [
        | inr hit ↦ inr hit
        | inl same ↦
            let whole : suc (first - 1) ≡ first = omega (arith, r.positive) in
            inl ((rw whole at same) ∙ tree_head_prefix leaves first (omega (arith, r.below)))
      ]

  -- An accepted consistency proof, against the tree head of `leaves`, shows that the retained root
  -- is the tree head of the first `first` of them, or a SHA-256 collision.
  pub consistency_sound :
      (leaves : List (List ℕ)) (first second : ℕ) (path : List String) (old_hash new_hash : String)
      → length leaves ≡ second
      → wire_hash_to_buf (str new_hash) ≡ some (tree_head sha256 leaves)
      → verify_consistency_path sha256 (nat first) (nat second) path old_hash new_hash ≡ ok
      → (first ≤ second)
        × ((wire_hash_to_buf (str old_hash) ≡ some (tree_head sha256 (take first leaves)))
            ⊎ Collision sha256)
  consistency_sound leaves first second path old_hash new_hash size decodes h =
      elim (Option-cases (wire_hash_to_buf (str old_hash))) [
        | inl bad ↦ absurd (consistency_undecoded first second path old_hash new_hash bad h)
        | inr (old, old_decodes) ↦
            let checked =
              consistency_checked first second path old_hash new_hash old _ old_decodes decodes h in
            elim (Bool-cases (first == second)) [
              | inl same ↦
                  let equal = ==→eq first second same in
                  let old_same = consistency_same first second path old _ checked equal in
                  (
                    omega arith,
                    inl (
                        old_decodes
                        ∙ ap some (
                            old_same
                            ∙ ap (tree_head sha256) (sym (take_all first leaves (omega arith))))),
                  )
              | inr other ↦
                  let differ = ==_false first second other in
                  let ran =
                    Ran-of_checked first second path old _
                      (length-wire_hash_to_buf (str old_hash) old old_decodes) checked differ in
                  (
                    omega (arith, ran.below),
                    elim (prefix_of_Ran leaves first second old size ran) [
                      | inr hit ↦ inr hit
                      | inl found ↦ inl (old_decodes ∙ ap some found)
                    ],
                  )
            ]
      ]
