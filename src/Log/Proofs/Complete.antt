-- ===== src/Log/Proofs/Complete.antt =====
-- The honest inclusion proof is accepted.
use acdp_control_plane.Prelude.{
  ℕ, ◌-◌, ◌<◌, ◌≡◌, some, String, List, [], map, arith, length, get_or, str, nat, length-map,
  get_or-map, lt→ltb,
}
use acdp_control_plane.Log.Hash.{Buffer, wire_hash_to_buf, node_hash, leaf_bytes_hash}
use acdp_control_plane.Log.Hash.Collisions.{tree_head}
use acdp_control_plane.Log.Merkle.Complete.{audit_path, fold_complete}
use acdp_control_plane.Log.Proofs.{ok, decode_path, fold_inclusion, verify_inclusion_path}
use acdp_control_plane.Log.Proofs.Loops.{fold_inclusion_accepts}

module _ (sha256 : List ℕ → Buffer) where
  -- The audit path of leaf `i` in the log.
  unfoldable pub leaf_path : List (List ℕ) → ℕ → List Buffer
  leaf_path leaves i =
      audit_path (node_hash sha256) (sha256 []) (length leaves) i
        (map (leaf_bytes_hash sha256) leaves)

  inclusion_from_fold :
      (i n : ℕ) (leaf : Buffer) (path : List String) (root_hash : String) (top : Buffer)
      → wire_hash_to_buf (str root_hash) ≡ some top
      → i < n
      → fold_inclusion sha256 top i (n - 1) leaf path ≡ ok
      → verify_inclusion_path sha256 (nat i) (nat n) leaf path root_hash ≡ ok
  unfolding verify_inclusion_path
  inclusion_from_fold i n leaf path root_hash top decodes h run =
      ground (arith, decodes, lt→ltb i n h, run)

  -- The proof that a log serves for its leaf `i` is accepted: its path decodes to the audit path of
  -- that leaf, and the root hash to the tree head.
  pub inclusion_complete :
      (leaves : List (List ℕ)) (i : ℕ) (path : List String) (root_hash : String)
      → i < length leaves
      → wire_hash_to_buf (str root_hash) ≡ some (tree_head sha256 leaves)
      → decode_path path ≡ some (leaf_path leaves i)
      → verify_inclusion_path sha256
          (nat i)
          (nat (length leaves))
          (leaf_bytes_hash sha256 (get_or leaves i []))
          path
          root_hash
        ≡ ok
  unfolding leaf_path tree_head
  inclusion_complete leaves i path root_hash h decodes path_decodes =
      let r = leaf_bytes_hash sha256 (get_or leaves i []) in
      let digests = map (leaf_bytes_hash sha256) leaves in
      let (a', run) =
        fold_complete (node_hash sha256) (sha256 []) (length leaves) digests i (length leaves - 1) r
          (omega (arith, length-map (leaf_bytes_hash sha256) leaves)) (omega arith) (omega arith) in
      let at = get_or-map (leaf_bytes_hash sha256) i leaves [] (sha256 []) h in
      inclusion_from_fold i (length leaves) r path root_hash _ decodes h (
        fold_inclusion_accepts sha256 _ i (length leaves - 1) r r a' path _ path_decodes
          (rw at at run))
