-- ===== src/Log/Tests.antt =====
-- The log checks at concrete inputs, with a stand-in for SHA-256 that pads or cuts to 32 bytes.
use acdp_control_plane.Prelude.{
  ◌<◌, ◌≤◌, ◌≡◌, ◌⊎◌, refl, true, none, some, [], ◌∷◌, arith, get_or, take, str, null, nat,
}
use acdp_control_plane.Log.Hash.{
  equals, wire_hash_re, from_hex, wire_hash_to_buf, leaf_bytes_hash, node_hash, leaf_hash,
}
use acdp_control_plane.Log.Hash.StandIn.{
  pad, toy, length-toy, leaves, leaf0_hash, leaf1_hash, root_hash,
}
use acdp_control_plane.Log.Hash.Collisions.{Collision, tree_head}
use acdp_control_plane.Log.Merkle.Layers.{pairs, root}
use acdp_control_plane.Log.Merkle.Cursor.{on_right, skip_unpaired, advance, skip_right}
use acdp_control_plane.Log.Merkle.Complete.{audit_path}
use acdp_control_plane.Log.Proofs.{
  ok, is_power_of_two, decode_path, fold_inclusion, verify_inclusion_path, fold_consistency,
  run_consistency, check_sizes, verify_consistency_path,
}
use acdp_control_plane.Log.Proofs.Complete.{leaf_path, inclusion_complete}
use acdp_control_plane.Log.Proofs.Powers.{is_power_of_two_wraps}
use acdp_control_plane.Log.Parse.{LogCheckpoint, InclusionProof, ConsistencyProof}
use acdp_control_plane.Log.Verify.{
  ts_verify_inclusion, ts_verify_consistency, Surface, NativeReply, ts_verify_inclusion_sound,
  ts_verify_consistency_sound,
}

log_checks : Unit {0}
unfolding toy pad wire_hash_to_buf wire_hash_re from_hex equals leaf_bytes_hash node_hash tree_head
    pairs root on_right skip_unpaired advance skip_right audit_path is_power_of_two decode_path
    fold_inclusion verify_inclusion_path fold_consistency run_consistency check_sizes
    verify_consistency_path leaf_path
log_checks = tt

abbrev checkpoint : LogCheckpoint
checkpoint = record {
  checkpoint_version = "acdp-log/1";
  log_id = "did:web:registry.example/log/main";
  tree_size = 2;
  root_hash = root_hash;
  timestamp = "2026-01-01T00:00:00.000Z";
  signature = record { algorithm = "ed25519"; key_id = "k"; value = "v" };
}

abbrev inclusion : InclusionProof
inclusion = record {
  log_id = checkpoint.log_id;
  leaf_index = 0;
  tree_size = 2;
  inclusion_path = leaf1_hash ∷ [];
  log_checkpoint = null;
}

abbrev consistency : ConsistencyProof
consistency = record {
  log_id = checkpoint.log_id;
  first_tree_size = 1;
  second_tree_size = 2;
  consistency_path = leaf1_hash ∷ [];
  log_checkpoint = null;
}

ts_verify_consistency_sound_example :
    (1 ≤ 2)
    × ((wire_hash_to_buf (str leaf0_hash) ≡ some (tree_head toy (take 1 leaves))) ⊎ Collision toy)
unfolding log_checks ts_verify_consistency
ts_verify_consistency_sound_example =
    ts_verify_consistency_sound toy (λ v. none) length-toy leaves consistency checkpoint leaf0_hash
      refl refl refl

ts_verify_inclusion_sound_example : (0 < 2) × ((1 ∷ [] ≡ get_or leaves 0 []) ⊎ Collision toy)
unfolding log_checks ts_verify_inclusion leaf_hash
ts_verify_inclusion_sound_example =
    ts_verify_inclusion_sound toy (λ v. some (1 ∷ [])) length-toy leaves inclusion checkpoint null
      (1 ∷ []) refl refl refl refl

inclusion_complete_example :
    verify_inclusion_path toy
      (nat 0)
      (nat 2)
      (leaf_bytes_hash toy (1 ∷ []))
      (leaf1_hash ∷ [])
      root_hash
    ≡ ok
unfolding log_checks
inclusion_complete_example =
    inclusion_complete toy leaves 0 (leaf1_hash ∷ []) root_hash (omega arith) refl refl

abbrev silent : Surface
silent = record {
  present = true;
  verify_log_inclusion = λ p c leaf. NativeReply.thrown;
  verify_log_consistency = λ p c first. NativeReply.thrown;
}

is_power_of_two_wraps_example : is_power_of_two 12884901888 ≡ true
is_power_of_two_wraps_example = is_power_of_two_wraps 12884901887 refl
