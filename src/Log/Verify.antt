-- ===== src/Log/Verify.antt =====
-- The entry points of src/audit/log-verify.ts: the host fallback, the native fold behind its closed
-- projection, the choice between the two, and the timestamp check of a checkpoint.
use acdp_control_plane.Prelude.{
  ℕ, ◌+◌, ◌<◌, ◌≤◌, ◌≡◌, ap, ◌⊎◌, inl, inr, Bool, true, false, Option, none, some, String, List, [],
  length, get_or, take, ltb, if◌then◌else◌, Json, str, bool, Number, nat, neg, frac, Fields, member,
  Bool-cases,
}
use acdp_control_plane.Log.Hash.{Buffer, wire_hash_to_buf, leaf_hash}
use acdp_control_plane.Log.Hash.Collisions.{IsDigest, Collision, tree_head}
use acdp_control_plane.Log.Proofs.{
  VerifyOutcome, ok, fail, leaf_not_canonical, native_failed, verify_inclusion_path,
  verify_consistency_path,
}
use acdp_control_plane.Log.Proofs.Sound.{inclusion_sound, consistency_sound}
use acdp_control_plane.Log.Parse.{LogCheckpoint, InclusionProof, ConsistencyProof}

-- `CHECKPOINT_MAX_FUTURE_SKEW_MS`
abbrev pub checkpoint_max_future_skew_ms : ℕ
checkpoint_max_future_skew_ms = 120000

-- `checkpointTimestampOk`; `ts` is what `Date.parse` gives, and a comparison with `NaN` is false.
unfoldable pub checkpoint_timestamp_ok : Number → ℕ → Bool
checkpoint_timestamp_ok (nat ts) now =
    if ltb (now + checkpoint_max_future_skew_ms) ts then false else true
checkpoint_timestamp_ok (neg ts) now = true
checkpoint_timestamp_ok frac now = true

pub record ClosedInclusionProof : Type 0 where
  pub log_id : String
  pub leaf_index : ℕ
  pub tree_size : ℕ
  pub inclusion_path : List String

pub record ClosedConsistencyProof : Type 0 where
  pub log_id : String
  pub first_tree_size : ℕ
  pub second_tree_size : ℕ
  pub consistency_path : List String

unfoldable pub to_closed_inclusion_proof : InclusionProof → ClosedInclusionProof
to_closed_inclusion_proof p = record {
  log_id = p.log_id;
  leaf_index = p.leaf_index;
  tree_size = p.tree_size;
  inclusion_path = p.inclusion_path;
}

unfoldable pub to_closed_consistency_proof : ConsistencyProof → ClosedConsistencyProof
to_closed_consistency_proof p = record {
  log_id = p.log_id;
  first_tree_size = p.first_tree_size;
  second_tree_size = p.second_tree_size;
  consistency_path = p.consistency_path;
}

-- What a call of the native binding comes to: it throws, or returns text that is no JSON, or JSON.
pub data NativeReply : Type 0 where
  thrown not_json : NativeReply
  reply : Fields → NativeReply

-- `nativeVerdict`; its reasons are the binding's own, and are one here.
unfoldable pub native_verdict : NativeReply → VerifyOutcome
native_verdict thrown = fail native_failed
native_verdict not_json = fail native_failed
native_verdict (reply parsed) = elim (member "valid" parsed) [
  | some (bool true) ↦ ok
  | _ ↦ fail native_failed
]

-- The SDK: whether it has the log surface, and its two folds. The folds serialize their arguments.
pub record Surface : Type 0 where
  pub present : Bool
  pub verify_log_inclusion : ClosedInclusionProof → LogCheckpoint → Json → NativeReply
  pub verify_log_consistency : ClosedConsistencyProof → LogCheckpoint → String → NativeReply

module _ (sha256 : List ℕ → Buffer) (canonicalize : Json → Option (List ℕ)) where
  unfoldable pub ts_verify_inclusion : InclusionProof → LogCheckpoint → Json → VerifyOutcome
  ts_verify_inclusion proof checkpoint leaf = elim (leaf_hash sha256 canonicalize leaf) [
    | none ↦ fail leaf_not_canonical
    | some leaf_h ↦
        verify_inclusion_path sha256 (nat proof.leaf_index) (nat proof.tree_size) leaf_h
          proof.inclusion_path checkpoint.root_hash
  ]

  unfoldable pub ts_verify_consistency : ConsistencyProof → LogCheckpoint → String → VerifyOutcome
  ts_verify_consistency proof checkpoint first_root_hash =
      verify_consistency_path sha256 (nat proof.first_tree_size) (nat proof.second_tree_size)
        proof.consistency_path first_root_hash checkpoint.root_hash

  module _ (surface : Surface) where
    unfoldable pub verify_inclusion : InclusionProof → LogCheckpoint → Json → VerifyOutcome
    verify_inclusion proof checkpoint leaf =
        if surface.present
        then native_verdict
            (surface.verify_log_inclusion (to_closed_inclusion_proof proof) checkpoint leaf)
        else ts_verify_inclusion proof checkpoint leaf

    unfoldable pub verify_consistency : ConsistencyProof → LogCheckpoint → String → VerifyOutcome
    verify_consistency proof checkpoint first_root_hash =
        if surface.present
        then native_verdict (
            surface.verify_log_consistency (to_closed_consistency_proof proof) checkpoint
              first_root_hash)
        else ts_verify_consistency proof checkpoint first_root_hash

    -- The verdict on an inclusion proof depends on its closed projection only: on no member that a
    -- registry attaches beside it, and not on the embedded checkpoint.
    pub verify_inclusion_closed :
        (p q : InclusionProof) (checkpoint : LogCheckpoint) (leaf : Json)
        → to_closed_inclusion_proof p ≡ to_closed_inclusion_proof q
        → verify_inclusion p checkpoint leaf ≡ verify_inclusion q checkpoint leaf
    unfolding verify_inclusion ts_verify_inclusion to_closed_inclusion_proof
    verify_inclusion_closed p q checkpoint leaf h =
        let index : p.leaf_index ≡ q.leaf_index =
          ap (λ (c : ClosedInclusionProof). c.leaf_index) h in
        let size : p.tree_size ≡ q.tree_size = ap (λ (c : ClosedInclusionProof). c.tree_size) h in
        let path : p.inclusion_path ≡ q.inclusion_path =
          ap (λ (c : ClosedInclusionProof). c.inclusion_path) h in
        elim (Bool-cases surface.present) [
          | inl native ↦ rw (native, h)
          | inr host ↦ rw (host, index, size, path)
        ]

  -- When the host fallback accepts an inclusion proof for `leaf`, whose canonical bytes are `bytes`,
  -- under a checkpoint whose root hash is the tree head of `leaves`, and the proof's tree size is
  -- their number, then `bytes` is the leaf at the proof's index, or a SHA-256 collision is at hand.
  -- SHA-256 gives 32 bytes.
  pub ts_verify_inclusion_sound :
      (length-sha256 : (x : List ℕ) → IsDigest (sha256 x)) (leaves : List (List ℕ))
      (proof : InclusionProof) (checkpoint : LogCheckpoint) (leaf : Json) (bytes : List ℕ)
      → canonicalize leaf ≡ some bytes
      → length leaves ≡ proof.tree_size
      → wire_hash_to_buf (str checkpoint.root_hash) ≡ some (tree_head sha256 leaves)
      → ts_verify_inclusion proof checkpoint leaf ≡ ok
      → (proof.leaf_index < proof.tree_size)
        × ((bytes ≡ get_or leaves proof.leaf_index []) ⊎ Collision sha256)
  unfolding ts_verify_inclusion leaf_hash
  ts_verify_inclusion_sound len leaves proof checkpoint leaf bytes canonical size decodes h =
      inclusion_sound sha256 len leaves proof.leaf_index proof.tree_size bytes proof.inclusion_path
        checkpoint.root_hash size decodes (rw (canonical, ts_verify_inclusion, leaf_hash) at h)

  -- When the host fallback accepts a consistency proof against a checkpoint whose root hash is the
  -- tree head of `leaves`, and the proof's second size is their number, then the retained root is
  -- the tree head of the first leaves, as many as the first size says, or a SHA-256 collision is at
  -- hand. SHA-256 gives 32 bytes.
  pub ts_verify_consistency_sound :
      (length-sha256 : (x : List ℕ) → IsDigest (sha256 x)) (leaves : List (List ℕ))
      (proof : ConsistencyProof) (checkpoint : LogCheckpoint) (first_root_hash : String)
      → length leaves ≡ proof.second_tree_size
      → wire_hash_to_buf (str checkpoint.root_hash) ≡ some (tree_head sha256 leaves)
      → ts_verify_consistency proof checkpoint first_root_hash ≡ ok
      → (proof.first_tree_size ≤ proof.second_tree_size)
        × ((wire_hash_to_buf (str first_root_hash)
              ≡ some (tree_head sha256 (take proof.first_tree_size leaves)))
            ⊎ Collision sha256)
  unfolding ts_verify_consistency
  ts_verify_consistency_sound len leaves proof checkpoint first_root_hash size decodes h =
      consistency_sound sha256 len leaves proof.first_tree_size proof.second_tree_size
        proof.consistency_path first_root_hash checkpoint.root_hash size decodes h
