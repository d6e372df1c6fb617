-- ===== src/Log/Proofs.antt =====
-- The host arithmetic of src/audit/log-verify.ts: `verifyInclusionPath`, `verifyConsistencyPath`
-- and `isPowerOfTwo`. The theorems are in the modules below.
pub mod Loops
pub mod Sound
pub mod Complete
pub mod Powers
use Prim.Native.Nat.{bit_and}
use acdp_control_plane.Prelude.{
  ℕ, zero, suc, ◌-◌, ◌%◌, ◌^◌, Bool, true, false, ◌||◌, not, Option, none, some, String, List, [],
  ◌∷◌, length, ltb, ◌==◌, if◌then◌else◌, str, Number, nat, neg,
}
use acdp_control_plane.Log.Hash.{Buffer, equals, wire_hash_to_buf, node_hash}
use acdp_control_plane.Log.Merkle.Cursor.{on_right, skip_right, advance}

-- A constructor for each message that the two checks give.
pub data Reason : Type 0 where
  malformed_expected_root index_not_natural index_past_tree malformed_inclusion_element : Reason
  inclusion_path_too_long inclusion_path_exhausted root_mismatch : Reason
  malformed_anchor_root sizes_not_natural path_not_empty split_view bad_shape : Reason
  malformed_consistency_element consistency_path_too_long first_root_rewritten : Reason
  second_root_rewritten consistency_path_exhausted : Reason
  leaf_not_canonical native_failed unsupported_algorithm : Reason
  checkpoint_not_canonical signature_invalid : Reason

pub data VerifyOutcome : Type 0 where
  ok : VerifyOutcome
  fail : Reason → VerifyOutcome

-- `n > 0 && (n & (n - 1)) === 0`; the operands of `&` are first cut down to 32 bits.
unfoldable pub is_power_of_two : ℕ → Bool
is_power_of_two zero = false
is_power_of_two (suc m) = bit_and (suc m % 2 ^ 32) (m % 2 ^ 32) == 0

-- The decoding of every element of a path; `none` if one is malformed.
unfoldable pub decode_path : List String → Option (List Buffer)
decode_path [] = some []
decode_path (e ∷ es) = elim (wire_hash_to_buf (str e)) [
  | none ↦ none
  | some p ↦ elim (decode_path es) [ none ↦ none | some ps ↦ some (p ∷ ps) ]
]

module _ (sha256 : List ℕ → Buffer) where
  -- The loop of `verifyInclusionPath` and the checks after it.
  unfoldable pub fold_inclusion : Buffer → ℕ → ℕ → Buffer → List String → VerifyOutcome
  fold_inclusion expected fn sn r [] =
      if not (sn == 0)
      then fail inclusion_path_exhausted
      else if not (equals r expected)
      then fail root_mismatch
      else ok
  fold_inclusion expected fn sn r (element ∷ path) = elim (wire_hash_to_buf (str element)) [
    | none ↦ fail malformed_inclusion_element
    | some p ↦
        if sn == 0
        then fail inclusion_path_too_long
        else fold_inclusion expected (advance fn sn).0 (advance fn sn).1
            (if on_right fn sn then node_hash sha256 p r else node_hash sha256 r p) path
  ]

  check_index : Number → Number → Buffer → List String → Buffer → VerifyOutcome
  check_index (nat i) (nat n) leaf path expected =
      if not (ltb i n) then fail index_past_tree else fold_inclusion expected i (n - 1) leaf path
  check_index (nat i) (neg n) leaf path expected = fail index_past_tree
  check_index _ _ leaf path expected = fail index_not_natural

  unfoldable pub verify_inclusion_path :
      Number → Number → Buffer → List String → String → VerifyOutcome
  unfolding check_index
  verify_inclusion_path leaf_index tree_size leaf inclusion_path expected_root_hash =
      elim (wire_hash_to_buf (str expected_root_hash)) [
        | none ↦ fail malformed_expected_root
        | some expected ↦ check_index leaf_index tree_size leaf inclusion_path expected
      ]

  -- Step 5 over `path.slice(1)`, and step 6.
  unfoldable pub fold_consistency :
      Buffer → Buffer → ℕ → ℕ → Buffer → Buffer → List Buffer → VerifyOutcome
  fold_consistency first_root second_root fn sn fr sr [] =
      if not (equals fr first_root)
      then fail first_root_rewritten
      else if not (equals sr second_root)
      then fail second_root_rewritten
      else if not (sn == 0)
      then fail consistency_path_exhausted
      else ok
  fold_consistency first_root second_root fn sn fr sr (c ∷ path) =
      if sn == 0
      then fail consistency_path_too_long
      else fold_consistency first_root second_root (advance fn sn).0 (advance fn sn).1
          (if on_right fn sn then node_hash sha256 c fr else fr)
          (if on_right fn sn then node_hash sha256 c sr else node_hash sha256 sr c) path

  -- Steps 4 to 6. The path is never empty here: step 2 has refused that.
  unfoldable pub run_consistency : ℕ → ℕ → Buffer → Buffer → List Buffer → VerifyOutcome
  run_consistency first second first_root second_root [] = fail bad_shape
  run_consistency first second first_root second_root (seed ∷ path) =
      let cursor = skip_right (first - 1) (first - 1) (second - 1) in
      fold_consistency first_root second_root cursor.0 cursor.1 seed seed path

  -- Steps 1 to 3.
  unfoldable pub check_sizes : ℕ → ℕ → List String → Buffer → Buffer → VerifyOutcome
  check_sizes first second consistency_path first_root second_root =
      if first == second
      then (if not (length consistency_path == 0)
          then fail path_not_empty
          else if equals first_root second_root
          then ok
          else fail split_view)
      else if first == 0 || ltb second first || length consistency_path == 0
      then fail bad_shape
      else elim (decode_path consistency_path) [
        | none ↦ fail malformed_consistency_element
        | some raw_path ↦
            run_consistency first second first_root second_root
              (if is_power_of_two first then first_root ∷ raw_path else raw_path)
      ]

  check_naturals : Number → Number → List String → Buffer → Buffer → VerifyOutcome
  check_naturals (nat first) (nat second) path first_root second_root =
      check_sizes first second path first_root second_root
  check_naturals _ _ path first_root second_root = fail sizes_not_natural

  unfoldable pub verify_consistency_path :
      Number → Number → List String → String → String → VerifyOutcome
  unfolding check_naturals
  verify_consistency_path first second consistency_path first_root_hash second_root_hash =
      elim (wire_hash_to_buf (str first_root_hash)) [
        | none ↦ fail malformed_anchor_root
        | some first_root ↦ elim (wire_hash_to_buf (str second_root_hash)) [
          | none ↦ fail malformed_anchor_root
          | some second_root ↦ check_naturals first second consistency_path first_root second_root
        ]
      ]
