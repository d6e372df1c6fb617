-- ===== src/Witness/Tests.antt =====
-- Two passes over a log that grows from one leaf to two.
use acdp_control_plane.Prelude.{
  List, ℕ, ◌≡◌, ◌⊎◌, refl, arith, String, [], ◌∷◌, true, false, Option, none, some, Json, str, num,
  obj, arr, nil, cons, nat, end, field, str_eq, take, All, if◌then◌else◌, sort_strings, join,
  insert_sorted, codes_le,
}
use acdp_control_plane.Did.{authority_to_did_web}
use acdp_control_plane.Log.Hash.{
  wire_hash_to_buf, wire_hash_re, from_hex, equals, node_hash, leaf_bytes_hash,
}
use acdp_control_plane.Log.Hash.StandIn.{
  pad, toy, length-toy, leaves, leaf0_hash, leaf1_hash, root_hash, root_decodes,
}
use acdp_control_plane.Log.Hash.Collisions.{Collision, tree_head}
use acdp_control_plane.Log.Merkle.Layers.{pairs, root}
use acdp_control_plane.Log.Merkle.Cursor.{on_right, skip_unpaired, advance, skip_right}
use acdp_control_plane.Log.Parse.{
  parse_checkpoint, parse_consistency_proof, parse_signature, closed_members, log_id_re,
  canonical_ts_re, wire_hash_array, is_authority_char,
}
use acdp_control_plane.Log.Proofs.{
  is_power_of_two, decode_path, fold_consistency, run_consistency, check_sizes,
  verify_consistency_path,
}
use acdp_control_plane.Log.Signature.{
  checkpoint_hash, verify_checkpoint_signature, preimage, log_id_registry_did,
}
use acdp_control_plane.Log.Verify.{
  NativeReply, checkpoint_timestamp_ok, verify_consistency, ts_verify_consistency,
}
use acdp_control_plane.Audit.Lineage.{without_slash}
use acdp_control_plane.Witness.Store.{World, advance_cursor, put_cursor}
use acdp_control_plane.Witness.Quorum.{
  Host, WitnessConfig, consume_quorum, collect_keys, unwrap_checkpoint_envelope,
}
use acdp_control_plane.Witness.Pass.{
  RegistryEnrollment, Answers, Anchor, responded, guarded_pass, shape_ok, proof_url, cosign,
  bound_to, accept_head, judge_growth,
}
use acdp_control_plane.Cosign.{mint_cosignature, ts_mint_cosignature, cosignature_hash}
use acdp_control_plane.Witness.Moves.{anchors, Follows, Moves}
use acdp_control_plane.Witness.Cosigned.{MintsGiven, Vouched, cosigned-Vouched}
use acdp_control_plane.Witness.Moves.Passes.{pass-Moves}
use acdp_control_plane.Witness.History.{Event, passed, step, run, append_only, step-Follows}

abbrev registry : String
registry = "registry.example"

abbrev log_name : String
log_name = "did:web:registry.example/log/main"

abbrev instant : String
instant = "2026-01-01T00:00:00.000Z"

abbrev head_json : ℕ → String → Json
head_json size top = obj (
    field "checkpoint_version" (str "acdp-log/1") (
      field "log_id" (str log_name) (
        field "tree_size" (num (nat size)) (
          field "root_hash" (str top) (
            field "timestamp" (str instant) (
              field "signature"
                (obj (
                  field "algorithm" (str "ed25519") (
                    field "key_id" (str "did:web:registry.example#key-1")
                      (field "value" (str "AA==") end))))
                end))))))

abbrev proof_json : Json
proof_json = obj (
    field "log_id" (str log_name) (
      field "first_tree_size" (num (nat 1)) (
        field "second_tree_size" (num (nat 2)) (
          field "consistency_path" (arr (cons (str leaf1_hash) nil))
            (field "log_checkpoint" (obj end) end)))))

abbrev read_json : String → Option Json
read_json text =
    if str_eq text "first"
    then some (head_json 1 leaf0_hash)
    else if str_eq text "second"
    then some (head_json 2 root_hash)
    else if str_eq text "proof"
    then some proof_json
    else none

abbrev host : Host
host = record {
  crypto = record {
    canonicalize = λ v. some (1 ∷ []);
    sha256_hex = λ bytes. "00";
    verify_signature_b64 = λ key message value. true;
  };
  sha256 = toy;
  surface = record {
    present = false;
    verify_log_inclusion = λ p c leaf. NativeReply.thrown;
    verify_log_consistency = λ p c first. NativeReply.thrown;
  };
  date_parse = λ s. nat 1000;
  parse_json = read_json;
  decimal = λ n. "n";
  strip_fragment = λ s. "did:web:registry.example";
  did_key = λ s. none;
  native_cosign = none;
  native_mint = λ checkpoint at_text signer. none;
  native_quorum = λ inputs. none;
}

abbrev config : WitnessConfig
config = record {
  exclude_authorities = [];
  quorum_enabled = false;
  quorum_trusted = [];
  quorum_min_witnesses = 0;
  quorum_max_age_seconds = none;
  quorum_max_clock_skew_seconds = 0;
  signer = some (record {
    witness_id = "did:web:w";
    key_id = "did:web:w#k";
    sign_ascii_to_base64 = λ s. "AA==";
  });
}

abbrev serving : String → Answers
serving head = record {
  now = 2000;
  now_text = instant;
  advertises = some true;
  known_base_url = none;
  get = λ url.
      if str_eq url "https://r/log/checkpoint" then responded 200 head else responded 200 "proof";
  resolve_receipt_key = λ id. some "key";
  resolve_witness_key = λ id. none;
  faults = record {
    profile_read = false;
    read_cursor = false;
    advance = false;
    alert_write = false;
    failure_write = false;
    checkpoint_write = false;
    cosignature_write = false;
  };
}

abbrev pass_over : String → Event
pass_over head =
    passed (record { tenant_id = "t"; authority = registry; base_url = some "https://r" })
      (serving head)

abbrev empty_world : World
empty_world = record { cursors = λ t a. none; checkpoints = []; cosigned = []; published = [] }

abbrev after_first : World
after_first = run host config (pass_over "first" ∷ []) empty_world

abbrev first_head : Anchor
first_head = record { log_id = log_name; size = 1; root = leaf0_hash }

abbrev second_head : Anchor
second_head = record { log_id = log_name; size = 2; root = root_hash }

witness_checks : Unit {0}
unfolding toy pad wire_hash_to_buf wire_hash_re from_hex equals leaf_bytes_hash node_hash tree_head
    pairs root on_right skip_unpaired advance skip_right is_power_of_two decode_path
    fold_consistency run_consistency check_sizes verify_consistency_path parse_checkpoint
    parse_consistency_proof parse_signature closed_members log_id_re canonical_ts_re wire_hash_array
    is_authority_char preimage checkpoint_hash verify_checkpoint_signature log_id_registry_did
    checkpoint_timestamp_ok verify_consistency ts_verify_consistency advance_cursor put_cursor
    consume_quorum collect_keys unwrap_checkpoint_envelope guarded_pass shape_ok proof_url cosign
    step run authority_to_did_web sort_strings join insert_sorted codes_le without_slash bound_to
    accept_head mint_cosignature ts_mint_cosignature cosignature_hash judge_growth
witness_checks = tt

first_held : anchors after_first "t" registry ≡ some first_head
unfolding witness_checks
first_held = refl

second_held :
    anchors (run host config (pass_over "second" ∷ []) after_first) "t" registry ≡ some second_head
unfolding witness_checks
second_held = refl

append_only_example :
    (wire_hash_to_buf (str leaf0_hash) ≡ some (tree_head toy (take 1 leaves))) ⊎ Collision toy
append_only_example =
    append_only host config refl length-toy (pass_over "second" ∷ []) after_first "t" registry
      first_head second_head leaves first_held second_held refl root_decodes

pass-Moves_example :
    Moves host config
      (serving "second")
      "t"
      registry
      after_first
      (guarded_pass host config (serving "second") "t" registry (some "https://r") after_first).1
pass-Moves_example =
    pass-Moves host config (serving "second") "t" registry (some "https://r") after_first

no_native_mint : MintsGiven host
no_native_mint wc at_text signer x h = ground (arith, h)

cosigned-Vouched_example :
    All (Vouched host (run host config (pass_over "first" ∷ []) empty_world)) after_first.cosigned
cosigned-Vouched_example =
    cosigned-Vouched host config no_native_mint (pass_over "first" ∷ []) empty_world refl

step-Follows_example :
    Follows host
      (anchors after_first "t" registry)
      (anchors (step host config (pass_over "second") after_first) "t" registry)
step-Follows_example = step-Follows host config (pass_over "second") after_first "t" registry

-- The registry that is watched, and one that cannot be reached.
abbrev both_registries : List (RegistryEnrollment × Answers)
both_registries =
    (
      record { tenant_id = "t"; authority = registry; base_url = some "https://r" },
      serving "second",
    )
    ∷ (record { tenant_id = "t"; authority = "b.example"; base_url = none }, serving "second")
    ∷ []
