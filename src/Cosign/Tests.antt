-- ===== src/Cosign/Tests.antt =====
-- A quorum of one witness.
use acdp_control_plane.Prelude.{
  ℕ, ◌≡◌, refl, inl, String, List, [], ◌∷◌, true, Option, none, some, Json, str, num, obj, Number,
  nat, end, field, str_mem, length, leb, Bool, sort_strings, join, insert_sorted, codes_le,
  starts_with,
}
use acdp_control_plane.Prelude.OrderedMap.{lookup}
use acdp_control_plane.Log.Hash.{wire_hash_re, is_hex}
use acdp_control_plane.Log.Parse.{
  LogCheckpoint, parsed, log_id_re, canonical_ts_re, is_finite, closed_members, is_authority_char,
}
use acdp_control_plane.Cosign.{
  LogCosignature, CosignReply, parse_cosignature, validate_witnessed_checkpoint, witness_did_re,
  cosignature_freshness_ok, verify_cosignature, ts_verify_cosignature, strip_fragment,
  cosignature_hash, unsigned,
}
use acdp_control_plane.Cosign.Quorum.{QuorumInputs, same_tuple, host_evaluate_quorum}
use acdp_control_plane.Cosign.Quorum.Sets.{Distinct, Each}
use acdp_control_plane.Cosign.Quorum.Sound.{In, Passes, Attests, quorum_sound}
use acdp_control_plane.Cosign.Quorum.Complete.{quorum_complete}

abbrev instant : String → Number
instant s = nat 1000

abbrev one_byte : Json → Option (List ℕ)
one_byte v = some (1 ∷ [])

abbrev digest : List ℕ → String
digest bytes = "00"

abbrev accepts : String → String → String → Bool
accepts key message value = true

abbrev no_native : Option (LogCosignature → String → LogCheckpoint → CosignReply)
no_native = none

abbrev log_name : String
log_name = "did:web:log.example/log/main"

abbrev top_hash : String
top_hash = "sha256:0000000000000000000000000000000000000000000000000000000000000000"

abbrev at_noon : String
at_noon = "2026-01-01T12:00:00.000Z"

abbrev signed : LogCosignature
signed = record {
  cosignature_version = "acdp-cosig/1";
  witness_id = "did:web:w";
  witnessed_checkpoint = record {
    log_id = log_name;
    tree_size = 5;
    root_hash = top_hash;
    timestamp = at_noon;
  };
  witnessed_at = at_noon;
  signature = record { algorithm = "ed25519"; key_id = "did:web:w#witness-key-1"; value = "AA==" };
}

abbrev sent : Json
sent = obj (
    field "cosignature_version" (str "acdp-cosig/1") (
      field "witness_id" (str "did:web:w") (
        field "witnessed_checkpoint"
          (obj (
            field "log_id" (str log_name) (
              field "tree_size" (num (nat 5))
                (field "root_hash" (str top_hash) (field "timestamp" (str at_noon) end)))))
          (field "witnessed_at" (str at_noon) (
            field "signature"
              (obj (
                field "algorithm" (str "ed25519") (
                  field "key_id" (str "did:web:w#witness-key-1") (field "value" (str "AA==") end))))
              end)))))

abbrev inputs : QuorumInputs
inputs = record {
  cosignatures = sent ∷ [];
  checkpoint = record {
    checkpoint_version = "acdp-log/1";
    log_id = log_name;
    tree_size = 5;
    root_hash = top_hash;
    timestamp = at_noon;
    signature = record { algorithm = "ed25519"; key_id = "did:web:log.example#k"; value = "AA==" };
  };
  trusted_witness_ids = "did:web:w" ∷ [];
  witness_keys_b64 = ("did:web:w", "AAAA") ∷ [];
  historical_witness_ids = none;
  min_witnesses = 1;
  max_age_secs = none;
  max_clock_skew_secs = none;
  now_ms = some 2000;
}

sent_parsed : parse_cosignature instant sent ≡ parsed signed
unfolding parse_cosignature validate_witnessed_checkpoint witness_did_re closed_members log_id_re
    canonical_ts_re is_finite wire_hash_re is_hex is_authority_char starts_with sort_strings join
    insert_sorted codes_le
sent_parsed = refl

signed-Passes : Passes instant one_byte digest accepts no_native 0 inputs signed
unfolding same_tuple cosignature_freshness_ok verify_cosignature ts_verify_cosignature
    strip_fragment cosignature_hash unsigned lookup
signed-Passes = ("AAAA", refl, refl, refl, refl)

sent-Attests : Attests instant one_byte digest accepts no_native 0 inputs sent "did:web:w"
sent-Attests = (signed, sent_parsed, refl, refl, refl, signed-Passes)

quorum_sound_example :
    let report = host_evaluate_quorum instant one_byte digest accepts no_native 0 inputs in
    Distinct report.verified_witness_ids
    × Each
        (λ id.
          (raw : Json) × In raw inputs.cosignatures
          × Attests instant one_byte digest accepts no_native 0 inputs raw id)
        report.verified_witness_ids
    × (report.witnessed_count ≡ length report.verified_witness_ids)
    × (report.meets_quorum ≡ leb inputs.min_witnesses report.witnessed_count)
quorum_sound_example = quorum_sound instant one_byte digest accepts no_native 0 inputs

quorum_complete_example :
    str_mem "did:web:w"
      (host_evaluate_quorum instant one_byte digest accepts no_native 0 inputs).verified_witness_ids
    ≡ true
quorum_complete_example =
    quorum_complete instant one_byte digest accepts no_native 0 inputs "did:web:w" sent (inl refl)
      sent-Attests
