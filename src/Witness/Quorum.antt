-- ===== src/Witness/Quorum.antt =====
-- `consumeQuorumSafe` of src/audit/checkpoint-witness.service.ts: the keys of the witnesses that have
-- cosigned a head, and the report on them.
use acdp_control_plane.Prelude.{
  ℕ, String, List, [], ◌∷◌, Bool, not, Option, none, some, str_mem, codes, starts_with,
  if◌then◌else◌, Json, Number, obj, arr, member, items,
}
use acdp_control_plane.Prelude.OrderedMap.{has, insert}
use acdp_control_plane.Log.Hash.{Buffer}
use acdp_control_plane.Log.Parse.{LogCheckpoint, parsed, refused}
use acdp_control_plane.Log.Signature.{Crypto}
use acdp_control_plane.Log.Verify.{Surface}
use acdp_control_plane.Cosign.{
  LogCosignature, CosignReply, WitnessSigner, WitnessedCheckpoint, parse_cosignature,
}
use acdp_control_plane.Cosign.Quorum.{QuorumInputs, QuorumReport, add, host_evaluate_quorum}
use acdp_control_plane.Witness.Store.{QuorumCounts}

-- The host's functions and the SDK's. `native_quorum` is `none` where the SDK has no quorum surface,
-- throws or returns no JSON.
pub record Host : Type 0 where
  pub crypto : Crypto
  pub sha256 : List ℕ → Buffer
  pub surface : Surface
  pub date_parse : String → Number
  pub parse_json : String → Option Json
  pub decimal : ℕ → String
  pub strip_fragment : String → String
  pub did_key : String → Option String
  pub native_cosign : Option (LogCosignature → String → LogCheckpoint → CosignReply)
  pub native_mint : WitnessedCheckpoint → String → WitnessSigner → Option LogCosignature
  pub native_quorum : QuorumInputs → Option QuorumReport

pub record WitnessConfig : Type 0 where
  pub exclude_authorities : List String
  pub quorum_enabled : Bool
  pub quorum_trusted : List String
  pub quorum_min_witnesses : ℕ
  pub quorum_max_age_seconds : Option ℕ
  pub quorum_max_clock_skew_seconds : ℕ
  pub signer : Option WitnessSigner

-- A key that a resolver has found, and whether it is retired.
pub record WitnessKey : Type 0 where
  pub public_key_b64 : String
  pub historical : Bool

-- The keys by witness, and the witnesses whose key is retired.
pub record WitnessKeys : Type 0 where
  pub keys_b64 : List (String × String)
  pub historical_ids : List String

unfoldable pub with_key : String → Option String → WitnessKeys → WitnessKeys
with_key id none ks = ks
with_key id (some key) ks = record ks { keys_b64 = insert id key ks.keys_b64 }

with_resolved : String → Option WitnessKey → WitnessKeys → WitnessKeys
with_resolved id none ks = ks
with_resolved id (some found) ks = record {
  keys_b64 = insert id found.public_key_b64 ks.keys_b64;
  historical_ids = if found.historical then add id ks.historical_ids else ks.historical_ids;
}

module _ (host : Host) (config : WitnessConfig)
    (resolve_witness_key : String → Option WitnessKey) where
  key_round : LogCosignature → WitnessKeys → WitnessKeys
  unfolding with_key with_resolved
  key_round c ks =
      if not (str_mem c.witness_id config.quorum_trusted)
      then ks
      else if has c.witness_id ks.keys_b64
      then ks
      else if starts_with (codes "did:key:") (codes c.witness_id)
      then with_key c.witness_id (host.did_key c.witness_id) ks
      else with_resolved c.witness_id (resolve_witness_key c.signature.key_id) ks

  -- The loop over the cosignatures.
  unfoldable pub collect_keys : List Json → WitnessKeys → WitnessKeys
  unfolding key_round
  collect_keys [] ks = ks
  collect_keys (raw ∷ raws) ks = elim (parse_cosignature host.date_parse raw) [
    | refused r ↦ collect_keys raws ks
    | parsed c ↦ collect_keys raws (key_round c ks)
  ]

  -- `evaluateQuorum`
  unfoldable pub evaluate_quorum : ℕ → QuorumInputs → QuorumReport
  evaluate_quorum clock inp = elim (host.native_quorum inp) [
    | some report ↦ report
    | none ↦
        host_evaluate_quorum host.date_parse host.crypto.canonicalize host.crypto.sha256_hex
          host.crypto.verify_signature_b64 host.native_cosign clock inp
  ]

  unfoldable pub counts_of : QuorumReport → QuorumCounts
  counts_of report = record {
    witnessed_count = report.witnessed_count;
    meets_quorum = report.meets_quorum;
    fresh_witnessed_count = report.fresh_witnessed_count;
    meets_fresh_quorum = report.meets_fresh_quorum;
    historical_witnessed_count = report.historical_witnessed_count;
  }

  unfoldable pub consume_quorum : ℕ → LogCheckpoint → List Json → Option QuorumCounts
  unfolding collect_keys evaluate_quorum counts_of
  consume_quorum clock checkpoint signatures =
      let ks = collect_keys signatures (record { keys_b64 = []; historical_ids = [] }) in
      if not config.quorum_enabled
      then none
      else some (
          counts_of (
            evaluate_quorum clock record {
              cosignatures = signatures;
              checkpoint = checkpoint;
              trusted_witness_ids = config.quorum_trusted;
              witness_keys_b64 = ks.keys_b64;
              historical_witness_ids = some ks.historical_ids;
              min_witnesses = config.quorum_min_witnesses;
              max_age_secs = some config.quorum_max_age_seconds;
              max_clock_skew_secs = some config.quorum_max_clock_skew_seconds;
              now_ms = none;
            }))

-- The two members of a checkpoint's envelope, or a bare checkpoint.
unfoldable pub signatures_of : Option Json → List Json
signatures_of (some (arr vs)) = items vs
signatures_of _ = []

enveloped : Json → Option Json → Option Json → Json × List Json
unfolding signatures_of
enveloped raw (some checkpoint) (some signatures) = (checkpoint, signatures_of (some signatures))
enveloped raw _ _ = (raw, [])

unfoldable pub unwrap_checkpoint_envelope : Json → Json × List Json
unfolding enveloped
unwrap_checkpoint_envelope (obj fs) =
    enveloped (obj fs) (member "log_checkpoint" fs) (member "witness_signatures" fs)
unwrap_checkpoint_envelope raw = (raw, [])
