-- ===== src/Witness/Pass.antt =====
-- One pass of src/audit/checkpoint-witness.service.ts over one registry (`witnessRegistry`,
-- `verifyGrowth`), and the sweep. What the world answers to a pass is a record. A database call may
-- throw: a call inside a `…Safe` method is swallowed, any other ends the pass.
use Prim.Native.String
use acdp_control_plane.Prelude.{
  ℕ, String, List, [], ◌∷◌, ◌++◌, Bool, true, false, ◌&&◌, ◌||◌, not, Option, none, some, ◌==◌, ltb,
  leb, str_eq, str_mem, any, if◌then◌else◌, Json, member,
}
use acdp_control_plane.Did.{authority_to_did_web}
use acdp_control_plane.Log.Parse.{
  LogCheckpoint, ConsistencyProof, Parsed, ProofReason, parsed, refused, parse_checkpoint,
  parse_consistency_proof,
}
use acdp_control_plane.Log.Proofs.{ok, fail}
use acdp_control_plane.Log.Signature.{log_id_registry_did, verify_checkpoint_signature}
use acdp_control_plane.Log.Verify.{checkpoint_timestamp_ok, verify_consistency}
use acdp_control_plane.Cosign.{LogCosignature, WitnessSigner, mint_cosignature}
use acdp_control_plane.Audit.Revocation.{str_of, fields_of}
use acdp_control_plane.Audit.Lineage.{without_slash}
use acdp_control_plane.Witness.Store.{
  WitnessAlertReason, checkpoint_invalid, checkpoint_signature_invalid, tree_size_regression,
  root_mismatch, consistency_failed, log_id_changed, Cursor, QuorumCounts, HeadRow, Published,
  Cosigned, World, advance_cursor, was_alerted, previous_reason, is_reason, mark_alert,
  mark_failure, same_head, record_checkpoint, update_quorum, record_cosignature,
}
use acdp_control_plane.Witness.Quorum.{
  Host, WitnessConfig, WitnessKey, consume_quorum, unwrap_checkpoint_envelope,
}

-- `WitnessOutcome.status`, with the reason of an alert.
pub data WitnessOutcome : Type 0 where
  witnessed skipped errored : WitnessOutcome
  alert : WitnessAlertReason → WitnessOutcome

pub data Reply : Type 0 where
  responded : ℕ → String → Reply
  threw : Reply

-- Which calls of the database throw; `profile_read` is that for the capabilities.
pub record Faults : Type 0 where
  pub profile_read : Bool
  pub read_cursor : Bool
  pub advance : Bool
  pub alert_write : Bool
  pub failure_write : Bool
  pub checkpoint_write : Bool
  pub cosignature_write : Bool

pub record Answers : Type 0 where
  pub now : ℕ
  pub now_text : String
  pub advertises : Option Bool
  pub known_base_url : Option String
  pub get : String → Reply
  pub resolve_receipt_key : String → Option String
  pub resolve_witness_key : String → Option WitnessKey
  pub faults : Faults

pub record RegistryEnrollment : Type 0 where
  pub tenant_id : String
  pub authority : String
  pub base_url : Option String

-- The head that the cursor holds.
pub record Anchor : Type 0 where
  pub log_id : String
  pub size : ℕ
  pub root : String

abbrev anchor_from : Option String → Option ℕ → Option String → Option Anchor
anchor_from (some log_id) (some size) (some root) =
    some (record { log_id = log_id; size = size; root = root })
anchor_from _ _ _ = none

-- `prior`
abbrev pub anchor_of : Option Cursor → Option Anchor
anchor_of none = none
anchor_of (some c) = anchor_from c.log_id c.last_witnessed_size c.last_root_hash

abbrev pub is_true : Option Bool → Bool
is_true (some true) = true
is_true _ = false

-- `baseUrl` where it is a text and not empty.
abbrev pub truthy_url : Option String → Option String
truthy_url none = none
truthy_url (some url) = if str_eq url "" then none else some (without_slash url)

-- `logId` where it is not empty.
abbrev named : Option String → Option String
named none = none
named (some s) = if str_eq s "" then none else some s

abbrev out_of_range : ℕ → Bool
out_of_range n = ltb n 200 || leb 300 n

module _ (host : Host) (config : WitnessConfig) (world : Answers) (tenant authority : String) where
  -- `recordFailureSafe`
  unfoldable pub record_failure : World → World
  record_failure w =
      if world.faults.failure_write then w else mark_failure tenant authority world.now w

  abbrev row_for : LogCheckpoint → Bool → Option Bool → Option QuorumCounts → HeadRow
  row_for checkpoint valid consistent quorum = record {
    tenant_id = tenant;
    registry_authority = authority;
    raw_checkpoint = checkpoint;
    signature_valid = valid;
    consistency_ok = consistent;
    quorum = quorum;
  }

  -- The rows after `persistCheckpointSafe`: a head that is there has its quorum refreshed.
  unfoldable pub persisted : HeadRow → List HeadRow → List HeadRow
  persisted row rows =
      if world.faults.checkpoint_write
      then rows
      else if any (same_head tenant row.raw_checkpoint) rows
      then (elim row.quorum [
        | none ↦ rows
        | some counts ↦ update_quorum tenant row.raw_checkpoint counts rows
      ])
      else record_checkpoint row rows

  abbrev pub persist : LogCheckpoint → Bool → Option Bool → Option QuorumCounts → World → World
  persist checkpoint valid consistent quorum w = record w {
    checkpoints = persisted (row_for checkpoint valid consistent quorum) w.checkpoints;
  }

  -- `raiseAlert`: an alert is published when the registry was not alerted for that reason before.
  unfoldable pub raise_alert :
      WitnessAlertReason → Option String → World → Option WitnessOutcome × World
  raise_alert reason log_id w =
      let before = w.cursors tenant authority in
      let transition =
        not (was_alerted before) || not (is_reason reason (previous_reason before)) in
      let event : Published = record {
        tenant_id = tenant;
        registry_authority = authority;
        reason = reason;
        log_id = named log_id;
      } in
      if world.faults.alert_write then (none, w) else (
        some (alert reason),
        record (mark_alert tenant authority reason world.now w) {
          published = if transition then w.published ++ event ∷ [] else w.published;
        },
      )

  unfoldable pub minted : Option (LogCosignature × String) → World → World
  minted none w = w
  minted (some (c, hash)) w = if world.faults.cosignature_write then w else record w {
    cosigned =
        let row : Cosigned = record {
          tenant_id = tenant;
          registry_authority = authority;
          cosignature = c;
        } in
        record_cosignature row w.cosigned;
  }

  unfoldable pub signed_by : Option WitnessSigner → LogCheckpoint → World → World
  unfolding minted
  signed_by none checkpoint w = w
  signed_by (some signer) checkpoint w =
      minted
        (mint_cosignature host.crypto.canonicalize host.crypto.sha256_hex
          host.crypto.verify_signature_b64 host.native_mint
          (record {
            log_id = checkpoint.log_id;
            tree_size = checkpoint.tree_size;
            root_hash = checkpoint.root_hash;
            timestamp = checkpoint.timestamp;
          })
          world.now_text signer)
        w

  -- `cosignSafe`
  unfoldable pub cosign : LogCheckpoint → World → World
  unfolding signed_by
  cosign checkpoint w = signed_by config.signer checkpoint w

  -- The end of a pass that accepts a head.
  unfoldable pub accept_head : LogCheckpoint → World → Option WitnessOutcome × World
  accept_head checkpoint w = if world.faults.advance then (none, w) else (
    some witnessed,
    cosign checkpoint (advance_cursor tenant authority checkpoint world.now w),
  )

  abbrev pub errored_now : World → Option WitnessOutcome × World
  errored_now w = (some errored, record_failure w)

  -- The three tests on a parsed proof before the fold.
  unfoldable pub shape_ok : Anchor → LogCheckpoint → ConsistencyProof → Bool
  shape_ok prior checkpoint proof =
      str_eq proof.log_id checkpoint.log_id
      && proof.first_tree_size == prior.size
      && proof.second_tree_size == checkpoint.tree_size

  unfoldable pub refuse_growth : LogCheckpoint → World → Option WitnessOutcome × World
  refuse_growth checkpoint w =
      raise_alert consistency_failed (some checkpoint.log_id)
        (persist checkpoint true (some false) none w)

  -- The fold and what follows it.
  unfoldable pub judge_growth :
      Anchor
      → LogCheckpoint
      → Option QuorumCounts
      → Parsed ProofReason ConsistencyProof
      → World
      → Option WitnessOutcome × World
  judge_growth prior checkpoint quorum (refused r) w = refuse_growth checkpoint w
  judge_growth prior checkpoint quorum (parsed proof) w =
      if not (shape_ok prior checkpoint proof)
      then refuse_growth checkpoint w
      else elim (verify_consistency host.sha256 host.crypto.canonicalize host.surface proof
          checkpoint prior.root) [
            | fail r ↦ refuse_growth checkpoint w
            | ok ↦ accept_head checkpoint (persist checkpoint true (some true) quorum w)
          ]

  unfoldable pub proof_url : String → ℕ → ℕ → String
  proof_url base first second = String.◌++◌ base (
      String.◌++◌ "/log/proof?first="
        (String.◌++◌ (host.decimal first) (String.◌++◌ "&second=" (host.decimal second))))

  unfoldable pub growth_reply :
      Anchor → LogCheckpoint → Option QuorumCounts → Reply → World → Option WitnessOutcome × World
  growth_reply prior checkpoint quorum threw w = errored_now w
  growth_reply prior checkpoint quorum (responded code body) w =
      if out_of_range code then refuse_growth checkpoint w else elim (host.parse_json body) [
        | none ↦ errored_now w
        | some raw ↦ judge_growth prior checkpoint quorum (parse_consistency_proof raw) w
      ]

  unfoldable pub verify_growth :
      String → Anchor → LogCheckpoint → Option QuorumCounts → World → Option WitnessOutcome × World
  unfolding growth_reply proof_url
  verify_growth base prior checkpoint quorum w =
      growth_reply prior checkpoint quorum
        (world.get (proof_url base prior.size checkpoint.tree_size)) w

  -- The head at an unchanged size: its row is refreshed if a quorum was evaluated.
  unfoldable pub refreshed : LogCheckpoint → Option QuorumCounts → World → World
  refreshed checkpoint none w = w
  refreshed checkpoint (some counts) w = persist checkpoint true none (some counts) w

  unfoldable pub against :
      String → LogCheckpoint → Option QuorumCounts → Anchor → World → Option WitnessOutcome × World
  unfolding verify_growth refreshed
  against base checkpoint quorum prior w =
      if not (str_eq checkpoint.log_id prior.log_id)
      then raise_alert log_id_changed (some checkpoint.log_id) (persist checkpoint true none none w)
      else if ltb checkpoint.tree_size prior.size
      then raise_alert tree_size_regression (some checkpoint.log_id)
          (persist checkpoint true (some false) none w)
      else if checkpoint.tree_size == prior.size
      then (if not (str_eq checkpoint.root_hash prior.root)
          then raise_alert root_mismatch (some checkpoint.log_id)
              (persist checkpoint true (some false) none w)
          else accept_head checkpoint (refreshed checkpoint quorum w))
      else verify_growth base prior checkpoint quorum w

  unfoldable pub compare_head :
      String
      → LogCheckpoint
      → Option QuorumCounts
      → Option Anchor
      → World
      → Option WitnessOutcome × World
  unfolding against
  compare_head base checkpoint quorum none w =
      accept_head checkpoint (persist checkpoint true none quorum w)
  compare_head base checkpoint quorum (some prior) w = against base checkpoint quorum prior w

  -- `checkRegistryBinding`
  unfoldable pub bound_to : LogCheckpoint → String → Bool
  bound_to checkpoint did =
      elim (log_id_registry_did checkpoint.log_id) [ none ↦ false | some owner ↦ str_eq owner did ]
      && str_eq (host.strip_fragment checkpoint.signature.key_id) did

  -- From the resolved key on.
  unfoldable pub check_signed :
      String → LogCheckpoint → List Json → String → World → Option WitnessOutcome × World
  unfolding compare_head
  check_signed base checkpoint signatures key w =
      elim (verify_checkpoint_signature host.crypto checkpoint key) [
        | fail r ↦
            raise_alert checkpoint_signature_invalid (some checkpoint.log_id)
              (persist checkpoint false none none w)
        | ok ↦
            if world.faults.read_cursor
            then (none, w)
            else compare_head base checkpoint
                (consume_quorum host config world.resolve_witness_key world.now checkpoint
                  signatures)
                (anchor_of (w.cursors tenant authority)) w
      ]

  unfoldable pub check_bound :
      String → LogCheckpoint → List Json → World → Option WitnessOutcome × World
  unfolding check_signed
  check_bound base checkpoint signatures w = elim (authority_to_did_web authority) [
    | none ↦ errored_now w
    | some did ↦
        if not (bound_to checkpoint did)
        then raise_alert checkpoint_invalid (some checkpoint.log_id) w
        else if not (checkpoint_timestamp_ok (host.date_parse checkpoint.timestamp) world.now)
        then raise_alert checkpoint_invalid (some checkpoint.log_id) w
        else elim (world.resolve_receipt_key checkpoint.signature.key_id) [
          | none ↦ errored_now w
          | some key ↦ check_signed base checkpoint signatures key w
        ]
  ]

  unfoldable pub examine : String → Json → List Json → World → Option WitnessOutcome × World
  unfolding check_bound
  examine base raw signatures w = elim (parse_checkpoint host.date_parse raw) [
    | refused r ↦ raise_alert checkpoint_invalid (str_of (member "log_id" (fields_of raw))) w
    | parsed checkpoint ↦ check_bound base checkpoint signatures w
  ]

  unfoldable pub checkpoint_reply : String → Reply → World → Option WitnessOutcome × World
  unfolding examine
  checkpoint_reply base threw w = errored_now w
  checkpoint_reply base (responded code body) w =
      if out_of_range code then errored_now w else elim (host.parse_json body) [
        | none ↦ errored_now w
        | some raw ↦
            examine base (unwrap_checkpoint_envelope raw).0 (unwrap_checkpoint_envelope raw).1 w
      ]

  -- `resolveBaseUrl`
  unfoldable pub resolve_base_url : Option String → Option String
  resolve_base_url enrolled = elim (truthy_url enrolled) [
    | some url ↦ some url
    | none ↦ truthy_url world.known_base_url
  ]

  unfoldable pub at_url : Option String → World → Option WitnessOutcome × World
  unfolding checkpoint_reply
  at_url none w = errored_now w
  at_url (some base) w =
      if str_eq base ""
      then errored_now w
      else checkpoint_reply base (world.get (String.◌++◌ base "/log/checkpoint")) w

  unfoldable pub witness_registry : Option String → World → Option WitnessOutcome × World
  unfolding at_url resolve_base_url
  witness_registry enrolled w =
      if str_mem authority config.exclude_authorities
      then (some skipped, w)
      else if world.faults.profile_read
      then (none, w)
      else if not (is_true world.advertises)
      then (some skipped, w)
      else at_url (resolve_base_url enrolled) w

  unfoldable pub caught : Option WitnessOutcome × World → WitnessOutcome × World
  unfolding record_failure
  caught (some o, w) = (o, w)
  caught (none, w) = (errored, record_failure w)

  -- The body of the sweep's loop.
  unfoldable pub guarded_pass : Option String → World → WitnessOutcome × World
  unfolding witness_registry caught
  guarded_pass enrolled w = caught (witness_registry enrolled w)

module _ (host : Host) (config : WitnessConfig) where
  unfoldable pub sweep_all :
      List (RegistryEnrollment × Answers) → World → List WitnessOutcome × World
  sweep_all [] w = ([], w)
  sweep_all ((e, answers) ∷ rest) w =
      let first = guarded_pass host config answers e.tenant_id e.authority e.base_url w in
      let others = sweep_all rest first.1 in (first.0 ∷ others.0, others.1)

  -- `sweep`: nothing without the advisory lock, so that passes do not overlap.
  unfoldable pub sweep :
      Bool → List (RegistryEnrollment × Answers) → World → List WitnessOutcome × World
  unfolding sweep_all
  sweep acquired enrollments w = if acquired then sweep_all enrollments w else ([], w)
