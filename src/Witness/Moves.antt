-- ===== src/Witness/Moves.antt =====
-- What a pass does to the heads that the cursors hold: nothing, or it moves that of its own registry
-- to a signed head that fits the one before.
pub mod Cosigning
pub mod Passes
use Prim.Native.String
use acdp_control_plane.Prelude.{
  ℕ, ◌≡◌, ◌≤◌, ◌<◌, refl, sym, ◌∙◌, ap, ◌⊎◌, inl, inr, String, List, [], ◌∷◌, ◌++◌, Bool, true,
  false, ◌&&◌, ◌||◌, not, Option, none, some, arith, any, ◌==◌, ltb, str_eq, eq_iff, str_mem, leb,
  if◌then◌else◌, Bool-cases, Option-cases, ==→eq, Json, member,
}
use acdp_control_plane.Did.{authority_to_did_web}
use acdp_control_plane.Log.Parse.{
  LogCheckpoint, ConsistencyProof, Parsed, ProofReason, CheckpointReason, parsed, refused,
  parse_checkpoint, parse_consistency_proof,
}
use acdp_control_plane.Log.Proofs.{VerifyOutcome, Reason, ok, fail}
use acdp_control_plane.Log.Signature.{verify_checkpoint_signature}
use acdp_control_plane.Log.Verify.{checkpoint_timestamp_ok, verify_consistency}
use acdp_control_plane.Cosign.{
  LogCosignature, WitnessSigner, WitnessedCheckpoint, ts_mint_cosignature, mint_cosignature, hashed,
  cosignature_hash, unsigned,
}
use acdp_control_plane.Witness.Store.{
  WitnessAlertReason, Cursor, QuorumCounts, Cosigned, World, advance_cursor, mark_alert,
  mark_failure, put_cursor, same_key, same_cosignature, record_cosignature, row_or_new,
}
use acdp_control_plane.Witness.Quorum.{
  Host, WitnessConfig, unwrap_checkpoint_envelope, consume_quorum,
}
use acdp_control_plane.Witness.Pass.{
  WitnessOutcome, Reply, responded, threw, Answers, Anchor, anchor_of, record_failure, raise_alert,
  accept_head, cosign, minted, signed_by, refreshed, growth_reply, checkpoint_reply, at_url, caught,
  is_true, resolve_base_url, refuse_growth, judge_growth, shape_ok, proof_url, verify_growth,
  against, compare_head, bound_to, check_signed, check_bound, examine, witness_registry,
  guarded_pass, persist, errored_now,
}

abbrev pub anchors : World → String → String → Option Anchor
anchors w t a = anchor_of (w.cursors t a)

-- What the witness signs of a checkpoint.
abbrev pub tuple_of : LogCheckpoint → WitnessedCheckpoint
tuple_of c = record {
  log_id = c.log_id;
  tree_size = c.tree_size;
  root_hash = c.root_hash;
  timestamp = c.timestamp;
}

abbrev pub head_of : LogCheckpoint → Anchor
head_of c = record { log_id = c.log_id; size = c.tree_size; root = c.root_hash }

pub Outcome-cases : (v : VerifyOutcome) → (v ≡ ok) ⊎ ((r : Reason) × (v ≡ fail r))
Outcome-cases ok = inl refl
Outcome-cases (fail r) = inr (r, refl)

pub Parsed-cases :
    {R A : Type 0} (p : Parsed R A) → ((a : A) × (p ≡ parsed a)) ⊎ ((r : R) × (p ≡ refused r))
Parsed-cases (parsed a) = inl (a, refl)
Parsed-cases (refused r) = inr (r, refl)

pub same_head_lem :
    (p : Anchor) (c : LogCheckpoint)
    → str_eq c.log_id p.log_id ≡ true
    → (c.tree_size == p.size) ≡ true
    → str_eq c.root_hash p.root ≡ true
    → p ≡ head_of c
same_head_lem p c log size root =
    ground (arith, (eq_iff c.log_id p.log_id).0 log, (eq_iff c.root_hash p.root).0 root, size)

pub larger_lem :
    (c : LogCheckpoint) (p : Anchor)
    → ltb c.tree_size p.size ≡ false
    → (c.tree_size == p.size) ≡ false
    → p.size < c.tree_size
larger_lem c p h k = ground (arith, h, k)

-- The row that an upsert starts from holds the same head.
row_anchor : (c : Option Cursor) (now : ℕ) → anchor_of (some (row_or_new c now)) ≡ anchor_of c
row_anchor none now = refl
row_anchor (some c) now = refl

module _ (host : Host) where
  -- The cosignature is of the checkpoint, or the SDK's answer to a request to cosign it.
  abbrev pub Attests : LogCheckpoint → LogCosignature → Type 0
  Attests c x =
      (x.witnessed_checkpoint ≡ tuple_of c)
      ⊎ ((at_text : String) × (signer : WitnessSigner) × (host.native_mint (tuple_of c) at_text
              signer
            ≡ some x))

  abbrev pub Signed : LogCheckpoint → Type 0
  Signed c = (key : String) × (verify_checkpoint_signature host.crypto c key ≡ ok)

  -- A proof from the one head to the other, of exactly their sizes, that is accepted.
  abbrev pub Grows : Anchor → LogCheckpoint → Type 0
  Grows p c =
      (proof : ConsistencyProof) × (proof.first_tree_size ≡ p.size)
      × (proof.second_tree_size ≡ c.tree_size)
      × (verify_consistency host.sha256 host.crypto.canonicalize host.surface proof c p.root ≡ ok)

  -- A first head, the same head, or one that the last one grows to.
  abbrev pub Fits : Option Anchor → LogCheckpoint → Type 0
  Fits none c = Unit
  Fits (some p) c = (p ≡ head_of c) ⊎ ((p.log_id ≡ c.log_id) × (p.size < c.tree_size) × Grows p c)

  -- One head after another: the same, or that of a signed checkpoint that fits it.
  abbrev pub Follows : Option Anchor → Option Anchor → Type 0
  Follows before after =
      (after ≡ before)
      ⊎ ((c : LogCheckpoint) × Signed c × Fits before c × (after ≡ some (head_of c)))

module _ (host : Host) (config : WitnessConfig) (world : Answers) (tenant authority : String) where
  -- Every registry keeps its head, and nothing is cosigned.
  abbrev pub Kept : World → World → Type 0
  Kept w w' = ((t a : String) → anchors w' t a ≡ anchors w t a) × (w'.cosigned ≡ w.cosigned)

  -- At most one cosignature is added, of this registry, and it is of the checkpoint.
  abbrev pub Cosigns : LogCheckpoint → World → World → Type 0
  Cosigns c w w' =
      (w'.cosigned ≡ w.cosigned)
      ⊎ ((row : Cosigned) × (w'.cosigned ≡ w.cosigned ++ row ∷ [])
          × (row.tenant_id ≡ tenant)
          × (row.registry_authority ≡ authority)
          × Attests host c row.cosignature)

  -- The registry of the pass has the head, and every other keeps its own.
  abbrev pub Advanced : LogCheckpoint → World → World → Type 0
  Advanced c w w' =
      (t a : String)
      → anchors w' t a ≡ (if same_key tenant authority t a then some (head_of c) else anchors w t a)

  abbrev pub Moves : World → World → Type 0
  Moves w w' =
      Kept w w'
      ⊎ ((c : LogCheckpoint) × Signed host c
          × Fits host (anchors w tenant authority) c
          × Advanced c w w'
          × Cosigns c w w')

  pub failure-Kept : (w : World) → Kept w (record_failure host config world tenant authority w)
  unfolding record_failure mark_failure put_cursor
  failure-Kept w = (λ t a. ground (arith, eq_iff tenant t, eq_iff authority a), ground arith)

  pub alert-Kept :
      (reason : WitnessAlertReason) (log_id : Option String) (w : World)
      → Kept w (raise_alert host config world tenant authority reason log_id w).1
  unfolding raise_alert mark_alert put_cursor
  alert-Kept reason log_id w = elim (Bool-cases world.faults.alert_write) [
    | inl throws ↦ simp (throws, raise_alert) (λ t a. refl, refl)
    | inr fine ↦
        simp (fine, raise_alert)
          (
            λ t a.
                ground (
                  arith,
                  eq_iff tenant t,
                  eq_iff authority a,
                  row_anchor (w.cursors t a) world.now,
                ),
            refl,
          )
  ]

  pub refuse-Kept :
      (c : LogCheckpoint) (w : World)
      → Kept w (refuse_growth host config world tenant authority c w).1
  unfolding refuse_growth
  refuse-Kept c w = alert-Kept _ _ _

  pub shape_sizes :
      (p : Anchor) (c : LogCheckpoint) (proof : ConsistencyProof)
      → shape_ok host config world tenant authority p c proof ≡ true
      → (proof.first_tree_size ≡ p.size) × (proof.second_tree_size ≡ c.tree_size)
  unfolding shape_ok
  shape_sizes p c proof h = ground (arith, h)
