-- ===== src/Witness/Moves/Passes.antt =====
-- What each branch of a pass does to the heads, up to the whole pass.
use Prim.Native.String
use acdp_control_plane.Prelude.{
  ◌≡◌, ◌<◌, refl, sym, ◌∙◌, inl, inr, String, List, true, ◌||◌, Option, none, some, ◌==◌, ltb,
  str_eq, eq_iff, str_mem, leb, Bool-cases, Option-cases, Json,
}
use acdp_control_plane.Did.{authority_to_did_web}
use acdp_control_plane.Log.Parse.{
  LogCheckpoint, ConsistencyProof, Parsed, ProofReason, parsed, refused, parse_checkpoint,
  parse_consistency_proof,
}
use acdp_control_plane.Log.Signature.{verify_checkpoint_signature}
use acdp_control_plane.Log.Verify.{checkpoint_timestamp_ok, verify_consistency}
use acdp_control_plane.Witness.Store.{QuorumCounts, World}
use acdp_control_plane.Witness.Quorum.{Host, WitnessConfig, consume_quorum}
use acdp_control_plane.Witness.Pass.{
  WitnessOutcome, Reply, responded, threw, Answers, Anchor, record_failure, refreshed, growth_reply,
  checkpoint_reply, at_url, caught, is_true, resolve_base_url, judge_growth, shape_ok, proof_url,
  verify_growth, against, compare_head, bound_to, check_signed, check_bound, examine,
  witness_registry, guarded_pass, persist, errored_now,
}
use acdp_control_plane.Witness.Moves.{
  anchors, Outcome-cases, Parsed-cases, same_head_lem, larger_lem, Signed, Fits, Moves,
  failure-Kept, alert-Kept, refuse-Kept, shape_sizes,
}
use acdp_control_plane.Witness.Moves.Cosigning.{accept-Moves}

module _ (host : Host) (config : WitnessConfig) (world : Answers) (tenant authority : String) where
  judge-Moves :
      (p : Anchor) (c : LogCheckpoint) (quorum : Option QuorumCounts)
      (v : Parsed ProofReason ConsistencyProof) (w : World)
      → anchors w tenant authority ≡ some p
      → p.log_id ≡ c.log_id
      → p.size < c.tree_size
      → Signed host c
      → Moves host config world tenant authority w
          (judge_growth host config world tenant authority p c quorum v w).1
  unfolding judge_growth
  judge-Moves p c quorum (refused r) w e log larger signed =
      inl (refuse-Kept host config world tenant authority c w)
  judge-Moves p c quorum (parsed proof) w e log larger signed =
      elim (Bool-cases (shape_ok host config world tenant authority p c proof)) [
        | inr bad ↦
            rw (bad, judge_growth) (inl (refuse-Kept host config world tenant authority c w))
        | inl good ↦
            elim (Outcome-cases (
              verify_consistency host.sha256 host.crypto.canonicalize host.surface proof c
                p.root)) [
                  | inr (r, bad) ↦
                      rw (good, bad, judge_growth)
                        (inl (refuse-Kept host config world tenant authority c w))
                  | inl accepted ↦
                      let (first, second) =
                        shape_sizes host config world tenant authority p c proof good in
                      let fits : Fits host (some p) c =
                        inr (log, larger, (proof, first, second, accepted)) in
                      rw (good, accepted, judge_growth)
                        (accept-Moves host config world tenant authority c w
                          (persist host config world tenant authority c true (some true) quorum w)
                          refl refl signed (rw e fits))
                ]
      ]

  errored-Moves :
      (w : World)
      → Moves host config world tenant authority w
          (errored_now host config world tenant authority w).1
  errored-Moves w = inl (failure-Kept host config world tenant authority w)

  reply-Moves :
      (p : Anchor) (c : LogCheckpoint) (quorum : Option QuorumCounts) (r : Reply) (w : World)
      → anchors w tenant authority ≡ some p
      → p.log_id ≡ c.log_id
      → p.size < c.tree_size
      → Signed host c
      → Moves host config world tenant authority w
          (growth_reply host config world tenant authority p c quorum r w).1
  unfolding growth_reply
  reply-Moves p c quorum threw w e log larger signed = errored-Moves w
  reply-Moves p c quorum (responded code body) w e log larger signed =
      elim (Bool-cases (ltb code 200 || leb 300 code)) [
        | inl out ↦
            rw (out, growth_reply) (inl (refuse-Kept host config world tenant authority c w))
        | inr fine ↦ elim (Option-cases (host.parse_json body)) [
          | inl bad ↦ rw (fine, bad, growth_reply) (errored-Moves w)
          | inr (raw, good) ↦
              rw (fine, good, growth_reply)
                (judge-Moves p c quorum (parse_consistency_proof raw) w e log larger signed)
        ]
      ]

  refreshed_cursors :
      (c : LogCheckpoint) (quorum : Option QuorumCounts) (w : World)
      → (refreshed host config world tenant authority c quorum w).cursors ≡ w.cursors
  unfolding refreshed
  refreshed_cursors c none w = refl
  refreshed_cursors c (some counts) w = refl

  refreshed_cosigned :
      (c : LogCheckpoint) (quorum : Option QuorumCounts) (w : World)
      → (refreshed host config world tenant authority c quorum w).cosigned ≡ w.cosigned
  unfolding refreshed
  refreshed_cosigned c none w = refl
  refreshed_cosigned c (some counts) w = refl

  against-Moves :
      (base : String) (c : LogCheckpoint) (quorum : Option QuorumCounts) (p : Anchor) (w : World)
      → anchors w tenant authority ≡ some p
      → Signed host c
      → Moves host config world tenant authority w
          (against host config world tenant authority base c quorum p w).1
  unfolding against
  against-Moves base c quorum p w e signed = elim (Bool-cases (str_eq c.log_id p.log_id)) [
    | inr other ↦ rw (other, against) (inl (alert-Kept host config world tenant authority _ _ _))
    | inl log ↦ elim (Bool-cases (ltb c.tree_size p.size)) [
      | inl smaller ↦
          rw (log, smaller, against) (inl (alert-Kept host config world tenant authority _ _ _))
      | inr enough ↦ elim (Bool-cases (c.tree_size == p.size)) [
        | inr grown ↦
            rw (log, enough, grown, against, verify_growth)
              (reply-Moves p c quorum
                (world.get (proof_url host config world tenant authority base p.size c.tree_size)) w
                e (sym ((eq_iff c.log_id p.log_id).0 log)) (larger_lem c p enough grown) signed)
        | inl equal ↦ elim (Bool-cases (str_eq c.root_hash p.root)) [
          | inr split ↦
              rw (log, enough, equal, split, against)
                (inl (alert-Kept host config world tenant authority _ _ _))
          | inl root ↦
              let fits : Fits host (some p) c = inl (same_head_lem p c log equal root) in
              rw (log, enough, equal, root, against)
                (accept-Moves host config world tenant authority c w
                  (refreshed host config world tenant authority c quorum w)
                  (refreshed_cursors c quorum w) (refreshed_cosigned c quorum w) signed (rw e fits))
        ]
      ]
    ]
  ]

  compare-Moves :
      (base : String) (c : LogCheckpoint) (quorum : Option QuorumCounts) (prior : Option Anchor)
      (w : World)
      → anchors w tenant authority ≡ prior
      → Signed host c
      → Moves host config world tenant authority w
          (compare_head host config world tenant authority base c quorum prior w).1
  unfolding compare_head
  compare-Moves base c quorum none w e signed =
      accept-Moves host config world tenant authority c w
        (persist host config world tenant authority c true none quorum w) refl refl signed (rw e tt)
  compare-Moves base c quorum (some p) w e signed = against-Moves base c quorum p w e signed

  signed-Moves :
      (base : String) (c : LogCheckpoint) (signatures : List Json) (key : String) (w : World)
      → Moves host config world tenant authority w
          (check_signed host config world tenant authority base c signatures key w).1
  unfolding check_signed
  signed-Moves base c signatures key w =
      elim (Outcome-cases (verify_checkpoint_signature host.crypto c key)) [
        | inr (r, bad) ↦
            rw (bad, check_signed) (inl (alert-Kept host config world tenant authority _ _ _))
        | inl good ↦ elim (Bool-cases world.faults.read_cursor) [
          | inl throws ↦ rw (good, throws, check_signed) (inl (λ t a. refl, refl))
          | inr fine ↦
              simp (good, fine, check_signed)
                (compare-Moves base c
                  (consume_quorum host config world.resolve_witness_key world.now c signatures)
                  (anchors w tenant authority) w refl (key, good))
        ]
      ]

  bound-Moves :
      (base : String) (c : LogCheckpoint) (signatures : List Json) (w : World)
      → Moves host config world tenant authority w
          (check_bound host config world tenant authority base c signatures w).1
  unfolding check_bound
  bound-Moves base c signatures w = elim (Option-cases (authority_to_did_web authority)) [
    | inl none_ ↦ rw (none_, check_bound) (errored-Moves w)
    | inr (did, e) ↦ elim (Bool-cases (bound_to host config world tenant authority c did)) [
      | inr other ↦
          rw (e, other, check_bound) (inl (alert-Kept host config world tenant authority _ _ _))
      | inl ours ↦
          elim (Bool-cases (checkpoint_timestamp_ok (host.date_parse c.timestamp) world.now)) [
            | inr future ↦
                rw (e, ours, future, check_bound)
                  (inl (alert-Kept host config world tenant authority _ _ _))
            | inl timely ↦ elim (Option-cases (world.resolve_receipt_key c.signature.key_id)) [
              | inl lost ↦ rw (e, ours, timely, lost, check_bound) (errored-Moves w)
              | inr (key, k) ↦
                  rw (e, ours, timely, k, check_bound) (signed-Moves base c signatures key w)
            ]
          ]
    ]
  ]

  examine-Moves :
      (base : String) (raw : Json) (signatures : List Json) (w : World)
      → Moves host config world tenant authority w
          (examine host config world tenant authority base raw signatures w).1
  unfolding examine
  examine-Moves base raw signatures w = elim (Parsed-cases (parse_checkpoint host.date_parse raw)) [
    | inr (r, bad) ↦ rw (bad, examine) (inl (alert-Kept host config world tenant authority _ _ _))
    | inl (c, good) ↦ rw (good, examine) (bound-Moves base c signatures w)
  ]

  checkpoint_reply-Moves :
      (base : String) (r : Reply) (w : World)
      → Moves host config world tenant authority w
          (checkpoint_reply host config world tenant authority base r w).1
  unfolding checkpoint_reply
  checkpoint_reply-Moves base threw w = errored-Moves w
  checkpoint_reply-Moves base (responded code body) w =
      elim (Bool-cases (ltb code 200 || leb 300 code)) [
        | inl out ↦ rw (out, checkpoint_reply) (errored-Moves w)
        | inr fine ↦ elim (Option-cases (host.parse_json body)) [
          | inl bad ↦ rw (fine, bad, checkpoint_reply) (errored-Moves w)
          | inr (raw, good) ↦ rw (fine, good, checkpoint_reply) (examine-Moves base _ _ w)
        ]
      ]

  at_url-Moves :
      (base : Option String) (w : World)
      → Moves host config world tenant authority w
          (at_url host config world tenant authority base w).1
  unfolding at_url
  at_url-Moves none w = errored-Moves w
  at_url-Moves (some base) w = elim (Bool-cases (str_eq base "")) [
    | inl blank ↦ rw (blank, at_url) (errored-Moves w)
    | inr fine ↦
        rw (fine, at_url)
          (checkpoint_reply-Moves base (world.get (String.◌++◌ base "/log/checkpoint")) w)
  ]

  registry-Moves :
      (enrolled : Option String) (w : World)
      → Moves host config world tenant authority w
          (witness_registry host config world tenant authority enrolled w).1
  unfolding witness_registry
  registry-Moves enrolled w = elim (Bool-cases (str_mem authority config.exclude_authorities)) [
    | inl out ↦ rw (out, witness_registry) (inl (λ t a. refl, refl))
    | inr watched ↦ elim (Bool-cases world.faults.profile_read) [
      | inl throws ↦ rw (watched, throws, witness_registry) (inl (λ t a. refl, refl))
      | inr fine ↦ elim (Bool-cases (is_true world.advertises)) [
        | inr silent ↦ simp (watched, fine, silent, witness_registry) (inl (λ t a. refl, refl))
        | inl advertised ↦
            simp (watched, fine, advertised, witness_registry)
              (at_url-Moves (resolve_base_url host config world tenant authority enrolled) w)
      ]
    ]
  ]

  then_failure :
      (w w' : World)
      → Moves host config world tenant authority w w'
      → Moves host config world tenant authority w
          (record_failure host config world tenant authority w')
  then_failure w w' (inl (kept, rows)) = inl (
    λ t a. (failure-Kept host config world tenant authority w').0 t a ∙ kept t a,
    (failure-Kept host config world tenant authority w').1 ∙ rows,
  )
  then_failure w w' (inr (c, signed, fits, advanced, inl rows)) = inr (
    c,
    signed,
    fits,
    λ t a. (failure-Kept host config world tenant authority w').0 t a ∙ advanced t a,
    inl ((failure-Kept host config world tenant authority w').1 ∙ rows),
  )
  then_failure w w' (inr (c, signed, fits, advanced, inr (row, rows, t, a, of_row))) = inr (
    c,
    signed,
    fits,
    λ t a. (failure-Kept host config world tenant authority w').0 t a ∙ advanced t a,
    inr (row, (failure-Kept host config world tenant authority w').1 ∙ rows, t, a, of_row),
  )

  caught-Moves :
      (w : World) (r : Option WitnessOutcome × World)
      → Moves host config world tenant authority w r.1
      → Moves host config world tenant authority w (caught host config world tenant authority r).1
  unfolding caught
  caught-Moves w (some o, w') h = h
  caught-Moves w (none, w') h = then_failure w w' h

  -- A pass keeps every head and cosigns nothing, or it moves that of its own registry to a signed checkpoint: the first one,
  -- the same head again, or a larger one of the same log to which an accepted proof of consistency
  -- leads. It then adds at most one cosignature, of its own registry, and of that checkpoint or as the
  -- SDK answers for it.
  pub pass-Moves :
      (enrolled : Option String) (w : World)
      → Moves host config world tenant authority w
          (guarded_pass host config world tenant authority enrolled w).1
  unfolding guarded_pass
  pass-Moves enrolled w = caught-Moves w _ (registry-Moves enrolled w)
