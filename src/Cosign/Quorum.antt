-- ===== src/Cosign/Quorum.antt =====
-- The quorum of witnesses of src/audit/cosign.ts, by the host: `hostEvaluateQuorum` and
-- `countHistoricalWitnesses`. A `Set` is the list of its members in insertion order.
pub mod Sets
pub mod Sound
pub mod Complete
use acdp_control_plane.Prelude.{
  ℕ, ◌+◌, ◌*◌, String, List, [], ◌∷◌, ◌++◌, Bool, true, false, ◌&&◌, ◌||◌, not, Option, none, some,
  ◌==◌, leb, str_eq, str_mem, length, if◌then◌else◌, Json, Number,
}
use acdp_control_plane.Prelude.OrderedMap.{lookup}
use acdp_control_plane.Log.Parse.{Parsed, parsed, refused, LogCheckpoint}
use acdp_control_plane.Cosign.{
  LogCosignature, WitnessedCheckpoint, CosignReason, in_the_future, CosignOutcome, ok, fail,
  CosignReply, parse_cosignature, cosignature_freshness_ok, cosignature_age_ok, verify_cosignature,
}

pub record QuorumInputs : Type 0 where
  pub cosignatures : List Json
  pub checkpoint : LogCheckpoint
  pub trusted_witness_ids : List String
  pub witness_keys_b64 : List (String × String)
  pub historical_witness_ids : Option (List String)
  pub min_witnesses : ℕ
  pub max_age_secs : Option (Option ℕ)
  pub max_clock_skew_secs : Option ℕ
  pub now_ms : Option ℕ

-- A failure that the report lists.
pub data QuorumFailure : Type 0 where
  not_parsed : CosignReason → QuorumFailure
  key_unresolved different_tuple : String → QuorumFailure
  not_counted : String → CosignReason → QuorumFailure

pub record QuorumReport : Type 0 where
  pub witnessed_count : ℕ
  pub meets_quorum : Bool
  pub verified_witness_ids : List String
  pub failures : List QuorumFailure
  pub fresh_witnessed_count : ℕ
  pub meets_fresh_quorum : Bool
  pub historical_witnessed_count : ℕ

-- The two sets and the failures of the loop.
pub record Tally : Type 0 where
  pub verified : List String
  pub fresh : List String
  pub failures : List QuorumFailure

-- `set.add(x)`
unfoldable pub add : String → List String → List String
add x set = if str_mem x set then set else set ++ x ∷ []

abbrev pub or_nat : Option ℕ → ℕ → ℕ
or_nat none d = d
or_nat (some n) d = n

abbrev pub or_set : Option (List String) → List String
or_set none = []
or_set (some ids) = ids

-- An absent limit on the age is 300 seconds, and `null` is no limit.
abbrev pub age_limit : Option (Option ℕ) → Option ℕ
age_limit none = some 300
age_limit (some limit) = limit

unfoldable pub same_tuple : WitnessedCheckpoint → LogCheckpoint → Bool
same_tuple wc checkpoint =
    str_eq wc.log_id checkpoint.log_id
    && wc.tree_size == checkpoint.tree_size
    && str_eq wc.root_hash checkpoint.root_hash

-- What the checks on one cosignature come to.
pub data Judged : Type 0 where
  counts : Judged
  fails : QuorumFailure → Judged

unfoldable pub outcome_judged : String → CosignOutcome → Judged
outcome_judged id ok = counts
outcome_judged id (fail r) = fails (not_counted id r)

module _ (date_parse : String → Number) (canonicalize : Json → Option (List ℕ))
    (sha256_hex : List ℕ → String) (verify_signature_b64 : String → String → String → Bool)
    (native : Option (LogCosignature → String → LogCheckpoint → CosignReply)) (clock : ℕ)
    (inp : QuorumInputs) where
  abbrev pub now : ℕ
  now = or_nat inp.now_ms clock

  abbrev pub skew_ms : ℕ
  skew_ms = or_nat inp.max_clock_skew_secs 120 * 1000

  abbrev pub historical_ids : List String
  historical_ids = or_set inp.historical_witness_ids

  -- The checks from the key on.
  unfoldable pub judge : LogCosignature → Judged
  unfolding outcome_judged
  judge c = elim (lookup c.witness_id inp.witness_keys_b64) [
    | none ↦ fails (key_unresolved c.witness_id)
    | some key ↦
        if not (same_tuple c.witnessed_checkpoint inp.checkpoint)
        then fails (different_tuple c.witness_id)
        else if not (cosignature_freshness_ok date_parse c now skew_ms)
        then fails (not_counted c.witness_id in_the_future)
        else outcome_judged c.witness_id (
            verify_cosignature canonicalize sha256_hex verify_signature_b64 native c key
              (some inp.checkpoint))
  ]

  unfoldable pub recorded : LogCosignature → Judged → Tally → Tally
  recorded c (fails f) t = record t { failures = t.failures ++ f ∷ [] }
  recorded c counts t = record t {
    verified = add c.witness_id t.verified;
    fresh =
        if cosignature_age_ok date_parse c now (age_limit inp.max_age_secs)
        then add c.witness_id t.fresh
        else t.fresh;
  }

  unfoldable pub considered : LogCosignature → Tally → Tally
  unfolding recorded
  considered c t =
      if not (str_mem c.witness_id inp.trusted_witness_ids)
        || str_mem c.witness_id historical_ids
        || str_mem c.witness_id t.verified
      then t
      else recorded c (judge c) t

  -- One round of the loop.
  unfoldable pub consider : Json → Tally → Tally
  unfolding considered
  consider raw t = elim (parse_cosignature date_parse raw) [
    | refused r ↦ record t { failures = t.failures ++ not_parsed r ∷ [] }
    | parsed c ↦ considered c t
  ]

  unfoldable pub consider_all : List Json → Tally → Tally
  unfolding consider
  consider_all [] t = t
  consider_all (raw ∷ raws) t = consider_all raws (consider raw t)

  counted_historical : LogCosignature → Judged → List String → List String
  counted_historical c (fails f) counted = counted
  counted_historical c counts counted = add c.witness_id counted

  -- One round of `countHistoricalWitnesses`, which makes the same checks.
  unfoldable pub historical_round : Json → List String → List String
  unfolding counted_historical
  historical_round raw counted = elim (parse_cosignature date_parse raw) [
    | refused r ↦ counted
    | parsed c ↦
        if not (str_mem c.witness_id historical_ids) || str_mem c.witness_id counted
        then counted
        else counted_historical c (judge c) counted
  ]

  unfoldable pub historical_all : List Json → List String → List String
  unfolding historical_round
  historical_all [] counted = counted
  historical_all (raw ∷ raws) counted = historical_all raws (historical_round raw counted)

  unfoldable pub count_historical_witnesses : ℕ
  unfolding historical_all
  count_historical_witnesses =
      if length historical_ids == 0 then 0 else length (historical_all inp.cosignatures [])

  unfoldable pub host_evaluate_quorum : QuorumReport
  unfolding consider_all count_historical_witnesses
  host_evaluate_quorum =
      let t = consider_all inp.cosignatures (record { verified = []; fresh = []; failures = [] }) in
      record {
        witnessed_count = length t.verified;
        meets_quorum = leb inp.min_witnesses (length t.verified);
        verified_witness_ids = t.verified;
        failures = t.failures;
        fresh_witnessed_count = length t.fresh;
        meets_fresh_quorum = leb inp.min_witnesses (length t.fresh);
        historical_witnessed_count = count_historical_witnesses;
      }
