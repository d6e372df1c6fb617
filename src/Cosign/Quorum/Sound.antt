-- ===== src/Cosign/Quorum/Sound.antt =====
-- Who counts towards a quorum.
use acdp_control_plane.Prelude.{
  ℕ, ◌≡◌, refl, ◌⊎◌, inl, inr, String, List, [], ◌∷◌, Bool, true, false, ◌||◌, not, Option, str_mem,
  length, leb, Bool-cases, Option-cases, Json, Number, some, arith,
}
use acdp_control_plane.Prelude.OrderedMap.{lookup}
use acdp_control_plane.Log.Parse.{Parsed, parsed, refused, LogCheckpoint}
use acdp_control_plane.Cosign.{
  LogCosignature, CosignReason, cosignature_age_ok, cosignature_freshness_ok, verify_cosignature,
  ok, CosignReply, parse_cosignature,
}
use acdp_control_plane.Cosign.Quorum.{
  QuorumInputs, QuorumFailure, Tally, add, or_set, now, age_limit, skew_ms, same_tuple,
  outcome_judged, Judged, counts, fails, judge, recorded, considered, consider, consider_all,
  host_evaluate_quorum,
}
use acdp_control_plane.Cosign.Quorum.Sets.{
  Distinct, Each, mem-add, mem-add_self, add-Distinct, add-Each,
}

abbrev pub In : Json → List Json → Type 0
In raw [] = ⊥
In raw (r ∷ rs) = (r ≡ raw) ⊎ In raw rs

-- The verified ones are distinct and have a property, and the fresh ones are among them.
pub record IsTally (Q : String → Type 0) (t : Tally) : Type 0 where
  pub distinct : Distinct t.verified
  pub each : Each Q t.verified
  pub fresh : Each (λ id. str_mem id t.verified ≡ true) t.fresh

wider_Each :
    (x : String) (set ids : List String)
    → Each (λ id. str_mem id set ≡ true) ids
    → Each (λ id. str_mem id (add x set) ≡ true) ids
wider_Each x set [] h = tt
wider_Each x set (y ∷ ids) (h, hs) = (mem-add y x set h, wider_Each x set ids hs)

pub Judged-cases : (j : Judged) → (j ≡ counts) ⊎ ((f : QuorumFailure) × (j ≡ fails f))
Judged-cases counts = inl refl
Judged-cases (fails f) = inr (f, refl)

pub Parsed-cases :
    (p : Parsed CosignReason LogCosignature)
    → ((c : LogCosignature) × (p ≡ parsed c)) ⊎ ((r : CosignReason) × (p ≡ refused r))
Parsed-cases (parsed c) = inl (c, refl)
Parsed-cases (refused r) = inr (r, refl)

admitted : (a b d : Bool) → (not a || b || d) ≡ false → (a ≡ true) × ((b ≡ false) × (d ≡ false))
admitted true false false h = (refl, (refl, refl))
admitted true false true h = cc
admitted true true d h = cc
admitted false b d h = cc

module _ (date_parse : String → Number) (canonicalize : Json → Option (List ℕ))
    (sha256_hex : List ℕ → String) (verify_signature_b64 : String → String → String → Bool)
    (native : Option (LogCosignature → String → LogCheckpoint → CosignReply)) (clock : ℕ)
    (inp : QuorumInputs) where
  abbrev judged : LogCosignature → Judged
  judged c = judge date_parse canonicalize sha256_hex verify_signature_b64 native clock inp c

  -- The witness's key is known, its tuple is the checkpoint's, it is not from the future beyond the
  -- skew, and it verifies under that key.
  abbrev pub Passes : LogCosignature → Type 0
  Passes c =
      (key : String) × (lookup c.witness_id inp.witness_keys_b64 ≡ some key)
      × (same_tuple c.witnessed_checkpoint inp.checkpoint ≡ true)
      × (cosignature_freshness_ok date_parse c
            (now date_parse canonicalize sha256_hex verify_signature_b64 native clock inp)
            (skew_ms date_parse canonicalize sha256_hex verify_signature_b64 native clock inp)
          ≡ true)
      × (verify_cosignature canonicalize sha256_hex verify_signature_b64 native c key
            (some inp.checkpoint)
          ≡ ok)

  -- `raw` is a cosignature of the witness `id`, which is trusted and not historical, and it passes
  -- every check.
  abbrev pub Attests : Json → String → Type 0
  Attests raw id =
      (c : LogCosignature) × (parse_cosignature date_parse raw ≡ parsed c)
      × (c.witness_id ≡ id)
      × (str_mem id inp.trusted_witness_ids ≡ true)
      × (str_mem id (or_set inp.historical_witness_ids) ≡ false)
      × Passes c

  pub judge-Passes :
      (c : LogCosignature)
      → judge date_parse canonicalize sha256_hex verify_signature_b64 native clock inp c ≡ counts
      → Passes c
  unfolding judge outcome_judged
  judge-Passes c h = elim (Option-cases (lookup c.witness_id inp.witness_keys_b64)) [
    | inl e ↦ ground (arith, e, h)
    | inr (key, e) ↦ (key, e, ground (arith, e, h), ground (arith, e, h), ground (arith, e, h))
  ]

  pub Passes-judge :
      (c : LogCosignature)
      → Passes c
      → judge date_parse canonicalize sha256_hex verify_signature_b64 native clock inp c ≡ counts
  unfolding judge outcome_judged
  Passes-judge c (key, e, same, fresh, valid) =
      rw (e, judge, same, fresh, valid, outcome_judged) refl

  recorded-IsTally :
      (Q : String → Type 0) (c : LogCosignature) (j : Judged) (t : Tally)
      → (j ≡ counts → Q c.witness_id)
      → IsTally Q t
      → IsTally Q
          (recorded date_parse canonicalize sha256_hex verify_signature_b64 native clock inp c j t)
  unfolding recorded
  recorded-IsTally Q c (fails f) t q h = record {
    distinct = h.distinct;
    each = h.each;
    fresh = h.fresh;
  }
  recorded-IsTally Q c counts t q h = record {
    distinct = add-Distinct c.witness_id t.verified h.distinct;
    each = add-Each Q c.witness_id t.verified (q refl) h.each;
    fresh =
        let wide = wider_Each c.witness_id t.verified t.fresh h.fresh in
        elim (Bool-cases (
          cosignature_age_ok date_parse c
            (now date_parse canonicalize sha256_hex verify_signature_b64 native clock inp)
            (age_limit inp.max_age_secs))) [
              | inl young ↦ rw young (
                  add-Each (λ id. str_mem id (add c.witness_id t.verified) ≡ true) c.witness_id
                    t.fresh (mem-add_self c.witness_id t.verified) wide)
              | inr old ↦ rw old wide
            ];
  }

  considered-IsTally :
      (Q : String → Type 0) (raw : Json) (c : LogCosignature) (t : Tally)
      → parse_cosignature date_parse raw ≡ parsed c
      → ((id : String) → Attests raw id → Q id)
      → IsTally Q t
      → IsTally Q
          (considered date_parse canonicalize sha256_hex verify_signature_b64 native clock inp c t)
  unfolding considered
  considered-IsTally Q raw c t e q h =
      let a = str_mem c.witness_id inp.trusted_witness_ids in
      let b = str_mem c.witness_id (or_set inp.historical_witness_ids) in
      elim (Bool-cases (not a || b || str_mem c.witness_id t.verified)) [
        | inl skip ↦ rw (skip, considered) h
        | inr go ↦
            let (trusted, (current, new)) = admitted a b (str_mem c.witness_id t.verified) go in
            rw (go, considered)
              (recorded-IsTally Q c (judged c) t
                (λ j. q c.witness_id (c, e, refl, trusted, current, judge-Passes c j)) h)
      ]

  consider-IsTally :
      (Q : String → Type 0) (raw : Json) (t : Tally)
      → ((id : String) → Attests raw id → Q id)
      → IsTally Q t
      → IsTally Q
          (consider date_parse canonicalize sha256_hex verify_signature_b64 native clock inp raw t)
  unfolding consider
  consider-IsTally Q raw t q h = elim (Parsed-cases (parse_cosignature date_parse raw)) [
    | inl (c, e) ↦ rw (e, consider) (considered-IsTally Q raw c t e q h)
    | inr (r, e) ↦ rw (e, consider) record { distinct = h.distinct; each = h.each; fresh = h.fresh }
  ]

  consider_all-IsTally :
      (Q : String → Type 0) (raws : List Json) (t : Tally)
      → ((raw : Json) (id : String) → In raw raws → Attests raw id → Q id)
      → IsTally Q t
      → IsTally Q (
          consider_all date_parse canonicalize sha256_hex verify_signature_b64 native clock inp raws
            t)
  unfolding consider_all
  consider_all-IsTally Q [] t q h = h
  consider_all-IsTally Q (raw ∷ raws) t q h =
      consider_all-IsTally Q raws _ (λ other id l. q other id (inr l))
        (consider-IsTally Q raw t (λ id. q raw id (inl refl)) h)

  -- The witnesses that a report lists are distinct, and each is trusted, not historical, and has a
  -- cosignature among the given ones that parses and passes every check. Their number is the count of
  -- the report, and the quorum is met exactly when it is at least the minimum.
  pub quorum_sound :
      let report =
        host_evaluate_quorum date_parse canonicalize sha256_hex verify_signature_b64 native clock
          inp in
      Distinct report.verified_witness_ids
      × Each
          (λ id. (raw : Json) × In raw inp.cosignatures × Attests raw id)
          report.verified_witness_ids
      × (report.witnessed_count ≡ length report.verified_witness_ids)
      × (report.meets_quorum ≡ leb inp.min_witnesses report.witnessed_count)
  unfolding host_evaluate_quorum
  quorum_sound =
      let t =
        consider_all-IsTally (λ id. (raw : Json) × In raw inp.cosignatures × Attests raw id)
          inp.cosignatures (record { verified = []; fresh = []; failures = [] })
          (λ raw id l a. (raw, l, a)) (record { distinct = tt; each = tt; fresh = tt }) in
      (t.distinct, t.each, refl, refl)
