-- ===== src/Cosign/Quorum/Complete.antt =====
-- Every witness that attests counts towards a quorum.
use acdp_control_plane.Prelude.{
  ℕ, ◌≡◌, sym, inl, inr, String, List, [], ◌∷◌, Bool, true, false, ◌||◌, not, Option, str_mem,
  subst, Bool-cases, Json, Number,
}
use acdp_control_plane.Log.Parse.{LogCheckpoint}
use acdp_control_plane.Cosign.{LogCosignature, CosignReply, parse_cosignature}
use acdp_control_plane.Cosign.Quorum.{
  QuorumInputs, Tally, or_set, Judged, counts, fails, judge, recorded, considered, consider,
  consider_all, host_evaluate_quorum,
}
use acdp_control_plane.Cosign.Quorum.Sets.{mem-add, mem-add_self}
use acdp_control_plane.Cosign.Quorum.Sound.{In, Attests, Passes-judge, Parsed-cases}

module _ (date_parse : String → Number) (canonicalize : Json → Option (List ℕ))
    (sha256_hex : List ℕ → String) (verify_signature_b64 : String → String → String → Bool)
    (native : Option (LogCosignature → String → LogCheckpoint → CosignReply)) (clock : ℕ)
    (inp : QuorumInputs) where
  recorded_keeps :
      (id : String) (c : LogCosignature) (j : Judged) (t : Tally)
      → str_mem id t.verified ≡ true
      → str_mem id
          (recorded date_parse canonicalize sha256_hex verify_signature_b64 native clock inp c j
            t).verified
        ≡ true
  unfolding recorded
  recorded_keeps id c (fails f) t h = h
  recorded_keeps id c counts t h = mem-add id c.witness_id t.verified h

  considered_keeps :
      (id : String) (c : LogCosignature) (t : Tally)
      → str_mem id t.verified ≡ true
      → str_mem id
          (considered date_parse canonicalize sha256_hex verify_signature_b64 native clock inp c
            t).verified
        ≡ true
  unfolding considered
  considered_keeps id c t h =
      elim (Bool-cases (
        not (str_mem c.witness_id inp.trusted_witness_ids)
        || str_mem c.witness_id (or_set inp.historical_witness_ids)
        || str_mem c.witness_id t.verified)) [
          | inl skip ↦ rw (skip, considered) h
          | inr go ↦
              rw (go, considered)
                (recorded_keeps id c
                  (judge date_parse canonicalize sha256_hex verify_signature_b64 native clock inp c)
                  t h)
        ]

  consider_keeps :
      (id : String) (raw : Json) (t : Tally)
      → str_mem id t.verified ≡ true
      → str_mem id
          (consider date_parse canonicalize sha256_hex verify_signature_b64 native clock inp raw
            t).verified
        ≡ true
  unfolding consider
  consider_keeps id raw t h = elim (Parsed-cases (parse_cosignature date_parse raw)) [
    | inl (c, e) ↦ rw (e, consider) (considered_keeps id c t h)
    | inr (r, e) ↦ rw (e, consider) h
  ]

  recorded_counts :
      (c : LogCosignature) (j : Judged) (t : Tally)
      → j ≡ counts
      → str_mem c.witness_id
          (recorded date_parse canonicalize sha256_hex verify_signature_b64 native clock inp c j
            t).verified
        ≡ true
  unfolding recorded
  recorded_counts c counts t e = mem-add_self c.witness_id t.verified
  recorded_counts c (fails f) t e = cc e

  considered_counts :
      (c : LogCosignature) (t : Tally)
      → str_mem c.witness_id inp.trusted_witness_ids ≡ true
      → str_mem c.witness_id (or_set inp.historical_witness_ids) ≡ false
      → judge date_parse canonicalize sha256_hex verify_signature_b64 native clock inp c ≡ counts
      → str_mem c.witness_id
          (considered date_parse canonicalize sha256_hex verify_signature_b64 native clock inp c
            t).verified
        ≡ true
  unfolding considered
  considered_counts c t trusted current j = elim (Bool-cases (str_mem c.witness_id t.verified)) [
    | inl old ↦ rw (trusted, current, old, considered) old
    | inr new ↦
        rw (trusted, current, new, considered)
          (recorded_counts c
            (judge date_parse canonicalize sha256_hex verify_signature_b64 native clock inp c) t j)
  ]

  consider_counts :
      (id : String) (raw : Json) (t : Tally)
      → Attests date_parse canonicalize sha256_hex verify_signature_b64 native clock inp raw id
      → str_mem id
          (consider date_parse canonicalize sha256_hex verify_signature_b64 native clock inp raw
            t).verified
        ≡ true
  unfolding consider
  consider_counts id raw t (c, e, same, trusted, current, j) =
      rw (e, consider)
        (subst
          (λ i.
            str_mem i
              (considered date_parse canonicalize sha256_hex verify_signature_b64 native clock inp c
                t).verified
            ≡ true)
          same
          (considered_counts c t (rw same trusted) (rw same current) (
            Passes-judge date_parse canonicalize sha256_hex verify_signature_b64 native clock inp c
              j)))

  consider_all_keeps :
      (id : String) (raws : List Json) (t : Tally)
      → str_mem id t.verified ≡ true
      → str_mem id
          (consider_all date_parse canonicalize sha256_hex verify_signature_b64 native clock inp
            raws t).verified
        ≡ true
  unfolding consider_all
  consider_all_keeps id [] t h = h
  consider_all_keeps id (raw ∷ raws) t h = consider_all_keeps id raws _ (consider_keeps id raw t h)

  consider_all_counts :
      (id : String) (raw : Json) (raws : List Json) (t : Tally)
      → In raw raws
      → Attests date_parse canonicalize sha256_hex verify_signature_b64 native clock inp raw id
      → str_mem id
          (consider_all date_parse canonicalize sha256_hex verify_signature_b64 native clock inp
            raws t).verified
        ≡ true
  unfolding consider_all
  consider_all_counts id raw [] t l a = absurd l
  consider_all_counts id raw (r ∷ raws) t (inl e) a = consider_all_keeps id raws _ (
      subst
        (λ o.
          str_mem id
            (consider date_parse canonicalize sha256_hex verify_signature_b64 native clock inp o
              t).verified
          ≡ true)
        (sym e) (consider_counts id raw t a))
  consider_all_counts id raw (r ∷ raws) t (inr l) a = consider_all_counts id raw raws _ l a

  -- Every witness that is trusted, not historical, and has a cosignature among the given ones that
  -- parses and passes every check is on the report's list, in whatever order the cosignatures come
  -- and whatever else stands among them.
  pub quorum_complete :
      (id : String) (raw : Json)
      → In raw inp.cosignatures
      → Attests date_parse canonicalize sha256_hex verify_signature_b64 native clock inp raw id
      → str_mem id
          (host_evaluate_quorum date_parse canonicalize sha256_hex verify_signature_b64 native clock
            inp).verified_witness_ids
        ≡ true
  unfolding host_evaluate_quorum
  quorum_complete id raw l a = consider_all_counts id raw inp.cosignatures _ l a
