-- ===== src/Auth/Ledger/Tamper.antt =====
-- What the hash chain shows of the rows that it covers.
use Prim.Native.String
use text.Mathlib.TextLemmas.{append_inj}
use acdp_control_plane.Prelude.{
  ℕ, zero, suc, ◌+◌, ◌≡◌, ◌≢◌, refl, sym, ◌∙◌, ap, ◌⊎◌, inl, inr, String, List, [], ◌∷◌, some,
  arith, str_eq, eq_iff, eq_refl, length, get_elem?, join, Bool-cases,
}
use acdp_control_plane.Auth.Ledger.{
  IssuanceLedgerEntry, Link, zero_hash, last_hash, intact, broken_at, canonical, compute_entry_hash,
  verify_links, verify_chain_memory,
}

module _ (sha256_hex : String → String) (decimal : ℕ → String) where
  abbrev pub Clash : Type 0
  Clash = (s : String) × (t : String) × (s ≢ t) × (sha256_hex s ≡ sha256_hex t)

  -- The texts that the hashes of a chain are of.
  unfoldable pub texts : String → List Link → List String
  texts prev [] = []
  texts prev (x ∷ chain) = canonical sha256_hex decimal prev x.row ∷ texts x.entry_hash chain

  verified_head :
      (total i : ℕ) (prev : String) (x : Link) (chain : List Link)
      → verify_links sha256_hex decimal total prev i (x ∷ chain) ≡ intact total
      → (x.entry_hash ≡ sha256_hex (canonical sha256_hex decimal prev x.row))
        × (verify_links sha256_hex decimal total x.entry_hash (suc i) chain ≡ intact total)
  unfolding verify_links compute_entry_hash
  verified_head total i prev x chain h =
      ground (arith, h, eq_iff x.entry_hash (sha256_hex (canonical sha256_hex decimal prev x.row)))

  -- Two texts with one hash are the same, or they clash.
  same_or_clash : (s t : String) → sha256_hex s ≡ sha256_hex t → (s ≡ t) ⊎ Clash
  same_or_clash s t h = elim (Bool-cases (str_eq s t)) [
    | inl same ↦ inl ((eq_iff s t).0 same)
    | inr other ↦ inr (s, t, (λ e. ground (arith, e, other, eq_refl s)), h)
  ]

  -- A text starts with the hash before it, and all hashes have the same length.
  canonical_prev :
      (prev prev' : String) (e e' : IssuanceLedgerEntry)
      → String.count prev ≡ String.count prev'
      → canonical sha256_hex decimal prev e ≡ canonical sha256_hex decimal prev' e'
      → prev ≡ prev'
  unfolding canonical join
  canonical_prev prev prev' e e' long h = (append_inj h long).0

  -- `__tamper`: the row at an index is replaced.
  unfoldable pub tamper : ℕ → IssuanceLedgerEntry → List Link → List Link
  tamper i row [] = []
  tamper zero row (x ∷ chain) = record x { row = row } ∷ chain
  tamper (suc i) row (x ∷ chain) = x ∷ tamper i row chain

  length-tamper :
      (i : ℕ) (row : IssuanceLedgerEntry) (chain : List Link)
      → length (tamper i row chain) ≡ length chain
  unfolding tamper
  length-tamper i row [] = refl
  length-tamper zero row (x ∷ chain) = refl
  length-tamper (suc i) row (x ∷ chain) = ap suc (length-tamper i row chain)

  tampered_links :
      (total i j : ℕ) (row : IssuanceLedgerEntry) (x : Link) (prev : String) (chain : List Link)
      → verify_links sha256_hex decimal total prev j chain ≡ intact total
      → get_elem? chain i ≡ some x
      → compute_entry_hash sha256_hex decimal x.prev_hash row ≢ x.entry_hash
      → verify_links sha256_hex decimal total prev j (tamper i row chain) ≡ broken_at (j + i) total
  unfolding verify_links tamper
  tampered_links total i j row x prev [] h found differs = absurd (ground (arith, found))
  tampered_links total zero j row x prev (y ∷ chain) h found differs = ground (
    arith,
    h,
    found,
    differs,
    eq_iff y.prev_hash prev,
    eq_iff y.entry_hash (compute_entry_hash sha256_hex decimal prev row),
  )
  tampered_links total (suc i) j row x prev (y ∷ chain) h found differs =
      ground (arith, h, tampered_links total i (suc j) row x y.entry_hash chain)

  -- If the row at an index of a chain that verifies is replaced by one with another hash, the check
  -- breaks at exactly that index.
  pub verify_chain_memory-tamper :
      (i : ℕ) (row : IssuanceLedgerEntry) (x : Link) (chain : List Link)
      → verify_chain_memory sha256_hex decimal chain ≡ intact (length chain)
      → get_elem? chain i ≡ some x
      → compute_entry_hash sha256_hex decimal x.prev_hash row ≢ x.entry_hash
      → verify_chain_memory sha256_hex decimal (tamper i row chain) ≡ broken_at i (length chain)
  unfolding verify_chain_memory
  verify_chain_memory-tamper i row x chain h found differs =
      ap (λ n. verify_links sha256_hex decimal n zero_hash 0 (tamper i row chain))
        (length-tamper i row chain)
      ∙ tampered_links (length chain) i 0 row x zero_hash chain h found differs
      ∙ ap (λ k. broken_at k (length chain)) (omega arith)

  module _ (long : (s : String) → String.count (sha256_hex s) ≡ 64) where
    same_texts :
        (n m i j : ℕ) (prev prev' : String) (c c' : List Link)
        → String.count prev ≡ String.count prev'
        → verify_links sha256_hex decimal n prev i c ≡ intact n
        → verify_links sha256_hex decimal m prev' j c' ≡ intact m
        → length c ≡ length c'
        → last_hash prev c ≡ last_hash prev' c'
        → ((prev ≡ prev') × (texts prev c ≡ texts prev' c')) ⊎ Clash
    unfolding texts last_hash
    same_texts n m i j prev prev' [] [] l v v' k h = inl (h, refl)
    same_texts n m i j prev prev' [] (y ∷ c') l v v' k h = absurd (omega (arith, k))
    same_texts n m i j prev prev' (x ∷ c) [] l v v' k h = absurd (omega (arith, k))
    same_texts n m i j prev prev' (x ∷ c) (y ∷ c') l v v' k h =
        let (e, w) = verified_head n i prev x c v in
        let (e', w') = verified_head m j prev' y c' v' in
        let sizes : String.count x.entry_hash ≡ String.count y.entry_hash =
          ap String.count e
          ∙ long (canonical sha256_hex decimal prev x.row)
          ∙ sym (long (canonical sha256_hex decimal prev' y.row))
          ∙ sym (ap String.count e') in
        elim (same_texts n m (suc i) (suc j) x.entry_hash y.entry_hash c c' sizes w w'
          (omega (arith, k)) h) [
            | inr clash ↦ inr clash
            | inl (same, rest) ↦
                elim (same_or_clash (canonical sha256_hex decimal prev x.row)
                  (canonical sha256_hex decimal prev' y.row) (sym e ∙ same ∙ e')) [
                    | inr clash ↦ inr clash
                    | inl text ↦ inl (canonical_prev prev prev' x.row y.row l text, cc (text, rest))
                  ]
          ]

    -- The last hash of a chain fixes all of it: two chains that verify, of one length and with one last
    -- hash, hash the same texts row by row, or two texts clash under SHA-256. A digest has 64
    -- characters.
    pub chain_fixed :
        (c c' : List Link)
        → verify_chain_memory sha256_hex decimal c ≡ intact (length c)
        → verify_chain_memory sha256_hex decimal c' ≡ intact (length c')
        → length c ≡ length c'
        → last_hash zero_hash c ≡ last_hash zero_hash c'
        → (texts zero_hash c ≡ texts zero_hash c') ⊎ Clash
    unfolding verify_chain_memory
    chain_fixed c c' v v' k h =
        elim (same_texts (length c) (length c') 0 0 zero_hash zero_hash c c' refl v v' k h) [
          | inl (e, same) ↦ inl same
          | inr clash ↦ inr clash
        ]
