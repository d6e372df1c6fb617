-- ===== src/Auth/Ledger/Tests.antt =====
-- A chain of two rows, with a stand-in for SHA-256 that gives one digest.

use acdp_control_plane.Prelude.{
  ℕ, ◌≡◌, ◌≢◌, ◌⊎◌, refl, ap, true, false, str_eq, String, List, [], ◌∷◌, none, some, join,
}
use acdp_control_plane.Auth.Ledger.{
  mint, reject_nonce, IssuanceLedgerEntry, Link, zero_hash, last_hash, intact, broken_at, canonical,
  compute_entry_hash, verify_links, verify_chain_memory,
}
use acdp_control_plane.Auth.Ledger.Tamper.{
  Clash, texts, tamper, verify_chain_memory-tamper, chain_fixed,
}

abbrev digest : String
digest = "ffffffffffffffffffffffffffffffffffffffffffffffffffffffffffffffff"

abbrev same_digest : String → String
same_digest s = digest

abbrev spelled : ℕ → String
spelled n = "n"

abbrev row : IssuanceLedgerEntry
row = record {
  jti = some "j";
  sub = some "did:web:a";
  iss = some "cp";
  iat = some 1;
  exp = some 2;
  signer_ip = none;
  decision = mint;
  decision_detail = none;
}

abbrev refusal : IssuanceLedgerEntry
refusal = record row { jti = none; decision = reject_nonce }

abbrev chain : List Link
chain =
    record { prev_hash = zero_hash; entry_hash = digest; row = row }
    ∷ record { prev_hash = digest; entry_hash = digest; row = refusal }
    ∷ []

chain_fixed_example :
    (texts same_digest spelled zero_hash chain ≡ texts same_digest spelled zero_hash chain)
    ⊎ Clash same_digest spelled
unfolding verify_chain_memory verify_links compute_entry_hash last_hash
chain_fixed_example = chain_fixed same_digest spelled (λ s. refl) chain chain refl refl refl refl

-- The text itself as its hash.
abbrev plain : String → String
plain s = s

abbrev plain_chain : List Link
plain_chain =
    record { prev_hash = zero_hash; entry_hash = canonical plain spelled zero_hash row; row = row }
    ∷ []

plain_verifies : verify_chain_memory plain spelled plain_chain ≡ intact 1
unfolding verify_chain_memory verify_links compute_entry_hash canonical join
plain_verifies = refl

rows_differ :
    compute_entry_hash plain spelled zero_hash refusal ≢ canonical plain spelled zero_hash row
unfolding compute_entry_hash canonical join
rows_differ e =
    let clash : false ≡ true = ap (λ s. str_eq s (canonical plain spelled zero_hash row)) e in
    cc clash

verify_chain_memory-tamper_example :
    verify_chain_memory plain spelled (tamper plain spelled 0 refusal plain_chain) ≡ broken_at 0 1
verify_chain_memory-tamper_example =
    verify_chain_memory-tamper plain spelled 0 refusal
      (record {
        prev_hash = zero_hash;
        entry_hash = canonical plain spelled zero_hash row;
        row = row;
      })
      plain_chain plain_verifies refl rows_differ
