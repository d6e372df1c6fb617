-- ===== src/Auth/Ledger/Intact.antt =====
-- The chain that the ledger writes verifies, in memory and row by row.
use acdp_control_plane.Prelude.{
  ℕ, suc, ◌≡◌, refl, ◌∙◌, ap, String, List, [], ◌∷◌, ◌++◌, some, arith, eq_refl, length, map,
  length-map,
}
use acdp_control_plane.Auth.Ledger.{
  IssuanceLedgerEntry, Link, LedgerRow, zero_hash, last_hash, intact, compute_entry_hash,
  record_memory, verify_links, verify_chain_memory, verify_rows, verify_chain_postgres,
}

-- The row that the table holds of a link.
abbrev pub stored : Link → LedgerRow
stored x = record { prev_hash = some x.prev_hash; entry_hash = some x.entry_hash; row = x.row }

module _ (sha256_hex : String → String) (decimal : ℕ → String) where
  unfoldable pub record_all : List IssuanceLedgerEntry → List Link → List Link
  record_all [] chain = chain
  record_all (e ∷ entries) chain = record_all entries (record_memory sha256_hex decimal e chain)

  abbrev link_after : String → IssuanceLedgerEntry → Link
  link_after prev e = record {
    prev_hash = prev;
    entry_hash = compute_entry_hash sha256_hex decimal prev e;
    row = e;
  }

  links_snoc :
      (e : IssuanceLedgerEntry) (total i : ℕ) (prev : String) (chain : List Link)
      → verify_links sha256_hex decimal total prev i chain ≡ intact total
      → verify_links sha256_hex decimal total prev i
          (chain ++ link_after (last_hash prev chain) e ∷ [])
        ≡ intact total
  unfolding verify_links last_hash
  links_snoc e total i prev [] h =
      ground (arith, eq_refl prev, eq_refl (compute_entry_hash sha256_hex decimal prev e))
  links_snoc e total i prev (x ∷ chain) h =
      ground (arith, h, links_snoc e total (suc i) x.entry_hash chain)

  -- The verdict does not depend on the total that it reports.
  links_total :
      (n m i : ℕ) (prev : String) (chain : List Link)
      → verify_links sha256_hex decimal n prev i chain ≡ intact n
      → verify_links sha256_hex decimal m prev i chain ≡ intact m
  unfolding verify_links
  links_total n m i prev [] h = refl
  links_total n m i prev (x ∷ chain) h =
      ground (arith, h, links_total n m (suc i) x.entry_hash chain)

  record-intact :
      (e : IssuanceLedgerEntry) (chain : List Link)
      → verify_chain_memory sha256_hex decimal chain ≡ intact (length chain)
      → verify_chain_memory sha256_hex decimal (record_memory sha256_hex decimal e chain)
        ≡ intact (length (record_memory sha256_hex decimal e chain))
  unfolding verify_chain_memory record_memory
  record-intact e chain h =
      links_snoc e (length (record_memory sha256_hex decimal e chain)) 0 zero_hash chain (
        links_total (length chain) (length (record_memory sha256_hex decimal e chain)) 0 zero_hash
          chain h)

  intact_after :
      (entries : List IssuanceLedgerEntry) (chain : List Link)
      → verify_chain_memory sha256_hex decimal chain ≡ intact (length chain)
      → verify_chain_memory sha256_hex decimal (record_all entries chain)
        ≡ intact (length (record_all entries chain))
  unfolding record_all
  intact_after [] chain h = h
  intact_after (e ∷ entries) chain h =
      intact_after entries (record_memory sha256_hex decimal e chain) (record-intact e chain h)

  -- Whatever decisions a new ledger records, its chain verifies.
  pub verify_chain_memory-record :
      (entries : List IssuanceLedgerEntry)
      → verify_chain_memory sha256_hex decimal (record_all entries [])
        ≡ intact (length (record_all entries []))
  verify_chain_memory-record entries = intact_after entries [] (unfold verify_chain_memory in refl)

  rows_as_links :
      (total i : ℕ) (prev : String) (chain : List Link)
      → verify_rows sha256_hex decimal total prev i (map stored chain)
        ≡ verify_links sha256_hex decimal total prev i chain
  unfolding verify_rows verify_links
  rows_as_links total i prev [] = refl
  rows_as_links total i prev (x ∷ chain) =
      ground (arith, rows_as_links total (suc i) x.entry_hash chain)

  -- The check of the table reports of the rows of a chain what the check in memory reports of it.
  pub verify_chain_postgres-stored :
      (chain : List Link)
      → verify_chain_postgres sha256_hex decimal (map stored chain)
        ≡ verify_chain_memory sha256_hex decimal chain
  unfolding verify_chain_postgres verify_chain_memory
  verify_chain_postgres-stored chain =
      ap (λ n. verify_rows sha256_hex decimal n zero_hash 0 (map stored chain))
        (length-map stored chain)
      ∙ rows_as_links (length chain) 0 zero_hash chain
