-- ===== src/Auth/Ledger.antt =====
-- The hash chain of src/auth/issuance-ledger.service.ts. SHA-256 in hex and `String` of a number are
-- parameters.
pub mod Intact
pub mod Tamper
mod Tests
use acdp_control_plane.Prelude.{
  ℕ, suc, String, List, [], ◌∷◌, ◌++◌, Bool, true, false, not, Option, none, some, Number, nat, neg,
  str_eq, length, join, if◌then◌else◌,
}

pub data IssuanceDecision : Type 0 where
  mint reject_alg reject_nonce reject_agent_mismatch reject_expires_mismatch : IssuanceDecision
  reject_unpinned reject_key_id_mismatch reject_key_id_malformed reject_signature : IssuanceDecision
  reject_internal : IssuanceDecision

abbrev pub decision_text : IssuanceDecision → String
decision_text mint = "mint"
decision_text reject_alg = "reject_alg"
decision_text reject_nonce = "reject_nonce"
decision_text reject_agent_mismatch = "reject_agent_mismatch"
decision_text reject_expires_mismatch = "reject_expires_mismatch"
decision_text reject_unpinned = "reject_unpinned"
decision_text reject_key_id_mismatch = "reject_key_id_mismatch"
decision_text reject_key_id_malformed = "reject_key_id_malformed"
decision_text reject_signature = "reject_signature"
decision_text reject_internal = "reject_internal"

pub record IssuanceLedgerEntry : Type 0 where
  pub jti : Option String
  pub sub : Option String
  pub iss : Option String
  pub iat : Option ℕ
  pub exp : Option ℕ
  pub signer_ip : Option String
  pub decision : IssuanceDecision
  pub decision_detail : Option String

-- An element of `memoryChain`.
pub record Link : Type 0 where
  pub prev_hash : String
  pub entry_hash : String
  pub row : IssuanceLedgerEntry

-- A row of the table, whose hashes may be null.
pub record LedgerRow : Type 0 where
  pub prev_hash : Option String
  pub entry_hash : Option String
  pub row : IssuanceLedgerEntry

abbrev pub zero_hash : String
zero_hash = "0000000000000000000000000000000000000000000000000000000000000000"

-- U+001F, in decimal.
abbrev pub separator : String
separator = "\u{1f}"

abbrev pub or_empty : Option String → String
or_empty none = ""
or_empty (some s) = s

-- What `verifyChain` returns; `neg 0` is -1.
pub record ChainReport : Type 0 where
  pub ok : Bool
  pub first_broken : Number
  pub total : ℕ

-- The hash of the last link.
unfoldable pub last_hash : String → List Link → String
last_hash before [] = before
last_hash before (x ∷ chain) = last_hash x.entry_hash chain

abbrev pub intact : ℕ → ChainReport
intact total = record { ok = true; first_broken = neg 0; total = total }

abbrev pub broken_at : ℕ → ℕ → ChainReport
broken_at i total = record { ok = false; first_broken = nat i; total = total }

-- `String(n)`, of a number that may be missing.
abbrev number_text : (ℕ → String) → Option ℕ → String
number_text decimal none = ""
number_text decimal (some n) = decimal n

module _ (sha256_hex : String → String) (decimal : ℕ → String) where
  unfoldable pub canonical : String → IssuanceLedgerEntry → String
  canonical prev_hash e = join separator (
      prev_hash
      ∷ decision_text e.decision
      ∷ or_empty e.jti
      ∷ or_empty e.sub
      ∷ or_empty e.iss
      ∷ number_text decimal e.iat
      ∷ number_text decimal e.exp
      ∷ or_empty e.signer_ip
      ∷ or_empty e.decision_detail
      ∷ [])

  unfoldable pub compute_entry_hash : String → IssuanceLedgerEntry → String
  compute_entry_hash prev_hash e = sha256_hex (canonical prev_hash e)

  unfoldable pub record_memory : IssuanceLedgerEntry → List Link → List Link
  unfolding last_hash
  record_memory entry chain =
      let prev = last_hash zero_hash chain in
      chain
      ++ record { prev_hash = prev; entry_hash = compute_entry_hash prev entry; row = entry } ∷ []

  -- The loop of `verifyChainMemory` from index `i` on.
  unfoldable pub verify_links : ℕ → String → ℕ → List Link → ChainReport
  verify_links total prev i [] = intact total
  verify_links total prev i (entry ∷ chain) =
      let rest = verify_links total entry.entry_hash (suc i) chain in
      if not (str_eq entry.prev_hash prev)
      then broken_at i total
      else if not (str_eq entry.entry_hash (compute_entry_hash prev entry.row))
      then broken_at i total
      else rest

  unfoldable pub verify_chain_memory : List Link → ChainReport
  unfolding verify_links
  verify_chain_memory chain = verify_links (length chain) zero_hash 0 chain

  abbrev matches : Option String → String → Bool
  matches none hash = true
  matches (some h) hash = str_eq h hash

  abbrev hash_or : Option String → String → String
  hash_or none hash = hash
  hash_or (some h) hash = h

  -- The loop of `verifyChainPostgres`, over the rows in order: a null hash is not compared.
  unfoldable pub verify_rows : ℕ → String → ℕ → List LedgerRow → ChainReport
  verify_rows total prev i [] = intact total
  verify_rows total prev i (r ∷ rows) =
      let recomputed = compute_entry_hash prev r.row in
      let rest = verify_rows total (hash_or r.entry_hash recomputed) (suc i) rows in
      if not (matches r.prev_hash prev)
      then broken_at i total
      else if not (matches r.entry_hash recomputed)
      then broken_at i total
      else rest

  unfoldable pub verify_chain_postgres : List LedgerRow → ChainReport
  unfolding verify_rows
  verify_chain_postgres rows = verify_rows (length rows) zero_hash 0 rows
