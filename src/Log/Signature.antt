-- ===== src/Log/Signature.antt =====
-- The signature of a checkpoint, the registry that its log id names, and the leaf of a receipt
-- (src/audit/log-verify.ts). SHA-256 in hex, the canonicalizer and the check of an Ed25519 signature
-- are fields of one record.
use Prim.Native.Char.{code}
use Prim.Native.String
use acdp_control_plane.Prelude.{
  ℕ, String, List, Bool, not, Option, none, some, ◌==◌, str_eq, codes, if◌then◌else◌, Json, str,
  num, nat, obj, Fields, end, field, member,
}
use acdp_control_plane.Log.Parse.{LogCheckpoint, log_id_re}
use acdp_control_plane.Log.Proofs.{
  VerifyOutcome, ok, fail, unsupported_algorithm, checkpoint_not_canonical, signature_invalid,
}

pub record Crypto : Type 0 where
  pub canonicalize : Json → Option (List ℕ)
  pub sha256_hex : List ℕ → String
  pub verify_signature_b64 : String → String → String → Bool

-- The text up to the first slash.
before_slash : String → String
before_slash String.[] = String.[]
before_slash (String.◌∷◌ c rest) =
    let more = before_slash rest in if code c == b'/' then String.[] else String.◌∷◌ c more

-- `logIdRegistryDid`: the authority holds no slash, so that the group ends at the first one.
unfoldable pub log_id_registry_did : String → Option String
unfolding before_slash
log_id_registry_did log_id = if log_id_re (codes log_id) then some (before_slash log_id) else none

-- The checkpoint without its signature.
unfoldable pub preimage : LogCheckpoint → Json
preimage c = obj (
    field "checkpoint_version" (str c.checkpoint_version) (
      field "log_id" (str c.log_id) (
        field "tree_size" (num (nat c.tree_size))
          (field "root_hash" (str c.root_hash) (field "timestamp" (str c.timestamp) end)))))

-- A member of a receipt that is a text and not empty.
unfoldable pub usable : String → Fields → Option String
usable name receipt = elim (member name receipt) [
  | some (str s) ↦ if str_eq s "" then none else some s
  | _ ↦ none
]

-- A receipt without a member.
unfoldable pub without : String → Fields → Fields
without name end = end
without name (field k v fs) =
    let rest = without name fs in if str_eq k name then rest else field k v rest

-- `buildLogLeaf`'s two refusals.
pub data LeafOutcome : Type 0 where
  built : Json → LeafOutcome
  unusable receipt_not_canonical : LeafOutcome

module _ (host : Crypto) where
  unfoldable pub checkpoint_hash : LogCheckpoint → Option String
  unfolding preimage
  checkpoint_hash c = elim (host.canonicalize (preimage c)) [
    | none ↦ none
    | some bytes ↦ some (String.◌++◌ "sha256:" (host.sha256_hex bytes))
  ]

  unfoldable pub verify_checkpoint_signature : LogCheckpoint → String → VerifyOutcome
  unfolding checkpoint_hash
  verify_checkpoint_signature c key =
      if not (str_eq c.signature.algorithm "ed25519")
      then fail unsupported_algorithm
      else elim (checkpoint_hash c) [
        | none ↦ fail checkpoint_not_canonical
        | some hash ↦
            if host.verify_signature_b64 key hash c.signature.value
            then ok
            else fail signature_invalid
      ]

  leaf_of : Fields → String → String → String → String → String → String → LeafOutcome
  unfolding without
  leaf_of receipt ctx_id lineage_id origin_registry created_at content_hash key_fingerprint =
      elim (host.canonicalize (obj (without "signature" receipt))) [
        | none ↦ receipt_not_canonical
        | some bytes ↦ built (
            obj (
              field "leaf_version" (str "acdp-log-leaf/1") (
                field "ctx_id" (str ctx_id) (
                  field "lineage_id" (str lineage_id) (
                    field "origin_registry" (str origin_registry) (
                      field "created_at" (str created_at) (
                        field "content_hash" (str content_hash) (
                          field "key_fingerprint" (str key_fingerprint) (
                            field "receipt_hash"
                              (str (String.◌++◌ "sha256:" (host.sha256_hex bytes))) end)))))))))
      ]

  with_usable : String → Fields → (String → LeafOutcome) → LeafOutcome
  with_usable name receipt k = elim (usable name receipt) [ none ↦ unusable | some s ↦ k s ]

  unfoldable pub build_log_leaf : Fields → LeafOutcome
  unfolding usable with_usable leaf_of
  build_log_leaf r = with_usable "ctx_id" r (λ ctx_id. with_usable "lineage_id" r (λ lineage_id.
      with_usable "origin_registry" r (λ origin_registry. with_usable "created_at" r (λ created_at.
        with_usable "content_hash" r (λ content_hash.
          with_usable "key_fingerprint" r (λ key_fingerprint.
            leaf_of r ctx_id lineage_id origin_registry created_at content_hash
              key_fingerprint))))))
