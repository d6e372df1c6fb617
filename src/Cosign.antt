-- ===== src/Cosign.antt =====
-- src/audit/cosign.ts: the cosignatures of witnesses, their verification, and how fresh they are.
mod Tests
pub mod Quorum
use acdp_control_plane.Prelude.{
  ℕ, suc, ◌+◌, ◌*◌, String, List, [], ◌∷◌, Bool, true, false, ◌&&◌, ◌||◌, not, Option, none, some,
  ◌==◌, leb, ltb, str_eq, str_mem, all, length, codes, drop, starts_with, sort_strings, join,
  if◌then◌else◌, Json, str, num, obj, Number, nat, neg, frac, Fields, member, keys, end, field,
  bool,
}
use Prim.Native.String
use Prim.Native.Char.{code}
use acdp_control_plane.Log.Hash.{wire_hash_re}
use acdp_control_plane.Log.Parse.{
  Parsed, parsed, refused, Signature, LogCheckpoint, is_authority_char, log_id_re, canonical_ts_re,
  is_finite, string_where, natural_or, require, ◌>>=◌, ◌>>◌, closed_members,
}

pub record WitnessedCheckpoint : Type 0 where
  pub log_id : String
  pub tree_size : ℕ
  pub root_hash : String
  pub timestamp : String

pub record LogCosignature : Type 0 where
  pub cosignature_version : String
  pub witness_id : String
  pub witnessed_checkpoint : WitnessedCheckpoint
  pub witnessed_at : String
  pub signature : Signature

-- A constructor for each message of the parser and of the verification.
pub data CosignReason : Type 0 where
  not_an_object schema_violation bad_version malformed_witness_id bad_witnessed_at : CosignReason
  checkpoint_not_object checkpoint_not_closed malformed_log_id bad_tree_size : CosignReason
  malformed_root_hash bad_timestamp signature_not_object signature_not_closed : CosignReason
  unsupported_algorithm foreign_key not_canonical signature_invalid in_the_future : CosignReason
  native_threw native_not_json native_refused : CosignReason

pub data CosignOutcome : Type 0 where
  ok : CosignOutcome
  fail : CosignReason → CosignOutcome

abbrev pub cosignature_version_text : String
cosignature_version_text = "acdp-cosig/1"

abbrev pub cosignature_max_future_skew_ms : ℕ
cosignature_max_future_skew_ms = 120000

-- `[1-9A-HJ-NP-Za-km-z]`
is_base58_char : ℕ → Bool
is_base58_char c =
    leb b'1' c && leb c b'9'
    || leb b'A' c && leb c b'H'
    || leb b'J' c && leb c b'N'
    || leb b'P' c && leb c b'Z'
    || leb b'a' c && leb c b'k'
    || leb b'm' c && leb c b'z'

-- `WITNESS_DID_RE`
unfoldable pub witness_did_re : List ℕ → Bool
unfolding is_base58_char
witness_did_re cs =
    starts_with (codes "did:web:") cs
      && leb 1 (length (drop 8 cs))
      && all is_authority_char (drop 8 cs)
    || starts_with (codes "did:key:z") cs
      && leb 1 (length (drop 9 cs))
      && all is_base58_char (drop 9 cs)

abbrev member_or :
    {A : Type 0}
    → (Json → Parsed CosignReason A)
    → String
    → Fields
    → CosignReason
    → Parsed CosignReason A
member_or p key o r = elim (member key o) [ none ↦ refused r | some v ↦ p v ]

parse_cosignature_signature : Json → Parsed CosignReason Signature
parse_cosignature_signature (obj s) = do
  require (str_eq (join "," (sort_strings (keys s))) "algorithm,key_id,value") signature_not_closed
  algorithm ← string_where (λ _. true) "algorithm" s signature_not_closed
  key_id ← string_where (λ _. true) "key_id" s signature_not_closed
  value ← string_where (λ _. true) "value" s signature_not_closed
  parsed (record { algorithm = algorithm; key_id = key_id; value = value })
parse_cosignature_signature _ = refused signature_not_object

-- `date_parse` stands for `Date.parse`.
module _ (date_parse : String → Number) where
  instant_ok : String → Bool
  instant_ok s = canonical_ts_re (codes s) && is_finite (date_parse s)

  unfoldable pub validate_witnessed_checkpoint : Json → Parsed CosignReason WitnessedCheckpoint
  unfolding instant_ok
  validate_witnessed_checkpoint (obj o) = do
    require (closed_members ("log_id" ∷ "tree_size" ∷ "root_hash" ∷ "timestamp" ∷ []) o)
        checkpoint_not_closed
    log_id ← string_where (λ s. log_id_re (codes s)) "log_id" o malformed_log_id
    tree_size ← natural_or "tree_size" o bad_tree_size
    root_hash ← string_where (λ s. wire_hash_re (codes s)) "root_hash" o malformed_root_hash
    timestamp ← string_where instant_ok "timestamp" o bad_timestamp
    parsed (record {
      log_id = log_id;
      tree_size = tree_size;
      root_hash = root_hash;
      timestamp = timestamp;
    })
  validate_witnessed_checkpoint _ = refused checkpoint_not_object

  unfoldable pub parse_cosignature : Json → Parsed CosignReason LogCosignature
  unfolding validate_witnessed_checkpoint parse_cosignature_signature instant_ok
  parse_cosignature (obj o) = do
    require
        (closed_members
          ("cosignature_version" ∷ "witness_id" ∷ "witnessed_checkpoint" ∷ "witnessed_at"
            ∷ "signature" ∷ [])
          o)
        schema_violation
    version ←
        string_where (λ s. str_eq s cosignature_version_text) "cosignature_version" o bad_version
    witness_id ← string_where (λ s. witness_did_re (codes s)) "witness_id" o malformed_witness_id
    checkpoint ←
        member_or validate_witnessed_checkpoint "witnessed_checkpoint" o checkpoint_not_object
    witnessed_at ← string_where instant_ok "witnessed_at" o bad_witnessed_at
    signature ← member_or parse_cosignature_signature "signature" o signature_not_object
    parsed (record {
      cosignature_version = version;
      witness_id = witness_id;
      witnessed_checkpoint = checkpoint;
      witnessed_at = witnessed_at;
      signature = signature;
    })
  parse_cosignature _ = refused not_an_object

  -- `ts - nowMs > maxFutureSkewMs` fails; a comparison with `NaN` is false.
  unfoldable pub cosignature_freshness_ok : LogCosignature → ℕ → ℕ → Bool
  cosignature_freshness_ok c now skew = elim (date_parse c.witnessed_at) [
    | nat ts ↦ leb ts (now + skew)
    | neg ts ↦ true
    | frac ↦ true
  ]

  -- `nowMs - ts <= maxAgeSecs * 1000`, and always without a limit.
  unfoldable pub cosignature_age_ok : LogCosignature → ℕ → Option ℕ → Bool
  cosignature_age_ok c now none = true
  cosignature_age_ok c now (some max_age) = elim (date_parse c.witnessed_at) [
    | nat ts ↦ leb now (ts + max_age * 1000)
    | neg ts ↦ leb (now + suc ts) (max_age * 1000)
    | frac ↦ false
  ]

-- `stripFragment`
unfoldable pub strip_fragment : String → String
strip_fragment String.[] = String.[]
strip_fragment (String.◌∷◌ c rest) =
    if code c == b'#' then String.[] else String.◌∷◌ c (strip_fragment rest)

-- The cosignature without its signature.
unfoldable pub unsigned : LogCosignature → Json
unsigned c = obj (
    field "cosignature_version" (str c.cosignature_version) (
      field "witness_id" (str c.witness_id) (
        field "witnessed_checkpoint"
          (obj (
            field "log_id" (str c.witnessed_checkpoint.log_id) (
              field "tree_size" (num (nat c.witnessed_checkpoint.tree_size)) (
                field "root_hash" (str c.witnessed_checkpoint.root_hash)
                  (field "timestamp" (str c.witnessed_checkpoint.timestamp) end)))))
          (field "witnessed_at" (str c.witnessed_at) end))))

pub record WitnessSigner : Type 0 where
  pub witness_id : String
  pub key_id : String
  pub sign_ascii_to_base64 : String → String

-- What the SDK's check does: it throws, returns no JSON, or an object.
pub data CosignReply : Type 0 where
  threw not_json : CosignReply
  replied : Fields → CosignReply

is_true : Option Json → Bool
is_true (some (bool b)) = b
is_true _ = false

unfoldable pub native_cosign_outcome : CosignReply → CosignOutcome
unfolding is_true
native_cosign_outcome threw = fail native_threw
native_cosign_outcome not_json = fail native_not_json
native_cosign_outcome (replied fs) = if is_true (member "valid" fs) then ok else fail native_refused

-- The canonicalizer, SHA-256 in hex, and the check of an Ed25519 signature by key, message and value.
module _ (canonicalize : Json → Option (List ℕ)) (sha256_hex : List ℕ → String)
    (verify_signature_b64 : String → String → String → Bool) where
  unfoldable pub cosignature_hash : Json → Option String
  cosignature_hash v = elim (canonicalize v) [
    | none ↦ none
    | some bytes ↦ some (String.◌++◌ "sha256:" (sha256_hex bytes))
  ]

  -- `tsMintCosignature`; `none` when the cosignature has no canonical form.
  unfoldable pub ts_mint_cosignature :
      WitnessedCheckpoint → String → WitnessSigner → Option (LogCosignature × String)
  ts_mint_cosignature checkpoint witnessed_at signer =
      let draft : LogCosignature = record {
        cosignature_version = cosignature_version_text;
        witness_id = signer.witness_id;
        witnessed_checkpoint = checkpoint;
        witnessed_at = witnessed_at;
        signature = record { algorithm = "ed25519"; key_id = signer.key_id; value = "" };
      } in
      elim (cosignature_hash (unsigned draft)) [
        | none ↦ none
        | some hash ↦ some (
          record draft {
            signature = record {
              algorithm = "ed25519";
              key_id = signer.key_id;
              value = signer.sign_ascii_to_base64 hash;
            };
          },
          hash,
        )
      ]

  -- What is left of `nativeMintCosignature` once the SDK has answered.
  unfoldable pub hashed : LogCosignature → Option (LogCosignature × String)
  hashed c = elim (cosignature_hash (unsigned c)) [ none ↦ none | some hash ↦ some (c, hash) ]

  -- `mintCosignature`; `native` is `none` where the SDK cannot mint for the signer, throws, or returns
  -- no JSON, and then the host mints.
  module _ (native : WitnessedCheckpoint → String → WitnessSigner → Option LogCosignature) where
    unfoldable pub mint_cosignature :
        WitnessedCheckpoint → String → WitnessSigner → Option (LogCosignature × String)
    unfolding hashed
    mint_cosignature checkpoint witnessed_at signer = elim (native checkpoint witnessed_at signer) [
      | none ↦ ts_mint_cosignature checkpoint witnessed_at signer
      | some c ↦ elim (hashed c) [
        | none ↦ ts_mint_cosignature checkpoint witnessed_at signer
        | some made ↦ some made
      ]
    ]

  unfoldable pub ts_verify_cosignature : LogCosignature → String → CosignOutcome
  unfolding strip_fragment cosignature_hash
  ts_verify_cosignature c key =
      if not (str_eq c.signature.algorithm "ed25519")
      then fail unsupported_algorithm
      else if not (str_eq (strip_fragment c.signature.key_id) c.witness_id)
      then fail foreign_key
      else elim (cosignature_hash (unsigned c)) [
        | none ↦ fail not_canonical
        | some hash ↦
            if verify_signature_b64 key hash c.signature.value then ok else fail signature_invalid
      ]

  -- `verifyCosignature`; `native` is the SDK's check, and `none` for an SDK without one.
  module _ (native : Option (LogCosignature → String → LogCheckpoint → CosignReply)) where
    unfoldable pub verify_cosignature :
        LogCosignature → String → Option LogCheckpoint → CosignOutcome
    verify_cosignature c key none = ts_verify_cosignature c key
    verify_cosignature c key (some expected) = elim native [
      | none ↦ ts_verify_cosignature c key
      | some check ↦ native_cosign_outcome (check c key expected)
    ]
