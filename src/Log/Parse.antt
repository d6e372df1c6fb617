-- ===== src/Log/Parse.antt =====
-- The parsers of src/audit/log-verify.ts: the closed checkpoint (`parseCheckpoint`) and the open
-- proof responses (`parseInclusionProof`, `parseConsistencyProof`).
use acdp_control_plane.Prelude.{
  ℕ, Bool, true, false, ◌&&◌, ◌||◌, Option, none, some, String, List, [], ◌∷◌, length, all, codes,
  leb, ◌==◌, str_eq, if◌then◌else◌, Json, str, num, obj, arr, Number, nat, frac, Fields, items,
  member, keys, drop, str_mem, sort_strings, join, starts_with,
}
use acdp_control_plane.Log.Hash.{wire_hash_re}

pub data CheckpointReason : Type 0 where
  not_an_object schema_violation bad_version malformed_log_id bad_tree_size : CheckpointReason
  malformed_root_hash bad_timestamp signature_not_object signature_not_closed : CheckpointReason

pub data ProofReason : Type 0 where
  proof_not_an_object no_log_id bad_leaf_index bad_proof_size bad_first_size : ProofReason
  bad_second_size bad_path no_checkpoint : ProofReason

pub data Parsed (R A : Type 0) : Type 0 where
  parsed : A → Parsed R A
  refused : R → Parsed R A

pub record Signature : Type 0 where
  pub algorithm : String
  pub key_id : String
  pub value : String

pub record LogCheckpoint : Type 0 where
  pub checkpoint_version : String
  pub log_id : String
  pub tree_size : ℕ
  pub root_hash : String
  pub timestamp : String
  pub signature : Signature

-- `LOG_ID_AUTHORITY`: `[a-zA-Z0-9.%:-]`
unfoldable pub is_authority_char : ℕ → Bool
is_authority_char c =
    leb b'a' c && leb c b'z'
    || leb b'A' c && leb c b'Z'
    || leb b'0' c && leb c b'9'
    || c == b'.'
    || c == b'%'
    || c == b':'
    || c == b'-'

-- `LOG_ID_INSTANCE`: `[a-z0-9-]`
is_instance_char : ℕ → Bool
is_instance_char c = leb b'a' c && leb c b'z' || leb b'0' c && leb c b'9' || c == b'-'

-- The rest of `LOG_ID_RE` after its authority: `/log/` and 1 to 32 characters of the instance.
log_instance_re : List ℕ → Bool
unfolding is_instance_char
log_instance_re cs =
    starts_with (codes "/log/") cs
    && leb 1 (length (drop 5 cs))
    && leb (length (drop 5 cs)) 32
    && all is_instance_char (drop 5 cs)

-- The authority, which has at least one character when `seen` holds, and what follows. The class
-- of its characters has no slash, so it ends at the first character outside of it.
authority_re : Bool → List ℕ → Bool
authority_re seen [] = false
authority_re seen (c ∷ cs) =
    let rest = authority_re true cs in
    if is_authority_char c then rest else seen && log_instance_re (c ∷ cs)

-- `LOG_ID_RE`: `^did:web:<authority>+/log/<instance>{1,32}$`
unfoldable pub log_id_re : List ℕ → Bool
unfolding authority_re is_authority_char log_instance_re
log_id_re cs = starts_with (codes "did:web:") cs && authority_re false (drop 8 cs)

-- A template, with `d` for `\d` and every other character for itself.
template_re : List ℕ → List ℕ → Bool
template_re [] [] = true
template_re (t ∷ ts) (c ∷ cs) =
    (if t == b'd' then leb b'0' c && leb c b'9' else t == c) && template_re ts cs
template_re _ _ = false

-- `CANONICAL_TS_RE`
unfoldable pub canonical_ts_re : List ℕ → Bool
unfolding template_re
canonical_ts_re cs = template_re (codes "dddd-dd-ddTdd:dd:dd.dddZ") cs

abbrev pub checkpoint_members : List String
checkpoint_members =
    "checkpoint_version" ∷ "log_id" ∷ "tree_size" ∷ "root_hash" ∷ "timestamp" ∷ "signature" ∷ []

-- `Number.isFinite`, on what `Date.parse` gives: an integer, or `NaN`, which is `frac`.
unfoldable pub is_finite : Number → Bool
is_finite frac = false
is_finite _ = true

-- The string members that are read by `typeof … === 'string'`.
abbrev pub string_at : String → Fields → Option String
string_at key o = elim (member key o) [ some (str s) ↦ some s | _ ↦ none ]

-- `Number.isInteger(v) && v >= 0`
abbrev pub natural_at : String → Fields → Option ℕ
natural_at key o = elim (member key o) [ some (num (nat n)) ↦ some n | _ ↦ none ]

infixl 5 ◌>>=◌ ◌>>◌
abbrev pub ◌>>=◌ : {R A B : Type 0} → Parsed R A → (A → Parsed R B) → Parsed R B
parsed a >>= f = f a
refused r >>= f = refused r

abbrev pub ◌>>◌ : {R B : Type 0} → Parsed R (Unit {0}) → Parsed R B → Parsed R B
m >> k = m >>= λ _. k

abbrev pub require : {R : Type 0} → Bool → R → Parsed R (Unit {0})
require true r = parsed tt
require false r = refused r

-- A member that is a text which passes a test.
abbrev pub string_where : {R : Type 0} → (String → Bool) → String → Fields → R → Parsed R String
string_where p key o r = elim (string_at key o) [
  | none ↦ refused r
  | some s ↦ if p s then parsed s else refused r
]

abbrev pub natural_or : {R : Type 0} → String → Fields → R → Parsed R ℕ
natural_or key o r = elim (natural_at key o) [ none ↦ refused r | some n ↦ parsed n ]

-- `extra` and `missing` are both empty.
unfoldable pub closed_members : List String → Fields → Bool
closed_members expected o =
    all (λ k. str_mem k expected) (keys o) && all (λ k. str_mem k (keys o)) expected

unfoldable pub parse_signature : Json → Parsed CheckpointReason Signature
unfolding sort_strings join
parse_signature (obj s) = do
  require (str_eq (join "," (sort_strings (keys s))) "algorithm,key_id,value") signature_not_closed
  algorithm ← string_where (λ _. true) "algorithm" s signature_not_closed
  key_id ← string_where (λ _. true) "key_id" s signature_not_closed
  value ← string_where (λ _. true) "value" s signature_not_closed
  parsed (record { algorithm = algorithm; key_id = key_id; value = value })
parse_signature _ = refused signature_not_object

abbrev signature_member : Fields → Parsed CheckpointReason Signature
signature_member o = elim (member "signature" o) [
  | none ↦ refused signature_not_object
  | some v ↦ parse_signature v
]

-- `date_parse` stands for `Date.parse`.
module _ (date_parse : String → Number) where
  timestamp_ok : String → Bool
  timestamp_ok s = canonical_ts_re (codes s) && is_finite (date_parse s)

  parse_members : Fields → Parsed CheckpointReason LogCheckpoint
  parse_members o = do
    require (closed_members checkpoint_members o) schema_violation
    version ← string_where (λ s. str_eq s "acdp-log/1") "checkpoint_version" o bad_version
    log_id ← string_where (λ s. log_id_re (codes s)) "log_id" o malformed_log_id
    tree_size ← natural_or "tree_size" o bad_tree_size
    root_hash ← string_where (λ s. wire_hash_re (codes s)) "root_hash" o malformed_root_hash
    timestamp ← string_where timestamp_ok "timestamp" o bad_timestamp
    signature ← signature_member o
    parsed (record {
      checkpoint_version = version;
      log_id = log_id;
      tree_size = tree_size;
      root_hash = root_hash;
      timestamp = timestamp;
      signature = signature;
    })

  unfoldable pub parse_checkpoint : Json → Parsed CheckpointReason LogCheckpoint
  unfolding parse_members timestamp_ok is_finite
  parse_checkpoint (obj o) = parse_members o
  parse_checkpoint _ = refused not_an_object

pub record InclusionProof : Type 0 where
  pub log_id : String
  pub leaf_index : ℕ
  pub tree_size : ℕ
  pub inclusion_path : List String
  pub log_checkpoint : Json

pub record ConsistencyProof : Type 0 where
  pub log_id : String
  pub first_tree_size : ℕ
  pub second_tree_size : ℕ
  pub consistency_path : List String
  pub log_checkpoint : Json

-- `isWireHashArray(v)`, with the texts of the array.
unfoldable pub wire_hash_array : List Json → Option (List String)
wire_hash_array [] = some []
wire_hash_array (str s ∷ vs) =
    let rest = wire_hash_array vs in
    if wire_hash_re (codes s) then (elim rest [ none ↦ none | some ss ↦ some (s ∷ ss) ]) else none
wire_hash_array (_ ∷ vs) = none

abbrev path_member : String → Fields → Parsed ProofReason (List String)
path_member key o = elim (member key o) [
  | some (arr vs) ↦ elim (wire_hash_array (items vs)) [
    | none ↦ refused bad_path
    | some path ↦ parsed path
  ]
  | _ ↦ refused bad_path
]

-- `typeof v === 'object'` holds of an array too.
abbrev checkpoint_member : Fields → Parsed ProofReason Json
checkpoint_member o = elim (member "log_checkpoint" o) [
  | some (obj c) ↦ parsed (obj c)
  | some (arr vs) ↦ parsed (arr vs)
  | _ ↦ refused no_checkpoint
]

unfoldable pub parse_inclusion_proof : Json → Parsed ProofReason InclusionProof
parse_inclusion_proof (obj o) = do
  log_id ← string_where (λ _. true) "log_id" o no_log_id
  leaf_index ← natural_or "leaf_index" o bad_leaf_index
  tree_size ← natural_or "tree_size" o bad_proof_size
  path ← path_member "inclusion_path" o
  checkpoint ← checkpoint_member o
  parsed (record {
    log_id = log_id;
    leaf_index = leaf_index;
    tree_size = tree_size;
    inclusion_path = path;
    log_checkpoint = checkpoint;
  })
parse_inclusion_proof _ = refused proof_not_an_object

unfoldable pub parse_consistency_proof : Json → Parsed ProofReason ConsistencyProof
parse_consistency_proof (obj o) = do
  log_id ← string_where (λ _. true) "log_id" o no_log_id
  first ← natural_or "first_tree_size" o bad_first_size
  second ← natural_or "second_tree_size" o bad_second_size
  path ← path_member "consistency_path" o
  checkpoint ← checkpoint_member o
  parsed (record {
    log_id = log_id;
    first_tree_size = first;
    second_tree_size = second;
    consistency_path = path;
    log_checkpoint = checkpoint;
  })
parse_consistency_proof _ = refused proof_not_an_object
