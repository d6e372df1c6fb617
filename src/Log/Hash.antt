-- ===== src/Log/Hash.antt =====
-- Wire hashes, buffers and the domain-separated hashes of src/audit/log-verify.ts. SHA-256 and the
-- canonicalizer of the SDK are parameters.
pub mod Collisions
pub mod StandIn
use acdp_control_plane.Prelude.{
  ℕ, ◌+◌, ◌-◌, ◌*◌, ◌≡◌, refl, Bool, true, false, ◌&&◌, ◌||◌, Option, none, some, List, [], ◌∷◌,
  ◌++◌, arith, length, drop, all, codes, leb, ◌==◌, if◌then◌else◌, Json, str, subst, inl, inr,
  Bool-cases, ==→eq, starts_with,
}

-- A `Buffer` is the list of its bytes.
abbrev pub Buffer : Type 0
Buffer = List ℕ

-- `a.equals(b)`
unfoldable pub equals : Buffer → Buffer → Bool
equals [] [] = true
equals (a ∷ as') (b ∷ bs) = a == b && equals as' bs
equals _ _ = false

-- `[0-9a-f]`
unfoldable pub is_hex : ℕ → Bool
is_hex c = leb b'0' c && leb c b'9' || leb b'a' c && leb c b'f'

-- `WIRE_HASH_RE`: `/^sha256:[0-9a-f]{64}$/`
unfoldable pub wire_hash_re : List ℕ → Bool
unfolding starts_with is_hex
wire_hash_re cs =
    starts_with (codes "sha256:") cs && length (drop 7 cs) == 64 && all is_hex (drop 7 cs)

hex_digit : ℕ → ℕ
hex_digit c = if leb c b'9' then c - b'0' else c - b'a' + 10

-- `Buffer.from(…, 'hex')`, on pairs of lower-case digits.
unfoldable pub from_hex : List ℕ → Buffer
unfolding hex_digit
from_hex [] = []
from_hex (h ∷ []) = []
from_hex (h ∷ l ∷ cs) = (hex_digit h * 16 + hex_digit l) ∷ from_hex cs

unfoldable pub wire_hash_to_buf : Json → Option Buffer
wire_hash_to_buf (str s) =
    if wire_hash_re (codes s) then some (from_hex (drop 7 (codes s))) else none
wire_hash_to_buf _ = none

module _ (sha256 : List ℕ → Buffer) where
  -- `leafHash` after the canonicalization: SHA-256(0x00 ‖ bytes).
  unfoldable pub leaf_bytes_hash : List ℕ → Buffer
  leaf_bytes_hash bytes = sha256 (0x00 ∷ bytes)

  -- SHA-256(0x01 ‖ left ‖ right)
  unfoldable pub node_hash : Buffer → Buffer → Buffer
  node_hash left right = sha256 (0x01 ∷ left ++ right)

-- `canonicalize` stands for `AcdpCanonicalizer.canonicalize(JSON.stringify(·))`; `none` is a throw.
module _ (sha256 : List ℕ → Buffer) (canonicalize : Json → Option (List ℕ)) where
  unfoldable pub leaf_hash : Json → Option Buffer
  unfolding leaf_bytes_hash
  leaf_hash leaf = elim (canonicalize leaf) [
    | none ↦ none
    | some canonical ↦ some (leaf_bytes_hash sha256 canonical)
  ]

pub equals→eq : (a b : Buffer) → equals a b ≡ true → a ≡ b
unfolding equals
equals→eq [] [] h = refl
equals→eq [] (b ∷ bs) h = cc
equals→eq (a ∷ as') [] h = cc
equals→eq (a ∷ as') (b ∷ bs) h = ground (arith, equals→eq as' bs)

pub equals_refl : (a : Buffer) → equals a a ≡ true
unfolding equals
equals_refl [] = refl
equals_refl (a ∷ as') = ground (arith, equals_refl as')

length-from_hex : (n : ℕ) (cs : List ℕ) → length cs ≡ n + n → length (from_hex cs) ≡ n
unfolding from_hex
length-from_hex n [] h = omega arith
length-from_hex n (c ∷ []) h = absurd (omega arith)
length-from_hex n (h ∷ l ∷ cs) e = omega (arith, length-from_hex (n - 1) cs (omega arith))

and_last : (a b c : Bool) → (a && b && c) ≡ true → b ≡ true
and_last a b c h = ground arith

length-wire_hash_re : (cs : List ℕ) → wire_hash_re cs ≡ true → length (drop 7 cs) ≡ 64
unfolding wire_hash_re
length-wire_hash_re cs h =
    let found = and_last (starts_with (codes "sha256:") cs) (length (drop 7 cs) == 64) _ h in
    ==→eq (length (drop 7 cs)) 64 found

length-decode :
    (cs : List ℕ) (b : Buffer)
    → (if wire_hash_re cs then some (from_hex (drop 7 cs)) else none) ≡ some b
    → length b ≡ 32
length-decode cs b h = elim (Bool-cases (wire_hash_re cs)) [
  | inr bad ↦ cc bad
  | inl good ↦
      let found : some (from_hex (drop 7 cs)) ≡ some b = rw good at h in
      let same : from_hex (drop 7 cs) ≡ b = cc found in
      subst (λ (t : Buffer). length t ≡ 32) same
        (length-from_hex 32 (drop 7 cs) (length-wire_hash_re cs good))
]

-- What decodes has 32 bytes.
pub length-wire_hash_to_buf : (v : Json) (b : Buffer) → wire_hash_to_buf v ≡ some b → length b ≡ 32
unfolding wire_hash_to_buf
length-wire_hash_to_buf (str s) b h = length-decode (codes s) b h
length-wire_hash_to_buf _ b h = cc
