-- ===== src/Audit/Receipt/CtxId.antt =====
-- The grammar CANONICAL_CTX_ID of src/audit/receipt-verify.ts, part by part.
use acdp_control_plane.Prelude.{
  ℕ, String, List, [], ◌∷◌, Bool, false, ◌&&◌, ◌||◌, none, some, ◌==◌, leb, all, length, codes,
  split_on,
}
use acdp_control_plane.Did.{after_prefix}

-- `[a-z0-9]`
abbrev alphanumeric : ℕ → Bool
alphanumeric c = leb b'a' c && leb c b'z' || leb b'0' c && leb c b'9'

-- `[0-9a-f]`
abbrev hex_digit : ℕ → Bool
hex_digit c = leb b'0' c && leb c b'9' || leb b'a' c && leb c b'f'

abbrev first_is : (ℕ → Bool) → List ℕ → Bool
first_is p [] = false
first_is p (c ∷ cs) = p c

abbrev last_is : (ℕ → Bool) → List ℕ → Bool
last_is p [] = false
last_is p (c ∷ []) = p c
last_is p (c ∷ d ∷ cs) = last_is p (d ∷ cs)

-- `[a-z0-9](?:[a-z0-9-]*[a-z0-9])?`
unfoldable pub is_label : String → Bool
is_label label =
    let cs = codes label in
    first_is alphanumeric cs && last_is alphanumeric cs && all (λ c. alphanumeric c || c == b'-') cs

-- `[0-9a-f]{n}`
abbrev is_hex : ℕ → String → Bool
is_hex n s = let cs = codes s in length cs == n && all hex_digit cs

-- A version 4 UUID in lower case.
unfoldable pub is_uuid : List String → Bool
is_uuid (a ∷ b ∷ c ∷ d ∷ e ∷ []) =
    is_hex 8 a
    && is_hex 4 b
    && is_hex 4 c
    && first_is (λ x. x == b'4') (codes c)
    && is_hex 4 d
    && first_is (λ x. x == b'8' || x == b'9' || x == b'a' || x == b'b') (codes d)
    && is_hex 12 e
is_uuid _ = false

abbrev authority_and_id : List String → Bool
unfolding is_label is_uuid
authority_and_id (authority ∷ id ∷ []) =
    all is_label (split_on b'.' authority) && is_uuid (split_on b'-' id)
authority_and_id _ = false

unfoldable pub is_canonical_ctx_id : String → Bool
unfolding authority_and_id
is_canonical_ctx_id ctx_id = elim (after_prefix "acdp://" ctx_id) [
  | none ↦ false
  | some rest ↦ authority_and_id (split_on b'/' rest)
]
