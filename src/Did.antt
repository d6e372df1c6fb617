-- ===== src/Did.antt =====
-- Registry authorities and did:web identifiers (src/common/did-authority.ts).
pub mod RoundTrip
use Prim.Native.Char.{Char, code}
use Prim.Native.String
use acdp_control_plane.Prelude.{
  ℕ, String, List, [], ◌∷◌, Bool, true, false, ◌&&◌, ◌||◌, not, Option, none, some, ◌==◌, leb, any,
  all, codes, is_white, if◌then◌else◌,
}

-- `authority.trim().length > 0 && !authority.includes('%')`
unfoldable pub is_canonical_authority : String → Bool
is_canonical_authority authority =
    not (all is_white (codes authority)) && not (any (λ c. c == b'%') (codes authority))

-- `authority.replaceAll(':', '%3A')`
unfoldable pub encode_colons : String → String
encode_colons String.[] = String.[]
encode_colons (String.◌∷◌ c rest) =
    let more = encode_colons rest in
    if code c == b':'
    then String.◌∷◌ "%" (String.◌∷◌ "3" (String.◌∷◌ "A" more))
    else String.◌∷◌ c more

-- `rest.replaceAll('%3A', ':')`
unfoldable pub decode_colons : String → String
decode_colons String.[] = String.[]
decode_colons (String.◌∷◌ c String.[]) = String.◌∷◌ c String.[]
decode_colons (String.◌∷◌ c (String.◌∷◌ d String.[])) = String.◌∷◌ c (String.◌∷◌ d String.[])
decode_colons (String.◌∷◌ c (String.◌∷◌ d (String.◌∷◌ e rest))) =
    elim (code c == b'%' && code d == b'3' && code e == b'A') [
      | true ↦ String.◌∷◌ ":" (decode_colons rest)
      | false ↦ String.◌∷◌ c (decode_colons (String.◌∷◌ d (String.◌∷◌ e rest)))
    ]

-- `rest.split(':', 1)[0]`
unfoldable pub first_segment : String → String
first_segment String.[] = String.[]
first_segment (String.◌∷◌ c rest) =
    let more = first_segment rest in if code c == b':' then String.[] else String.◌∷◌ c more

abbrev pub did_web_prefix : String
did_web_prefix = "did:web:"

-- The text after a prefix, if it starts with it.
unfoldable pub after_prefix : String → String → Option String
after_prefix String.[] s = some s
after_prefix (String.◌∷◌ p ps) String.[] = none
after_prefix (String.◌∷◌ p ps) (String.◌∷◌ c s) = elim (code p == code c) [
  | true ↦ after_prefix ps s
  | false ↦ none
]

unfoldable pub authority_to_did_web : String → Option String
unfolding is_canonical_authority encode_colons
authority_to_did_web authority =
    if not (is_canonical_authority authority)
    then none
    else some (String.◌++◌ did_web_prefix (encode_colons authority))

unfoldable pub did_web_to_authority : String → Option String
unfolding after_prefix first_segment decode_colons
did_web_to_authority did = elim (after_prefix did_web_prefix did) [
  | none ↦ none
  | some rest ↦ some (decode_colons (first_segment rest))
]
