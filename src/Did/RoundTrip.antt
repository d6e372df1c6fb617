-- ===== src/Did/RoundTrip.antt =====
-- An authority survives the way to its did:web identifier and back.
use Prim.Native.Char.{Char, code}
use Prim.Native.String
use text.Mathlib.TextEquality.{Char-path}
use text.Mathlib.TextLemmas.{nil-append, cons-append}
use acdp_control_plane.Prelude.{
  ◌≡◌, refl, ap, sym, subst, ◌≢◌, ◌∙◌, String, Bool, true, false, ◌&&◌, not, Option, none, some,
  ◌==◌, arith, any, all, codes, is_white, Bool-cases, inl, inr, ==→eq,
}
use acdp_control_plane.Did.{
  is_canonical_authority, encode_colons, decode_colons, first_segment, did_web_prefix, after_prefix,
  authority_to_did_web, did_web_to_authority,
}

first_segment-encode_colons : (s : String) → first_segment (encode_colons s) ≡ encode_colons s
unfolding first_segment encode_colons
first_segment-encode_colons String.[] = refl
first_segment-encode_colons (String.◌∷◌ c rest) = elim (Bool-cases (code c == b':')) [
  | inl colon ↦
      rw (colon, encode_colons, first_segment)
        (ap (λ t. String.◌∷◌ "%" (String.◌∷◌ "3" (String.◌∷◌ "A" t)))
          (first_segment-encode_colons rest))
  | inr other ↦
      rw (other, encode_colons)
        (rw (other, first_segment) (ap (String.◌∷◌ c) (first_segment-encode_colons rest)))
]

last_not : (a b : Bool) → (a && not b) ≡ true → b ≡ false
last_not a b h = ground arith

-- A character that is no `%` is passed on.
decode_plain :
    (c : Char) (s : String)
    → (code c == b'%') ≡ false
    → decode_colons (String.◌∷◌ c s) ≡ String.◌∷◌ c (decode_colons s)
unfolding decode_colons
decode_plain c String.[] h = refl
decode_plain c (String.◌∷◌ d String.[]) h = refl
decode_plain c (String.◌∷◌ d (String.◌∷◌ e rest)) h = rw (h, decode_colons) refl

decode_colon :
    (s : String)
    → decode_colons (String.◌∷◌ "%" (String.◌∷◌ "3" (String.◌∷◌ "A" s)))
      ≡ String.◌∷◌ ":" (decode_colons s)
unfolding decode_colons
decode_colon s = refl

decode-encode :
    (s : String) → any (λ c. c == b'%') (codes s) ≡ false → decode_colons (encode_colons s) ≡ s
unfolding encode_colons
decode-encode String.[] h = unfold decode_colons in refl
decode-encode (String.◌∷◌ c rest) h =
    let plain : (code c == b'%') ≡ false = ground (arith, h) in
    let ih = decode-encode rest (ground (arith, h)) in
    elim (Bool-cases (code c == b':')) [
      | inl colon ↦
          rw (colon, encode_colons)
            (decode_colon (encode_colons rest)
              ∙ ap (String.◌∷◌ ":") ih
              ∙ ap (λ d. String.◌∷◌ d rest) (sym (Char-path c ":" (==→eq (code c) 58 colon))))
      | inr other ↦
          rw (other, encode_colons)
            (decode_plain c (encode_colons rest) plain ∙ ap (String.◌∷◌ c) ih)
    ]

after_prefix-append : (p s : String) → after_prefix p (String.◌++◌ p s) ≡ some s
unfolding after_prefix
after_prefix-append String.[] s = ap (after_prefix String.[]) (nil-append s)
after_prefix-append (String.◌∷◌ c p) s =
    let same : (code c == code c) ≡ true = ground arith in
    rw (cons-append c p s) (rw (same, after_prefix) (after_prefix-append p s))

decoded :
    (authority : String)
    → any (λ c. c == b'%') (codes authority) ≡ false
    → did_web_to_authority (String.◌++◌ did_web_prefix (encode_colons authority)) ≡ some authority
unfolding did_web_to_authority
decoded authority h =
    rw (after_prefix-append did_web_prefix (encode_colons authority), did_web_to_authority)
      (ap some
        (ap decode_colons (first_segment-encode_colons authority) ∙ decode-encode authority h))

no_percent :
    (authority : String)
    → is_canonical_authority authority ≡ true
    → any (λ c. c == b'%') (codes authority) ≡ false
unfolding is_canonical_authority
no_percent authority h =
    last_not (not (all is_white (codes authority))) (any (λ c. c == b'%') (codes authority)) h

none_not_some : {s : String} → ◌≢◌ {A = Option String} none (some s)
none_not_some h = cc h

-- The identifier of an authority, where it has one, leads back to the authority.
pub did_web_to_authority-authority_to_did_web :
    (authority did : String)
    → authority_to_did_web authority ≡ some did
    → did_web_to_authority did ≡ some authority
unfolding authority_to_did_web did_web_to_authority is_canonical_authority
did_web_to_authority-authority_to_did_web authority did h =
    elim (Bool-cases (is_canonical_authority authority)) [
      | inl canonical ↦
          let made : some (String.◌++◌ did_web_prefix (encode_colons authority)) ≡ some did =
            rw (canonical, authority_to_did_web) at h in
          let same : String.◌++◌ did_web_prefix (encode_colons authority) ≡ did = cc made in
          subst (λ d. did_web_to_authority d ≡ some authority) same
            (decoded authority (no_percent authority canonical))
      | inr bad ↦ absurd (none_not_some (rw (bad, authority_to_did_web) at h))
    ]
