-- ===== src/Auth/Issuer/KeyIds.antt =====
-- The key id that is bound to an agent.
use Prim.Native.Char.{code}
use Prim.Native.String
use text.Mathlib.TextEquality.{Char-path}
use text.Mathlib.TextLemmas.{nil-append, cons-append}
use acdp_control_plane.Prelude.{
  ◌≡◌, refl, sym, ◌∙◌, ap, String, Bool, false, ◌||◌, none, some, arith, str_eq, eq_iff, any, codes,
  cut, ◌==◌, ==→eq, Bool-cases, Option-cases, inl, inr,
}
use acdp_control_plane.Auth.Issuer.{bound, bind_key_id, bare_fragment, is_reserved}

hash-append : (s : String) → String.◌++◌ "#" s ≡ String.◌∷◌ "#" s
hash-append s = cons-append "#" String.[] s ∙ ap (String.◌∷◌ "#") (nil-append s)

-- The pieces of a cut put together again.
cut-some :
    (s before after : String)
    → cut 35 s ≡ some (before, after)
    → s ≡ String.◌++◌ before (String.◌++◌ "#" after)
unfolding cut
cut-some String.[] before after h = absurd (ground (arith, h))
cut-some (String.◌∷◌ c rest) before after h = elim (Bool-cases (code c == 35)) [
  | inl hash ↦
      let parts : some (String.[], rest) ≡ some (before, after) = rw (hash, cut) at h in
      let front : String.[] ≡ before = ground (arith, parts) in
      let back : rest ≡ after = ground (arith, parts) in
      ap (λ d. String.◌∷◌ d rest) (Char-path c "#" (==→eq (code c) 35 hash))
      ∙ sym (hash-append rest)
      ∙ sym (nil-append (String.◌++◌ "#" rest))
      ∙ ap (λ b. String.◌++◌ b (String.◌++◌ "#" rest)) front
      ∙ ap (λ a. String.◌++◌ before (String.◌++◌ "#" a)) back
  | inr other ↦ elim (Option-cases (cut 35 rest)) [
    | inl none_ ↦ absurd (ground (arith, none_, other, h))
    | inr ((b, a), e) ↦
        let parts : some (String.◌∷◌ c b, a) ≡ some (before, after) = rw (other, e, cut) at h in
        let front : String.◌∷◌ c b ≡ before = ground (arith, parts) in
        let back : a ≡ after = ground (arith, parts) in
        ap (String.◌∷◌ c) (cut-some rest b a e)
        ∙ sym (cons-append c b (String.◌++◌ "#" a))
        ∙ ap (λ x. String.◌++◌ x (String.◌++◌ "#" a)) front
        ∙ ap (λ x. String.◌++◌ before (String.◌++◌ "#" x)) back
  ]
]

cut-none : (s : String) → cut 35 s ≡ none → any (λ c. c == 35) (codes s) ≡ false
unfolding cut
cut-none String.[] h = refl
cut-none (String.◌∷◌ c rest) h = elim (Bool-cases (code c == 35)) [
  | inl hash ↦ absurd (ground (arith, hash, h))
  | inr other ↦ ground (arith, other, h, cut-none rest)
]

fine_parts :
    (did fragment : String) (bad : Bool)
    → (str_eq did "" || str_eq fragment "" || bad) ≡ false
    → (str_eq fragment "" ≡ false) × (bad ≡ false)
fine_parts did fragment bad h = ground (arith, h)

bare_bound :
    (agent key_id url : String)
    → any (λ c. c == 35) (codes key_id) ≡ false
    → bare_fragment agent key_id ≡ bound url
    → (fragment : String) × (url ≡ String.◌++◌ agent (String.◌++◌ "#" fragment))
      × (str_eq fragment "" ≡ false)
      × (any (λ c. c == 35) (codes fragment) ≡ false)
unfolding bare_fragment
bare_bound agent key_id url one h =
    elim (Bool-cases (str_eq key_id "" || any is_reserved (codes key_id))) [
      | inl bad ↦ absurd (ground (arith, bad, h))
      | inr fine ↦ (key_id, ground (arith, fine, h), ground (arith, fine), one)
    ]

-- A key id that is bound to an agent gives the agent's DID, a hash sign and a fragment, which is not
-- empty and holds no other hash sign.
pub bind_key_id-bound :
    (agent key_id url : String)
    → bind_key_id agent key_id ≡ bound url
    → (fragment : String) × (url ≡ String.◌++◌ agent (String.◌++◌ "#" fragment))
      × (str_eq fragment "" ≡ false)
      × (any (λ c. c == 35) (codes fragment) ≡ false)
unfolding bind_key_id
bind_key_id-bound agent key_id url h = elim (Option-cases (cut 35 key_id)) [
  | inl none_ ↦ bare_bound agent key_id url (cut-none key_id none_) (rw (none_, bind_key_id) at h)
  | inr ((did, fragment), e) ↦
      elim (Bool-cases
        (str_eq did "" || str_eq fragment "" || any (λ c. c == 35) (codes fragment))) [
          | inl bad ↦ absurd (ground (arith, bad, e, h))
          | inr fine ↦ elim (Bool-cases (str_eq did agent)) [
            | inr other ↦ absurd (ground (arith, other, fine, e, h))
            | inl own ↦
                let same : bound key_id ≡ bound url = ground (arith, own, fine, e, h) in
                let (filled, single) =
                  fine_parts did fragment (any (λ c. c == 35) (codes fragment)) fine in
                (
                  fragment,
                  ground (arith, same, cut-some key_id did fragment e, (eq_iff did agent).0 own),
                  filled,
                  single,
                )
          ]
        ]
]
