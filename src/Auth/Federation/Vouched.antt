-- ===== src/Auth/Federation/Vouched.antt =====
-- What an accepted token of a trusted issuer shows.

use acdp_control_plane.Prelude.{
  ℕ, ◌≡◌, refl, sym, ap, subst, ◌∙◌, inl, inr, String, List, [], ◌∷◌, false, Option, none, some,
  arith, str_eq, eq_iff, Bool-cases, str, Fields, member,
}
use acdp_control_plane.Auth.Revocations.{Revocations, is_revoked}
use acdp_control_plane.Auth.Jwt.{eddsa}
use acdp_control_plane.Auth.Federation.{
  TrustedIssuer, trusted_issuer, Validator, verified, peeked, verify_trusted, revocation_check,
  admitted, by_entry, by_issuer, verify_local, verify_with_provenance,
}
use acdp_control_plane.Auth.Federation.Signed.{IsVouched, trusted-IsVouched}

admitted_verified :
    (v : Validator) (later : ℕ) (store : Option Revocations) (from entry : Option TrustedIssuer)
    (o : Option Fields) (claims : Fields)
    → (admitted v later store from o).0 ≡ verified claims entry
    → (o ≡ some claims) × (from ≡ entry) × ((revocation_check v later store claims).0 ≡ false)
admitted_verified v later store from entry none claims h = absurd (ground (arith, h))
admitted_verified v later store from entry (some cs) claims h =
    elim (Bool-cases (revocation_check v later store cs).0) [
      | inl revoked ↦ absurd (ground (arith, h, revoked))
      | inr clear ↦
          let whole : verified cs from ≡ verified claims entry = rw clear at h in
          let same : cs ≡ claims = ground (arith, whole) in
          (
            ap some same,
            ground (arith, whole),
            subst (λ c. (revocation_check v later store c).0 ≡ false) same clear,
          )
    ]

trusted_issuer-iss :
    (iss : String) (entries : List TrustedIssuer) (entry : TrustedIssuer)
    → trusted_issuer iss entries ≡ some entry
    → entry.iss ≡ iss
unfolding trusted_issuer
trusted_issuer-iss iss [] entry h = absurd (ground (arith, h))
trusted_issuer-iss iss (e ∷ entries) entry h = elim (Bool-cases (str_eq e.iss iss)) [
  | inl found ↦
      let whole : some e ≡ some entry = rw (found, trusted_issuer) at h in
      let same : e ≡ entry = ground (arith, whole) in
      subst (λ x. x.iss ≡ iss) same ((eq_iff e.iss iss).0 found)
  | inr other ↦ trusted_issuer-iss iss entries entry (ground (arith, other, h))
]

module _ (v : Validator) (now later : ℕ) (store : Option Revocations) (token : String)
    (claims : Fields) (entry : TrustedIssuer) where
  -- What an accepted token of a trusted issuer went through.
  Accepted : Type 0
  Accepted =
      (trusted_issuer entry.iss v.trusted ≡ some entry)
      × (str_eq entry.iss v.jwt_authority ≡ false)
      × (verify_trusted v now token entry ≡ some claims)
      × ((revocation_check v later store claims).0 ≡ false)

  entry-Accepted :
      (o : Option TrustedIssuer) (iss : String)
      → trusted_issuer iss v.trusted ≡ o
      → str_eq iss v.jwt_authority ≡ false
      → (by_entry v now later store token o).0 ≡ verified claims (some entry)
      → Accepted
  unfolding by_entry Accepted
  entry-Accepted none iss e own h = absurd (ground (arith, h))
  entry-Accepted (some t) iss e own h =
      let (checked, from, clear) =
        admitted_verified v later store (some t) (some entry) (verify_trusted v now token t) claims
          h in
      let same : t ≡ entry = ground (arith, from) in
      let named = trusted_issuer-iss iss v.trusted t e in
      subst
        (λ x.
          (trusted_issuer x.iss v.trusted ≡ some x)
          × (str_eq x.iss v.jwt_authority ≡ false)
          × (verify_trusted v now token x ≡ some claims)
          × ((revocation_check v later store claims).0 ≡ false))
        same
        (
          subst (λ i. trusted_issuer i v.trusted ≡ some t) (sym named) e,
          subst (λ i. str_eq i v.jwt_authority ≡ false) (sym named) own,
          checked,
          clear,
        )

  issuer-Accepted :
      (o : Option String)
      → (by_issuer v now later store token o).0 ≡ verified claims (some entry)
      → Accepted
  unfolding by_issuer
  issuer-Accepted none h = absurd (ground (arith, h))
  issuer-Accepted (some iss) h = elim (Bool-cases (str_eq iss v.jwt_authority)) [
    | inl own ↦
        let whole : (admitted v later store none (verify_local v now token)).0
            ≡ verified claims (some entry) =
          rw (own, by_issuer) at h in
        let (_, from, _) =
          admitted_verified v later store none (some entry) (verify_local v now token) claims
            whole in
        absurd (ground (arith, from))
    | inr other ↦
        let whole : (by_entry v now later store token (trusted_issuer iss v.trusted)).0
            ≡ verified claims (some entry) =
          rw (other, by_issuer) at h in
        entry-Accepted (trusted_issuer iss v.trusted) iss refl other whole
  ]

  verify-Accepted :
      (verify_with_provenance v now later store token).0 ≡ verified claims (some entry) → Accepted
  unfolding verify_with_provenance
  verify-Accepted h = issuer-Accepted (peeked (v.decode token)) h

-- A token that is accepted for a trusted issuer with an Ed25519 key set is signed by a key of this set,
-- names that issuer, is neither expired nor early, and has the audience and the scopes that the entry
-- asks for; the entry stands in the configuration.
pub verified-IsVouched :
    (v : Validator) (now later : ℕ) (store : Option Revocations) (token : String) (claims : Fields)
    (entry : TrustedIssuer)
    → (verify_with_provenance v now later store token).0 ≡ verified claims (some entry)
    → entry.alg ≡ eddsa
    → (trusted_issuer entry.iss v.trusted ≡ some entry) × IsVouched v now token entry claims
unfolding Accepted
verified-IsVouched v now later store token claims entry h alg =
    let (listed, _, checked, _) = verify-Accepted v now later store token claims entry h in
    (listed, trusted-IsVouched v now token claims entry alg checked)

asked_text :
    (v : Validator) (later : ℕ) (s : Revocations) (claims : Fields) (iss j : String)
    → member "iss" claims ≡ some (str iss)
    → member "jti" claims ≡ some (str j)
    → str_eq j "" ≡ false
    → (revocation_check v later (some s) claims).0 ≡ (is_revoked iss j later s).0
unfolding revocation_check
asked_text v later s claims iss j issued named filled = rw (issued, named, filled) refl

-- No such token is accepted while the store of revocations says that its id is revoked for its issuer.
pub verified_not_revoked :
    (v : Validator) (now later : ℕ) (s : Revocations) (token jti : String) (claims : Fields)
    (entry : TrustedIssuer)
    → (verify_with_provenance v now later (some s) token).0 ≡ verified claims (some entry)
    → entry.alg ≡ eddsa
    → member "jti" claims ≡ some (str jti)
    → str_eq jti "" ≡ false
    → (is_revoked entry.iss jti later s).0 ≡ false
unfolding Accepted
verified_not_revoked v now later s token jti claims entry h alg named filled =
    let (_, _, checked, clear) = verify-Accepted v now later (some s) token claims entry h in
    let vouched = trusted-IsVouched v now token claims entry alg checked in
    sym (asked_text v later s claims entry.iss jti vouched.current.issued_by named filled) ∙ clear
