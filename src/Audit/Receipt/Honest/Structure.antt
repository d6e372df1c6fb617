-- ===== src/Audit/Receipt/Honest/Structure.antt =====
-- A faithful receipt gets no flag from the structural checks (src/audit/receipt-audit.service.ts).
use acdp_control_plane.Prelude.{
  ℕ, ◌≡◌, refl, ap, ◌+◌, ◌≤◌, inl, inr, String, [], Bool, false, not, Option, none, some, arith,
  Option-cases, Bool-cases, str_eq, eq_refl, Json, member,
}
use acdp_control_plane.Auth.Federation.Signed.{and_then-some}
use acdp_control_plane.Audit.Revocation.{str_of, fields_of}
use acdp_control_plane.Audit.Lineage.{named}
use acdp_control_plane.Audit.Receipt.{
  difference, Flag, Marks, ContextEvent, ReceiptHost, filled, created_at_after_observation,
  key_fingerprint_mismatch, lineage_id_mismatch, ctx_id_mismatch, origin_registry_mismatch,
}
use acdp_control_plane.Audit.Receipt.Classify.{RevocationPolicy}
use acdp_control_plane.Audit.Receipt.Service.{
  clock_skew_tolerance_ms, is_early, flag_if, misses, contradicts, bind_registry, ctx_id_marks,
  lineage_marks, fingerprint_marks, origin_marks, registry_marks, structural_marks, claimed_ms,
  skew_of,
}
use acdp_control_plane.Audit.Receipt.Honest.{IsFaithful}

flag_if-unflagged :
    (b : Bool) (flag : Flag) (m : Marks) → b ≡ false → m.flags ≡ [] → (flag_if b flag m).flags ≡ []
flag_if-unflagged b flag m off clean = rw off clean

named_self : (e : String) (o : Option String) → o ≡ some e → not (named e o) ≡ false
named_self e o h = rw h (ap not (eq_refl e))

misses-agrees :
    (expected actual : Option String)
    → ((e : String) → filled expected ≡ some e → actual ≡ some e)
    → misses expected actual ≡ false
unfolding misses
misses-agrees expected actual same = elim (Option-cases (filled expected)) [
  | inl absent ↦ rw (absent, misses) refl
  | inr (e, got) ↦ rw (got, misses) (named_self e actual (same e got))
]

contradicts-agrees :
    (expected actual : Option String)
    → ((a e : String) → filled actual ≡ some a → filled expected ≡ some e → a ≡ e)
    → contradicts expected actual ≡ false
unfolding contradicts
contradicts-agrees expected actual same = elim (Option-cases (filled actual)) [
  | inl absent ↦ rw (absent, contradicts) refl
  | inr (a, got) ↦
      rw (got, contradicts)
        (misses-agrees expected (some a) (λ e named. ap some (same a e got named)))
]

bind_registry-unflagged :
    (did actual : Option String) (m : Marks)
    → ((d : String) → did ≡ some d → actual ≡ some d)
    → m.flags ≡ []
    → (bind_registry did actual m).flags ≡ []
unfolding bind_registry
bind_registry-unflagged none actual m same clean = clean
bind_registry-unflagged (some did) actual m same clean =
    flag_if-unflagged _ _ m (named_self did actual (same did refl)) clean

late_enough :
    (arrival claimed : ℕ)
    → claimed ≤ arrival + clock_skew_tolerance_ms
    → is_early (some (difference arrival claimed)) ≡ false
unfolding is_early difference
late_enough arrival claimed h = ground (arith, h)

pub filled-some : (o : Option String) (s : String) → filled o ≡ some s → o ≡ some s
unfolding filled
filled-some none s h = absurd (ground (arith, h))
filled-some (some t) s h = elim (Bool-cases (str_eq t "")) [
  | inl bare ↦ absurd (ground (arith, rw bare at h))
  | inr full ↦ rw full at h
]

module _ (host : ReceiptHost) (policy : RevocationPolicy) (ev : ContextEvent) (receipt : Json)
    (faithful : IsFaithful host ev receipt) where
  claimed_ms-text :
      (claimed : ℕ)
      → claimed_ms host policy (fields_of receipt) ≡ some claimed
      → (created : String) × (str_of (member "created_at" (fields_of receipt)) ≡ some created)
        × (host.parse_date created ≡ some claimed)
  unfolding claimed_ms
  claimed_ms-text claimed h =
      let (created, named, parsed) =
        and_then-some (filled (str_of (member "created_at" (fields_of receipt)))) _ claimed h in
      (created, filled-some _ created named, parsed)

  skew-on_time : is_early (skew_of host policy ev (fields_of receipt)) ≡ false
  unfolding skew_of is_early
  skew-on_time = elim (Option-cases (host.parse_date ev.created_at)) [
    | inl unreadable ↦ rw unreadable refl
    | inr (arrival, a) ↦ elim (Option-cases (claimed_ms host policy (fields_of receipt))) [
      | inl unreadable ↦ rw (a, unreadable) refl
      | inr (claimed, c) ↦
          let (created, named, parsed) = claimed_ms-text claimed c in
          rw (a, c)
            (late_enough arrival claimed (faithful.on_time created arrival claimed named parsed a))
    ]
  ]

  -- The marks of a faithful receipt are notes only.
  pub structural_marks-unflagged :
      (structural_marks ev (fields_of receipt) (skew_of host policy ev (fields_of receipt))).flags
      ≡ []
  unfolding structural_marks registry_marks origin_marks fingerprint_marks lineage_marks
      ctx_id_marks
  structural_marks-unflagged =
      let fields = fields_of receipt in
      flag_if-unflagged _ created_at_after_observation (registry_marks ev fields) skew-on_time (
        bind_registry-unflagged _ _ (origin_marks ev fields) faithful.registry_agrees (
          flag_if-unflagged _ origin_registry_mismatch (fingerprint_marks ev fields)
            (named_self _ _ faithful.origin_agrees)
            (flag_if-unflagged _ key_fingerprint_mismatch (lineage_marks ev fields)
              (contradicts-agrees ev.key_fingerprint (str_of (member "key_fingerprint" fields))
                faithful.fingerprint_agrees)
              (flag_if-unflagged _ lineage_id_mismatch (ctx_id_marks ev fields)
                (contradicts-agrees ev.lineage_id (str_of (member "lineage_id" fields))
                  faithful.lineage_agrees)
                (flag_if-unflagged _ ctx_id_mismatch (record { flags = []; notes = [] })
                  (misses-agrees ev.ctx_id (str_of (member "ctx_id" fields)) faithful.ctx_id_agrees)
                  refl)))))
