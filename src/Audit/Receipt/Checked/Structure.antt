-- ===== src/Audit/Receipt/Checked/Structure.antt =====
-- A receipt that the structural checks leave unmarked agrees with its event (src/audit/receipt-audit.service.ts).
use acdp_control_plane.Prelude.{ℕ, ◌+◌, ◌≤◌, Option-cases, inl, inr}
use acdp_control_plane.Audit.Receipt.{difference}
use acdp_control_plane.Audit.Receipt.{ReceiptHost}
use acdp_control_plane.Audit.Receipt.Classify.{RevocationPolicy}
use acdp_control_plane.Audit.Receipt.Service.{
  contradicts, skew_of, claimed_ms, clock_skew_tolerance_ms,
}
use acdp_control_plane.Audit.Receipt.Checked.{
  Agrees, not_expected, not_given, agreed, IsOnTime, unclaimed, unread, no_arrival, on_time,
}
use acdp_control_plane.Prelude.{
  ◌≡◌, refl, sym, ap, ◌∙◌, String, [], Bool, true, false, not, Option, none, some, arith, Fields,
  member,
}
use acdp_control_plane.Did.{authority_to_did_web}
use acdp_control_plane.Audit.Revocation.{str_of}
use acdp_control_plane.Audit.Lineage.{named}
use acdp_control_plane.Audit.Receipt.{
  ℤ, Flag, Marks, ctx_id_mismatch, created_at_after_observation, ContextEvent, filled,
}
use acdp_control_plane.Audit.Receipt.Service.{
  flag_if, misses, bind_registry, is_early, ctx_id_marks, lineage_marks, fingerprint_marks,
  origin_marks, registry_marks, structural_marks,
}
use acdp_control_plane.Audit.Receipt.Checked.Phases.{not_eq}
use acdp_control_plane.Audit.Receipt.Checked.Producer.{no_snoc}

flag_if-clean :
    (b : Bool) (flag : Flag) (m : Marks)
    → (flag_if b flag m).flags ≡ []
    → (b ≡ false) × (m.flags ≡ [])
flag_if-clean true flag m h = no_snoc m.flags flag h
flag_if-clean false flag m h = (refl, h)

named_eq : (s : String) (o : Option String) → not (named s o) ≡ false → o ≡ some s
named_eq s none h = absurd (ground (arith, h))
named_eq s (some t) h = ap (λ x. some x) (not_eq t s h)

bind_registry-clean :
    (did actual : Option String) (m : Marks)
    → (bind_registry did actual m).notes ≡ []
    → (bind_registry did actual m).flags ≡ []
    → (actual ≡ did) × (m.flags ≡ [])
unfolding bind_registry
bind_registry-clean none actual m n f = no_snoc m.notes _ n
bind_registry-clean (some did) actual m n f =
    let (same, rest) = flag_if-clean _ _ m f in (named_eq did actual same, rest)

flag_if-notes : (b : Bool) (flag : Flag) (m : Marks) → (flag_if b flag m).notes ≡ m.notes
flag_if-notes true flag m = refl
flag_if-notes false flag m = refl

misses-named :
    (expected actual : Option String) (e : String)
    → misses expected actual ≡ false
    → filled expected ≡ some e
    → actual ≡ some e
unfolding misses
misses-named expected actual e h n = named_eq e actual (rw (n, misses) at h)

contradicts-Agrees :
    (expected actual : Option String) → contradicts expected actual ≡ false → Agrees expected actual
unfolding contradicts
contradicts-Agrees expected actual h = elim (Option-cases (filled actual)) [
  | inl absent ↦ not_given absent
  | inr (a, given) ↦ elim (Option-cases (filled expected)) [
    | inl absent ↦ not_expected absent
    | inr (e, wanted) ↦ agreed (
        given ∙ misses-named expected (some a) e (rw (given, contradicts) at h) wanted ∙ sym wanted)
  ]
]

not_early :
    (arrival claimed : ℕ)
    → is_early (some (difference arrival claimed)) ≡ false
    → claimed ≤ arrival + clock_skew_tolerance_ms
unfolding is_early difference
not_early arrival claimed h = ground (arith, h)

pub is_early-IsOnTime :
    (host : ReceiptHost) (policy : RevocationPolicy) (ev : ContextEvent) (receipt : Fields)
    → is_early (skew_of host policy ev receipt) ≡ false
    → IsOnTime host ev (str_of (member "created_at" receipt))
unfolding skew_of claimed_ms
is_early-IsOnTime host policy ev receipt h =
    elim (Option-cases (filled (str_of (member "created_at" receipt)))) [
      | inl absent ↦ unclaimed absent
      | inr (c, given) ↦ elim (Option-cases (host.parse_date c)) [
        | inl bad ↦ unread c given bad
        | inr (claimed, read) ↦ elim (Option-cases (host.parse_date ev.created_at)) [
          | inl bad ↦ no_arrival bad
          | inr (arrival, arrived) ↦
              on_time c claimed arrival given read arrived
                (not_early arrival claimed (rw (arrived, given, read, skew_of, claimed_ms) at h))
        ]
      ]
    ]

pub structural_marks-clean :
    (ev : ContextEvent) (receipt : Fields) (skew : Option ℤ) (ctx_id : String)
    → filled ev.ctx_id ≡ some ctx_id
    → (structural_marks ev receipt skew).flags ≡ []
    → (structural_marks ev receipt skew).notes ≡ []
    → (str_of (member "ctx_id" receipt) ≡ some ctx_id)
      × (str_of (member "origin_registry" receipt) ≡ some ev.registry_authority)
      × (str_of (member "registry_did" receipt) ≡ authority_to_did_web ev.registry_authority)
      × Agrees ev.lineage_id (str_of (member "lineage_id" receipt))
      × Agrees ev.key_fingerprint (str_of (member "key_fingerprint" receipt))
      × (is_early skew ≡ false)
unfolding structural_marks registry_marks origin_marks fingerprint_marks lineage_marks ctx_id_marks
structural_marks-clean ev receipt skew ctx_id n f u =
    let (late, bound) = flag_if-clean _ _ (registry_marks ev receipt) f in
    let (own, rest) =
      bind_registry-clean _ _ (origin_marks ev receipt)
        (sym
            (flag_if-notes (is_early skew) created_at_after_observation (registry_marks ev receipt))
          ∙ u)
        bound in
    let (origin, rest') = flag_if-clean _ _ (fingerprint_marks ev receipt) rest in
    let (fingerprint, rest'') = flag_if-clean _ _ (lineage_marks ev receipt) rest' in
    let (lineage, rest''') = flag_if-clean _ _ (ctx_id_marks ev receipt) rest'' in
    let (ctx, _) = flag_if-clean _ ctx_id_mismatch (record { flags = []; notes = [] }) rest''' in
    (
      misses-named ev.ctx_id _ ctx_id ctx n,
      named_eq _ _ origin,
      own,
      contradicts-Agrees ev.lineage_id (str_of (member "lineage_id" receipt)) lineage,
      contradicts-Agrees ev.key_fingerprint (str_of (member "key_fingerprint" receipt)) fingerprint,
      late,
    )
