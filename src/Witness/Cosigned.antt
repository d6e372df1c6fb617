-- ===== src/Witness/Cosigned.antt =====
-- What the cosignatures of the witness stand for after any history.
use acdp_control_plane.Prelude.{
  ℕ, ◌≡◌, ◌≤◌, refl, sym, ◌∙◌, ap, subst, inl, inr, String, List, [], ◌∷◌, ◌++◌, Option, some, none,
  arith, All, eq_refl,
}
use acdp_control_plane.Log.Parse.{LogCheckpoint}
use acdp_control_plane.Cosign.{LogCosignature, WitnessSigner, WitnessedCheckpoint}
use acdp_control_plane.Witness.Store.{
  Cursor, Cosigned, World, acknowledge_alert, acknowledge_row, put_cursor,
}
use acdp_control_plane.Witness.Quorum.{Host, WitnessConfig}
use acdp_control_plane.Witness.Pass.{Anchor, Answers, RegistryEnrollment, guarded_pass}
use acdp_control_plane.Witness.Moves.{anchors, head_of, tuple_of, Signed, Advanced, Attests, Moves}
use acdp_control_plane.Witness.Moves.Passes.{pass-Moves}
use acdp_control_plane.Witness.History.{
  Event, passed, acknowledged, step, run, step-Follows, Follows-some, Follows-grows, last-Follows,
}

module _ (host : Host) where
  -- The SDK cosigns the checkpoint that it is given.
  abbrev pub MintsGiven : Type 0
  MintsGiven =
      (wc : WitnessedCheckpoint) (at_text : String) (signer : WitnessSigner) (x : LogCosignature)
      → host.native_mint wc at_text signer ≡ some x
      → x.witnessed_checkpoint ≡ wc

  -- The row cosigns a checkpoint with a good signature, and the head that is held for its registry is
  -- of the same log, and no smaller.
  abbrev pub Vouched : World → Cosigned → Type 0
  Vouched w row =
      (c : LogCheckpoint) × Signed host c
      × (row.cosignature.witnessed_checkpoint ≡ tuple_of c)
      × ((q : Anchor) × (anchors w row.tenant_id row.registry_authority ≡ some q)
          × (c.log_id ≡ q.log_id)
          × (c.tree_size ≤ q.size))

module _ (host : Host) (config : WitnessConfig) (mints_given : MintsGiven host) where
  still-Vouched :
      (ev : Event) (w : World) (row : Cosigned)
      → Vouched host w row
      → Vouched host (step host config ev w) row
  still-Vouched ev w row (c, signed, tuple, (q, held, log, le)) =
      let (q', held') =
        Follows-some host config (anchors w row.tenant_id row.registry_authority) _ q
          (step-Follows host config ev w row.tenant_id row.registry_authority) held in
      let (log', le') =
        Follows-grows host config q q'
          (last-Follows host config ev w row.tenant_id row.registry_authority q q' held held') in
      (c, signed, tuple, (q', held', log ∙ log', omega (arith, le, le')))

  All-still :
      (ev : Event) (w : World) (rows : List Cosigned)
      → All (Vouched host w) rows
      → All (Vouched host (step host config ev w)) rows
  All-still ev w [] h = tt
  All-still ev w (row ∷ rows) (v, h) = (still-Vouched ev w row v, All-still ev w rows h)

  All-snoc :
      (w : World) (row : Cosigned) (rows : List Cosigned)
      → All (Vouched host w) rows
      → Vouched host w row
      → All (Vouched host w) (rows ++ row ∷ [])
  All-snoc w row [] h v = (v, tt)
  All-snoc w row (r ∷ rows) (vr, h) v = (vr, All-snoc w row rows h v)

  -- Acknowledging adds no cosignature.
  row_cosigned :
      (tenant authority by : String) (now : ℕ) (row : Option Cursor) (w : World)
      → (acknowledge_row tenant authority by now row w).1.cosigned ≡ w.cosigned
  unfolding acknowledge_row put_cursor
  row_cosigned tenant authority by now none w = refl
  row_cosigned tenant authority by now (some c) w = ground arith

  of_checkpoint :
      (c : LogCheckpoint) (x : LogCosignature)
      → Attests host c x
      → x.witnessed_checkpoint ≡ tuple_of c
  of_checkpoint c x (inl own) = own
  of_checkpoint c x (inr (at_text, signer, e)) = mints_given (tuple_of c) at_text signer x e

  same_rows :
      (rows rows' : List Cosigned) (w : World)
      → rows' ≡ rows
      → All (Vouched host w) rows
      → All (Vouched host w) rows'
  same_rows rows rows' w e h = subst (λ l. All (Vouched host w) l) (sym e) h

  own_row :
      (e : RegistryEnrollment) (answers : Answers) (row : Cosigned) (c : LogCheckpoint)
      (w w' : World)
      → row.tenant_id ≡ e.tenant_id
      → row.registry_authority ≡ e.authority
      → Advanced host config answers e.tenant_id e.authority c w w'
      → anchors w' row.tenant_id row.registry_authority ≡ some (head_of c)
  own_row e answers row c w w' t a advanced =
      ap (λ x. anchors w' x row.registry_authority) t
      ∙ ap (anchors w' e.tenant_id) a
      ∙ advanced e.tenant_id e.authority
      ∙ ground (arith, eq_refl e.tenant_id, eq_refl e.authority)

  -- What a pass adds is of the head that it holds afterwards.
  moved-Vouched :
      (e : RegistryEnrollment) (answers : Answers) (w w' : World)
      → Moves host config answers e.tenant_id e.authority w w'
      → All (Vouched host w') w.cosigned
      → All (Vouched host w') w'.cosigned
  moved-Vouched e answers w w' (inl (kept, rows)) h = same_rows w.cosigned w'.cosigned w' rows h
  moved-Vouched e answers w w' (inr (c, signed, fits, advanced, inl rows)) h =
      same_rows w.cosigned w'.cosigned w' rows h
  moved-Vouched e answers w w' (inr (c, signed, fits, advanced, inr (row, rows, t, a, attests))) h =
      same_rows (w.cosigned ++ row ∷ []) w'.cosigned w' rows (
        All-snoc w' row w.cosigned h (
          c,
          signed,
          of_checkpoint c row.cosignature attests,
          (head_of c, own_row e answers row c w w' t a advanced, refl, omega arith),
        ))

  step-Vouched :
      (ev : Event) (w : World)
      → All (Vouched host w) w.cosigned
      → All (Vouched host (step host config ev w)) (step host config ev w).cosigned
  unfolding step acknowledge_alert
  step-Vouched (passed e answers) w h =
      moved-Vouched e answers w
        (guarded_pass host config answers e.tenant_id e.authority e.base_url w).1
        (pass-Moves host config answers e.tenant_id e.authority e.base_url w)
        (All-still (passed e answers) w w.cosigned h)
  step-Vouched (acknowledged t a by now) w h =
      same_rows w.cosigned (step host config (acknowledged t a by now) w).cosigned
        (step host config (acknowledged t a by now) w) (row_cosigned t a by now (w.cursors t a) w)
        (All-still (acknowledged t a by now) w w.cosigned h)

  -- Whatever history follows on an empty store, each cosignature that the store holds is of a
  -- checkpoint with a good signature, and the witness holds a head of the same log, and no smaller,
  -- for the registry of the row. The SDK is to cosign what it is given.
  pub cosigned-Vouched :
      (history : List Event) (w : World)
      → w.cosigned ≡ []
      → All (Vouched host (run host config history w)) (run host config history w).cosigned
  unfolding run
  cosigned-Vouched [] w h = rw h tt
  cosigned-Vouched (ev ∷ past) w h =
      step-Vouched ev (run host config past w) (cosigned-Vouched past w h)
