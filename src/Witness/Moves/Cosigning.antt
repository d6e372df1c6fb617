-- ===== src/Witness/Moves/Cosigning.antt =====
-- What a pass that accepts a head does: the cursor moves to it, and it is cosigned.

use acdp_control_plane.Prelude.{
  ◌≡◌, refl, ◌∙◌, ap, ◌⊎◌, inl, inr, String, List, [], ◌∷◌, ◌++◌, Option, none, some, arith, any,
  if◌then◌else◌, Bool-cases, Option-cases,
}
use acdp_control_plane.Log.Parse.{LogCheckpoint}
use acdp_control_plane.Cosign.{
  LogCosignature, WitnessSigner, WitnessedCheckpoint, ts_mint_cosignature, mint_cosignature, hashed,
}
use acdp_control_plane.Witness.Store.{
  Cursor, Cosigned, World, advance_cursor, put_cursor, same_key, same_cosignature,
  record_cosignature,
}
use acdp_control_plane.Witness.Quorum.{Host, WitnessConfig}
use acdp_control_plane.Witness.Pass.{Answers, anchor_of, accept_head, cosign, minted, signed_by}
use acdp_control_plane.Witness.Moves.{
  anchors, tuple_of, head_of, Attests, Signed, Fits, Cosigns, Advanced, Moves,
}

module _ (host : Host) (config : WitnessConfig) (world : Answers) (tenant authority : String) where
  minted_cursors :
      (m : Option (LogCosignature × String)) (w : World)
      → (minted host config world tenant authority m w).cursors ≡ w.cursors
  unfolding minted
  minted_cursors none w = refl
  minted_cursors (some (c, hash)) w = elim (Bool-cases world.faults.cosignature_write) [
    | inl throws ↦ rw (throws, minted) refl
    | inr fine ↦ rw (fine, minted) refl
  ]

  signed_by_cursors :
      (s : Option WitnessSigner) (c : LogCheckpoint) (w : World)
      → (signed_by host config world tenant authority s c w).cursors ≡ w.cursors
  unfolding signed_by
  signed_by_cursors none c w = refl
  signed_by_cursors (some s) c w = minted_cursors _ w

  cosign_cursors :
      (c : LogCheckpoint) (w : World)
      → (cosign host config world tenant authority c w).cursors ≡ w.cursors
  unfolding cosign
  cosign_cursors c w = signed_by_cursors config.signer c w

  ts_mint_checkpoint :
      (signer : WitnessSigner) (wc : WitnessedCheckpoint) (at_text : String) (c : LogCosignature)
      (hash : String)
      → ts_mint_cosignature host.crypto.canonicalize host.crypto.sha256_hex
          host.crypto.verify_signature_b64 wc at_text signer
        ≡ some (c, hash)
      → c.witnessed_checkpoint ≡ wc
  unfolding ts_mint_cosignature
  ts_mint_checkpoint signer wc at_text c hash h = ground (arith, h)

  hashed_same :
      (x y : LogCosignature) (hash : String)
      → hashed host.crypto.canonicalize host.crypto.sha256_hex host.crypto.verify_signature_b64 x
        ≡ some (y, hash)
      → x ≡ y
  unfolding hashed
  hashed_same x y hash h = ground (arith, h)

  mint-Attests :
      (c : LogCheckpoint) (signer : WitnessSigner) (at_text : String) (x : LogCosignature)
      (hash : String)
      → mint_cosignature host.crypto.canonicalize host.crypto.sha256_hex
          host.crypto.verify_signature_b64 host.native_mint
          (tuple_of c)
          at_text
          signer
        ≡ some (x, hash)
      → Attests host c x
  unfolding mint_cosignature
  mint-Attests c signer at_text x hash h =
      elim (Option-cases (host.native_mint (tuple_of c) at_text signer)) [
        | inl none_ ↦ inl (
            ts_mint_checkpoint signer (tuple_of c) at_text x hash
              (rw (none_, mint_cosignature) at h))
        | inr (y, e) ↦
            elim (Option-cases (
              hashed host.crypto.canonicalize host.crypto.sha256_hex
                host.crypto.verify_signature_b64 y)) [
                  | inl none_ ↦ inl (
                      ts_mint_checkpoint signer (tuple_of c) at_text x hash
                        (rw (e, none_, mint_cosignature) at h))
                  | inr ((z, made), f) ↦
                      let same : some (z, made) ≡ some (x, hash) =
                        rw (e, f, mint_cosignature) at h in
                      let own : y ≡ z = hashed_same y z made f in
                      inr (at_text, signer, cc (e, own, same))
                ]
      ]

  added :
      (c : LogCheckpoint) (row : Cosigned) (rows : List Cosigned)
      → row.tenant_id ≡ tenant
      → row.registry_authority ≡ authority
      → Attests host c row.cosignature
      → (record_cosignature row rows ≡ rows)
        ⊎ ((r : Cosigned) × (record_cosignature row rows ≡ rows ++ r ∷ [])
            × (r.tenant_id ≡ tenant)
            × (r.registry_authority ≡ authority)
            × Attests host c r.cosignature)
  unfolding record_cosignature
  added c row rows t a attests = elim (Bool-cases (any (same_cosignature row) rows)) [
    | inl there ↦ inl (rw (there, record_cosignature) refl)
    | inr new ↦ inr (row, rw (new, record_cosignature) refl, t, a, attests)
  ]

  minted-Cosigns :
      (c : LogCheckpoint) (m : Option (LogCosignature × String)) (w : World)
      → ((x : LogCosignature) (hash : String) → m ≡ some (x, hash) → Attests host c x)
      → Cosigns host config world tenant authority c w
          (minted host config world tenant authority m w)
  unfolding minted
  minted-Cosigns c none w h = inl refl
  minted-Cosigns c (some (x, hash)) w h = elim (Bool-cases world.faults.cosignature_write) [
    | inl throws ↦ simp (throws, minted) (inl refl)
    | inr fine ↦
        simp (fine, minted)
          (added c (record { tenant_id = tenant; registry_authority = authority; cosignature = x })
            w.cosigned refl refl (h x hash refl))
  ]

  signed_by-Cosigns :
      (s : Option WitnessSigner) (c : LogCheckpoint) (w : World)
      → Cosigns host config world tenant authority c w
          (signed_by host config world tenant authority s c w)
  unfolding signed_by
  signed_by-Cosigns none c w = inl refl
  signed_by-Cosigns (some s) c w =
      minted-Cosigns c _ w (λ x hash. mint-Attests c s world.now_text x hash)

  cosign-Cosigns :
      (c : LogCheckpoint) (w : World)
      → Cosigns host config world tenant authority c w
          (cosign host config world tenant authority c w)
  unfolding cosign
  cosign-Cosigns c w = signed_by-Cosigns config.signer c w

  advance_Advanced :
      (c : LogCheckpoint) (w : World)
      → Advanced host config world tenant authority c w
          (advance_cursor tenant authority c world.now w)
  unfolding advance_cursor put_cursor
  advance_Advanced c w t a = ground arith

  from_same_rows :
      (c : LogCheckpoint) (w w' : World) (w'' : World)
      → w'.cosigned ≡ w.cosigned
      → Cosigns host config world tenant authority c
          (advance_cursor tenant authority c world.now w')
          w''
      → Cosigns host config world tenant authority c w w''
  unfolding advance_cursor put_cursor
  from_same_rows c w w' w'' same (inl kept) = inl (kept ∙ same)
  from_same_rows c w w' w'' same (inr (row, added, t, a, of_row)) =
      inr (row, added ∙ ap (λ l. l ++ row ∷ []) same, t, a, of_row)

  pub accept-Moves :
      (c : LogCheckpoint) (w w' : World)
      → w'.cursors ≡ w.cursors
      → w'.cosigned ≡ w.cosigned
      → Signed host c
      → Fits host (anchors w tenant authority) c
      → Moves host config world tenant authority w
          (accept_head host config world tenant authority c w').1
  unfolding accept_head
  accept-Moves c w w' same same_rows signed fits = elim (Bool-cases world.faults.advance) [
    | inl throws ↦ simp (throws, accept_head) (inl (λ t a. rw same refl, same_rows))
    | inr fine ↦
        simp (fine, accept_head)
          (inr (
            c,
            signed,
            fits,
            λ t a.
                ap (λ (f : String → String → Option Cursor). anchor_of (f t a))
                  (cosign_cursors c (advance_cursor tenant authority c world.now w'))
                ∙ advance_Advanced c w' t a
                ∙ ap
                    (λ (f : String → String → Option Cursor).
                      if same_key tenant authority t a then some (head_of c) else anchor_of (f t a))
                    same,
            from_same_rows c w w'
                (cosign host config world tenant authority c
                  (advance_cursor tenant authority c world.now w'))
                same_rows (cosign-Cosigns c (advance_cursor tenant authority c world.now w')),
          ))
  ]
