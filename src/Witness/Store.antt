-- ===== src/Witness/Store.antt =====
-- src/storage/log-witness.repository.ts. The table of cursors is a function of its primary key; the
-- detail of an alert is left out.
use acdp_control_plane.Prelude.{
  ℕ, suc, String, List, [], ◌∷◌, ◌++◌, map, Bool, true, false, ◌&&◌, Option, none, some, ◌==◌,
  str_eq, any, if◌then◌else◌,
}
use acdp_control_plane.Log.Parse.{LogCheckpoint}
use acdp_control_plane.Cosign.{LogCosignature}

pub data WitnessAlertReason : Type 0 where
  checkpoint_invalid checkpoint_signature_invalid tree_size_regression : WitnessAlertReason
  root_mismatch consistency_failed log_id_changed : WitnessAlertReason

abbrev pub reason_text : WitnessAlertReason → String
reason_text checkpoint_invalid = "checkpoint_invalid"
reason_text checkpoint_signature_invalid = "checkpoint_signature_invalid"
reason_text tree_size_regression = "tree_size_regression"
reason_text root_mismatch = "root_mismatch"
reason_text consistency_failed = "consistency_failed"
reason_text log_id_changed = "log_id_changed"

-- A row of `log_witness_cursors`.
pub record Cursor : Type 0 where
  pub log_id : Option String
  pub last_witnessed_size : Option ℕ
  pub last_root_hash : Option String
  pub consecutive_failures : ℕ
  pub alerted : Bool
  pub last_alert_reason : Option String
  pub last_alert_at : Option ℕ
  pub acknowledged_at : Option ℕ
  pub acknowledged_by : Option String
  pub last_success_at : Option ℕ
  pub updated_at : ℕ

-- The figures of a quorum report; they are null together when no quorum is evaluated.
pub record QuorumCounts : Type 0 where
  pub witnessed_count : ℕ
  pub meets_quorum : Bool
  pub fresh_witnessed_count : ℕ
  pub meets_fresh_quorum : Bool
  pub historical_witnessed_count : ℕ

-- A row of `log_witness_checkpoints`.
pub record HeadRow : Type 0 where
  pub tenant_id : String
  pub registry_authority : String
  pub raw_checkpoint : LogCheckpoint
  pub signature_valid : Bool
  pub consistency_ok : Option Bool
  pub quorum : Option QuorumCounts

-- An alert that was pushed to the event stream and the webhooks.
pub record Published : Type 0 where
  pub tenant_id : String
  pub registry_authority : String
  pub reason : WitnessAlertReason
  pub log_id : Option String

pub record Cosigned : Type 0 where
  pub tenant_id : String
  pub registry_authority : String
  pub cosignature : LogCosignature

pub record World : Type 0 where
  pub cursors : String → String → Option Cursor
  pub checkpoints : List HeadRow
  pub cosigned : List Cosigned
  pub published : List Published

abbrev pub same_key : String → String → String → String → Bool
same_key t a t' a' = str_eq t t' && str_eq a a'

unfoldable pub put_cursor : String → String → Cursor → World → World
put_cursor t a c w = record w {
  cursors = λ t' a'. if same_key t a t' a' then some c else w.cursors t' a';
}

-- The columns that an insert leaves at their defaults.
abbrev pub new_cursor : ℕ → Cursor
new_cursor now = record {
  log_id = none;
  last_witnessed_size = none;
  last_root_hash = none;
  consecutive_failures = 0;
  alerted = false;
  last_alert_reason = none;
  last_alert_at = none;
  acknowledged_at = none;
  acknowledged_by = none;
  last_success_at = none;
  updated_at = now;
}

-- The row that an upsert updates: the one that is there, or a new one.
abbrev pub row_or_new : Option Cursor → ℕ → Cursor
row_or_new none now = new_cursor now
row_or_new (some c) now = c

unfoldable pub advance_cursor : String → String → LogCheckpoint → ℕ → World → World
unfolding put_cursor
advance_cursor t a checkpoint now w =
    put_cursor t a
      (record (row_or_new (w.cursors t a) now) {
        log_id = some checkpoint.log_id;
        last_witnessed_size = some checkpoint.tree_size;
        last_root_hash = some checkpoint.root_hash;
        consecutive_failures = 0;
        alerted = false;
        last_alert_reason = none;
        acknowledged_at = none;
        acknowledged_by = none;
        last_success_at = some now;
        updated_at = now;
      })
      w

abbrev pub was_alerted : Option Cursor → Bool
was_alerted none = false
was_alerted (some c) = c.alerted

abbrev pub previous_reason : Option Cursor → Option String
previous_reason none = none
previous_reason (some c) = c.last_alert_reason

abbrev pub is_reason : WitnessAlertReason → Option String → Bool
is_reason reason none = false
is_reason reason (some text) = str_eq text (reason_text reason)

-- An alert with another reason than the last one takes the acknowledgement back.
unfoldable pub mark_alert : String → String → WitnessAlertReason → ℕ → World → World
unfolding put_cursor
mark_alert t a reason now w =
    let row = row_or_new (w.cursors t a) now in
    let same = is_reason reason (previous_reason (w.cursors t a)) in
    put_cursor t a
      (record row {
        alerted = true;
        last_alert_reason = some (reason_text reason);
        last_alert_at = some now;
        updated_at = now;
        acknowledged_at = if same then row.acknowledged_at else none;
        acknowledged_by = if same then row.acknowledged_by else none;
      })
      w

unfoldable pub mark_failure : String → String → ℕ → World → World
unfolding put_cursor
mark_failure t a now w =
    let row = row_or_new (w.cursors t a) now in
    put_cursor t a
      (record row { consecutive_failures = suc row.consecutive_failures; updated_at = now }) w

-- `acknowledgeAlert`: only an alerted row is updated, and returned.
unfoldable pub acknowledge_row :
    String → String → String → ℕ → Option Cursor → World → Option Cursor × World
unfolding put_cursor
acknowledge_row t a by now none w = (none, w)
acknowledge_row t a by now (some c) w =
    let acked = record c {
      acknowledged_at = some now;
      acknowledged_by = some by;
      updated_at = now;
    } in
    if c.alerted then (some acked, put_cursor t a acked w) else (none, w)

unfoldable pub acknowledge_alert : String → String → String → ℕ → World → Option Cursor × World
unfolding acknowledge_row
acknowledge_alert t a by now w = acknowledge_row t a by now (w.cursors t a) w

-- The unique key of the heads.
abbrev pub same_head : String → LogCheckpoint → HeadRow → Bool
same_head t checkpoint row =
    str_eq row.tenant_id t
    && str_eq row.raw_checkpoint.log_id checkpoint.log_id
    && row.raw_checkpoint.tree_size == checkpoint.tree_size
    && str_eq row.raw_checkpoint.root_hash checkpoint.root_hash

-- The rows after `recordCheckpoint`, which leaves a head that is there alone.
unfoldable pub record_checkpoint : HeadRow → List HeadRow → List HeadRow
record_checkpoint row rows =
    if any (same_head row.tenant_id row.raw_checkpoint) rows then rows else rows ++ row ∷ []

unfoldable pub update_quorum : String → LogCheckpoint → QuorumCounts → List HeadRow → List HeadRow
update_quorum t checkpoint counts rows =
    map (λ row. if same_head t checkpoint row then record row { quorum = some counts } else row)
      rows

-- The unique key of the cosignatures.
abbrev pub same_cosignature : Cosigned → Cosigned → Bool
same_cosignature a b =
    str_eq a.tenant_id b.tenant_id
    && str_eq a.cosignature.witness_id b.cosignature.witness_id
    && str_eq a.cosignature.witnessed_checkpoint.log_id b.cosignature.witnessed_checkpoint.log_id
    && a.cosignature.witnessed_checkpoint.tree_size == b.cosignature.witnessed_checkpoint.tree_size
    && str_eq a.cosignature.witnessed_checkpoint.root_hash
        b.cosignature.witnessed_checkpoint.root_hash
    && str_eq a.cosignature.witnessed_at b.cosignature.witnessed_at

-- The rows after `record`, which leaves a cosignature that is there alone.
unfoldable pub record_cosignature : Cosigned → List Cosigned → List Cosigned
record_cosignature row rows = if any (same_cosignature row) rows then rows else rows ++ row ∷ []

unfoldable pub find_head : String → String → ℕ → List HeadRow → Option HeadRow
find_head t log_id size [] = none
find_head t log_id size (row ∷ rows) =
    let rest = find_head t log_id size rows in
    if str_eq row.tenant_id t
      && str_eq row.raw_checkpoint.log_id log_id
      && row.raw_checkpoint.tree_size == size
    then some row
    else rest
