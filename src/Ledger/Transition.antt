-- ===== src/Ledger/Transition.antt =====
-- internal/state/recovery_ledger.go: which fact may follow which (`validateRecoveryTransition`).
pub mod Lifecycle
pub mod Graph
pub mod Routes
use linux_deep_clean.Prelude.{
  ℕ, Bool, true, false, if◌then◌else◌, Result, ok, err, ◌>>=◌, ◌>>◌, require, not,
}
use linux_deep_clean.Ledger.Vocabulary.{
  LedgerError, conflict, unsupported, Destination, trash, quarantine, Event, intent_reserved,
  metadata_dispatch_recorded, metadata_verified, metadata_indeterminate, move_dispatch_recorded,
  move_verified, move_indeterminate, restore_dispatch_recorded, restore_verified,
  restore_indeterminate, reconciliation_resolved, Outcome, resolved_not_applied,
  resolved_move_verified, resolved_restore_verified, Metadata, unrecorded, absent, Transition,
  validate_event, validate_metadata, validate_ordinary,
}
use linux_deep_clean.Ledger.Frame.{Recovery, Bindings, closed, is_intent}

-- `quarantine has no retained Trash metadata`
unfoldable pub quarantine_metadata : Destination → Metadata → Result LedgerError (Unit {0})
quarantine_metadata quarantine absent = ok tt
quarantine_metadata quarantine metadata = err conflict
quarantine_metadata destination metadata = ok tt

-- `validateNoEffectReconciliation`, which is called for a resolution only
unfoldable pub validate_no_effect : Destination → Outcome → Metadata → Result LedgerError (Unit {0})
unfolding quarantine_metadata validate_metadata
validate_no_effect destination resolved_not_applied metadata = do
  validate_metadata metadata
  quarantine_metadata destination metadata
validate_no_effect destination outcome metadata = err conflict

unfoldable pub no_metadata_fact : Metadata → Result LedgerError (Unit {0})
no_metadata_fact unrecorded = ok tt
no_metadata_fact metadata = err unsupported

-- `validateMoveIndeterminateReconciliation`
unfoldable pub validate_move_indeterminate : Outcome → Metadata → Result LedgerError (Unit {0})
unfolding no_metadata_fact
validate_move_indeterminate resolved_not_applied metadata = no_metadata_fact metadata
validate_move_indeterminate resolved_move_verified metadata = no_metadata_fact metadata
validate_move_indeterminate outcome metadata = err conflict

-- `validateRestoreIndeterminateReconciliation`
unfoldable pub validate_restore_indeterminate : Outcome → Metadata → Result LedgerError (Unit {0})
unfolding no_metadata_fact
validate_restore_indeterminate resolved_move_verified metadata = no_metadata_fact metadata
validate_restore_indeterminate resolved_restore_verified metadata = no_metadata_fact metadata
validate_restore_indeterminate outcome metadata = err conflict

-- A resolution that verified a retained move stands where `move_verified` does.
unfoldable pub stage : Event → Outcome → Event
stage reconciliation_resolved resolved_move_verified = move_verified
stage event outcome = event

-- The `switch stage`: the stage, then the event that is to follow it.
unfoldable pub follow :
    Destination → Event → Event → Outcome → Metadata → Result LedgerError (Unit {0})
unfolding validate_no_effect validate_ordinary validate_move_indeterminate
    validate_restore_indeterminate
follow d intent_reserved reconciliation_resolved o m = validate_no_effect d o m
follow trash intent_reserved metadata_dispatch_recorded o m = validate_ordinary o m
follow quarantine intent_reserved move_dispatch_recorded o m = validate_ordinary o m
follow d metadata_dispatch_recorded metadata_verified o m = validate_ordinary o m
follow d metadata_dispatch_recorded metadata_indeterminate o m = validate_ordinary o m
follow d metadata_verified move_dispatch_recorded o m = validate_ordinary o m
follow d metadata_verified reconciliation_resolved o m = validate_no_effect d o m
follow d metadata_indeterminate reconciliation_resolved o m = validate_no_effect d o m
follow d move_dispatch_recorded move_verified o m = validate_ordinary o m
follow d move_dispatch_recorded move_indeterminate o m = validate_ordinary o m
follow d move_verified restore_dispatch_recorded o m = validate_ordinary o m
follow d restore_dispatch_recorded restore_verified o m = validate_ordinary o m
follow d restore_dispatch_recorded restore_indeterminate o m = validate_ordinary o m
follow d move_indeterminate reconciliation_resolved o m = validate_move_indeterminate o m
follow d restore_indeterminate reconciliation_resolved o m = validate_restore_indeterminate o m
follow d current next o m = err conflict

-- `validateRecoveryTransition`
unfoldable pub validate_transition :
    (b : Bindings) → Recovery b.Binding → Transition → Result LedgerError (Unit {0})
validate_transition b recovery t = do
  b.validate_binding recovery.binding recovery.schema_version
  require (not (closed recovery)) conflict
  validate_event t.event
  require (not (is_intent t.event)) unsupported
  follow (b.destination recovery.binding) (stage recovery.event recovery.outcome) t.event t.outcome
      t.metadata
