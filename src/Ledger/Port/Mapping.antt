-- ===== src/Ledger/Port/Mapping.antt =====
-- internal/state/recovery_ledger_port.go: the words that pass between the ledger and its port.
use linux_deep_clean.Prelude.{Result, ok, err, ◌>>=◌}
use linux_deep_clean.Ledger.Vocabulary.{
  LedgerError, corrupt, unsupported, Destination, trash, quarantine, other_destination, Event,
  intent_reserved, metadata_dispatch_recorded, metadata_verified, metadata_indeterminate,
  move_dispatch_recorded, move_verified, move_indeterminate, restore_dispatch_recorded,
  restore_verified, restore_indeterminate, reconciliation_resolved, other_event, Outcome,
  unresolved, resolved_not_applied, resolved_move_verified, resolved_restore_verified,
  other_outcome, Metadata, unrecorded, absent, retained, other_metadata, Transition,
}

-- `recoveryDestinationToPort`
unfoldable pub destination_to_port : Destination → Result LedgerError Destination
destination_to_port trash = ok trash
destination_to_port quarantine = ok quarantine
destination_to_port (other_destination text) = err corrupt

-- The words of an event. Both directions have them, and differ in the error of the default.
unfoldable pub known_event : LedgerError → Event → Result LedgerError Event
known_event e intent_reserved = ok intent_reserved
known_event e metadata_dispatch_recorded = ok metadata_dispatch_recorded
known_event e metadata_verified = ok metadata_verified
known_event e metadata_indeterminate = ok metadata_indeterminate
known_event e move_dispatch_recorded = ok move_dispatch_recorded
known_event e move_verified = ok move_verified
known_event e move_indeterminate = ok move_indeterminate
known_event e restore_dispatch_recorded = ok restore_dispatch_recorded
known_event e restore_verified = ok restore_verified
known_event e restore_indeterminate = ok restore_indeterminate
known_event e reconciliation_resolved = ok reconciliation_resolved
known_event e (other_event text) = err e

-- `recoveryEventToPort`
abbrev pub event_to_port : Event → Result LedgerError Event
event_to_port = known_event corrupt

-- `recoveryEventFromPort`
abbrev pub event_from_port : Event → Result LedgerError Event
event_from_port = known_event unsupported

-- The words of an outcome, with the error of the default.
unfoldable pub known_outcome : LedgerError → Outcome → Result LedgerError Outcome
known_outcome e unresolved = ok unresolved
known_outcome e resolved_not_applied = ok resolved_not_applied
known_outcome e resolved_move_verified = ok resolved_move_verified
known_outcome e resolved_restore_verified = ok resolved_restore_verified
known_outcome e (other_outcome text) = err e

-- `recoveryOutcomeToPort`
abbrev pub outcome_to_port : Outcome → Result LedgerError Outcome
outcome_to_port = known_outcome corrupt

-- `recoveryOutcomeFromPort`
abbrev pub outcome_from_port : Outcome → Result LedgerError Outcome
outcome_from_port = known_outcome unsupported

-- The words of a disposition, with the error of the default.
unfoldable pub known_metadata : LedgerError → Metadata → Result LedgerError Metadata
known_metadata e unrecorded = ok unrecorded
known_metadata e absent = ok absent
known_metadata e retained = ok retained
known_metadata e (other_metadata text) = err e

-- `recoveryMetadataDispositionToPort`
abbrev pub metadata_to_port : Metadata → Result LedgerError Metadata
metadata_to_port = known_metadata corrupt

-- `recoveryMetadataDispositionFromPort`
abbrev pub metadata_from_port : Metadata → Result LedgerError Metadata
metadata_from_port = known_metadata unsupported

-- `recoveryTransitionFromPort`
unfoldable pub transition_from_port : Transition → Result LedgerError Transition
transition_from_port t = do
  event ← event_from_port t.event
  outcome ← outcome_from_port t.outcome
  metadata ← metadata_from_port t.metadata
  ok (record { event = event; outcome = outcome; metadata = metadata })
