-- ===== src/Ledger/Vocabulary.antt =====
-- internal/state/recovery_ledger.go: the closed vocabularies of recovery facts. Each is a Go string
-- type, so a value outside the vocabulary is a constructor with its text.
use linux_deep_clean.Prelude.{Bytes, Result, ok, err}

-- The sentinel that an error wraps: `interrupted` is linuxfs.ErrInterrupted, `other_filesystem` any
-- other error of that package.
pub data LedgerError : Type 0 where
  conflict corrupt unsupported interrupted other_filesystem : LedgerError

pub data Destination : Type 0 where
  trash quarantine : Destination
  other_destination : Bytes → Destination

pub data Event : Type 0 where
  intent_reserved : Event
  metadata_dispatch_recorded metadata_verified metadata_indeterminate : Event
  move_dispatch_recorded move_verified move_indeterminate : Event
  restore_dispatch_recorded restore_verified restore_indeterminate : Event
  reconciliation_resolved : Event
  other_event : Bytes → Event

-- `unresolved` and `unrecorded` are the empty strings.
pub data Outcome : Type 0 where
  unresolved : Outcome
  resolved_not_applied resolved_move_verified resolved_restore_verified : Outcome
  other_outcome : Bytes → Outcome

pub data Metadata : Type 0 where
  unrecorded : Metadata
  absent retained : Metadata
  other_metadata : Bytes → Metadata

pub record Transition : Type 0 where
  pub event : Event
  pub outcome : Outcome
  pub metadata : Metadata

unfoldable pub validate_event : Event → Result LedgerError (Unit {0})
validate_event (other_event _) = err unsupported
validate_event _ = ok tt

unfoldable pub validate_outcome : Outcome → Result LedgerError (Unit {0})
validate_outcome resolved_not_applied = ok tt
validate_outcome resolved_move_verified = ok tt
validate_outcome resolved_restore_verified = ok tt
validate_outcome _ = err unsupported

unfoldable pub validate_metadata : Metadata → Result LedgerError (Unit {0})
validate_metadata absent = ok tt
validate_metadata retained = ok tt
validate_metadata _ = err unsupported

-- `validateOrdinaryTransition`: no reconciliation fact and no metadata fact.
unfoldable pub validate_ordinary : Outcome → Metadata → Result LedgerError (Unit {0})
validate_ordinary unresolved unrecorded = ok tt
validate_ordinary _ _ = err unsupported
