-- ===== src/Trash/Reconcile.antt =====
-- internal/trash/reconcile.go and internal/trash/content_reconcile.go: settling a Trash move whose
-- metadata or whose content was left indeterminate. The two files differ in the event that they
-- take, in the ticket returned when a reload changes its token, and in the evidence that they gather.
-- A nil ledger, ticket or operation is refused before any command, and has no counterpart here.
pub mod Flow
pub mod Protocol
pub mod Readings
pub mod Asks
pub mod Probes
pub mod Evident
use linux_deep_clean.Prelude.{
  ℕ, Bool, true, false, not, ◌&&◌, ◌||◌, List, [], ◌∷◌, ◌++◌, Option, none, some, ◌==◌,
  if◌then◌else◌, Bytes, bytes_equal, codes, Result, ok, err, ◌>>=◌, ◌>>◌, require,
}
use linux_deep_clean.Pathbytes.BytePath.{PathError, BytePath, new_path, path_equal}
use linux_deep_clean.Domain.Identifiers.{validate_stable_id}
use linux_deep_clean.Domain.Plan.{is_ok}
use linux_deep_clean.Ledger.Vocabulary.{
  Event, metadata_indeterminate, move_indeterminate, reconciliation_resolved, Outcome, unresolved,
  resolved_not_applied, resolved_move_verified, resolved_restore_verified, other_outcome, Metadata,
  unrecorded, absent, retained, other_metadata, Transition,
}
use linux_deep_clean.Ledger.Transition.Lifecycle.{resolution}
use linux_deep_clean.Trash.Facts.{
  Fault, Faults, drifted, unsupported, interrupted, Kinds, Precondition, Ticket, Answer,
  event_equal, no_outcome, no_metadata, is_trash, is_trash_path, valid_token, same_target,
  same_precondition, path_and_basename, filesystem_target, valid_precondition,
}
use linux_deep_clean.Trash.Program.{
  record_fact, reload, select, close, probe_metadata, probe_content, probe_source, context, Program,
  return, perform, chain, closing,
}
use linux_deep_clean.Trash.Move.{give}
use linux_deep_clean.Trash.Metadata.{
  Clock, Basis, home_absolute, top_relative, other_basis, InfoError, TrashInfo, known_basis,
  parse_trash_info,
}

-- The errors of internal/mounts that the authority returns.
pub data MountFault : Type 0 where
  lease_closed mount_drifted mount_unsupported invalid_authority unknown_trash : MountFault
  other_mount : ℕ → MountFault

-- `mounts.TrashMetadataBasis`
pub data MountBasis : Type 0 where
  mount_home_absolute mount_top_relative : MountBasis
  other_mount_basis : Bytes → MountBasis

-- `trashMetadataReconcileAuthority`: what its methods answer.
pub record Authority (k : Kinds) : Type 0 where
  pub root : Bytes
  pub anchored : Bool
  pub identity : Result MountFault k.Layout
  pub basis : MountBasis
  pub path_for : BytePath → Result MountFault BytePath

-- `trashMoveReconcileRequest` and `trashMetadataReconcileRequest`
pub record Request (k : Kinds) : Type 0 where
  pub root : Bytes
  pub source : BytePath
  pub action_id : Bytes
  pub precondition : Precondition k
  pub layout : k.Layout
  pub metadata_path : BytePath
  pub basis : Basis

-- Which of the two reconciliations runs.
pub data Side : Type 0 where
  of_metadata of_content : Side

unfoldable pub event_of : Side → Event
event_of of_metadata = metadata_indeterminate
event_of of_content = move_indeterminate

-- `classifyTrashMetadataAuthorityFailure`
unfoldable pub classify : MountFault → Fault
classify lease_closed = drifted
classify mount_drifted = drifted
classify mount_unsupported = unsupported
classify invalid_authority = unsupported
classify unknown_trash = unsupported
classify (other_mount n) = drifted

abbrev pub classified : {A : Type 0} → Result MountFault A → Result Fault A
classified (ok a) = ok a
classified (err e) = err (classify e)

-- `trashPathBasisFromMounts`
unfoldable pub basis_from : MountBasis → Result Fault Basis
basis_from mount_home_absolute = ok home_absolute
basis_from mount_top_relative = ok top_relative
basis_from (other_mount_basis text) = err unsupported

-- Every other failure is unsupported.
abbrev pub as_unsupported : {E A : Type 0} → Result E A → Result Fault A
as_unsupported (ok a) = ok a
as_unsupported (err e) = err unsupported

-- The Go strings of the outcomes and dispositions.
unfoldable pub outcome_text : Outcome → Bytes
outcome_text unresolved = []
outcome_text resolved_not_applied = codes "not_applied"
outcome_text resolved_move_verified = codes "move_verified"
outcome_text resolved_restore_verified = codes "restore_verified"
outcome_text (other_outcome text) = text

unfoldable pub metadata_text : Metadata → Bytes
metadata_text unrecorded = []
metadata_text absent = codes "absent"
metadata_text retained = codes "retained"
metadata_text (other_metadata text) = text

-- A settled content stays open, for a restore; settled metadata closes the recovery.
abbrev pub closes : Side → Bool → Bool
closes of_metadata closed = closed
closes of_content closed = not closed

module _ {k : Kinds} where
  -- `validateTrashMoveReconcileCore` and `validateTrashMetadataReconcileCore`; every failure is
  -- unsupported.
  unfoldable pub valid_core : Request k → Bool
  valid_core request =
      is_ok (validate_stable_id request.root)
      && is_ok (validate_stable_id request.action_id)
      && is_ok (path_and_basename request.source)
      && valid_precondition request.precondition
      && same_target request.precondition.target (filesystem_target request.root request.source)
      && request.precondition.required == k.required_mask

  -- `validateTrashMoveReconcileRequest` and `validateTrashMetadataReconcileRequest`
  unfoldable pub valid_request : Request k → Bool
  valid_request request =
      valid_core request
      && k.valid_layout request.layout
      && is_ok (new_path request.metadata_path.components)
      && known_basis request.basis

  -- `validateTrashMoveReconcileTicket` and `validateTrashMetadataReconcileTicket`
  unfoldable pub binds : Ticket k → Request k → Bool
  binds ticket request =
      valid_token ticket.token
      && bytes_equal ticket.root request.root
      && path_equal ticket.source request.source
      && bytes_equal ticket.action_id request.action_id
      && is_trash_path ticket.action_kind
      && is_trash ticket.destination
      && k.same_layout ticket.layout request.layout
      && same_precondition ticket.precondition request.precondition

  -- `requireTrashMoveIndeterminateTicket` and `requireTrashMetadataIndeterminateTicket`
  unfoldable pub is_indeterminate : Side → Ticket k → Request k → Bool
  is_indeterminate side ticket request =
      binds ticket request
      && event_equal ticket.event (event_of side)
      && not ticket.closed
      && no_outcome ticket.outcome
      && no_metadata ticket.metadata

  -- `newTrashMoveReconcileCoreRequest` and `newTrashMetadataReconcileCoreRequest`. The metadata path
  -- and the basis are zero values, which are set before they are read.
  unfoldable pub core_request : Ticket k → Result Fault (Request k)
  core_request ticket = do
    as_unsupported (path_and_basename ticket.source)
    let request : Request k = record {
      root = ticket.root;
      source = ticket.source;
      action_id = ticket.action_id;
      precondition = ticket.precondition;
      layout = ticket.layout;
      metadata_path = record { components = [] };
      basis = other_basis 0;
    }
    require (valid_core request) unsupported
    ok request

  -- `completeTrashMoveReconcileRequest` and `completeTrashMetadataReconcileRequest`
  unfoldable pub complete_request :
      Side → Ticket k → Request k → Authority k → Result Fault (Request k)
  complete_request side ticket request authority = do
    require (is_indeterminate side ticket request) unsupported
    require (bytes_equal authority.root request.root) unsupported
    require authority.anchored unsupported
    require (k.valid_layout request.layout) unsupported
    candidate ← classified authority.identity
    require (k.valid_layout candidate) unsupported
    require (k.same_layout request.layout candidate) unsupported
    mapped ← classified (authority.path_for request.source)
    metadata_path ← as_unsupported (new_path mapped.components)
    basis ← basis_from authority.basis
    let full : Request k = record request { metadata_path = metadata_path; basis = basis }
    require (valid_request full) unsupported
    ok full

  -- The facts that the updated ticket has to have.
  unfoldable pub has_facts : Side → Ticket k → Transition → Bool
  has_facts side updated t =
      event_equal updated.event t.event
      && bytes_equal (outcome_text updated.outcome) (outcome_text t.outcome)
      && bytes_equal (metadata_text updated.metadata) (metadata_text t.metadata)
      && closes side updated.closed
