-- ===== src/Trash/Reconcile/Flow.antt =====
-- internal/trash/reconcile.go and internal/trash/content_reconcile.go: the two reconciliations as
-- programs.
use linux_deep_clean.Prelude.{
  Bool, true, false, not, ◌&&◌, [], ◌∷◌, ◌++◌, Option, none, some, if◌then◌else◌, Bytes,
  bytes_equal, Result, ok, err, ◌>>=◌,
}
use linux_deep_clean.Pathbytes.BytePath.{PathError, BytePath, path_equal}
use linux_deep_clean.Ledger.Vocabulary.{
  resolved_not_applied, resolved_move_verified, Metadata, unrecorded, absent, retained, Transition,
}
use linux_deep_clean.Ledger.Transition.Lifecycle.{resolution}
use linux_deep_clean.Trash.Facts.{
  Fault, Faults, drifted, unsupported, interrupted, Kinds, Ticket, Answer, path_and_basename,
}
use linux_deep_clean.Trash.Program.{
  record_fact, reload, select, probe_metadata, probe_content, probe_source, context, Program,
  return, perform, closing,
}
use linux_deep_clean.Trash.Move.{give}
use linux_deep_clean.Trash.Metadata.{
  Clock, Basis, home_absolute, top_relative, InfoError, TrashInfo, parse_trash_info,
}
use linux_deep_clean.Trash.Reconcile.{
  Authority, Request, Side, of_metadata, of_content, valid_request, binds, is_indeterminate,
  core_request, complete_request, has_facts,
}

abbrev pub same_basis : Basis → Basis → Bool
same_basis home_absolute home_absolute = true
same_basis top_relative top_relative = true
same_basis _ _ = false

-- A nil slice has no bytes.
abbrev pub bytes_of : Option Bytes → Bytes
bytes_of none = []
bytes_of (some contents) = contents

module _ {k : Kinds} where
  abbrev pub stop : Ticket k → Faults → Program k (Answer k)
  stop ticket faults = return (give (some ticket) faults)

  -- `if err != nil { return ticket, err }`
  abbrev pub unless : Ticket k → Faults → Program k (Answer k) → Program k (Answer k)
  unless ticket [] go = go
  unless ticket (fault ∷ faults) go = stop ticket (fault ∷ faults)

  -- The ticket that a reload with another token leaves.
  abbrev pub kept : Side → Ticket k → Ticket k → Ticket k
  kept of_metadata ticket current = current
  kept of_content ticket current = ticket

  -- Behind the ledger's reply to `Reload`.
  unfoldable pub reloaded :
      Side
      → Ticket k
      → (Ticket k → Program k (Answer k))
      → Option (Ticket k)
      → Faults
      → Program k (Answer k)
  reloaded side ticket go none [] = stop ticket (interrupted ∷ [])
  reloaded side ticket go none (fault ∷ faults) = stop ticket (fault ∷ faults)
  reloaded side ticket go (some current) faults =
      if not (bytes_equal current.token ticket.token)
      then stop (kept side ticket current) (faults ++ unsupported ∷ [])
      else unless current faults (go current)

  -- `reloadTrashMoveReconcileTicket` and `reloadTrashMetadataReconcileTicket`, and the rest
  unfoldable pub with_reload :
      Side → Ticket k → (Ticket k → Program k (Answer k)) → Program k (Answer k)
  with_reload side ticket go = perform context (λ faults.
      unless ticket faults
        (perform (reload ticket) (λ reply. reloaded side ticket go reply.ticket reply.faults)))

  -- `validateTrashMoveReconcileExecution` and `validateTrashMetadataReconcileExecution`, and the rest
  unfoldable pub with_check :
      Side → Ticket k → Request k → Program k (Answer k) → Program k (Answer k)
  with_check side ticket request go = perform context (λ faults. unless ticket faults (
      if valid_request request && is_indeterminate side ticket request
      then go
      else stop ticket (unsupported ∷ [])))

  -- The end of `transitionTrashMoveReconcileTicket` and `transitionTrashMetadataReconcileTicket`.
  unfoldable pub settled :
      Side → Request k → Ticket k → Transition → Option (Ticket k) → Faults → Answer k
  settled side request ticket t none [] = give (some ticket) (interrupted ∷ [])
  settled side request ticket t none (fault ∷ faults) = give (some ticket) (fault ∷ faults)
  settled side request ticket t (some updated) faults =
      if not (bytes_equal updated.token ticket.token)
      then give (some ticket) (faults ++ unsupported ∷ [])
      else if not (binds updated request && has_facts side updated t)
      then give (some updated) (faults ++ unsupported ∷ [])
      else give (some updated) faults

  unfoldable pub settle : Side → Request k → Ticket k → Transition → Program k (Answer k)
  settle side request ticket t =
      perform (record_fact ticket t)
        (λ reply. return (settled side request ticket t reply.ticket reply.faults))

  module _ (clock : Clock k) where
    abbrev pub is_bound : Request k → Bytes → Result InfoError (TrashInfo k) → Bool
    is_bound request token (err e) = false
    is_bound request token (ok info) =
        bytes_equal info.token token
        && same_basis info.basis request.basis
        && path_equal info.path request.metadata_path

    -- What a probe read is a record that binds the source of the ticket; nil reads as no bytes.
    unfoldable pub names_source : Request k → Bytes → Bytes → Bool
    names_source request token contents =
        is_bound request token (parse_trash_info clock contents token request.basis)

    -- The disposition that one probe of the metadata shows, or a drift.
    unfoldable pub disposition_of : Request k → Bytes → Option Bytes → Bool → Option Metadata
    disposition_of request token none false = some absent
    disposition_of request token (some contents) false = none
    disposition_of request token contents true =
        if names_source request token (bytes_of contents) then some retained else none

    unfoldable pub settle_metadata : Request k → Ticket k → Option Metadata → Program k (Answer k)
    settle_metadata request ticket none = stop ticket (drifted ∷ [])
    settle_metadata request ticket (some m) =
        settle of_metadata request ticket (resolution resolved_not_applied m)

    -- `reconcileIndeterminateTrashMetadataWith`, behind the directories
    unfoldable pub probe_owned_metadata : Request k → Ticket k → Program k (Answer k)
    probe_owned_metadata request ticket = perform (probe_metadata ticket.token) (λ reply.
        unless ticket reply.faults (
          settle_metadata request ticket
            (disposition_of request ticket.token reply.contents reply.present)))

    -- `probeTrashMoveReconcileMetadata`, and the rest with the bytes
    unfoldable pub with_metadata :
        Request k → Ticket k → (Bytes → Program k (Answer k)) → Program k (Answer k)
    with_metadata request ticket go = perform (probe_metadata ticket.token) (λ reply.
        unless ticket reply.faults (
          if reply.present && names_source request ticket.token (bytes_of reply.contents)
          then go (bytes_of reply.contents)
          else stop ticket (drifted ∷ [])))

    -- A test of the file system that has to hold, and the rest.
    abbrev pub demand : Ticket k → Bool → Faults → Program k (Answer k) → Program k (Answer k)
    demand ticket holds faults go =
        unless ticket faults (if holds then go else stop ticket (drifted ∷ []))

    -- `probeTrashMoveReconcileSourceAbsence`, by what `trashMovePathAndBasename` answers, and the rest
    unfoldable pub with_absence :
        Request k
        → Ticket k
        → Result PathError (BytePath × Bytes)
        → Program k (Answer k)
        → Program k (Answer k)
    with_absence request ticket (err e) go = stop ticket (unsupported ∷ [])
    with_absence request ticket (ok (path, basename)) go =
        perform (probe_source basename request.precondition)
          (λ reply. demand ticket reply.holds reply.faults go)

    -- `reconcileIndeterminateTrashMoveWithSource`, behind the directories: the metadata, the absence
    -- of the source, the content, the absence and the metadata once more.
    unfoldable pub probe_owned_content : Request k → Ticket k → Program k (Answer k)
    probe_owned_content request ticket = with_metadata request ticket (λ first.
        with_absence request ticket (path_and_basename request.source) (
          perform (probe_content ticket.token request.precondition) (λ content.
            demand ticket content.holds content.faults (
              with_absence request ticket (path_and_basename request.source) (
                with_metadata request ticket (λ final.
                  if bytes_equal first final
                  then settle of_content request ticket
                      (resolution resolved_move_verified unrecorded)
                  else stop ticket (drifted ∷ [])))))))

    unfoldable pub probe_side : Side → Request k → Ticket k → Program k (Answer k)
    probe_side of_metadata request ticket = probe_owned_metadata request ticket
    probe_side of_content request ticket = probe_owned_content request ticket

    -- Behind `selectDirectories`.
    unfoldable pub directed : Side → Request k → Ticket k → Bool → Faults → Program k (Answer k)
    directed side request ticket directories (fault ∷ faults) = stop ticket (fault ∷ faults)
    directed side request ticket false [] = stop ticket (unsupported ∷ [])
    directed side request ticket true [] = closing (probe_side side request ticket)

    -- `reconcileIndeterminateTrashMoveWith` and `reconcileIndeterminateTrashMetadataWith`
    unfoldable pub reconcile_with : Side → Ticket k → Request k → Program k (Answer k)
    reconcile_with side ticket request = with_check side ticket request (
        with_reload side ticket (λ current.
          with_check side current request (
            perform select
              (λ reply. directed side request current reply.directories reply.faults))))

    unfoldable pub with_request : Side → Ticket k → Result Fault (Request k) → Program k (Answer k)
    with_request side ticket (err fault) = stop ticket (fault ∷ [])
    with_request side ticket (ok request) = reconcile_with side ticket request

    -- Both reconciliations, with the authority of the lease
    unfoldable pub reconcile_with_authority : Side → Ticket k → Authority k → Program k (Answer k)
    reconcile_with_authority side ticket authority = with_reload side ticket (λ current.
        with_request side current
          (core_request current >>= λ request. complete_request side current request authority))

    -- `reconcileIndeterminateTrashMetadataWithAuthority`
    abbrev pub reconcile_metadata : Ticket k → Authority k → Program k (Answer k)
    reconcile_metadata ticket authority = reconcile_with_authority of_metadata ticket authority

    -- `reconcileIndeterminateTrashMoveWithAuthority`
    abbrev pub reconcile_move : Ticket k → Authority k → Program k (Answer k)
    reconcile_move ticket authority = reconcile_with_authority of_content ticket authority
