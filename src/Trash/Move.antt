-- ===== src/Trash/Move.antt =====
-- internal/trash/move.go: the durable order of a move to the Trash.
-- `moveToTrashWith` is cut at its commands: each function stands for the code behind one reply.
pub mod Protocol
pub mod Recording
pub mod Owned
pub mod Asks
pub mod Ordered
pub mod Kept
use linux_deep_clean.Prelude.{
  ℕ, Bool, true, false, not, ◌&&◌, ◌||◌, List, [], ◌∷◌, ◌++◌, Option, none, some, ◌==◌,
  if◌then◌else◌, Bytes, bytes_equal, Result, ok, err, ◌>>=◌, ◌>>◌, require,
}
use linux_deep_clean.Pathbytes.BytePath.{PathError, BytePath}
use linux_deep_clean.Domain.Identifiers.{validate_stable_id, validate_digest}
use linux_deep_clean.Domain.Plan.{is_ok}
use linux_deep_clean.Ledger.Vocabulary.{
  Event, intent_reserved, metadata_dispatch_recorded, metadata_verified, metadata_indeterminate,
  move_dispatch_recorded, move_verified, move_indeterminate, reconciliation_resolved, unresolved,
  resolved_not_applied, unrecorded, retained, Transition,
}
use linux_deep_clean.Ledger.Transition.Lifecycle.{plain, resolution}
use linux_deep_clean.Trash.Facts.{
  Fault, Faults, drifted, unsupported, interrupted, Kinds, Ticket, Request, Answer, event_equal,
  no_outcome, no_metadata, valid_date, same_target, path_and_basename, filesystem_target,
  valid_precondition, valid_ticket,
}
use linux_deep_clean.Trash.Program.{
  Command, reserve, record_fact, write, select, move, Disposition, not_applied, verified,
  indeterminate, unknown_disposition, Publication, Written, Selected, Moved, Program, return,
  perform, chain, closing,
}

-- The error in `moveErr`, or the one that stands for it.
abbrev pub or_fault : Faults → Fault → Faults
or_fault [] fault = fault ∷ []
or_fault (f ∷ faults) fault = f ∷ faults

module _ {k : Kinds} where
  abbrev pub give : Option (Ticket k) → Faults → Answer k
  give ticket faults = record { ticket = ticket; faults = faults }

  -- The first test that fails says which error: all are unsupported.
  unfoldable pub path_bound : Request k → Result PathError (BytePath × Bytes) → Bool
  path_bound request (err e) = false
  path_bound request (ok (path, basename)) =
      bytes_equal basename request.basename
      && valid_precondition request.precondition
      && same_target request.precondition.target (filesystem_target request.root path)

  -- `validateTrashMoveExecution`, behind its test of the context
  unfoldable pub valid_execution : Request k → Bool
  valid_execution request =
      is_ok (validate_stable_id request.root)
      && is_ok (validate_stable_id request.action_id)
      && is_ok (validate_digest request.plan_digest)
      && k.valid_layout request.layout
      && valid_date k request.deleted_at
      && path_bound request (path_and_basename request.source)
      && request.precondition.required == k.required_mask

  -- `requireTrashMoveTicketEvent`, for an event that is no resolution
  unfoldable pub is_at : Ticket k → Request k → Event → Bool
  is_at ticket request event =
      valid_ticket ticket request
      && event_equal ticket.event event
      && not ticket.closed
      && no_outcome ticket.outcome
      && no_metadata ticket.metadata

  -- The end of `transitionTrashMoveTicket`, by the ticket and the error of the ledger's reply.
  unfoldable pub transitioned : Request k → Ticket k → Event → Option (Ticket k) → Faults → Answer k
  transitioned request ticket event none [] = give none (interrupted ∷ [])
  transitioned request ticket event none (fault ∷ faults) = give (some ticket) (fault ∷ faults)
  transitioned request ticket event (some updated) faults =
      if not (bytes_equal updated.token ticket.token)
      then give (some ticket) (faults ++ unsupported ∷ [])
      else if not (valid_ticket updated request && event_equal updated.event event)
      then give (some updated) (faults ++ unsupported ∷ [])
      else give (some updated) faults

  -- `transitionTrashMoveTicket`
  unfoldable pub transition_ticket : Request k → Ticket k → Transition → Program k (Answer k)
  transition_ticket request ticket t =
      perform (record_fact ticket t)
        (λ reply. return (transitioned request ticket t.event reply.ticket reply.faults))

  -- `if err != nil { return ticket, err }`, and the rest with the ticket
  unfoldable pub or_return :
      Option (Ticket k) → Faults → (Ticket k → Program k (Answer k)) → Program k (Answer k)
  or_return ticket (fault ∷ faults) go = return (give ticket (fault ∷ faults))
  or_return (some ticket) [] go = go ticket
  or_return none [] go = return (give none [])

  abbrev pub after_transition :
      Request k → Ticket k → Transition → (Ticket k → Program k (Answer k)) → Program k (Answer k)
  after_transition request ticket t go =
      chain (transition_ticket request ticket t)
        (λ answer. or_return answer.ticket answer.faults go)

  -- `recordTrashMetadataIndeterminate`, `reconcileTrashMetadataRetained` and
  -- `recordTrashMoveIndeterminate`: one fact is recorded, and the cause is returned with its result.
  unfoldable pub record_cause : Request k → Ticket k → Transition → Faults → Program k (Answer k)
  record_cause request ticket t cause =
      chain (transition_ticket request ticket t)
        (λ answer. return (give answer.ticket (cause ++ answer.faults)))

  -- `validateTrashMetadataPublication`, with the publication that it has checked
  unfoldable pub valid_publication :
      Request k → Ticket k → Option Publication → Result Fault Publication
  valid_publication request ticket none = err interrupted
  valid_publication request ticket (some publication) = do
    require publication.receipt interrupted
    require
        (bytes_equal publication.root request.root && bytes_equal publication.token ticket.token)
        drifted
    ok publication

  -- Behind the first fact of a move that was not applied.
  unfoldable pub resolve_unapplied :
      Request k → Faults → Option (Ticket k) → Faults → Program k (Answer k)
  resolve_unapplied request cause ticket (fault ∷ faults) =
      return (give ticket (cause ++ fault ∷ faults))
  resolve_unapplied request cause (some ticket) [] =
      record_cause request ticket (resolution resolved_not_applied unrecorded) cause
  resolve_unapplied request cause none [] = return (give none cause)

  unfoldable pub unapplied : Request k → Ticket k → Faults → Program k (Answer k)
  unapplied request ticket cause =
      chain (transition_ticket request ticket (plain move_indeterminate))
        (λ answer. resolve_unapplied request cause answer.ticket answer.faults)

  -- The switch on the disposition.
  unfoldable pub moved : Request k → Ticket k → Disposition → Faults → Program k (Answer k)
  moved request ticket verified [] = transition_ticket request ticket (plain move_verified)
  moved request ticket verified (fault ∷ faults) =
      record_cause request ticket (plain move_indeterminate) (fault ∷ faults)
  moved request ticket indeterminate faults =
      record_cause request ticket (plain move_indeterminate) (or_fault faults interrupted)
  moved request ticket not_applied faults = unapplied request ticket (or_fault faults drifted)
  moved request ticket (unknown_disposition n) faults =
      record_cause request ticket (plain move_indeterminate) (interrupted ∷ [])

  abbrev pub dispatch_move : Request k → Ticket k → Publication → Program k (Answer k)
  dispatch_move request ticket publication =
      after_transition request ticket (plain move_dispatch_recorded) (λ dispatched.
        perform (move request.basename publication request.precondition)
          (λ reply. moved request dispatched reply.disposition reply.faults))

  -- Behind `selectDirectories`: whether it gave directories, and its error.
  unfoldable pub selected :
      Request k → Ticket k → Publication → Bool → Faults → Program k (Answer k)
  selected request ticket publication directories (fault ∷ faults) =
      record_cause request ticket (resolution resolved_not_applied retained) (fault ∷ faults)
  selected request ticket publication false [] =
      record_cause request ticket (resolution resolved_not_applied retained) (unsupported ∷ [])
  selected request ticket publication true [] = closing (dispatch_move request ticket publication)

  -- Behind the check of the publication.
  unfoldable pub published : Request k → Ticket k → Result Fault Publication → Program k (Answer k)
  published request ticket (err fault) =
      record_cause request ticket (plain metadata_indeterminate) (fault ∷ [])
  published request ticket (ok publication) =
      after_transition request ticket (plain metadata_verified) (λ held.
        perform select (λ reply. selected request held publication reply.directories reply.faults))

  unfoldable pub written : Request k → Ticket k → Option Publication → Faults → Program k (Answer k)
  written request ticket publication (fault ∷ faults) =
      record_cause request ticket (plain metadata_indeterminate) (fault ∷ faults)
  written request ticket publication [] =
      published request ticket (valid_publication request ticket publication)

  unfoldable pub reserved : Request k → Option (Ticket k) → Faults → Program k (Answer k)
  reserved request none [] = return (give none (unsupported ∷ []))
  reserved request (some ticket) [] =
      if is_at ticket request intent_reserved
      then after_transition request ticket (plain metadata_dispatch_recorded) (λ dispatched.
        perform (write dispatched.token request.source request.deleted_at)
          (λ reply. written request dispatched reply.publication reply.faults))
      else return (give (some ticket) (unsupported ∷ []))
  reserved request none (fault ∷ faults) = return (give none (fault ∷ faults))
  reserved request (some ticket) (fault ∷ faults) =
      if valid_ticket ticket request
      then return (give (some ticket) (fault ∷ faults))
      else return (give (some ticket) (fault ∷ faults ++ unsupported ∷ []))

  -- `moveToTrashWith`; the first argument is the error of `writeTrashInfoContextError`.
  unfoldable pub move_to_trash_with : Faults → Request k → Program k (Answer k)
  move_to_trash_with (fault ∷ faults) request = return (give none (fault ∷ faults))
  move_to_trash_with [] request =
      if valid_execution request
      then perform (reserve request.action_id request.plan_digest request.layout)
          (λ reply. reserved request reply.ticket reply.faults)
      else return (give none (unsupported ∷ []))
