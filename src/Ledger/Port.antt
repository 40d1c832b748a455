-- ===== src/Ledger/Port.antt =====
-- internal/state/recovery_ledger_port.go: the ledger behind the port that content operations use.
-- The vocabulary of internal/recoveryport has the same words as the ledger's, so the types of
-- Vocabulary.antt stand for both. A pointer to a port is its number. A ticket copies the source and
-- the precondition of its binding, and is here the recovery with what the port checks of it.
pub mod Mapping
pub mod Words
pub mod Issued
pub mod Served
pub mod Inventory
mod Tests
use linux_deep_clean.Prelude.{
  ℕ, Bool, List, [], ◌∷◌, Option, none, some, ◌==◌, Bytes, length, if◌then◌else◌, Result, ok, err,
  ◌>>=◌, ◌>>◌, require,
}
use linux_deep_clean.Pathbytes.BytePath.{BytePath}
use linux_deep_clean.Ledger.Vocabulary.{
  LedgerError, corrupt, unsupported, interrupted, Destination, trash, quarantine, other_destination,
  Event, intent_reserved, metadata_dispatch_recorded, metadata_verified, metadata_indeterminate,
  move_dispatch_recorded, move_verified, move_indeterminate, restore_dispatch_recorded,
  restore_verified, restore_indeterminate, reconciliation_resolved, other_event, Outcome,
  unresolved, resolved_not_applied, resolved_move_verified, resolved_restore_verified,
  other_outcome, Metadata, unrecorded, absent, retained, other_metadata, Transition,
}
use linux_deep_clean.Ledger.Frame.{Recovery, Bindings}
use linux_deep_clean.Ledger.Sources.{Identities}
use linux_deep_clean.Ledger.Histories.{wrap_as}
use linux_deep_clean.Ledger.Service.{
  Session, Answer, done, ambiguous, refused, validate_identity, reserve, transition, find_open,
  list_outstanding, reload,
}
use linux_deep_clean.Ledger.Port.Mapping.{
  destination_to_port, known_event, event_to_port, event_from_port, known_outcome, outcome_to_port,
  outcome_from_port, known_metadata, metadata_to_port, metadata_from_port, transition_from_port,
}

-- `RecoveryLedgerPort`; one that is made without `NewRecoveryLedgerPort` may have no ledger.
pub record Port : Type 0 where
  pub address : ℕ
  pub initialized : Bool

-- `recoveryTicket`
pub record PortTicket (B : Type 0) : Type 0 where
  pub port : ℕ
  pub recovery : Recovery B
  pub destination : Destination
  pub event : Event
  pub outcome : Outcome
  pub metadata : Metadata
  pub source : BytePath

-- What a caller hands in as a `recoveryport.Ticket`: a pointer to a ticket of some port, or a nil
-- pointer or another implementation.
pub data Handle (B : Type 0) : Type 0 where
  ticket : PortTicket B → Handle B
  not_ticket : Handle B

-- The ticket and the error that an operation returns.
pub data PortAnswer (B : Type 0) : Type 0 where
  issued : PortTicket B → PortAnswer B
  undecided : PortTicket B → PortAnswer B
  failed : LedgerError → PortAnswer B

-- `RecoveryLedgerPort.validate`
unfoldable pub validate_port : Port → Result LedgerError (Unit {0})
validate_port port = require port.initialized unsupported

-- `RecoveryLedgerPort.unwrap`
unfoldable pub unwrap : {B : Type 0} → Port → Handle B → Result LedgerError (Recovery B)
unwrap port not_ticket = err unsupported
unwrap port (ticket t) = do require (t.port == port.address) unsupported; ok t.recovery

-- The ticket with the error of the operation, or the error of making the ticket.
unfoldable pub issued_as :
    {B : Type 0} → (PortTicket B → PortAnswer B) → Result LedgerError (PortTicket B) → PortAnswer B
issued_as how (ok t) = how t
issued_as how (err e) = failed e

-- The rest of an operation, or the error before it.
unfoldable pub answered : {A B : Type 0} → Result LedgerError A → (A → PortAnswer B) → PortAnswer B
answered (ok a) go = go a
answered (err e) go = failed e

module _ (b : Bindings) (i : Identities b) where
  open b use {Binding, destination}
  open i use {token, source}

  -- `newTicket`
  unfoldable pub new_ticket : Port → Recovery Binding → Result LedgerError (PortTicket Binding)
  new_ticket port recovery = do
    wrap_as corrupt (validate_identity b i recovery)
    held ← destination_to_port (destination recovery.binding)
    event ← event_to_port recovery.event
    outcome ← outcome_to_port recovery.outcome
    metadata ← metadata_to_port recovery.metadata
    ok (record {
      port = port.address;
      recovery = recovery;
      destination = held;
      event = event;
      outcome = outcome;
      metadata = metadata;
      source = source recovery.binding;
    })

  -- `ticketResult`. The zero `Recovery`, which comes with an error, has no token.
  unfoldable pub ticket_result : Port → Answer Binding → PortAnswer Binding
  ticket_result port (refused e) = failed e
  ticket_result port (done recovery) =
      if length (token recovery.binding) == 0
      then failed corrupt
      else issued_as issued (new_ticket port recovery)
  ticket_result port (ambiguous recovery) =
      if length (token recovery.binding) == 0
      then failed interrupted
      else issued_as undecided (new_ticket port recovery)

  -- `RecoveryLedgerPort.Reserve`
  unfoldable pub port_reserve :
      Port
      → Result LedgerError (Unit {0})
      → Result LedgerError Binding
      → Session
      → PortAnswer Binding
  port_reserve port context made session =
      answered (validate_port port) (λ _. ticket_result port (reserve b i context made session))

  -- The ticket is looked at before the fact, and both before the ledger.
  unfoldable pub transition_input :
      Port → Handle Binding → Transition → Result LedgerError (Recovery Binding × Transition)
  transition_input port handle t = do
    validate_port port
    recovery ← unwrap port handle
    fact ← transition_from_port t
    ok (recovery, fact)

  -- `RecoveryLedgerPort.Transition`
  unfoldable pub port_transition :
      Port
      → Result LedgerError (Unit {0})
      → Handle Binding
      → Transition
      → Session
      → PortAnswer Binding
  port_transition port context handle t session =
      answered (transition_input port handle t)
        (λ input. ticket_result port (transition b i context input.0 input.1 session))

  unfoldable pub ticket_of :
      Port → Option (Recovery Binding) → Result LedgerError (Option (PortTicket Binding))
  ticket_of port none = ok none
  ticket_of port (some recovery) = do held ← new_ticket port recovery; ok (some held)

  -- `RecoveryLedgerPort.FindOutstanding`
  unfoldable pub port_find :
      Port
      → Result LedgerError (Unit {0})
      → Bytes
      → BytePath
      → Session
      → Result LedgerError (Option (PortTicket Binding))
  port_find port context at path session = do
    validate_port port
    found ← find_open b i context at path session
    ticket_of port found

  unfoldable pub new_tickets :
      Port → List (Recovery Binding) → Result LedgerError (List (PortTicket Binding))
  new_tickets port [] = ok []
  new_tickets port (recovery ∷ recoveries) = do
    held ← new_ticket port recovery
    rest ← new_tickets port recoveries
    ok (held ∷ rest)

  -- `RecoveryLedgerPort.ListOutstanding`
  unfoldable pub port_list :
      Port
      → Result LedgerError (Unit {0})
      → ℕ
      → Session
      → Result LedgerError (List (PortTicket Binding))
  port_list port context limit session = do
    validate_port port
    recoveries ← list_outstanding b i context limit session
    new_tickets port recoveries

  unfoldable pub reload_answer : Result LedgerError (Recovery Binding) → Answer Binding
  reload_answer (ok recovery) = done recovery
  reload_answer (err e) = refused e

  -- `RecoveryLedgerPort.Reload`
  unfoldable pub port_reload :
      Port → Result LedgerError (Unit {0}) → Handle Binding → Session → PortAnswer Binding
  port_reload port context handle session =
      answered (do validate_port port; unwrap port handle)
        (λ recovery. ticket_result port (reload_answer (reload b i context recovery session)))
