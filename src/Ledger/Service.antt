-- ===== src/Ledger/Service.antt =====
-- internal/state/recovery_ledger.go: the operations of the ledger, each inside one locked session.
-- A session is its answers: what `List` gives, and `Read` and `Publish` at a record. An error of
-- the lock itself comes before the callback or replaces its result, and is not modelled. The
-- context is the answer of `validateRecoveryContext`. The random token, and the binding made of the
-- action with it, are arguments of `reserve`.
pub mod Publish
pub mod Advance
pub mod Tests
use linux_deep_clean.Prelude.{
  ℕ, ◌+◌, Bool, true, false, not, ◌&&◌, List, [], ◌∷◌, Option, none, some, ltb, leb, ◌==◌, Bytes,
  length, Result, ok, err, ◌>>=◌, ◌>>◌, require,
}
use linux_deep_clean.Pathbytes.BytePath.{BytePath}
use linux_deep_clean.Ledger.Vocabulary.{
  LedgerError, conflict, corrupt, unsupported, interrupted, other_filesystem, intent_reserved,
  unresolved, unrecorded, Transition,
}
use linux_deep_clean.Ledger.Frame.{
  Frame, Recovery, Bindings, maximum_frame_bytes, zero_digest, validate_frame, encode_frame,
  recovery_from_frame, apply_frame,
}
use linux_deep_clean.Ledger.Replay.{append_transition}
use linux_deep_clean.Ledger.Records.{RecordId, new_record_id}
use linux_deep_clean.Domain.Identifiers.{validate_stable_id}
use linux_deep_clean.Ledger.Sources.{Identities, validate_recovery_path}
use linux_deep_clean.Ledger.Histories.{
  Record, History, maximum_records, wrap_as, require_capacity, outstanding_recoveries,
  replay_ledger_records, find_outstanding, find_history,
}

-- `recoveryLedgerSession`
pub record Session : Type 0 where
  pub list : ℕ → Result LedgerError (List RecordId)
  pub read : RecordId → ℕ → Result LedgerError Bytes
  pub publish : Record → Result LedgerError (Unit {0})

-- The value and the error that `Reserve` and `Transition` return: a recovery without an error, a
-- candidate with `ErrInterrupted`, or the zero `Recovery` with an error.
pub data Answer (B : Type 0) : Type 0 where
  done : Recovery B → Answer B
  ambiguous : Recovery B → Answer B
  refused : LedgerError → Answer B

unfoldable pub read_all : Session → List RecordId → Result LedgerError (List Record)
read_all session [] = ok []
read_all session (id ∷ ids) = do
  contents ← session.read id maximum_frame_bytes
  rest ← read_all session ids
  ok (record { id = id; contents = contents } ∷ rest)

-- The record that an operation publishes, and the recovery that is then current.
pub record Candidate (B : Type 0) : Type 0 where
  pub entry : Record
  pub recovery : Recovery B

-- The end of the callback and what the operation makes of its error.
unfoldable pub answer_of : {B : Type 0} → Recovery B → Result LedgerError (Unit {0}) → Answer B
answer_of candidate (ok u) = done candidate
answer_of candidate (err interrupted) = ambiguous candidate
answer_of candidate (err e) = refused e

unfoldable pub publish_candidate :
    {B : Type 0} → Session → Result LedgerError (Candidate B) → Answer B
publish_candidate session (err e) = refused e
publish_candidate session (ok candidate) =
    answer_of candidate.recovery (session.publish candidate.entry)

abbrev pub refuse_found : {A : Type 0} → Option A → Result LedgerError (Unit {0})
refuse_found none = ok tt
refuse_found (some a) = err conflict

module _ (b : Bindings) (i : Identities b) where
  open b use {Binding}
  open i use {valid_digest, digest, token, root, source}

  -- `readRecoveryHistories`
  unfoldable pub read_histories : Session → Result LedgerError (List (History Binding))
  read_histories session = do
    ids ← session.list maximum_records
    records ← read_all session ids
    replay_ledger_records b i records

  -- `newIntentFrame`
  unfoldable pub new_intent_frame : Binding → Result LedgerError (Frame Binding)
  new_intent_frame binding = do
    let frame : Frame Binding = record {
      schema_version = 2;
      binding = binding;
      event = intent_reserved;
      ordinal = 0;
      predecessor = zero_digest;
      outcome = unresolved;
      metadata = unrecorded;
    }
    validate_frame b frame
    ok frame

  -- The record for a frame, under the identity of a binding.
  unfoldable pub entry_of : LedgerError → Binding → Frame Binding → Result LedgerError Record
  entry_of e binding frame = do
    id ← wrap_as e (new_record_id (digest binding) (token binding) frame.ordinal)
    contents ← encode_frame b frame
    ok (record { id = id; contents = contents })

  -- The callback of `Reserve`, up to the publication.
  unfoldable pub reserve_candidate :
      Binding → List (History Binding) → Result LedgerError (Candidate Binding)
  reserve_candidate binding histories = do
    require_capacity histories
    existing ← find_outstanding b i histories (root binding) (source binding)
    refuse_found existing
    intent ← new_intent_frame binding
    candidate ← recovery_from_frame b intent
    entry ← entry_of unsupported binding intent
    ok (record { entry = entry; recovery = candidate })

  -- `Reserve`, of the binding that `newRecoveryBinding` made or its error
  unfoldable pub reserve :
      Result LedgerError (Unit {0}) → Result LedgerError Binding → Session → Answer Binding
  reserve context made session = publish_candidate session (do
    context
    binding ← made
    histories ← read_histories session
    reserve_candidate binding histories)

  -- `validateRecoveryIdentity`
  unfoldable pub validate_identity : Recovery Binding → Result LedgerError (Unit {0})
  validate_identity recovery = do
    require (valid_digest recovery.binding) unsupported
    wrap_as unsupported (new_record_id (digest recovery.binding) (token recovery.binding) 0)
    ok tt

  -- The callback of `Transition`, up to the publication.
  unfoldable pub transition_candidate :
      Recovery Binding
      → Transition
      → List (History Binding)
      → Result LedgerError (Candidate Binding)
  transition_candidate recovery t histories = do
    history ← find_history b i histories recovery
    require (history.recovery.schema_version == 2) unsupported
    require_capacity histories
    next ← append_transition b history.frames t
    candidate ← apply_frame b history.recovery next
    entry ← entry_of corrupt candidate.binding next
    ok (record { entry = entry; recovery = candidate })

  -- `Transition`
  unfoldable pub transition :
      Result LedgerError (Unit {0}) → Recovery Binding → Transition → Session → Answer Binding
  transition context recovery t session = publish_candidate session (do
    context
    validate_identity recovery
    histories ← read_histories session
    transition_candidate recovery t histories)

  -- `FindOutstanding`
  unfoldable pub find_open :
      Result LedgerError (Unit {0})
      → Bytes
      → BytePath
      → Session
      → Result LedgerError (Option (Recovery Binding))
  find_open context at path session = do
    context
    wrap_as unsupported (validate_stable_id at)
    wrap_as unsupported (validate_recovery_path path)
    histories ← read_histories session
    find_outstanding b i histories at path

  -- `ListOutstanding`. A limit below zero is refused like zero.
  unfoldable pub list_outstanding :
      Result LedgerError (Unit {0}) → ℕ → Session → Result LedgerError (List (Recovery Binding))
  list_outstanding context limit session = do
    context
    require (ltb 0 limit && leb limit maximum_records) unsupported
    histories ← read_histories session
    outstanding_recoveries histories limit

  -- `Reload`
  unfoldable pub reload :
      Result LedgerError (Unit {0})
      → Recovery Binding
      → Session
      → Result LedgerError (Recovery Binding)
  reload context recovery session = do
    context
    validate_identity recovery
    histories ← read_histories session
    history ← find_history b i histories recovery
    ok history.recovery
