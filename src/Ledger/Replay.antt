-- ===== src/Ledger/Replay.antt =====
-- internal/state/recovery_ledger.go: replaying a history of frames, and the frame for one more fact.
pub mod Chain
pub mod Append
pub mod Order
pub mod Standing
pub mod Digested
pub mod Closing
use linux_deep_clean.Prelude.{
  ℕ, ◌+◌, ◌%◌, ◌&&◌, List, [], ◌∷◌, Option, none, some, ltb, leb, ◌==◌, bytes_equal, length, Result,
  ok, err, ◌>>=◌, ◌>>◌, require,
}
use linux_deep_clean.Ledger.Vocabulary.{LedgerError, conflict, corrupt, unsupported, Transition}
use linux_deep_clean.Ledger.Frame.{
  Frame, Recovery, Bindings, maximum_ordinal, is_zero_digest, is_intent, as_corrupt, validate_frame,
  frame_digest, recovery_from_frame, apply_frame,
}
use linux_deep_clean.Ledger.Transition.{validate_transition}

abbrev pub transition_of : {B : Type 0} → Frame B → Transition
transition_of f = record { event = f.event; outcome = f.outcome; metadata = f.metadata }

abbrev pub last_frame : {B : Type 0} → List (Frame B) → Option (Frame B)
last_frame [] = none
last_frame (f ∷ []) = some f
last_frame (f ∷ g ∷ fs) = last_frame (g ∷ fs)

module _ (b : Bindings) where
  open b use {Binding, same_binding}

  -- One round of the loop of `replayRecoveryFrames`, at an index above zero.
  unfoldable pub replay_step :
      ℕ → Frame Binding → Recovery Binding → Frame Binding → Result LedgerError (Recovery Binding)
  replay_step index previous recovery frame = do
    validate_frame b frame
    require (frame.ordinal == index) corrupt
    require (frame.schema_version == recovery.schema_version) corrupt
    require (same_binding recovery.binding frame.binding) corrupt
    previous_digest ← frame_digest b previous
    require (bytes_equal frame.predecessor previous_digest) corrupt
    as_corrupt (validate_transition b recovery (transition_of frame))
    apply_frame b recovery frame

  unfoldable pub replay_next :
      ℕ
      → Frame Binding
      → Recovery Binding
      → List (Frame Binding)
      → Result LedgerError (Recovery Binding)
  replay_next index previous recovery [] = ok recovery
  replay_next index previous recovery (frame ∷ frames) = do
    updated ← replay_step index previous recovery frame
    replay_next (index + 1) frame updated frames

  -- `replayRecoveryFrames`. An index is at most 15, so it fits `uint8`.
  unfoldable pub replay_frames : List (Frame Binding) → Result LedgerError (Recovery Binding)
  replay_frames [] = err corrupt
  replay_frames (frame ∷ frames) = do
    require (leb (length (frame ∷ frames)) (maximum_ordinal + 1)) corrupt
    validate_frame b frame
    require (frame.ordinal == 0) corrupt
    require (is_intent frame.event && is_zero_digest frame.predecessor) corrupt
    recovery ← recovery_from_frame b frame
    replay_next 1 frame recovery frames

  -- The new frame of `appendRecoveryTransition`, behind the last frame of the history.
  unfoldable pub next_frame :
      Recovery Binding → Option (Frame Binding) → Transition → Result LedgerError (Frame Binding)
  next_frame recovery none t = err conflict
  next_frame recovery (some last) t = do
    require (ltb last.ordinal maximum_ordinal) conflict
    validate_transition b recovery t
    predecessor ← frame_digest b last
    let frame : Frame Binding = record {
      schema_version = recovery.schema_version;
      binding = recovery.binding;
      event = t.event;
      ordinal = (recovery.ordinal + 1) % 256;
      predecessor = predecessor;
      outcome = t.outcome;
      metadata = t.metadata;
    }
    validate_frame b frame
    ok frame

  -- `appendRecoveryTransition`
  unfoldable pub append_transition :
      List (Frame Binding) → Transition → Result LedgerError (Frame Binding)
  append_transition history t = do
    recovery ← replay_frames history
    require (recovery.schema_version == 2) unsupported
    next_frame recovery (last_frame history) t
