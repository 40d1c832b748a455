-- ===== src/Ledger/Tests.antt =====
-- Runs of the recovery ledger at concrete histories, with small functions in place of the binding's
-- own checks, the CBOR encoder and SHA-256.
use linux_deep_clean.Prelude.{
  arith, ◌==◌, length, ◌≤◌, ℕ, ◌+◌, ◌%◌, ◌≡◌, ◌↔◌, refl, Bool, true, false, if◌then◌else◌, List, [],
  ◌∷◌, ◌++◌, some, Bytes, replicate, bytes_equal, ok, err,
}
use linux_deep_clean.Ledger.Vocabulary.{
  conflict, trash, quarantine, Event, intent_reserved, metadata_dispatch_recorded,
  metadata_verified, move_dispatch_recorded, move_verified, restore_dispatch_recorded,
  restore_indeterminate, reconciliation_resolved, restore_verified, Outcome, unresolved,
  resolved_move_verified, unrecorded, Transition, validate_event, validate_outcome,
  validate_metadata, validate_ordinary,
}
use linux_deep_clean.Ledger.Frame.{
  is_zero_digest, Frame, Recovery, Bindings, zero_digest, closed, closed_by, is_intent, no_facts,
  as_corrupt, validate_stored_metadata, validate_facts, validate_frame, bounded, encode_frame,
  digest_domain, frame_digest, recovery_from_frame, apply_frame,
}
use linux_deep_clean.Ledger.Transition.{
  follow, stage, validate_transition, no_metadata_fact, validate_restore_indeterminate,
}
use linux_deep_clean.Ledger.Transition.Lifecycle.{
  metadata_written, metadata_dispatched, moved, phase_of, Moves, fact_of, write_metadata,
}
use linux_deep_clean.Ledger.Replay.Digested.{IsDigested}
use linux_deep_clean.Ledger.Replay.Closing.{Closes, Closes-exists}
use linux_deep_clean.Ledger.Transition.Graph.{
  phase, validate_transition-Moves, Edge-validate_transition, closed_iff,
}
use linux_deep_clean.Ledger.Replay.{
  replay_step, replay_next, replay_frames, next_frame, append_transition,
}
use linux_deep_clean.Ledger.Replay.Chain.{IsHistory, Link, replay_frames-IsHistory}
use linux_deep_clean.Ledger.Replay.Append.{replay-append, append_full}
use linux_deep_clean.Ledger.Replay.Order.{replay-Link, metadata_before_move, move_before_restore}

abbrev same_bool : Bool → Bool → Bool
same_bool true b = b
same_bool false true = false
same_bool false false = true

abbrev sum : Bytes → ℕ
sum [] = 0
sum (b ∷ bs) = b + sum bs

-- A binding is whether the destination is the Trash.
abbrev small : Bindings
small = record {
  Binding = Bool;
  validate_binding = λ binding version. ok tt;
  same_binding = same_bool;
  destination = λ to_trash. if to_trash then trash else quarantine;
  marshal = λ frame. some (frame.ordinal ∷ []);
  sha256 = λ text. replicate 32 (1 + sum text % 250);
}

abbrev digest_at : ℕ → Bytes
digest_at ordinal = small.sha256 (digest_domain small 2 ++ ordinal ∷ [])

abbrev frame : ℕ → Bytes → Event → Outcome → Frame Bool
frame ordinal predecessor event outcome = record {
  schema_version = 2;
  binding = true;
  event = event;
  ordinal = ordinal;
  predecessor = predecessor;
  outcome = outcome;
  metadata = unrecorded;
}

abbrev plain : ℕ → Event → Frame Bool
plain ordinal event = frame (1 + ordinal) (digest_at ordinal) event unresolved

abbrev view : ℕ → Event → Outcome → Recovery Bool
view ordinal event outcome = record {
  schema_version = 2;
  binding = true;
  event = event;
  ordinal = ordinal;
  digest = digest_at ordinal;
  outcome = outcome;
  metadata = unrecorded;
}

-- A move to the Trash, up to the dispatch of its restore.
abbrev intent : Frame Bool
intent = frame 0 zero_digest intent_reserved unresolved

abbrev moved_history : List (Frame Bool)
moved_history =
    intent
    ∷ plain 0 metadata_dispatch_recorded
    ∷ plain 1 metadata_verified
    ∷ plain 2 move_dispatch_recorded
    ∷ plain 3 move_verified
    ∷ plain 4 restore_dispatch_recorded
    ∷ []

abbrev moved_view : Recovery Bool
moved_view = view 5 restore_dispatch_recorded unresolved

moved_replays : replay_frames small moved_history ≡ ok moved_view
unfolding replay_frames replay_next replay_step validate_frame is_intent no_facts validate_facts
    as_corrupt validate_outcome validate_stored_metadata validate_metadata validate_ordinary
    validate_event frame_digest encode_frame bounded recovery_from_frame apply_frame
    validate_transition closed_by stage follow bytes_equal
moved_replays = refl

-- A restore that is tried and fails without effect, three times over, fills the history.
abbrev retained : ℕ → Frame Bool
retained ordinal =
    frame (1 + ordinal) (digest_at ordinal) reconciliation_resolved resolved_move_verified

abbrev full_history : List (Frame Bool)
full_history =
    moved_history
    ++ plain 5 restore_indeterminate
      ∷ retained 6
      ∷ plain 7 restore_dispatch_recorded
      ∷ plain 8 restore_indeterminate
      ∷ retained 9
      ∷ plain 10 restore_dispatch_recorded
      ∷ plain 11 restore_indeterminate
      ∷ retained 12
      ∷ plain 13 restore_dispatch_recorded
      ∷ plain 14 restore_indeterminate
      ∷ []

abbrev full_view : Recovery Bool
full_view = view 15 restore_indeterminate unresolved

full_replays : replay_frames small full_history ≡ ok full_view
unfolding replay_frames replay_next replay_step validate_frame is_intent no_facts validate_facts
    as_corrupt validate_outcome validate_stored_metadata validate_metadata validate_ordinary
    validate_event frame_digest encode_frame bounded recovery_from_frame apply_frame
    validate_transition closed_by stage follow validate_restore_indeterminate no_metadata_fact
    bytes_equal
full_replays = refl

full_open : closed full_view ≡ false
unfolding closed_by
full_open = refl

-- The content is back.
abbrev restored : Transition
restored = record { event = restore_verified; outcome = unresolved; metadata = unrecorded }

abbrev restored_frame : Frame Bool
restored_frame = plain 5 restore_verified

append_restored : append_transition small moved_history restored ≡ ok restored_frame
unfolding append_transition next_frame replay_frames replay_next replay_step validate_frame
    is_intent no_facts validate_facts as_corrupt validate_outcome validate_stored_metadata
    validate_metadata validate_ordinary validate_event frame_digest encode_frame bounded
    recovery_from_frame apply_frame validate_transition closed_by stage follow bytes_equal
append_restored = refl

apply_restored :
    apply_frame small moved_view restored_frame ≡ ok (view 6 restore_verified unresolved)
unfolding apply_frame frame_digest encode_frame bounded validate_frame is_intent no_facts
    validate_facts as_corrupt validate_ordinary validate_event bytes_equal
apply_restored = refl

restored_allowed : validate_transition small moved_view restored ≡ ok tt
unfolding validate_transition closed_by is_intent validate_event stage follow validate_ordinary
restored_allowed = refl

written : phase (view 1 metadata_dispatch_recorded unresolved) ≡ some metadata_dispatched
unfolding phase_of
written = refl

replay_frames-IsHistory_example : IsHistory small moved_history moved_view
replay_frames-IsHistory_example =
    replay_frames-IsHistory small moved_history moved_view moved_replays

replay-append_example :
    replay_frames small (moved_history ++ restored_frame ∷ [])
    ≡ ok (view 6 restore_verified unresolved)
replay-append_example =
    replay-append small moved_history restored restored_frame moved_view
      (view 6 restore_verified unresolved) moved_replays append_restored refl apply_restored

append_full_example : append_transition small full_history restored ≡ err conflict
append_full_example = append_full small full_history restored full_view full_replays refl

replay-Link_example : Link small true (plain 1 metadata_verified) (plain 2 move_dispatch_recorded)
replay-Link_example =
    replay-Link small moved_history (intent ∷ plain 0 metadata_dispatch_recorded ∷ [])
      (plain 1 metadata_verified) (plain 2 move_dispatch_recorded)
      (plain 3 move_verified ∷ plain 4 restore_dispatch_recorded ∷ []) moved_view moved_replays refl

metadata_before_move_example : (plain 1 metadata_verified).event ≡ metadata_verified
metadata_before_move_example =
    metadata_before_move small moved_history (intent ∷ plain 0 metadata_dispatch_recorded ∷ [])
      (plain 1 metadata_verified) (plain 2 move_dispatch_recorded)
      (plain 3 move_verified ∷ plain 4 restore_dispatch_recorded ∷ []) moved_view moved_replays refl
      refl refl

move_before_restore_example : phase_of move_verified unresolved ≡ some moved
move_before_restore_example =
    move_before_restore small moved_history
      (intent
        ∷ plain 0 metadata_dispatch_recorded
        ∷ plain 1 metadata_verified
        ∷ plain 2 move_dispatch_recorded
        ∷ [])
      (plain 3 move_verified) (plain 4 restore_dispatch_recorded) [] moved_view moved_replays refl
      refl

validate_transition-Moves_example :
    Moves trash (phase moved_view) (phase_of restore_verified unresolved)
validate_transition-Moves_example =
    validate_transition-Moves small moved_view restored restored_allowed

Edge-validate_transition_example :
    (validate_transition small
        (view 1 metadata_dispatch_recorded unresolved)
        (fact_of {d = trash} write_metadata)
      ≡ ok tt)
    × (phase_of metadata_verified unresolved ≡ some metadata_written)
unfolding fact_of
Edge-validate_transition_example =
    Edge-validate_transition small (view 1 metadata_dispatch_recorded unresolved) refl written
      write_metadata

closed_iff_example : (closed (view 1 metadata_dispatch_recorded unresolved) ≡ false) ↔ (
    (t : Transition) × (validate_transition small (view 1 metadata_dispatch_recorded unresolved) t
      ≡ ok tt))
closed_iff_example = closed_iff small (view 1 metadata_dispatch_recorded unresolved) refl written

abbrev digest_of : Frame Bool → Bytes
digest_of f = small.sha256 (digest_domain small f.schema_version ++ f.ordinal ∷ [])

never_zero : (n : ℕ) → is_zero_digest (replicate 32 (1 + n)) ≡ false
unfolding bytes_equal
never_zero n = let e : (1 + n == 0) ≡ false = ground arith in rw e refl

small-IsDigested : IsDigested small true
unfolding frame_digest encode_frame bounded
small-IsDigested f same valid = rw valid (digest_of f, refl, never_zero _)

Closes-exists_example : (ts : List Transition) × (length ts ≤ 3) × Closes small moved_history ts
Closes-exists_example =
    Closes-exists small moved_history moved_view moved_replays refl (omega arith) refl
      small-IsDigested
