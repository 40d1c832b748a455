-- ===== src/Ledger/Port/Words.antt =====
-- The words of internal/state/recovery_ledger_port.go pass unchanged or not at all.
use linux_deep_clean.Prelude.{◌≡◌, refl, ◌⊎◌, inl, inr, Result, ok, err}
use linux_deep_clean.Ledger.Vocabulary.{
  LedgerError, corrupt, unsupported, trash, quarantine, other_destination, Destination, Event,
  other_event, intent_reserved, metadata_dispatch_recorded, metadata_verified,
  metadata_indeterminate, move_dispatch_recorded, move_verified, move_indeterminate,
  restore_dispatch_recorded, restore_verified, restore_indeterminate, reconciliation_resolved,
  Outcome, other_outcome, unresolved, resolved_not_applied, resolved_move_verified,
  resolved_restore_verified, Metadata, other_metadata, unrecorded, absent, retained, Transition,
}
use linux_deep_clean.Ledger.Port.Mapping.{
  destination_to_port, known_event, known_outcome, known_metadata, transition_from_port,
}

-- The words of each vocabulary; an empty outcome or disposition is one.
abbrev pub KnownDestination : Destination → Type 0
KnownDestination (other_destination text) = ⊥
KnownDestination _ = Unit {0}

abbrev pub KnownEvent : Event → Type 0
KnownEvent (other_event text) = ⊥
KnownEvent _ = Unit {0}

abbrev pub KnownOutcome : Outcome → Type 0
KnownOutcome (other_outcome text) = ⊥
KnownOutcome _ = Unit {0}

abbrev pub KnownMetadata : Metadata → Type 0
KnownMetadata (other_metadata text) = ⊥
KnownMetadata _ = Unit {0}

pub record IsFact (t : Transition) : Type 0 where
  pub event : KnownEvent t.event
  pub outcome : KnownOutcome t.outcome
  pub metadata : KnownMetadata t.metadata

-- What a mapping answers: the word that is known, else an error.
abbrev pub IsKept : {A : Type 0} → LedgerError → (A → Type 0) → A → Result LedgerError A → Type 0
IsKept e Known a answer = (Known a × (answer ≡ ok a)) ⊎ ((¬ Known a) × (answer ≡ err e))

pub destination_to_port-IsKept :
    (v : Destination) → IsKept corrupt KnownDestination v (destination_to_port v)
unfolding destination_to_port
destination_to_port-IsKept trash = inl (tt, refl)
destination_to_port-IsKept quarantine = inl (tt, refl)
destination_to_port-IsKept (other_destination text) = inr (λ h. h, refl)

pub known_event-IsKept : (e : LedgerError) (v : Event) → IsKept e KnownEvent v (known_event e v)
unfolding known_event
known_event-IsKept e intent_reserved = inl (tt, refl)
known_event-IsKept e metadata_dispatch_recorded = inl (tt, refl)
known_event-IsKept e metadata_verified = inl (tt, refl)
known_event-IsKept e metadata_indeterminate = inl (tt, refl)
known_event-IsKept e move_dispatch_recorded = inl (tt, refl)
known_event-IsKept e move_verified = inl (tt, refl)
known_event-IsKept e move_indeterminate = inl (tt, refl)
known_event-IsKept e restore_dispatch_recorded = inl (tt, refl)
known_event-IsKept e restore_verified = inl (tt, refl)
known_event-IsKept e restore_indeterminate = inl (tt, refl)
known_event-IsKept e reconciliation_resolved = inl (tt, refl)
known_event-IsKept e (other_event text) = inr (λ h. h, refl)

pub known_outcome-IsKept :
    (e : LedgerError) (v : Outcome) → IsKept e KnownOutcome v (known_outcome e v)
unfolding known_outcome
known_outcome-IsKept e unresolved = inl (tt, refl)
known_outcome-IsKept e resolved_not_applied = inl (tt, refl)
known_outcome-IsKept e resolved_move_verified = inl (tt, refl)
known_outcome-IsKept e resolved_restore_verified = inl (tt, refl)
known_outcome-IsKept e (other_outcome text) = inr (λ h. h, refl)

pub known_metadata-IsKept :
    (e : LedgerError) (v : Metadata) → IsKept e KnownMetadata v (known_metadata e v)
unfolding known_metadata
known_metadata-IsKept e unrecorded = inl (tt, refl)
known_metadata-IsKept e absent = inl (tt, refl)
known_metadata-IsKept e retained = inl (tt, refl)
known_metadata-IsKept e (other_metadata text) = inr (λ h. h, refl)

pub transition_from_port-IsKept :
    (t : Transition) → IsKept unsupported IsFact t (transition_from_port t)
unfolding transition_from_port
transition_from_port-IsKept t = elim (known_event-IsKept unsupported t.event) [
  | inl a ↦ elim (known_outcome-IsKept unsupported t.outcome) [
    | inl o ↦ elim (known_metadata-IsKept unsupported t.metadata) [
      | inl m ↦ inl (record { event = a.0; outcome = o.0; metadata = m.0 }, rw (a.1, o.1, m.1) refl)
      | inr m ↦ inr (λ is. m.0 is.metadata, rw (a.1, o.1, m.1) refl)
    ]
    | inr o ↦ inr (λ is. o.0 is.outcome, rw (a.1, o.1) refl)
  ]
  | inr a ↦ inr (λ is. a.0 is.event, rw a.1 refl)
]

-- A known fact passes.
pub IsFact-transition_from_port : (t : Transition) → IsFact t → transition_from_port t ≡ ok t
IsFact-transition_from_port t is = elim (transition_from_port-IsKept t) [
  | inl word ↦ word.1
  | inr word ↦ absurd (word.0 is)
]
