-- ===== src/Ledger/Transition/Graph.antt =====
-- `validateRecoveryTransition` of internal/state/recovery_ledger.go against the diagram of phases.
use linux_deep_clean.Prelude.{
  true, false, not, Bool, ◌≡◌, ◌↔◌, refl, sym, ◌∙◌, arith, Option, some, ok, bind-eq-ok, require,
  require-eq-ok, not-eq-true,
}
use linux_deep_clean.Ledger.Vocabulary.{Destination, Event, Outcome, Transition, validate_event}
use linux_deep_clean.Ledger.Frame.{Recovery, Bindings, closed, closed_by, is_intent}
use linux_deep_clean.Ledger.Transition.{stage, validate_transition}
use linux_deep_clean.Ledger.Transition.Lifecycle.{
  Phase, reserved, metadata_dispatched, metadata_written, metadata_unknown, move_dispatched, moved,
  move_unknown, restore_dispatched, restore_unknown, untouched, returned, phase_of, Edge,
  drop_reservation, write_metadata, drop_metadata, settle_metadata, move, settle_moved,
  dispatch_restore, restore, settle_retained, Moves, follow-Moves, phase_of-stage, fact_of,
  stage-stage_of, follow-fact_of, phase_of-fact_of,
}

abbrev pub phase : {B : Type 0} → Recovery B → Option Phase
phase r = phase_of r.event r.outcome

unfoldable pub is_end : Phase → Bool
is_end untouched = true
is_end returned = true
is_end _ = false

Edge-is_end : {d : Destination} {p q : Phase} → Edge d p q → is_end p ≡ false
unfolding is_end
Edge-is_end drop_reservation = refl
Edge-is_end _ = refl

pub closed_by-is_end :
    (e : Event) (o : Outcome) (p : Phase) → phase_of e o ≡ some p → closed_by e o ≡ is_end p
unfolding phase_of closed_by is_end
closed_by-is_end e o p h = ground arith

fact_of_ordinary :
    {d : Destination} {p q : Phase} (x : Edge d p q)
    → (validate_event (fact_of x).event ≡ ok tt) × (is_intent (fact_of x).event ≡ false)
unfolding fact_of validate_event is_intent
fact_of_ordinary drop_reservation = (refl, refl)
fact_of_ordinary _ = (refl, refl)

-- From a phase that is no end, some edge leads on, whatever the destination.
record Onward (d : Destination) (p : Phase) : Type 0 where
  to : Phase
  edge : Edge d p to

onward : (d : Destination) (p : Phase) → is_end p ≡ false → Onward d p
unfolding is_end
onward d reserved h = record { to = untouched; edge = drop_reservation }
onward d metadata_dispatched h = record { to = metadata_written; edge = write_metadata }
onward d metadata_written h = record { to = untouched; edge = drop_metadata }
onward d metadata_unknown h = record { to = untouched; edge = settle_metadata }
onward d move_dispatched h = record { to = moved; edge = move }
onward d moved h = record { to = restore_dispatched; edge = dispatch_restore }
onward d move_unknown h = record { to = moved; edge = settle_moved }
onward d restore_dispatched h = record { to = returned; edge = restore }
onward d restore_unknown h = record { to = moved; edge = settle_retained }
onward d _ h = cc

module _ (b : Bindings) (r : Recovery b.Binding) where
  -- An accepted fact follows an edge of the diagram for the recovery's destination, from the
  -- phase of the recovery to the phase that the fact names.
  pub validate_transition-Moves :
      (t : Transition)
      → validate_transition b r t ≡ ok tt
      → Moves (b.destination r.binding) (phase r) (phase_of t.event t.outcome)
  unfolding validate_transition
  validate_transition-Moves t h =
      let (_, _, h1) = bind-eq-ok (b.validate_binding r.binding r.schema_version) _ h in
      let (_, opened, h2) = bind-eq-ok (require (not (closed r)) _) _ h1 in
      let (_, _, h3) = bind-eq-ok (validate_event t.event) _ h2 in
      let (_, _, h4) = bind-eq-ok (require (not (is_intent t.event)) _) _ h3 in
      rw (← phase_of-stage r.event r.outcome (not-eq-true _ (require-eq-ok _ _ opened))) (
        follow-Moves (b.destination r.binding) (stage r.event r.outcome) t.event t.outcome
          t.metadata h4)

  module _ (valid : b.validate_binding r.binding r.schema_version ≡ ok tt) {p : Phase}
      (here : phase r ≡ some p) where
    -- Every edge from the phase of a recovery with a valid binding can be taken: the fact of the
    -- edge is accepted, and names the phase that the edge leads to.
    pub Edge-validate_transition :
        {q : Phase} (x : Edge (b.destination r.binding) p q)
        → (validate_transition b r (fact_of x) ≡ ok tt)
          × (phase_of (fact_of x).event (fact_of x).outcome ≡ some q)
    unfolding validate_transition
    Edge-validate_transition x =
        let (known, no_intent) = fact_of_ordinary x in
        let opened : closed r ≡ false = closed_by-is_end r.event r.outcome p here ∙ Edge-is_end x in
        (
          rw (
            valid,
            opened,
            known,
            no_intent,
            stage-stage_of r.event r.outcome p opened here,
            follow-fact_of x,
          ),
          phase_of-fact_of x,
        )

    -- The check of transitions takes some further fact for a recovery with a valid binding and a phase
    -- exactly when the recovery is not closed. The bound on ordinals is not part of that check.
    pub closed_iff : (closed r ≡ false) ↔ ((t : Transition) × (validate_transition b r t ≡ ok tt))
    unfolding validate_transition
    closed_iff = (
      (λ opened.
          let on =
            onward (b.destination r.binding) p
              (sym (closed_by-is_end r.event r.outcome p here) ∙ opened) in
          (fact_of on.edge, (Edge-validate_transition on.edge).0)),
      (λ (t, h).
          let (_, _, h1) = bind-eq-ok (b.validate_binding r.binding r.schema_version) _ h in
          let (_, opened, _) = bind-eq-ok (require (not (closed r)) _) _ h1 in
          not-eq-true _ (require-eq-ok _ _ opened)),
    )
