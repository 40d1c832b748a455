-- ===== src/Trash/Move/Recording.antt =====
-- `moveToTrashWith` of internal/trash/move.go: the facts that it records behind a failure.
use mathlib.Core.Path.{subst}
use linux_deep_clean.Prelude.{
  Bool, true, ◌&&◌, ◌≡◌, refl, sym, ◌∙◌, [], ◌∷◌, ◌++◌, Option, none, some, Bool-cases, inl, inr,
  bytes_equal,
}
use linux_deep_clean.Ledger.Vocabulary.{
  validate_ordinary, Event, move_dispatch_recorded, move_verified, move_indeterminate, unresolved,
  resolved_not_applied, unrecorded, Transition,
}
use linux_deep_clean.Ledger.Transition.{follow, validate_move_indeterminate, no_metadata_fact}
use linux_deep_clean.Ledger.Transition.Lifecycle.{plain, resolution}
use linux_deep_clean.Trash.Facts.{
  drifted, interrupted, Fault, unsupported, valid_ticket, Kinds, Ticket, Request, Answer, Faults,
  event_equal,
}
use linux_deep_clean.Trash.Program.{
  Disposition, not_applied, verified, indeterminate, unknown_disposition, Program, return,
}
use linux_deep_clean.Trash.Program.Run.{Keeps, Keeps-chain, Keeps-weaken}
use linux_deep_clean.Trash.Move.{
  transitioned, transition_ticket, or_return, record_cause, resolve_unapplied, unapplied, moved,
}
use linux_deep_clean.Trash.Move.Protocol.{
  Known, fact, Stage, acknowledge, follows, is_verified, move_allowed, move_next, move_protocol,
}

pub some_fault : (faults : Faults) (fault : Fault) → faults ++ fault ∷ [] ≡ [] → ⊥
some_fault [] fault h = cc
some_fault (f ∷ faults) fault h = cc

module _ {k : Kinds} where
  -- What an answer without an error says.
  pub record Succeeds (s : Stage) (a : Answer k) (known : Known) : Type 0 where
    pub ticket : Ticket k
    pub ticket_is : a.ticket ≡ some ticket
    pub known_is : s.known ≡ known

  -- Only what is known may differ, and an answer without an error is an acknowledgement.
  pub record Sent (s : Stage) (t : Transition) (s' : Stage) (a : Answer k) : Type 0 where
    pub wrote : s'.wrote ≡ s.wrote
    pub moving : s'.moving ≡ s.moving
    pub settled : s'.settled ≡ s.settled
    pub opened : s'.opened ≡ s.opened
    pub success : a.faults ≡ [] → Succeeds s' a (fact t.event t.outcome t.metadata)

  sent :
      (request : Request k) (ticket : Ticket k) (e : Event) (known : Known) (o : Option (Ticket k))
      (faults : Faults)
      → (transitioned request ticket e o faults).faults ≡ []
      → (u : Ticket k) × ((transitioned request ticket e o faults).ticket ≡ some u)
        × (acknowledge known o faults ≡ known)
  unfolding transitioned acknowledge
  sent request ticket e known none [] h = cc
  sent request ticket e known none (f ∷ faults) h = cc
  sent request ticket e known (some u) faults h =
      elim (Bool-cases (bytes_equal u.token ticket.token)) [
        | inl a ↦ elim (Bool-cases (valid_ticket u request && event_equal u.event e)) [
          | inl b ↦ (u, rw (a, b) refl, rw (rw (a, b) at h) refl)
          | inr b ↦ absurd (some_fault faults unsupported (rw (a, b) at h))
        ]
        | inr a ↦ absurd (some_fault faults unsupported (rw a at h))
      ]

  pub transition_ticket-Sent :
      (request : Request k) (ticket : Ticket k) (t : Transition) (s : Stage)
      → follows s.known t ≡ true
      → Keeps (move_protocol k) (Sent s t) s (transition_ticket request ticket t)
  unfolding transition_ticket move_allowed move_next
  transition_ticket-Sent request ticket t s fits = (
    fits,
    λ reply. record {
      wrote = refl;
      moving = refl;
      settled = refl;
      opened = refl;
      success = λ h.
          let (u, is, known) =
            sent request ticket t.event (fact t.event t.outcome t.metadata) reply.ticket
              reply.faults h in
          record { ticket = u; ticket_is = is; known_is = known };
    },
  )

  -- The end of the whole move.
  pub record Ends (opened : Bool) (s : Stage) (a : Answer k) : Type 0 where
    pub shut : s.opened ≡ opened
    pub success :
        a.faults ≡ [] → (s.settled ≡ true) × Succeeds s a (fact move_verified unresolved unrecorded)

  pub or_return-Keeps :
      (R : Stage → Answer k → Type 0) (s : Stage) (known : Known) (o : Option (Ticket k))
      (faults : Faults) (go : Ticket k → Program k (Answer k))
      → (faults ≡ [] → Succeeds s (record { ticket = o; faults = faults }) known)
      → ((f : Fault) (fs : Faults) → R s (record { ticket = o; faults = f ∷ fs }))
      → ((u : Ticket k) → s.known ≡ known → Keeps (move_protocol k) R s (go u))
      → Keeps (move_protocol k) R s (or_return o faults go)
  unfolding or_return
  or_return-Keeps R s known o (f ∷ faults) go is bad good = bad f faults
  or_return-Keeps R s known (some u) [] go is bad good = good u ((is refl).known_is)
  or_return-Keeps R s known none [] go is bad good = let none_is = (is refl).ticket_is in absurd cc

  pub with_opened :
      {o o' : Bool} (s : Stage) (p : Program k (Answer k))
      → o ≡ o'
      → Keeps (move_protocol k) (Ends o) s p
      → Keeps (move_protocol k) (Ends o') s p
  with_opened s p e h = subst (λ o. Keeps (move_protocol k) (Ends o) s p) e h

  pub record_cause-Keeps :
      (request : Request k) (ticket : Ticket k) (t : Transition) (s : Stage) (f : Fault)
      (cause : Faults)
      → follows s.known t ≡ true
      → Keeps (move_protocol k) (Ends s.opened) s (record_cause request ticket t (f ∷ cause))
  unfolding record_cause
  record_cause-Keeps request ticket t s f cause fits =
      Keeps-chain (move_protocol k) (Sent s t) (Ends s.opened) s
        (transition_ticket request ticket t)
        (λ answer.
          return (record { ticket = answer.ticket; faults = (f ∷ cause) ++ answer.faults }))
        (transition_ticket-Sent request ticket t s fits)
        (λ s' a is. record { shut = is.opened; success = λ h. absurd cc })

  resolve_unapplied-Keeps :
      (request : Request k) (s : Stage) (o : Option (Ticket k)) (faults : Faults) (f : Fault)
      (cause : Faults)
      → (faults ≡ []
          → Succeeds s
              (record { ticket = o; faults = faults })
              (fact move_indeterminate unresolved unrecorded))
      → Keeps (move_protocol k) (Ends s.opened) s (resolve_unapplied request (f ∷ cause) o faults)
  unfolding resolve_unapplied follows follow validate_move_indeterminate no_metadata_fact
  resolve_unapplied-Keeps request s o (g ∷ faults) f cause is = record {
    shut = refl;
    success = λ h. absurd cc;
  }
  resolve_unapplied-Keeps request s (some u) [] f cause is =
      record_cause-Keeps request u (resolution resolved_not_applied unrecorded) s f cause
        (rw ((is refl).known_is) refl)
  resolve_unapplied-Keeps request s none [] f cause is = record {
    shut = refl;
    success = λ h. absurd cc;
  }

  unapplied-Keeps :
      (request : Request k) (ticket : Ticket k) (s : Stage) (f : Fault) (cause : Faults)
      → s.known ≡ fact move_dispatch_recorded unresolved unrecorded
      → Keeps (move_protocol k) (Ends s.opened) s (unapplied request ticket (f ∷ cause))
  unfolding unapplied follows follow validate_ordinary
  unapplied-Keeps request ticket s f cause known =
      let t = plain move_indeterminate in
      Keeps-chain (move_protocol k) (Sent s t) (Ends s.opened) s
        (transition_ticket request ticket t)
        (λ answer. resolve_unapplied request (f ∷ cause) answer.ticket answer.faults)
        (transition_ticket-Sent request ticket t s (rw known refl))
        (λ s' a is.
          rw (sym is.opened)
            (resolve_unapplied-Keeps request s' a.ticket a.faults f cause is.success))

  pub moved-Keeps :
      (request : Request k) (ticket : Ticket k) (s : Stage) (d : Disposition) (faults : Faults)
      → s.known ≡ fact move_dispatch_recorded unresolved unrecorded
      → s.settled ≡ is_verified d faults
      → Keeps (move_protocol k) (Ends s.opened) s (moved request ticket d faults)
  unfolding moved is_verified follows follow validate_ordinary
  moved-Keeps request ticket s verified [] known settled =
      let t = plain move_verified in
      Keeps-weaken (move_protocol k) (Sent s t) (Ends s.opened) s
        (transition_ticket request ticket t)
        (transition_ticket-Sent request ticket t s (rw known refl))
        (λ s' a is. record {
          shut = is.opened;
          success = λ h. (is.settled ∙ settled, is.success h);
        })
  moved-Keeps request ticket s verified (f ∷ faults) known settled =
      record_cause-Keeps request ticket (plain move_indeterminate) s f faults (rw known refl)
  moved-Keeps request ticket s indeterminate [] known settled =
      record_cause-Keeps request ticket (plain move_indeterminate) s interrupted [] (rw known refl)
  moved-Keeps request ticket s indeterminate (f ∷ faults) known settled =
      record_cause-Keeps request ticket (plain move_indeterminate) s f faults (rw known refl)
  moved-Keeps request ticket s not_applied [] known settled =
      unapplied-Keeps request ticket s drifted [] known
  moved-Keeps request ticket s not_applied (f ∷ faults) known settled =
      unapplied-Keeps request ticket s f faults known
  moved-Keeps request ticket s (unknown_disposition n) faults known settled =
      record_cause-Keeps request ticket (plain move_indeterminate) s interrupted [] (rw known refl)
