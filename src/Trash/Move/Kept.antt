-- ===== src/Trash/Move/Kept.antt =====
-- `moveToTrashWith` of internal/trash/move.go does not lose the ticket of its reservation.
use linux_deep_clean.Prelude.{
  Bool, true, false, ◌&&◌, ◌≡◌, refl, Bool-cases, inl, inr, [], ◌∷◌, Option, none, some,
  bytes_equal, Result, ok, err,
}
use linux_deep_clean.Ledger.Vocabulary.{
  Event, intent_reserved, metadata_dispatch_recorded, metadata_verified, metadata_indeterminate,
  move_dispatch_recorded, move_verified, move_indeterminate, resolved_not_applied, unrecorded,
  retained, Transition,
}
use linux_deep_clean.Ledger.Transition.Lifecycle.{plain, resolution}
use linux_deep_clean.Trash.Facts.{
  Fault, Faults, drifted, unsupported, interrupted, valid_ticket, event_equal, Kinds, Ticket,
  Request, Answer,
}
use linux_deep_clean.Trash.Program.{
  Command, reserve, record_fact, Reply, Disposition, not_applied, verified, indeterminate,
  unknown_disposition, Publication, Program, closing,
}
use linux_deep_clean.Trash.Program.Run.{Protocol, Keeps, Keeps-chain}
use linux_deep_clean.Trash.Move.{
  is_at, transitioned, transition_ticket, or_return, after_transition, record_cause,
  resolve_unapplied, unapplied, or_fault, moved, dispatch_move, selected, published,
  valid_publication, written, reserved, valid_execution, move_to_trash_with,
}

-- Whether a ticket is out: the reservation gave one, and no later reply of the ledger was neither a
-- ticket nor an error.
unfoldable pub is_out : {k : Kinds} → Bool → Option (Ticket k) → Faults → Bool
is_out out none [] = false
is_out out ticket faults = out

unfoldable pub has_ticket : {k : Kinds} → Option (Ticket k) → Bool
has_ticket none = false
has_ticket (some ticket) = true

unfoldable pub kept_next : {k : Kinds} → Bool → (c : Command k) → Reply c → Bool
kept_next {k} out (reserve action_id plan_digest layout) reply = has_ticket {k = k} reply.ticket
kept_next {k} out (record_fact ticket t) reply = is_out {k = k} out reply.ticket reply.faults
kept_next out c reply = out

abbrev pub kept_protocol : (k : Kinds) → Protocol k
kept_protocol k = record { Stage = Bool; allowed = λ out c. true; next = kept_next }

module _ {k : Kinds} where
  -- Where a ticket is out, the answer has one.
  abbrev pub HasTicket : Bool → Answer k → Type 0
  HasTicket out answer = out ≡ true → (ticket : Ticket k) × (answer.ticket ≡ some ticket)

  abbrev Holds : Bool → Program k (Answer k) → Type 0
  Holds out p = Keeps (kept_protocol k) HasTicket out p

  transitioned-HasTicket :
      (request : Request k) (ticket : Ticket k) (e : Event) (out : Bool) (o : Option (Ticket k))
      (faults : Faults)
      → HasTicket (is_out out o faults) (transitioned request ticket e o faults)
  unfolding transitioned is_out
  transitioned-HasTicket request ticket e out none [] h = cc
  transitioned-HasTicket request ticket e out none (f ∷ faults) h = (ticket, refl)
  transitioned-HasTicket request ticket e out (some u) faults h =
      elim (Bool-cases (bytes_equal u.token ticket.token)) [
        | inl a ↦ elim (Bool-cases (valid_ticket u request && event_equal u.event e)) [
          | inl b ↦ (u, rw (a, b) refl)
          | inr b ↦ (u, rw (a, b) refl)
        ]
        | inr a ↦ (ticket, rw a refl)
      ]

  transition_ticket-Holds :
      (request : Request k) (ticket : Ticket k) (t : Transition) (out : Bool)
      → Holds out (transition_ticket request ticket t)
  unfolding transition_ticket kept_next
  transition_ticket-Holds request ticket t out =
      (refl, λ reply. transitioned-HasTicket request ticket t.event out reply.ticket reply.faults)

  record_cause-Holds :
      (request : Request k) (ticket : Ticket k) (t : Transition) (cause : Faults) (out : Bool)
      → Holds out (record_cause request ticket t cause)
  unfolding record_cause
  record_cause-Holds request ticket t cause out =
      Keeps-chain (kept_protocol k) HasTicket HasTicket out (transition_ticket request ticket t) _
        (transition_ticket-Holds request ticket t out) (λ s a h. h)

  or_return-Holds :
      (s : Bool) (o : Option (Ticket k)) (faults : Faults) (go : Ticket k → Program k (Answer k))
      → HasTicket s (record { ticket = o; faults = faults })
      → ((u : Ticket k) → Holds s (go u))
      → Holds s (or_return o faults go)
  unfolding or_return
  or_return-Holds s o (f ∷ faults) go h good = h
  or_return-Holds s (some u) [] go h good = good u
  or_return-Holds s none [] go h good = h

  -- A transition, and a rest that holds at every ticket.
  after_transition-Holds :
      (request : Request k) (ticket : Ticket k) (t : Transition) (out : Bool)
      (go : Ticket k → Program k (Answer k))
      → ((s : Bool) (u : Ticket k) → Holds s (go u))
      → Holds out (after_transition request ticket t go)
  after_transition-Holds request ticket t out go good =
      Keeps-chain (kept_protocol k) HasTicket HasTicket out (transition_ticket request ticket t) _
        (transition_ticket-Holds request ticket t out)
        (λ s a h. or_return-Holds s a.ticket a.faults go h (good s))

  resolve_unapplied-Holds :
      (request : Request k) (cause : Faults) (s : Bool) (o : Option (Ticket k)) (faults : Faults)
      → HasTicket s (record { ticket = o; faults = faults })
      → Holds s (resolve_unapplied request cause o faults)
  unfolding resolve_unapplied
  resolve_unapplied-Holds request cause s o (f ∷ faults) h = h
  resolve_unapplied-Holds request cause s (some u) [] h =
      record_cause-Holds request u (resolution resolved_not_applied unrecorded) cause s
  resolve_unapplied-Holds request cause s none [] h = h

  moved-Holds :
      (request : Request k) (ticket : Ticket k) (out : Bool) (d : Disposition) (faults : Faults)
      → Holds out (moved request ticket d faults)
  unfolding moved unapplied
  moved-Holds request ticket out verified [] =
      transition_ticket-Holds request ticket (plain move_verified) out
  moved-Holds request ticket out verified (f ∷ faults) =
      record_cause-Holds request ticket (plain move_indeterminate) (f ∷ faults) out
  moved-Holds request ticket out indeterminate faults =
      record_cause-Holds request ticket (plain move_indeterminate) (or_fault faults interrupted) out
  moved-Holds request ticket out not_applied faults =
      Keeps-chain (kept_protocol k) HasTicket HasTicket out
        (transition_ticket request ticket (plain move_indeterminate)) _
        (transition_ticket-Holds request ticket (plain move_indeterminate) out)
        (λ s a h. resolve_unapplied-Holds request (or_fault faults drifted) s a.ticket a.faults h)
  moved-Holds request ticket out (unknown_disposition n) faults =
      record_cause-Holds request ticket (plain move_indeterminate) (interrupted ∷ []) out

  selected-Holds :
      (request : Request k) (ticket : Ticket k) (publication : Publication) (out directories : Bool)
      (faults : Faults)
      → Holds out (selected request ticket publication directories faults)
  unfolding selected closing kept_next
  selected-Holds request ticket publication out directories (f ∷ faults) =
      record_cause-Holds request ticket (resolution resolved_not_applied retained) (f ∷ faults) out
  selected-Holds request ticket publication out false [] =
      record_cause-Holds request ticket (resolution resolved_not_applied retained)
        (unsupported ∷ []) out
  selected-Holds request ticket publication out true [] =
      Keeps-chain (kept_protocol k) HasTicket HasTicket out
        (dispatch_move request ticket publication) _
        (after_transition-Holds request ticket (plain move_dispatch_recorded) out _
          (λ s u. (refl, λ reply. moved-Holds request u s reply.disposition reply.faults)))
        (λ s a h. (refl, λ _. h))

  published-Holds :
      (request : Request k) (ticket : Ticket k) (out : Bool) (checked : Result Fault Publication)
      → Holds out (published request ticket checked)
  unfolding published kept_next
  published-Holds request ticket out (err f) =
      record_cause-Holds request ticket (plain metadata_indeterminate) (f ∷ []) out
  published-Holds request ticket out (ok publication) =
      after_transition-Holds request ticket (plain metadata_verified) out _ (λ s held.
        (refl, λ reply. selected-Holds request held publication s reply.directories reply.faults))

  written-Holds :
      (request : Request k) (ticket : Ticket k) (out : Bool) (publication : Option Publication)
      (faults : Faults)
      → Holds out (written request ticket publication faults)
  unfolding written
  written-Holds request ticket out publication (f ∷ faults) =
      record_cause-Holds request ticket (plain metadata_indeterminate) (f ∷ faults) out
  written-Holds request ticket out publication [] =
      published-Holds request ticket out (valid_publication request ticket publication)

  reserved-Holds :
      (request : Request k) (o : Option (Ticket k)) (faults : Faults)
      → Holds (has_ticket o) (reserved request o faults)
  unfolding reserved has_ticket kept_next
  reserved-Holds request none [] = λ h. cc
  reserved-Holds request none (f ∷ faults) = λ h. cc
  reserved-Holds request (some ticket) [] =
      elim (Bool-cases (is_at ticket request intent_reserved)) [
        | inl e ↦ rw e (
            after_transition-Holds request ticket (plain metadata_dispatch_recorded) true _
              (λ s u. (refl, λ reply. written-Holds request u s reply.publication reply.faults)))
        | inr e ↦ rw e (λ h. (ticket, refl))
      ]
  reserved-Holds request (some ticket) (f ∷ faults) =
      elim (Bool-cases (valid_ticket ticket request)) [
        | inl e ↦ rw e (λ h. (ticket, refl))
        | inr e ↦ rw e (λ h. (ticket, refl))
      ]

  -- Whatever the ledger and the file system reply: once the reservation has given a ticket, with an
  -- error or without, the move answers with a ticket, on every path, unless the ledger has answered
  -- a transition with neither a ticket nor an error.
  pub move_to_trash_with-HasTicket :
      (faults : Faults) (request : Request k)
      → Keeps (kept_protocol k) HasTicket false (move_to_trash_with faults request)
  unfolding move_to_trash_with kept_next
  move_to_trash_with-HasTicket (f ∷ faults) request = λ h. cc
  move_to_trash_with-HasTicket [] request = elim (Bool-cases (valid_execution request)) [
    | inl e ↦ rw e (refl, λ reply. reserved-Holds request reply.ticket reply.faults)
    | inr e ↦ rw e (λ h. cc)
  ]
