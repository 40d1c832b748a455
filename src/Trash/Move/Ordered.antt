-- ===== src/Trash/Move/Ordered.antt =====
-- `moveToTrashWith` of internal/trash/move.go keeps its protocol.
use linux_deep_clean.Prelude.{
  Bool, true, false, ◌≡◌, refl, sym, ◌∙◌, [], ◌∷◌, ◌++◌, Option, none, some, Bool-cases, inl, inr,
  bytes_equal, Result, ok, err,
}
use linux_deep_clean.Ledger.Vocabulary.{
  validate_ordinary, intent_reserved, metadata_dispatch_recorded, metadata_verified,
  metadata_indeterminate, move_dispatch_recorded, unresolved, resolved_not_applied, unrecorded,
  retained, Transition,
}
use linux_deep_clean.Ledger.Transition.{follow, validate_no_effect, quarantine_metadata}
use linux_deep_clean.Ledger.Transition.Lifecycle.{plain, resolution}
use linux_deep_clean.Trash.Facts.{
  event_text, Fault, unsupported, valid_ticket, Kinds, Ticket, Request, Answer, Faults, event_equal,
}
use linux_deep_clean.Trash.Program.{close, Publication, Program, return, perform, closing}
use linux_deep_clean.Trash.Program.Run.{Keeps, Keeps-chain}
use linux_deep_clean.Trash.Move.{
  is_at, transition_ticket, or_return, after_transition, selected, valid_publication,
  valid_execution, dispatch_move, published, written, reserved, move_to_trash_with,
}
use linux_deep_clean.Trash.Move.Protocol.{
  fact, Stage, acknowledge, is_nothing, is_fact, follows, verified_by, opened_by, has_opened,
  move_allowed, move_next, move_protocol, start,
}
use linux_deep_clean.Trash.Move.Asks.{Asks, move_to_trash_with-Asks}
use linux_deep_clean.Trash.Move.Recording.{
  Ends, Sent, transition_ticket-Sent, or_return-Keeps, with_opened, record_cause-Keeps, moved-Keeps,
}

module _ {k : Kinds} where
  -- A transition, and the rest where it is acknowledged.
  after_transition-Keeps :
      (request : Request k) (ticket : Ticket k) (t : Transition) (s : Stage)
      (go : Ticket k → Program k (Answer k))
      → follows s.known t ≡ true
      → ((s' : Stage) (u : Ticket k)
          → Sent s t s' (record { ticket = some u; faults = [] })
          → s'.known ≡ fact t.event t.outcome t.metadata
          → Keeps (move_protocol k) (Ends s.opened) s' (go u))
      → Keeps (move_protocol k) (Ends s.opened) s (after_transition request ticket t go)
  after_transition-Keeps request ticket t s go fits good =
      Keeps-chain (move_protocol k) (Sent s t) (Ends s.opened) s
        (transition_ticket request ticket t) (λ answer. or_return answer.ticket answer.faults go)
        (transition_ticket-Sent request ticket t s fits)
        (λ s' a is.
          or_return-Keeps (Ends s.opened) s' _ a.ticket a.faults go is.success
            (λ f fs. record { shut = is.opened; success = λ h. absurd cc })
            (λ u known.
              good s' u
                (record {
                  wrote = is.wrote;
                  moving = is.moving;
                  settled = is.settled;
                  opened = is.opened;
                  success = λ h. record { ticket = u; ticket_is = refl; known_is = known };
                })
                known))

  dispatch_move-Keeps :
      (request : Request k) (ticket : Ticket k) (publication : Publication) (s : Stage)
      → s.known ≡ fact metadata_verified unresolved unrecorded
      → s.moving ≡ false
      → s.opened ≡ true
      → Keeps (move_protocol k) (Ends s.opened) s (dispatch_move request ticket publication)
  unfolding follows follow validate_ordinary move_allowed move_next is_fact event_equal event_text
      bytes_equal
  dispatch_move-Keeps request ticket publication s known still opened =
      after_transition-Keeps request ticket (plain move_dispatch_recorded) s _ (rw known refl)
        (λ s' u is now. (
          rw (now, is.opened, opened, is.moving, still) refl,
          λ reply. with_opened _ _ is.opened (
              moved-Keeps request u (record s' { moving = true; settled = verified_by reply })
                reply.disposition reply.faults now refl),
        ))

  closing-Keeps :
      (s : Stage) (p : Program k (Answer k))
      → Keeps (move_protocol k) (Ends true) s p
      → Keeps (move_protocol k) (Ends false) s (closing p)
  unfolding closing move_allowed move_next
  closing-Keeps s p h =
      Keeps-chain (move_protocol k) (Ends true) (Ends false) s p
        (λ a. perform close (λ _. return a)) h
        (λ s' a is. (
          is.shut,
          λ _. record {
            shut = refl;
            success = λ e.
                let (settled, won) = is.success e in
                (
                  settled,
                  record {
                    ticket = won.ticket;
                    ticket_is = won.ticket_is;
                    known_is = won.known_is;
                  },
                );
          },
        ))

  selected-Keeps :
      (request : Request k) (ticket : Ticket k) (publication : Publication) (s : Stage)
      (directories : Bool) (faults : Faults)
      → s.known ≡ fact metadata_verified unresolved unrecorded
      → s.moving ≡ false
      → s.opened ≡ has_opened directories faults
      → Keeps
          (move_protocol k)
          (Ends false)
          s
          (selected request ticket publication directories faults)
  unfolding selected has_opened follows follow validate_no_effect quarantine_metadata
  selected-Keeps request ticket publication s directories (f ∷ faults) known still opened =
      rw (sym opened) (
        record_cause-Keeps request ticket (resolution resolved_not_applied retained) s f faults
          (rw known refl))
  selected-Keeps request ticket publication s false [] known still opened = rw (sym opened) (
      record_cause-Keeps request ticket (resolution resolved_not_applied retained) s unsupported []
        (rw known refl))
  selected-Keeps request ticket publication s true [] known still opened =
      closing-Keeps s (dispatch_move request ticket publication)
        (rw (sym opened) (dispatch_move-Keeps request ticket publication s known still opened))

  published-Keeps :
      (request : Request k) (ticket : Ticket k) (s : Stage) (checked : Result Fault Publication)
      → s.known ≡ fact metadata_dispatch_recorded unresolved unrecorded
      → s.moving ≡ false
      → s.opened ≡ false
      → Keeps (move_protocol k) (Ends s.opened) s (published request ticket checked)
  unfolding published follows follow validate_ordinary move_allowed move_next is_fact event_equal
      event_text bytes_equal
  published-Keeps request ticket s (err f) known still opened =
      record_cause-Keeps request ticket (plain metadata_indeterminate) s f [] (rw known refl)
  published-Keeps request ticket s (ok publication) known still opened =
      after_transition-Keeps request ticket (plain metadata_verified) s _ (rw known refl)
        (λ s' held is now. (
          rw (now, is.opened, opened) refl,
          λ reply. with_opened _ _ (sym opened) (
              selected-Keeps request held publication (record s' { opened = opened_by reply })
                reply.directories reply.faults now (is.moving ∙ still) refl),
        ))

  written-Keeps :
      (request : Request k) (ticket : Ticket k) (s : Stage) (publication : Option Publication)
      (faults : Faults)
      → s.known ≡ fact metadata_dispatch_recorded unresolved unrecorded
      → s.moving ≡ false
      → s.opened ≡ false
      → Keeps (move_protocol k) (Ends s.opened) s (written request ticket publication faults)
  unfolding written follows follow validate_ordinary
  written-Keeps request ticket s publication (f ∷ faults) known still opened =
      record_cause-Keeps request ticket (plain metadata_indeterminate) s f faults (rw known refl)
  written-Keeps request ticket s publication [] known still opened =
      published-Keeps request ticket s (valid_publication request ticket publication) known still
        opened

  refuses :
      (s : Stage) (o : Option (Ticket k)) (f : Fault) (faults : Faults)
      → Ends s.opened s (record { ticket = o; faults = f ∷ faults })
  refuses s o f faults = record { shut = refl; success = λ h. absurd cc }

  reserved-Keeps :
      (request : Request k) (o : Option (Ticket k)) (faults : Faults)
      → Keeps
          (move_protocol k)
          (Ends false)
          (record start {
            known = acknowledge (fact intent_reserved unresolved unrecorded) o faults;
          })
          (reserved request o faults)
  unfolding reserved acknowledge follows follow validate_ordinary move_allowed move_next is_fact
      event_equal event_text bytes_equal
  reserved-Keeps request none [] = refuses _ none unsupported []
  reserved-Keeps request none (f ∷ faults) = refuses _ none f faults
  reserved-Keeps request (some ticket) [] =
      elim (Bool-cases (is_at ticket request intent_reserved)) [
        | inl e ↦ rw e (
            after_transition-Keeps request ticket (plain metadata_dispatch_recorded)
              (record start { known = fact intent_reserved unresolved unrecorded }) _ refl
              (λ s' dispatched is now. (
                rw (now, is.wrote) refl,
                λ reply. with_opened _ _ is.opened (
                    written-Keeps request dispatched (record s' { wrote = true }) reply.publication
                      reply.faults now is.moving is.opened),
              )))
        | inr e ↦ rw e (refuses _ (some ticket) unsupported [])
      ]
  reserved-Keeps request (some ticket) (f ∷ faults) =
      elim (Bool-cases (valid_ticket ticket request)) [
        | inl e ↦ rw e (refuses _ (some ticket) f faults)
        | inr e ↦ rw e (refuses _ (some ticket) f (faults ++ unsupported ∷ []))
      ]

  moves-Keeps :
      (context : Faults) (request : Request k)
      → Keeps (move_protocol k) (Ends false) start (move_to_trash_with context request)
  unfolding move_to_trash_with move_allowed move_next is_nothing
  moves-Keeps (f ∷ faults) request = refuses start none f faults
  moves-Keeps [] request = elim (Bool-cases (valid_execution request)) [
    | inl e ↦ rw e (refl, λ reply. reserved-Keeps request reply.ticket reply.faults)
    | inr e ↦ rw e (refuses start none unsupported [])
  ]

  -- Whatever the ledger and the file system reply, the move reserves first, records only facts that
  -- the ledger's rule takes behind the last one that it acknowledged, writes metadata at most once
  -- and only behind an acknowledged dispatch, moves at most once, only with open directories and
  -- behind an acknowledged dispatch of the move, and closes the directories that it opens. An answer
  -- without an error has a ticket, a move that was verified without an error, and an acknowledged
  -- fact of it. It reserves for the action, the plan and the layout of the request; behind that,
  -- every fact is recorded on a ticket of the reservation's token that binds to the request, metadata
  -- is written with that token, the source and the date of the request, and the move is given the
  -- name and the precondition of the request and a receipt for its root and that token.
  pub move_to_trash_with-Keeps :
      (context : Faults) (request : Request k)
      → Keeps (move_protocol k) (Ends false) start (move_to_trash_with context request)
        × Asks request (move_to_trash_with context request)
  move_to_trash_with-Keeps context request =
      (moves-Keeps context request, move_to_trash_with-Asks request context)
