-- ===== src/Trash/Move/Asks.antt =====
-- `moveToTrashWith` of internal/trash/move.go: what it passes to the ledger and the file system.
use linux_deep_clean.Prelude.{
  Bool, true, false, ◌≡◌, refl, [], ◌∷◌, Option, none, some, Bool-cases, inl, inr, Result, ok, err,
}
use linux_deep_clean.Ledger.Vocabulary.{
  intent_reserved, metadata_dispatch_recorded, metadata_verified, metadata_indeterminate,
  move_dispatch_recorded, move_indeterminate, resolved_not_applied, unrecorded, retained,
  Transition,
}
use linux_deep_clean.Ledger.Transition.Lifecycle.{plain, resolution}
use linux_deep_clean.Trash.Facts.{
  drifted, interrupted, Fault, unsupported, valid_ticket, Kinds, Ticket, Request, Answer, Faults,
}
use linux_deep_clean.Trash.Program.{
  Command, reserve, record_fact, write, select, move, close, Publication, Disposition, not_applied,
  verified, indeterminate, unknown_disposition, Program, return, perform, chain, closing,
}
use linux_deep_clean.Trash.Program.Run.{Sends, Sends-chain}
use linux_deep_clean.Trash.Move.{
  is_at, transitioned, transition_ticket, or_return, after_transition, record_cause,
  resolve_unapplied, unapplied, or_fault, moved, dispatch_move, selected, published,
  valid_publication, written, reserved, valid_execution, move_to_trash_with,
}
use linux_deep_clean.Trash.Move.Owned.{
  Belongs, IsPublished, transitioned-Belongs, valid_publication-IsPublished, is_at-valid,
}

module _ {k : Kinds} (request : Request k) where
  -- What a command carries behind the reply to the reservation.
  abbrev pub Carries : Option (Ticket k) → Command k → Type 0
  Carries none c = ⊥
  Carries (some first) (record_fact ticket t) = Belongs request first ticket
  Carries (some first) (write token source deleted_at) =
      (token ≡ first.token) × (source ≡ request.source) × (deleted_at ≡ request.deleted_at)
  Carries (some first) (move basename publication precondition) =
      (basename ≡ request.basename)
      × IsPublished request first publication
      × (precondition ≡ request.precondition)
  Carries (some first) select = Unit {0}
  Carries (some first) close = Unit {0}
  Carries (some first) _ = ⊥

  -- The reservation comes first, and what comes behind carries what its reply shows.
  pub Asks : Program k (Answer k) → Type 0
  Asks (return a) = Unit {0}
  Asks (perform (reserve action_id plan_digest layout) go) =
      (action_id ≡ request.action_id)
      × (plan_digest ≡ request.plan_digest)
      × (layout ≡ request.layout)
      × ((reply : Answer k) → Sends (Carries reply.ticket) (go reply))
  Asks (perform _ go) = ⊥

  module _ (first : Ticket k) where
    abbrev Sent : Program k (Answer k) → Type 0
    Sent p = Sends (Carries (some first)) p

    or_return-Sent :
        (o : Option (Ticket k)) (faults : Faults) (go : Ticket k → Program k (Answer k))
        → ((u : Ticket k) → faults ≡ [] → o ≡ some u → Sent (go u))
        → Sent (or_return o faults go)
    unfolding or_return
    or_return-Sent o (f ∷ faults) go on = tt
    or_return-Sent (some u) [] go on = on u refl refl
    or_return-Sent none [] go on = tt

    record_cause-Sent :
        (ticket : Ticket k) (t : Transition) (cause : Faults)
        → Belongs request first ticket
        → Sent (record_cause request ticket t cause)
    unfolding record_cause transition_ticket chain
    record_cause-Sent ticket t cause is = (is, λ reply. tt)

    after_transition-Sent :
        (ticket : Ticket k) (t : Transition) (go : Ticket k → Program k (Answer k))
        → Belongs request first ticket
        → ((u : Ticket k) → Belongs request first u → Sent (go u))
        → Sent (after_transition request ticket t go)
    unfolding transition_ticket chain
    after_transition-Sent ticket t go is on = (
      is,
      λ reply.
          let answer = transitioned request ticket t.event reply.ticket reply.faults in
          or_return-Sent answer.ticket answer.faults go (λ u calm at. on u (
            transitioned-Belongs request first ticket u t.event reply.ticket reply.faults is calm
              at)),
    )

    resolve_unapplied-Sent :
        (cause : Faults) (o : Option (Ticket k)) (faults : Faults)
        → ((u : Ticket k) → faults ≡ [] → o ≡ some u → Belongs request first u)
        → Sent (resolve_unapplied request cause o faults)
    unfolding resolve_unapplied
    resolve_unapplied-Sent cause o (f ∷ faults) on = tt
    resolve_unapplied-Sent cause (some u) [] on =
        record_cause-Sent u (resolution resolved_not_applied unrecorded) cause (on u refl refl)
    resolve_unapplied-Sent cause none [] on = tt

    moved-Sent :
        (ticket : Ticket k) (d : Disposition) (faults : Faults)
        → Belongs request first ticket
        → Sent (moved request ticket d faults)
    unfolding moved unapplied transition_ticket chain
    moved-Sent ticket verified [] is = (is, λ reply. tt)
    moved-Sent ticket verified (f ∷ faults) is =
        record_cause-Sent ticket (plain move_indeterminate) (f ∷ faults) is
    moved-Sent ticket indeterminate faults is =
        record_cause-Sent ticket (plain move_indeterminate) (or_fault faults interrupted) is
    moved-Sent ticket not_applied faults is = (
      is,
      λ reply. resolve_unapplied-Sent (or_fault faults drifted) _ _ (λ u.
          transitioned-Belongs request first ticket u move_indeterminate reply.ticket reply.faults
            is),
    )
    moved-Sent ticket (unknown_disposition n) faults is =
        record_cause-Sent ticket (plain move_indeterminate) (interrupted ∷ []) is

    selected-Sent :
        (ticket : Ticket k) (publication : Publication) (directories : Bool) (faults : Faults)
        → Belongs request first ticket
        → IsPublished request first publication
        → Sent (selected request ticket publication directories faults)
    unfolding selected closing
    selected-Sent ticket publication directories (f ∷ faults) is held =
        record_cause-Sent ticket (resolution resolved_not_applied retained) (f ∷ faults) is
    selected-Sent ticket publication false [] is held =
        record_cause-Sent ticket (resolution resolved_not_applied retained) (unsupported ∷ []) is
    selected-Sent ticket publication true [] is held =
        Sends-chain (Carries (some first)) (dispatch_move request ticket publication) _
          (after_transition-Sent ticket (plain move_dispatch_recorded) _ is (λ u own.
            ((refl, held, refl), λ reply. moved-Sent u reply.disposition reply.faults own)))
          (λ a. (tt, λ _. tt))

    published-Sent :
        (ticket : Ticket k) (checked : Result Fault Publication)
        → Belongs request first ticket
        → ((p : Publication) → checked ≡ ok p → IsPublished request first p)
        → Sent (published request ticket checked)
    unfolding published
    published-Sent ticket (err f) is held =
        record_cause-Sent ticket (plain metadata_indeterminate) (f ∷ []) is
    published-Sent ticket (ok p) is held =
        after_transition-Sent ticket (plain metadata_verified) _ is (λ u own.
          (tt, λ reply. selected-Sent u p reply.directories reply.faults own (held p refl)))

    written-Sent :
        (ticket : Ticket k) (publication : Option Publication) (faults : Faults)
        → Belongs request first ticket
        → Sent (written request ticket publication faults)
    unfolding written
    written-Sent ticket publication (f ∷ faults) is =
        record_cause-Sent ticket (plain metadata_indeterminate) (f ∷ faults) is
    written-Sent ticket publication [] is =
        published-Sent ticket (valid_publication request ticket publication) is
          (λ p. valid_publication-IsPublished request first ticket publication p is)

  reserved-Sends :
      (o : Option (Ticket k)) (faults : Faults) → Sends (Carries o) (reserved request o faults)
  unfolding reserved
  reserved-Sends none [] = tt
  reserved-Sends none (f ∷ faults) = tt
  reserved-Sends (some first) [] = elim (Bool-cases (is_at first request intent_reserved)) [
    | inl e ↦
        let valid = is_at-valid request first intent_reserved e in
        rw e (
          after_transition-Sent first first (plain metadata_dispatch_recorded) _
            (record { token = refl; valid = valid })
            (λ u own. (
              (own.token, refl, refl),
              λ reply. written-Sent first u reply.publication reply.faults own,
            )))
    | inr e ↦ rw e tt
  ]
  reserved-Sends (some first) (f ∷ faults) = elim (Bool-cases (valid_ticket first request)) [
    | inl e ↦ rw e tt
    | inr e ↦ rw e tt
  ]

  pub move_to_trash_with-Asks : (faults : Faults) → Asks (move_to_trash_with faults request)
  unfolding move_to_trash_with Asks
  move_to_trash_with-Asks (f ∷ faults) = tt
  move_to_trash_with-Asks [] = elim (Bool-cases (valid_execution request)) [
    | inl e ↦ rw e (refl, refl, refl, λ reply. reserved-Sends reply.ticket reply.faults)
    | inr e ↦ rw e tt
  ]
