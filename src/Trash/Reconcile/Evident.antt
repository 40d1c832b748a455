-- ===== src/Trash/Reconcile/Evident.antt =====
-- The reconciliations of internal/trash settle a recovery only on their evidence.
use linux_deep_clean.Prelude.{
  Bool, true, false, ◌&&◌, ◌≡◌, refl, Bool-cases, inl, inr, [], ◌∷◌, Option, none, some,
  if◌then◌else◌, Bytes, bytes_equal, Result, ok, err,
}
use linux_deep_clean.Pathbytes.BytePath.{PathError, BytePath}
use linux_deep_clean.Ledger.Vocabulary.{resolved_move_verified, Metadata, unrecorded}
use linux_deep_clean.Ledger.Transition.Lifecycle.{resolution}
use linux_deep_clean.Trash.Facts.{
  Faults, drifted, unsupported, interrupted, Kinds, Ticket, Answer, path_and_basename,
}
use linux_deep_clean.Trash.Program.{close, Tested, Program, return, perform, closing}
use linux_deep_clean.Trash.Program.Run.{Keeps, Keeps-chain, Sends}
use linux_deep_clean.Trash.Metadata.{Clock}
use linux_deep_clean.Trash.Reconcile.{
  Request, Side, of_metadata, of_content, is_indeterminate, valid_request,
}
use linux_deep_clean.Trash.Reconcile.Flow.{
  bytes_of, stop, kept, reloaded, with_reload, with_check, settle, probe_owned_metadata,
  with_metadata, with_absence, probe_owned_content, probe_side, directed, reconcile_with,
}
use linux_deep_clean.Trash.Reconcile.Protocol.{
  Evidence, nothing_seen, clean, same_bytes, evidence_allowed, evidence_next, evidence_protocol,
  after_source,
}
use linux_deep_clean.Trash.Reconcile.Asks.{Concerns, reconcile_with-Asks}
use linux_deep_clean.Trash.Reconcile.Readings.{resolution_self}
use linux_deep_clean.Trash.Reconcile.Probes.{
  Ends, Follows, stops, stops_joined, unless-Follows, require-Follows, settle-Follows, seen,
  probe_owned_metadata-Follows, with_metadata-Follows,
}

module _ {k : Kinds} (clock : Clock k) (request : Request k) where
  -- The last probe of the metadata, and the fact.
  final-Follows :
      (ticket : Ticket k) (d : Option Metadata) (first : Bytes)
      → Follows clock request true (seen clock request d (some first) true true true false) (
          with_metadata clock request ticket (λ final.
            if bytes_equal first final
            then settle of_content request ticket (resolution resolved_move_verified unrecorded)
            else stop ticket (drifted ∷ [])))
  unfolding same_bytes
  final-Follows ticket d first =
      with_metadata-Follows clock request ticket _ _ refl (λ reply. refl)
        (λ reply read.
          require-Follows clock request _ ticket drifted
            (bytes_equal first (bytes_of reply.contents)) _ refl
            (λ e.
              settle-Follows clock request _ of_content ticket
                (resolution resolved_move_verified unrecorded) refl
                (rw (read, e, resolution_self resolved_move_verified unrecorded) refl)))

  -- A probe that the source is absent.
  with_absence-Follows :
      (ticket : Ticket k) (s : Evidence) (source : Result PathError (BytePath × Bytes))
      (go : Program k (Answer k))
      → s.opened ≡ true
      → ((reply : Tested) → (after_source clock request s reply).opened ≡ true)
      → ((reply : Tested)
          → clean reply.faults ≡ true
          → reply.holds ≡ true
          → Follows clock request true (after_source clock request s reply) go)
      → Follows clock request true s (with_absence clock request ticket source go)
  unfolding with_absence evidence_allowed evidence_next
  with_absence-Follows ticket s (err e) go opened still good =
      stops clock request s (some ticket) unsupported [] opened
  with_absence-Follows ticket s (ok (path, basename)) go opened still good = (
    opened,
    λ reply. unless-Follows clock request _ ticket reply.faults _ (still reply) (λ quiet.
        require-Follows clock request _ ticket drifted reply.holds _ (still reply)
          (λ gone. good reply quiet gone)),
  )

  -- The source once more, behind the content.
  still_gone-Follows :
      (ticket : Ticket k) (d : Option Metadata) (first : Bytes)
      → Follows clock request true (seen clock request d (some first) true true false false) (
          with_absence clock request ticket (path_and_basename request.source) (
            with_metadata clock request ticket (λ final.
              if bytes_equal first final
              then settle of_content request ticket (resolution resolved_move_verified unrecorded)
              else stop ticket (drifted ∷ []))))
  still_gone-Follows ticket d first =
      with_absence-Follows ticket (seen clock request d (some first) true true false false)
        (path_and_basename request.source) _ refl (λ after. refl)
        (λ after quiet gone. rw (quiet, gone) (final-Follows ticket d first))

  probe_owned_content-Follows :
      (ticket : Ticket k)
      → Follows clock request true
          (seen clock request none none false false false false)
          (probe_owned_content clock request ticket)
  unfolding probe_owned_content evidence_allowed evidence_next
  probe_owned_content-Follows ticket =
      with_metadata-Follows clock request ticket _ _ refl (λ reply. refl)
        (λ metadata read.
          with_absence-Follows ticket _ (path_and_basename request.source) _ refl (λ before. refl)
            (λ before quiet gone. (
              refl,
              λ content. unless-Follows clock request _ ticket content.faults _ refl (λ calm.
                  require-Follows clock request _ ticket drifted content.holds _ refl (λ there.
                    rw (read, quiet, gone, calm, there)
                      (still_gone-Follows ticket _ (bytes_of metadata.contents)))),
            )))

  closing-Follows :
      (s : Evidence) (p : Program k (Answer k))
      → Follows clock request true s p
      → Follows clock request false s (closing p)
  unfolding closing evidence_allowed evidence_next
  closing-Follows s p h =
      Keeps-chain (evidence_protocol clock request) (Ends clock request true)
        (Ends clock request false) s p (λ a. perform close (λ _. return a)) h
        (λ s' a is. (is.shut, λ _. record { shut = refl; success = is.success }))

  directed-Follows :
      (side : Side) (ticket : Ticket k) (directories : Bool) (faults : Faults)
      → Follows clock request false
          (record nothing_seen { opened = clean faults && directories })
          (directed clock side request ticket directories faults)
  unfolding directed probe_side
  directed-Follows side ticket directories (f ∷ faults) =
      stops clock request _ (some ticket) f faults refl
  directed-Follows side ticket false [] = stops clock request _ (some ticket) unsupported [] refl
  directed-Follows of_metadata ticket true [] =
      closing-Follows _ (probe_owned_metadata clock request ticket)
        (probe_owned_metadata-Follows clock request ticket)
  directed-Follows of_content ticket true [] =
      closing-Follows _ (probe_owned_content clock request ticket)
        (probe_owned_content-Follows ticket)

  with_check-Follows :
      (side : Side) (ticket : Ticket k) (go : Program k (Answer k))
      → Follows clock request false nothing_seen go
      → Follows clock request false nothing_seen (with_check side ticket request go)
  unfolding with_check evidence_allowed evidence_next
  with_check-Follows side ticket go h = (
    refl,
    λ faults. unless-Follows clock request _ ticket faults _ refl (λ _.
        require-Follows clock request _ ticket unsupported
          (valid_request request && is_indeterminate side ticket request) go refl (λ _. h)),
  )

  reloaded-Follows :
      (side : Side) (ticket : Ticket k) (go : Ticket k → Program k (Answer k))
      (o : Option (Ticket k)) (faults : Faults)
      → ((current : Ticket k) → Follows clock request false nothing_seen (go current))
      → Follows clock request false nothing_seen (reloaded side ticket go o faults)
  unfolding reloaded
  reloaded-Follows side ticket go none [] h =
      stops clock request _ (some ticket) interrupted [] refl
  reloaded-Follows side ticket go none (f ∷ faults) h =
      stops clock request _ (some ticket) f faults refl
  reloaded-Follows side ticket go (some current) faults h =
      elim (Bool-cases (bytes_equal current.token ticket.token)) [
        | inl e ↦
            rw e (unless-Follows clock request _ current faults (go current) refl (λ _. h current))
        | inr e ↦
            rw e (
              stops_joined clock request nothing_seen (kept side ticket current) faults unsupported)
      ]

  with_reload-Follows :
      (side : Side) (ticket : Ticket k) (go : Ticket k → Program k (Answer k))
      → ((current : Ticket k) → Follows clock request false nothing_seen (go current))
      → Follows clock request false nothing_seen (with_reload side ticket go)
  unfolding with_reload evidence_allowed evidence_next
  with_reload-Follows side ticket go h = (
    refl,
    λ faults.
        unless-Follows clock request _ ticket faults _ refl
          (λ _. (refl, λ reply. reloaded-Follows side ticket go reply.ticket reply.faults h)),
  )

  settles-Follows :
      (side : Side) (ticket : Ticket k)
      → Keeps
          (evidence_protocol clock request)
          (Ends clock request false)
          nothing_seen
          (reconcile_with clock side ticket request)
  unfolding reconcile_with evidence_allowed evidence_next
  settles-Follows side ticket = with_check-Follows side ticket _ (
      with_reload-Follows side ticket _ (λ current.
        with_check-Follows side current _
          (refl, λ reply. directed-Follows side current reply.directories reply.faults)))

  -- Whatever the ledger and the file system reply, a reconciliation for a request never reserves,
  -- writes or moves, it probes only open directories and closes them, and it records at most one
  -- acknowledged fact: that a move was not applied, with the disposition that its probe of the
  -- metadata showed, or that a move was verified, when one record that names the source was read
  -- both before and after the source was found absent, the content present, and the source absent
  -- again, all without an error. An answer without an error has recorded its fact.
  -- The ledger and the probes are asked for the ticket that is given or one of its token, and the
  -- probes of the content and of the source for the precondition and the source's name of the
  -- request.
  pub reconcile_with-Follows :
      (side : Side) (ticket : Ticket k)
      → Keeps
          (evidence_protocol clock request)
          (Ends clock request false)
          nothing_seen
          (reconcile_with clock side ticket request)
        × Sends (Concerns clock request ticket) (reconcile_with clock side ticket request)
  reconcile_with-Follows side ticket =
      (settles-Follows side ticket, reconcile_with-Asks clock request ticket side)
