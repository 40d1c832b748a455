-- ===== src/Trash/Reconcile/Asks.antt =====
-- The reconciliations of internal/trash: what they pass to the ledger and the file system.
use linux_deep_clean.Prelude.{
  Bool, true, false, ◌≡◌, refl, [], ◌∷◌, Option, none, some, if◌then◌else◌, Bool-cases, inl, inr,
  Bytes, bytes_equal, bytes_equal_iff, Result, ok, err, bind-eq-ok, ok-injective,
}
use linux_deep_clean.Pathbytes.BytePath.{PathError, BytePath, new_path}
use linux_deep_clean.Ledger.Vocabulary.{
  resolved_not_applied, resolved_move_verified, Metadata, unrecorded, Transition,
}
use linux_deep_clean.Ledger.Transition.Lifecycle.{resolution}
use linux_deep_clean.Trash.Facts.{
  Faults, drifted, Kinds, Ticket, Answer, path_and_basename, last_component,
}
use linux_deep_clean.Trash.Program.{
  Command, record_fact, reload, select, close, probe_metadata, probe_content, probe_source, context,
  Program, closing,
}
use linux_deep_clean.Trash.Program.Run.{Sends, Sends-chain}
use linux_deep_clean.Trash.Metadata.{Clock}
use linux_deep_clean.Trash.Reconcile.{Request, Side, of_metadata, of_content}
use linux_deep_clean.Trash.Reconcile.Flow.{
  bytes_of, stop, unless, reloaded, with_reload, with_check, settle, settle_metadata,
  probe_owned_metadata, with_metadata, with_absence, probe_owned_content, probe_side, directed,
  reconcile_with,
}

module _ {k : Kinds} (clock : Clock k) (request : Request k) (ticket : Ticket k) where
  -- What a command carries: the ticket of the caller or one of its token, and of the request the
  -- name of its source and its precondition.
  abbrev pub Concerns : Command k → Type 0
  Concerns (record_fact current t) = current.token ≡ ticket.token
  Concerns (reload current) = current ≡ ticket
  Concerns select = Unit {0}
  Concerns close = Unit {0}
  Concerns context = Unit {0}
  Concerns (probe_metadata token) = token ≡ ticket.token
  Concerns (probe_content token precondition) =
      (token ≡ ticket.token) × (precondition ≡ request.precondition)
  Concerns (probe_source basename precondition) =
      (basename ≡ last_component request.source.components) × (precondition ≡ request.precondition)
  Concerns _ = ⊥

  abbrev Sent : Program k (Answer k) → Type 0
  Sent p = Sends Concerns p

  unless-Sent :
      (current : Ticket k) (faults : Faults) (go : Program k (Answer k))
      → Sent go
      → Sent (unless current faults go)
  unless-Sent current [] go h = h
  unless-Sent current (f ∷ faults) go h = tt

  require-Sent :
      (current : Ticket k) (faults : Faults) (test : Bool) (go : Program k (Answer k))
      → Sent go
      → Sent (if test then go else stop current faults)
  require-Sent current faults true go h = h
  require-Sent current faults false go h = tt

  settle-Sent :
      (side : Side) (current : Ticket k) (t : Transition)
      → current.token ≡ ticket.token
      → Sent (settle side request current t)
  unfolding settle
  settle-Sent side current t own = (own, λ reply. tt)

  settle_metadata-Sent :
      (current : Ticket k) (o : Option Metadata)
      → current.token ≡ ticket.token
      → Sent (settle_metadata clock request current o)
  unfolding settle_metadata
  settle_metadata-Sent current none own = tt
  settle_metadata-Sent current (some m) own =
      settle-Sent of_metadata current (resolution resolved_not_applied m) own

  with_metadata-Sent :
      (current : Ticket k) (go : Bytes → Program k (Answer k))
      → current.token ≡ ticket.token
      → ((contents : Bytes) → Sent (go contents))
      → Sent (with_metadata clock request current go)
  unfolding with_metadata
  with_metadata-Sent current go own on = (
    own,
    λ reply.
        unless-Sent current reply.faults _
          (require-Sent current (drifted ∷ []) _ _ (on (bytes_of reply.contents))),
  )

  path_and_basename-last :
      (source path : BytePath) (basename : Bytes)
      → path_and_basename source ≡ ok (path, basename)
      → basename ≡ last_component source.components
  unfolding path_and_basename
  path_and_basename-last source path basename h =
      let (_, _, same) = bind-eq-ok (new_path source.components) _ h in
      let pair = ok-injective same in cc

  with_absence-Sent :
      (current : Ticket k) (source : Result PathError (BytePath × Bytes))
      (go : Program k (Answer k))
      → path_and_basename request.source ≡ source
      → Sent go
      → Sent (with_absence clock request current source go)
  unfolding with_absence
  with_absence-Sent current (err e) go is h = tt
  with_absence-Sent current (ok (path, basename)) go is h = (
    (path_and_basename-last request.source path basename is, refl),
    λ reply.
        unless-Sent current reply.faults _ (require-Sent current (drifted ∷ []) reply.holds go h),
  )

  probe_side-Sent :
      (side : Side) (current : Ticket k)
      → current.token ≡ ticket.token
      → Sent (probe_side clock side request current)
  unfolding probe_side probe_owned_metadata probe_owned_content
  probe_side-Sent of_metadata current own =
      (own, λ reply. unless-Sent current reply.faults _ (settle_metadata-Sent current _ own))
  probe_side-Sent of_content current own = with_metadata-Sent current _ own (λ first.
      with_absence-Sent current _ _ refl (
        (own, refl),
        λ content. unless-Sent current content.faults _ (
            require-Sent current (drifted ∷ []) content.holds _ (
              with_absence-Sent current _ _ refl (
                with_metadata-Sent current _ own (λ final.
                  require-Sent current (drifted ∷ []) (bytes_equal first final) _ (
                    settle-Sent of_content current (resolution resolved_move_verified unrecorded)
                      own))))),
      ))

  directed-Sent :
      (side : Side) (current : Ticket k) (directories : Bool) (faults : Faults)
      → current.token ≡ ticket.token
      → Sent (directed clock side request current directories faults)
  unfolding directed closing
  directed-Sent side current directories (f ∷ faults) own = tt
  directed-Sent side current false [] own = tt
  directed-Sent side current true [] own =
      Sends-chain Concerns (probe_side clock side request current) _
        (probe_side-Sent side current own) (λ a. (tt, λ _. tt))

  with_check-Sent :
      (side : Side) (current : Ticket k) (go : Program k (Answer k))
      → Sent go
      → Sent (with_check side current request go)
  unfolding with_check
  with_check-Sent side current go h =
      (tt, λ faults. unless-Sent current faults _ (require-Sent current _ _ go h))

  reloaded-Sent :
      (side : Side) (go : Ticket k → Program k (Answer k)) (o : Option (Ticket k)) (faults : Faults)
      → ((current : Ticket k) → current.token ≡ ticket.token → Sent (go current))
      → Sent (reloaded side ticket go o faults)
  unfolding reloaded
  reloaded-Sent side go none [] on = tt
  reloaded-Sent side go none (f ∷ faults) on = tt
  reloaded-Sent side go (some current) faults on =
      elim (Bool-cases (bytes_equal current.token ticket.token)) [
        | inl e ↦ rw e (
            unless-Sent current faults (go current)
              (on current ((bytes_equal_iff current.token ticket.token).0 e)))
        | inr e ↦ rw e tt
      ]

  with_reload-Sent :
      (side : Side) (go : Ticket k → Program k (Answer k))
      → ((current : Ticket k) → current.token ≡ ticket.token → Sent (go current))
      → Sent (with_reload side ticket go)
  unfolding with_reload
  with_reload-Sent side go on = (
    tt,
    λ faults.
        unless-Sent ticket faults _
          (refl, λ reply. reloaded-Sent side go reply.ticket reply.faults on),
  )

  pub reconcile_with-Asks :
      (side : Side) → Sends Concerns (reconcile_with clock side ticket request)
  unfolding reconcile_with
  reconcile_with-Asks side = with_check-Sent side ticket _ (
      with_reload-Sent side _ (λ current own.
        with_check-Sent side current _
          (tt, λ reply. directed-Sent side current reply.directories reply.faults own)))
