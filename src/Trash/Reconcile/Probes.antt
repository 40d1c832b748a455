-- ===== src/Trash/Reconcile/Probes.antt =====
-- The reconciliations of internal/trash: an end by an error, a fact, and a probe of the metadata.
use mathlib.Core.Path.{subst}
use linux_deep_clean.Prelude.{
  Bool, true, false, ◌&&◌, ◌||◌, ◌≡◌, refl, Bool-cases, inl, inr, [], ◌∷◌, ◌++◌, Option, none, some,
  if◌then◌else◌, Bytes, bytes_equal,
}
use linux_deep_clean.Ledger.Vocabulary.{
  resolved_not_applied, resolved_move_verified, Metadata, unrecorded, Transition,
}
use linux_deep_clean.Ledger.Transition.Lifecycle.{resolution}
use linux_deep_clean.Trash.Facts.{Fault, Faults, drifted, unsupported, Kinds, Ticket, Answer}
use linux_deep_clean.Trash.Program.{Probed, Program}
use linux_deep_clean.Trash.Program.Run.{Keeps}
use linux_deep_clean.Trash.Metadata.{Clock}
use linux_deep_clean.Trash.Reconcile.{Request, Side, of_metadata, binds, has_facts}
use linux_deep_clean.Trash.Reconcile.Flow.{
  names_source, bytes_of, disposition_of, stop, unless, settled, settle, settle_metadata,
  probe_owned_metadata, with_metadata,
}
use linux_deep_clean.Trash.Reconcile.Protocol.{
  Evidence, is_some, clean, is_resolution, is_shown, evidence_allowed, read_record, after_metadata,
  evidence_next, evidence_protocol,
}
use linux_deep_clean.Trash.Reconcile.Readings.{
  resolution_self, disposition_of-read, names_source-read,
}

never_nil : (f : Fault) (faults : Faults) → ◌≡◌ {A = Faults} (f ∷ faults) [] → ⊥
never_nil f faults h = cc

module _ {k : Kinds} (clock : Clock k) (request : Request k) where
  -- At the end the directories are as given, and an answer without an error has recorded a fact.
  pub record Ends (opened : Bool) (s : Evidence) (a : Answer k) : Type 0 where
    pub shut : s.opened ≡ opened
    pub success : a.faults ≡ [] → s.recorded ≡ true

  abbrev pub Follows : Bool → Evidence → Program k (Answer k) → Type 0
  Follows opened s p = Keeps (evidence_protocol clock request) (Ends opened) s p

  pub stops :
      {opened : Bool} (s : Evidence) (o : Option (Ticket k)) (f : Fault) (faults : Faults)
      → s.opened ≡ opened
      → Ends opened s (record { ticket = o; faults = f ∷ faults })
  stops s o f faults e = record { shut = e; success = λ h. absurd (never_nil f faults h) }

  pub stops_joined :
      (s : Evidence) (ticket : Ticket k) (faults : Faults) (f : Fault)
      → Follows s.opened s (stop ticket (faults ++ f ∷ []))
  stops_joined s ticket [] f = stops s (some ticket) f [] refl
  stops_joined s ticket (g ∷ faults) f = stops s (some ticket) g (faults ++ f ∷ []) refl

  pub unless-Follows :
      {opened : Bool} (s : Evidence) (ticket : Ticket k) (faults : Faults)
      (go : Program k (Answer k))
      → s.opened ≡ opened
      → (clean faults ≡ true → Follows opened s go)
      → Follows opened s (unless ticket faults go)
  unless-Follows s ticket [] go e h = h refl
  unless-Follows s ticket (f ∷ faults) go e h = stops s (some ticket) f faults e

  -- A test that has to hold.
  pub require-Follows :
      {opened : Bool} (s : Evidence) (ticket : Ticket k) (f : Fault) (test : Bool)
      (go : Program k (Answer k))
      → s.opened ≡ opened
      → (test ≡ true → Follows opened s go)
      → Follows opened s (if test then go else stop ticket (f ∷ []))
  require-Follows s ticket f true go e h = h refl
  require-Follows s ticket f false go e h = stops s (some ticket) f [] e

  settled-recorded :
      (side : Side) (ticket : Ticket k) (t : Transition) (o : Option (Ticket k)) (faults : Faults)
      → (settled side request ticket t o faults).faults ≡ []
      → (is_some o && clean faults) ≡ true
  unfolding settled
  settled-recorded side ticket t none [] h = cc
  settled-recorded side ticket t none (f ∷ faults) h = cc
  settled-recorded side ticket t (some u) [] h = refl
  settled-recorded side ticket t (some u) (f ∷ faults) h =
      elim (Bool-cases (bytes_equal u.token ticket.token)) [
        | inl a ↦ elim (Bool-cases (binds u request && has_facts side u t)) [
          | inl b ↦ absurd (never_nil f faults (rw (a, b) at h))
          | inr b ↦ absurd (never_nil f (faults ++ unsupported ∷ []) (rw (a, b) at h))
        ]
        | inr a ↦ absurd (never_nil f (faults ++ unsupported ∷ []) (rw a at h))
      ]

  pub settle-Follows :
      (s : Evidence) (side : Side) (ticket : Ticket k) (t : Transition)
      → s.recorded ≡ false
      → (s.confirmed && is_resolution resolved_move_verified unrecorded t || is_shown s.shows t)
        ≡ true
      → Follows s.opened s (settle side request ticket t)
  unfolding settle evidence_allowed evidence_next
  settle-Follows s side ticket t new fits = (
    rw (new, fits) refl,
    λ reply. record {
      shut = refl;
      success = λ h. settled-recorded side ticket t reply.ticket reply.faults h;
    },
  )

  -- What is seen, with the directories open and nothing recorded.
  abbrev pub seen : Option Metadata → Option Bytes → Bool → Bool → Bool → Bool → Evidence
  seen shows first gone present still_gone confirmed = record {
    opened = true;
    shows = shows;
    first = first;
    gone = gone;
    present = present;
    still_gone = still_gone;
    confirmed = confirmed;
    recorded = false;
  }

  settle_metadata-Follows :
      (ticket : Ticket k) (o : Option Metadata) (first : Option Bytes)
      → Follows true (seen o first false false false false) (settle_metadata clock request ticket o)
  unfolding settle_metadata is_shown
  settle_metadata-Follows ticket none first = stops _ (some ticket) drifted [] refl
  settle_metadata-Follows ticket (some m) first =
      settle-Follows (seen (some m) first false false false false) of_metadata ticket
        (resolution resolved_not_applied m) refl (resolution_self resolved_not_applied m)

  pub probe_owned_metadata-Follows :
      (ticket : Ticket k)
      → Follows true
          (seen none none false false false false)
          (probe_owned_metadata clock request ticket)
  unfolding probe_owned_metadata evidence_allowed evidence_next
  probe_owned_metadata-Follows ticket = (
    refl,
    λ reply. unless-Follows _ ticket reply.faults _ refl (λ e.
        subst
          (λ o.
            Follows true
              (seen o
                (read_record clock request ticket.token reply.contents reply.present reply.faults)
                false false false false)
              (settle_metadata clock request ticket
                (disposition_of clock request ticket.token reply.contents reply.present)))
          (disposition_of-read clock request ticket.token reply.contents reply.present reply.faults
            e)
          (settle_metadata-Follows ticket
            (disposition_of clock request ticket.token reply.contents reply.present) _)),
  )

  -- A probe of the metadata that has to name the source.
  pub with_metadata-Follows :
      (ticket : Ticket k) (s : Evidence) (go : Bytes → Program k (Answer k))
      → s.opened ≡ true
      → ((reply : Probed) → (after_metadata clock request s ticket.token reply).opened ≡ true)
      → ((reply : Probed)
          → read_record clock request ticket.token reply.contents reply.present reply.faults
            ≡ some (bytes_of reply.contents)
          → Follows true
              (after_metadata clock request s ticket.token reply)
              (go (bytes_of reply.contents)))
      → Follows true s (with_metadata clock request ticket go)
  unfolding with_metadata evidence_allowed evidence_next
  with_metadata-Follows ticket s go opened still good = (
    opened,
    λ reply. unless-Follows _ ticket reply.faults _ (still reply) (λ e.
        require-Follows _ ticket drifted
          (reply.present && names_source clock request ticket.token (bytes_of reply.contents)) _
          (still reply)
          (λ named. good reply (
            names_source-read clock request ticket.token reply.contents reply.present reply.faults e
              named))),
  )
