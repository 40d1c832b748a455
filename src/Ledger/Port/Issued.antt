-- ===== src/Ledger/Port/Issued.antt =====
-- The tickets of internal/state/recovery_ledger_port.go show the recoveries of the ledger.
use linux_deep_clean.Prelude.{
  sym, ◌∙◌, arith, true, ◌≡◌, refl, ◌&&◌, ◌==◌, [], ◌∷◌, Bytes, length, Bool-cases, ◌⊎◌, inl, inr,
  Result, ok, err,
}
use linux_deep_clean.Ledger.Vocabulary.{LedgerError, corrupt}
use linux_deep_clean.Ledger.Frame.{Recovery, Bindings}
use linux_deep_clean.Ledger.Records.{new_record_id, cut_prefix, hex_token, is_lower_hex}
use linux_deep_clean.Ledger.Sources.{Identities}
use linux_deep_clean.Ledger.Histories.{wrap_as}
use linux_deep_clean.Ledger.Service.{Answer, done, ambiguous, refused, validate_identity}
use linux_deep_clean.Ledger.Port.{
  Port, PortTicket, PortAnswer, issued, undecided, failed, issued_as, new_ticket, ticket_result,
}
use linux_deep_clean.Ledger.Port.Words.{
  KnownDestination, KnownEvent, KnownOutcome, KnownMetadata, destination_to_port-IsKept,
  known_event-IsKept, known_outcome-IsKept, known_metadata-IsKept,
}

never_ok :
    {A : Type 0} {a : A} {e : LedgerError} → ◌≡◌ {A = Result LedgerError A} (err e) (ok a) → ⊥
never_ok h = cc

empty_bytes : (text : Bytes) → (length text == 0) ≡ true → text ≡ []
empty_bytes [] h = refl
empty_bytes (c ∷ text) h = absurd (ground arith)

result_cases : (m : Result LedgerError (Unit {0})) → (m ≡ ok tt) ⊎ ((e : LedgerError) × (m ≡ err e))
result_cases (ok u) = inl refl
result_cases (err e) = inr (e, refl)

module _ (b : Bindings) (i : Identities b) where
  open b use {Binding, destination}
  open i use {token, source}

  -- A recovery that a ticket can show.
  pub record IsPresentable (r : Recovery Binding) : Type 0 where
    pub identity : validate_identity b i r ≡ ok tt
    pub destination_known : KnownDestination (destination r.binding)
    pub event_known : KnownEvent r.event
    pub outcome_known : KnownOutcome r.outcome
    pub metadata_known : KnownMetadata r.metadata

  -- The ticket of a port that shows a recovery.
  abbrev pub shown : Port → Recovery Binding → PortTicket Binding
  shown port r = record {
    port = port.address;
    recovery = r;
    destination = destination r.binding;
    event = r.event;
    outcome = r.outcome;
    metadata = r.metadata;
    source = source r.binding;
  }

  identity-cases :
      (r : Recovery Binding)
      → (validate_identity b i r ≡ ok tt) ⊎ ((e : LedgerError) × (validate_identity b i r ≡ err e))
  identity-cases r = result_cases (validate_identity b i r)

  pub new_ticket-cases :
      (port : Port) (r : Recovery Binding)
      → (IsPresentable r × (new_ticket b i port r ≡ ok (shown port r)))
        ⊎ ((¬ IsPresentable r) × (new_ticket b i port r ≡ err corrupt))
  unfolding new_ticket wrap_as
  new_ticket-cases port r = elim (identity-cases r) [
    | inl h ↦ elim (destination_to_port-IsKept (destination r.binding)) [
      | inl d ↦ elim (known_event-IsKept corrupt r.event) [
        | inl a ↦ elim (known_outcome-IsKept corrupt r.outcome) [
          | inl o ↦ elim (known_metadata-IsKept corrupt r.metadata) [
            | inl m ↦ inl (
              record {
                identity = h;
                destination_known = d.0;
                event_known = a.0;
                outcome_known = o.0;
                metadata_known = m.0;
              },
              rw (h, d.1, a.1, o.1, m.1) refl,
            )
            | inr m ↦ inr (λ p. m.0 p.metadata_known, rw (h, d.1, a.1, o.1, m.1) refl)
          ]
          | inr o ↦ inr (λ p. o.0 p.outcome_known, rw (h, d.1, a.1, o.1) refl)
        ]
        | inr a ↦ inr (λ p. a.0 p.event_known, rw (h, d.1, a.1) refl)
      ]
      | inr d ↦ inr (λ p. d.0 p.destination_known, rw (h, d.1) refl)
    ]
    | inr bad ↦ inr (λ p. never_ok (◌∙◌ (sym bad.1) p.identity), rw bad.1 refl)
  ]

  -- What the port makes of what the ledger answers.
  pub Passes : Port → Answer Binding → PortAnswer Binding → Type 0
  Passes port (done r) (issued t) = IsPresentable r × (t ≡ shown port r)
  Passes port (ambiguous r) (undecided t) = IsPresentable r × (t ≡ shown port r)
  Passes port (refused e) (failed e') = e' ≡ e
  Passes port (done r) (failed e) = (¬ IsPresentable r) × (e ≡ corrupt)
  Passes port (ambiguous r) (failed e) = ¬ IsPresentable r
  Passes port answer given = ⊥

  -- A name of a record has a token.
  token-required :
      (r : Recovery Binding) → (length (token r.binding) == 0) ≡ true → ¬ IsPresentable r
  unfolding validate_identity wrap_as new_record_id cut_prefix hex_token
  token-required r h p = elim (Bool-cases (i.valid_digest r.binding)) [
    | inl a ↦
        elim (Bool-cases (length (i.digest r.binding) == 64 && is_lower_hex (i.digest r.binding))) [
          | inl c ↦ absurd (never_ok (rw (a, empty_bytes (token r.binding) h, c) at p.identity))
          | inr c ↦ absurd (never_ok (rw (a, c) at p.identity))
        ]
    | inr a ↦ absurd (never_ok (rw a at p.identity))
  ]

  pub ticket_result-Passes :
      (port : Port) (answer : Answer Binding) → Passes port answer (ticket_result b i port answer)
  unfolding ticket_result Passes issued_as
  ticket_result-Passes port (refused e) = refl
  ticket_result-Passes port (done r) = elim (Bool-cases (length (token r.binding) == 0)) [
    | inl h ↦ rw h (token-required r h, refl)
    | inr h ↦ elim (new_ticket-cases port r) [
      | inl good ↦ rw (h, good.1) (good.0, refl)
      | inr bad ↦ rw (h, bad.1) (bad.0, refl)
    ]
  ]
  ticket_result-Passes port (ambiguous r) = elim (Bool-cases (length (token r.binding) == 0)) [
    | inl h ↦ rw h (token-required r h)
    | inr h ↦ elim (new_ticket-cases port r) [
      | inl good ↦ rw (h, good.1) (good.0, refl)
      | inr bad ↦ rw (h, bad.1) bad.0
    ]
  ]
