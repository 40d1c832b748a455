-- ===== src/Ledger/Port/Inventory.antt =====
-- `RecoveryLedgerPort.ListOutstanding` leaves out no recovery.
use linux_deep_clean.Prelude.{ℕ, true, ◌≡◌, refl, List, [], ◌∷◌, ◌⊎◌, inl, inr, Result, ok, err}
use linux_deep_clean.Ledger.Vocabulary.{LedgerError, corrupt}
use linux_deep_clean.Ledger.Frame.{Recovery, Bindings}
use linux_deep_clean.Ledger.Sources.{Identities}
use linux_deep_clean.Ledger.Service.{Session, list_outstanding}
use linux_deep_clean.Ledger.Port.{Port, PortTicket, validate_port, new_tickets, port_list}
use linux_deep_clean.Ledger.Port.Issued.{IsPresentable, shown, new_ticket-cases}

module _ (b : Bindings) (i : Identities b) where
  open b use {Binding, destination}
  open i use {token, source}

  pub AllPresentable : List (Recovery Binding) → Type 0
  AllPresentable [] = Unit {0}
  AllPresentable (r ∷ rs) = IsPresentable b i r × AllPresentable rs

  abbrev pub all_shown : Port → List (Recovery Binding) → List (PortTicket Binding)
  all_shown port [] = []
  all_shown port (r ∷ rs) = shown b i port r ∷ all_shown port rs

  -- One ticket for each recovery, or none.
  pub Lists :
      Port → List (Recovery Binding) → Result LedgerError (List (PortTicket Binding)) → Type 0
  Lists port rs given =
      (AllPresentable rs × (given ≡ ok (all_shown port rs)))
      ⊎ ((¬ AllPresentable rs) × (given ≡ err corrupt))

  new_tickets-Lists :
      (port : Port) (rs : List (Recovery Binding)) → Lists port rs (new_tickets b i port rs)
  unfolding new_tickets Lists AllPresentable
  new_tickets-Lists port [] = inl (tt, refl)
  new_tickets-Lists port (r ∷ rs) = elim (new_ticket-cases b i port r) [
    | inl good ↦ elim (new_tickets-Lists port rs) [
      | inl rest ↦ inl ((good.0, rest.0), rw (good.1, rest.1) refl)
      | inr bad ↦ inr (λ all. bad.0 all.1, rw (good.1, bad.1) refl)
    ]
    | inr bad ↦ inr (λ all. bad.0 all.0, rw bad.1 refl)
  ]

  port_valid : (port : Port) → port.initialized ≡ true → validate_port port ≡ ok tt
  unfolding validate_port
  port_valid port h = rw h refl

  -- Where the port has a ledger that lists recoveries, the port answers with one ticket for each of
  -- them, in the same order, which shows it, when each has a valid identity and known words, and
  -- with a corruption and no ticket at all when some has not.
  pub port_list-Lists :
      (port : Port) (context : Result LedgerError (Unit {0})) (limit : ℕ) (session : Session)
      (rs : List (Recovery Binding))
      → port.initialized ≡ true
      → list_outstanding b i context limit session ≡ ok rs
      → Lists port rs (port_list b i port context limit session)
  unfolding port_list
  port_list-Lists port context limit session rs h listed =
      rw (port_valid port h, listed) (new_tickets-Lists port rs)
