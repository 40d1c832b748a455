-- ===== src/Ledger/Port/Served.antt =====
-- `RecoveryLedgerPort.Transition` passes the ledger's answer on, for its own tickets.
use linux_deep_clean.Prelude.{
  true, false, ◌≡◌, refl, ==_iff, ◌==◌, Bool-cases, ◌⊎◌, inl, inr, Result, ok,
}
use linux_deep_clean.Ledger.Vocabulary.{LedgerError, unsupported, Transition}
use linux_deep_clean.Ledger.Frame.{Bindings}
use linux_deep_clean.Ledger.Sources.{Identities}
use linux_deep_clean.Ledger.Service.{Session, transition}
use linux_deep_clean.Ledger.Port.{
  Port, PortTicket, Handle, ticket, not_ticket, PortAnswer, failed, validate_port, unwrap, answered,
  transition_input, port_transition,
}
use linux_deep_clean.Ledger.Port.Issued.{Passes, ticket_result-Passes}
use linux_deep_clean.Ledger.Port.Words.{
  IsFact, IsFact-transition_from_port, transition_from_port-IsKept,
}

module _ (b : Bindings) (i : Identities b) where
  open b use {Binding, destination}
  open i use {token, source}

  -- What the port takes for a transition.
  pub record IsAccepted (port : Port) (handle : Handle Binding) (t : Transition)
      (held : PortTicket Binding) : Type 0 where
    pub initialized : port.initialized ≡ true
    pub handle_is : handle ≡ ticket held
    pub port_is : held.port ≡ port.address
    pub known : IsFact t

  -- A transition reaches the ledger.
  pub Serves :
      Port
      → Result LedgerError (Unit {0})
      → Handle Binding
      → Transition
      → Session
      → PortAnswer Binding
      → Type 0
  Serves port context handle t session given =
      ((held : PortTicket Binding) × IsAccepted port handle t held
        × Passes b i port (transition b i context held.recovery t session) given)
      ⊎ (((held : PortTicket Binding) → ¬ IsAccepted port handle t held)
          × (given ≡ failed unsupported))

  foreign :
      (other held : PortTicket Binding) (port : Port)
      → (held.port == port.address) ≡ false
      → ticket held ≡ ticket other
      → other.port ≡ port.address
      → ⊥
  foreign other held port own same at =
      let e : held ≡ other = cc in
      let own' = rw (e, (==_iff other.port port.address).1 at) at own in absurd cc

  not_issued :
      (port : Port) (t : Transition) (held : PortTicket Binding)
      → ¬ IsAccepted port not_ticket t held
  not_issued port t held is = let e = is.handle_is in absurd cc

  input_taken :
      (port : Port) (t : Transition) (held : PortTicket Binding)
      → IsAccepted port (ticket held) t held
      → transition_input b i port (ticket held) t ≡ ok (held.recovery, t)
  unfolding transition_input validate_port unwrap
  input_taken port t held is =
      rw
        (
          is.initialized,
          (==_iff held.port port.address).1 is.port_is,
          IsFact-transition_from_port t is.known,
        )
        refl

  reached :
      (port : Port) (context : Result LedgerError (Unit {0})) (t : Transition) (session : Session)
      (held : PortTicket Binding)
      → IsAccepted port (ticket held) t held
      → (own : PortTicket Binding) × IsAccepted port (ticket held) t own
        × Passes b i port
            (transition b i context own.recovery t session)
            (port_transition b i port context (ticket held) t session)
  unfolding port_transition answered
  reached port context t session held is = (
    held,
    is,
    rw (input_taken port t held is)
        (ticket_result-Passes b i port (transition b i context held.recovery t session)),
  )

  served :
      (port : Port) (context : Result LedgerError (Unit {0})) (handle : Handle Binding)
      (t : Transition) (session : Session)
      → port.initialized ≡ true
      → Serves port context handle t session (port_transition b i port context handle t session)
  unfolding port_transition transition_input answered validate_port unwrap Serves
  served port context not_ticket t session h = inr (not_issued port t, rw h refl)
  served port context (ticket held) t session h = elim (Bool-cases (held.port == port.address)) [
    | inr own ↦
        inr (λ other is. foreign other held port own is.handle_is is.port_is, rw (h, own) refl)
    | inl own ↦ elim (transition_from_port-IsKept t) [
      | inl word ↦ inl (
          reached port context t session held (record {
            initialized = h;
            handle_is = refl;
            port_is = (==_iff held.port port.address).0 own;
            known = word.0;
          }))
      | inr word ↦ inr (λ other is. word.0 is.known, rw (h, own, word.1) refl)
    ]
  ]

  -- The port hands a transition to the ledger exactly for a ticket that it issued, where it has a
  -- ledger and the words of the fact are known. It then passes the ledger's answer on: a ticket
  -- that shows the recovery, also beside an interruption, when the recovery has a valid identity and
  -- known words, and an error when it has not. All else is refused as unsupported, whatever the
  -- session would answer.
  pub port_transition-Serves :
      (port : Port) (context : Result LedgerError (Unit {0})) (handle : Handle Binding)
      (t : Transition) (session : Session)
      → Serves port context handle t session (port_transition b i port context handle t session)
  unfolding port_transition transition_input answered validate_port unwrap Serves
  port_transition-Serves port context handle t session = elim (Bool-cases port.initialized) [
    | inr h ↦ inr (λ held is. let e = is.initialized in absurd cc, rw h refl)
    | inl h ↦ served port context handle t session h
  ]
