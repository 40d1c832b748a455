-- ===== src/Domain/Outcomes/Claims.antt =====
-- What an accepted result of internal/domain/result.go may claim.
use linux_deep_clean.Prelude.{
  ◌≡◌, ◌≢◌, arith, Bool, true, false, ◌⊎◌, Option, ok, require, require-eq-ok, bind-eq-ok,
}
use linux_deep_clean.Domain.Size.{validate_size_facts}
use linux_deep_clean.Domain.Identifiers.{validate_stable_id}
use linux_deep_clean.Domain.Outcomes.{
  Outcome, success, drifted, indeterminate, Reconciliation, not_required, required, Recovery,
  not_applicable, retained, Parts, ActionResult, known_outcome, reconciliation_of, recovery_of,
  known_reconciliation, known_recovery, is_present, is_success, is_drifted, is_zero_size_facts,
  valid_if_present, require_no_reconciliation, validate_outcome_shape, validate_claims,
  validate_recovery_disposition, succeeds, validate_action_result,
}

-- An outcome that leaves nothing to find out.
shape-settled :
    {P : Type 0} (o : Outcome) (attempted : Bool) (s : Reconciliation) (probe : Option P)
    (r : Recovery)
    → known_outcome o ≡ true
    → validate_outcome_shape o attempted s probe r ≡ ok tt
    → o ≢ indeterminate
    → (s ≡ not_required) × (is_present probe ≡ false)
unfolding validate_outcome_shape require_no_reconciliation known_outcome
shape-settled o attempted s probe r k h n = ground arith

shape-unsettled :
    {P : Type 0} (o : Outcome) (attempted : Bool) (s : Reconciliation) (probe : Option P)
    (r : Recovery)
    → validate_outcome_shape o attempted s probe r ≡ ok tt
    → o ≡ indeterminate
    → (attempted ≡ true) × (s ≡ required) × (is_present probe ≡ true)
unfolding validate_outcome_shape
shape-unsettled o attempted s probe r h n = ground arith

shape-success :
    {P : Type 0} (o : Outcome) (attempted : Bool) (s : Reconciliation) (probe : Option P)
    (r : Recovery)
    → validate_outcome_shape o attempted s probe r ≡ ok tt
    → o ≡ success
    → attempted ≡ true
unfolding validate_outcome_shape
shape-success o attempted s probe r h n = ground arith

claims-effect :
    (o : Outcome) (attempted : Bool) (r : Recovery) (has_handle zero known : Bool)
    → known_recovery r ≡ true
    → validate_claims o attempted r has_handle zero ≡ ok tt
    → validate_recovery_disposition r known has_handle zero ≡ ok tt
    → zero ≡ false
    → (o ≡ success) × (r ≡ not_applicable)
unfolding validate_claims validate_recovery_disposition is_success known_recovery
claims-effect o attempted r has_handle zero known k h d e = ground arith

claims-handle :
    (o : Outcome) (attempted : Bool) (r : Recovery) (has_handle zero known : Bool)
    → known_recovery r ≡ true
    → validate_claims o attempted r has_handle zero ≡ ok tt
    → validate_recovery_disposition r known has_handle zero ≡ ok tt
    → has_handle ≡ true
    → (r ≡ retained) × ((o ≡ success) ⊎ ((o ≡ drifted) × (attempted ≡ true))) × (zero ≡ true)
unfolding validate_claims validate_recovery_disposition is_success is_drifted known_recovery
claims-handle o attempted r has_handle zero known k h d e = ground arith

-- What an accepted result says and does not say.
pub record IsTerminal {p : Parts} (r : ActionResult p) : Type 0 where
  pub settled :
      r.outcome ≢ indeterminate
      → (reconciliation_of r.reconciliation ≡ not_required) × (is_present r.probe ≡ false)
  pub unsettled :
      r.outcome ≡ indeterminate
      → (r.attempted ≡ true)
        × (reconciliation_of r.reconciliation ≡ required)
        × (is_present r.probe ≡ true)
  pub effective :
      is_zero_size_facts r.verified_effect ≡ false
      → (r.outcome ≡ success) × (recovery_of r.recovery ≡ not_applicable)
  pub recoverable :
      is_present r.handle ≡ true
      → (recovery_of r.recovery ≡ retained)
        × ((r.outcome ≡ success) ⊎ ((r.outcome ≡ drifted) × (r.attempted ≡ true)))
        × (is_zero_size_facts r.verified_effect ≡ true)
  pub dispatched : r.outcome ≡ success → r.attempted ≡ true

module _ (p : Parts) where
  open p use {valid_kind, valid_probe, valid_handle}

  -- An accepted result requires reconciliation and carries a probe exactly when it is
  -- indeterminate, which it is only once attempted; it claims an effect only as a success without
  -- recovery; it carries a recovery handle only as retained content of a success or of an attempted
  -- drift, without a claim of an effect; and a success was attempted.
  pub validate_action_result-IsTerminal :
      (r : ActionResult p) → validate_action_result p r ≡ ok tt → IsTerminal r
  unfolding validate_action_result
  validate_action_result-IsTerminal r h =
      let (_, _, h1) = bind-eq-ok (require (succeeds (validate_stable_id r.action_id)) _) _ h in
      let (_, _, h2) = bind-eq-ok (require (valid_kind r.kind) _) _ h1 in
      let (_, known, h3) = bind-eq-ok (require (known_outcome r.outcome) _) _ h2 in
      let (_, _, h4) =
        bind-eq-ok (require (known_reconciliation (reconciliation_of r.reconciliation)) _) _ h3 in
      let (_, recovers, h5) =
        bind-eq-ok (require (known_recovery (recovery_of r.recovery)) _) _ h4 in
      let (_, _, h6) = bind-eq-ok (require (valid_if_present valid_probe r.probe) _) _ h5 in
      let (_, _, h7) = bind-eq-ok (require (valid_if_present valid_handle r.handle) _) _ h6 in
      let (_, _, h8) =
        bind-eq-ok (require (succeeds (validate_size_facts r.verified_effect)) _) _ h7 in
      let (_, shape, h9) =
        bind-eq-ok
          (validate_outcome_shape r.outcome r.attempted (reconciliation_of r.reconciliation) r.probe
            (recovery_of r.recovery))
          _ h8 in
      let (_, claims, disposition) =
        bind-eq-ok
          (validate_claims r.outcome r.attempted (recovery_of r.recovery) (is_present r.handle)
            (is_zero_size_facts r.verified_effect))
          _ h9 in
      let vocabulary = require-eq-ok _ _ recovers in
      record {
        settled = shape-settled r.outcome r.attempted _ r.probe _ (require-eq-ok _ _ known) shape;
        unsettled = shape-unsettled r.outcome r.attempted _ r.probe _ shape;
        effective = claims-effect r.outcome r.attempted _ _ _ _ vocabulary claims disposition;
        recoverable = claims-handle r.outcome r.attempted _ _ _ _ vocabulary claims disposition;
        dispatched = shape-success r.outcome r.attempted _ r.probe _ shape;
      }
