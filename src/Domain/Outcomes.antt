-- ===== src/Domain/Outcomes.antt =====
-- internal/domain/result.go: the terminal state of one action.
-- The checks of an action kind, of a reconciliation probe and of a recovery handle are fields of the
-- interface.
pub mod Claims
pub mod Summary
pub mod Counts
pub mod Whole
mod Tests
use linux_deep_clean.Prelude.{
  ℕ, ◌≡◌, Bool, true, false, not, ◌&&◌, ◌||◌, Option, none, some, if◌then◌else◌, ◌==◌, Bytes,
  Result, ok, err, ◌>>=◌, ◌>>◌, require,
}
use linux_deep_clean.Domain.Size.{ByteQuantity, SizeEffect, SizeFacts, validate_size_facts}
use linux_deep_clean.Domain.Identifiers.{validate_stable_id}

-- One constructor for each message.
pub data ResultError : Type 0 where
  bad_id bad_kind bad_outcome bad_state bad_disposition bad_probe bad_handle bad_effect :
      ResultError
  not_attempted no_probe drift_unrecovered must_be_indeterminate : ResultError
  reconciliation_state probe_present handle_present effect_claimed : ResultError
  handle_not_recovery retained_unknown restored_unknown : ResultError
  bad_schema bad_plan_digest bad_run_id probe_of_another_run probe_of_another_action : ResultError
  duplicate_action summary_mismatch : ResultError

-- Each is a Go string type; `omitted` is the empty string.
pub data Outcome : Type 0 where
  success skipped drifted denied unsupported failed interrupted indeterminate : Outcome
  other_outcome : Bytes → Outcome

pub data Reconciliation : Type 0 where
  reconciliation_omitted not_required required : Reconciliation
  other_reconciliation : Bytes → Reconciliation

pub data Recovery : Type 0 where
  recovery_omitted not_applicable retained restored : Recovery
  other_recovery : Bytes → Recovery

pub record Parts : Type 1 where
  pub Kind : Type 0
  pub Probe : Type 0
  pub Handle : Type 0
  -- The run and the action that a probe of a state record names, if it is one.
  pub state_record : Probe → Option (Bytes × Bytes)
  pub valid_kind : Kind → Bool
  pub valid_probe : Probe → Bool
  pub valid_handle : Handle → Bool

pub record ActionResult (p : Parts) : Type 0 where
  pub action_id : Bytes
  pub kind : p.Kind
  pub outcome : Outcome
  pub attempted : Bool
  pub reconciliation : Reconciliation
  pub probe : Option p.Probe
  pub recovery : Recovery
  pub handle : Option p.Handle
  pub verified_effect : SizeFacts

unfoldable pub known_outcome : Outcome → Bool
known_outcome (other_outcome _) = false
known_outcome _ = true

-- `reconciliationState` and `recoveryDisposition`: an omitted value is the ordinary one.
unfoldable pub reconciliation_of : Reconciliation → Reconciliation
reconciliation_of reconciliation_omitted = not_required
reconciliation_of state = state

unfoldable pub recovery_of : Recovery → Recovery
recovery_of recovery_omitted = not_applicable
recovery_of disposition = disposition

-- `ReconciliationState.Validate` and `RecoveryDisposition.Validate`
unfoldable pub known_reconciliation : Reconciliation → Bool
known_reconciliation not_required = true
known_reconciliation required = true
known_reconciliation _ = false

unfoldable pub known_recovery : Recovery → Bool
known_recovery not_applicable = true
known_recovery retained = true
known_recovery restored = true
known_recovery _ = false

abbrev pub is_required : Reconciliation → Bool
is_required required = true
is_required _ = false

abbrev pub is_not_required : Reconciliation → Bool
is_not_required not_required = true
is_not_required _ = false

abbrev pub is_retained : Recovery → Bool
is_retained retained = true
is_retained _ = false

abbrev pub is_present : {A : Type 0} → Option A → Bool
is_present none = false
is_present (some a) = true

unfoldable pub is_success : Outcome → Bool
is_success success = true
is_success _ = false

unfoldable pub is_drifted : Outcome → Bool
is_drifted drifted = true
is_drifted _ = false

-- `quantity == (ByteQuantity{})`, and `isZeroSizeFacts`
abbrev pub is_zero_quantity : ByteQuantity → Bool
is_zero_quantity q = not q.available && q.bytes == 0

unfoldable pub is_zero_size_facts : SizeFacts → Bool
is_zero_size_facts f =
    is_zero_quantity f.apparent
    && is_zero_quantity f.allocated
    && is_zero_quantity f.estimated.apparent
    && is_zero_quantity f.estimated.allocated
    && is_zero_quantity f.verified.apparent
    && is_zero_quantity f.verified.allocated
    && not f.link_count.known
    && f.link_count.value == 0
    && not f.aggregate

-- `if x != nil { if err := x.Validate(); ... }`
abbrev pub valid_if_present : {A : Type 0} → (A → Bool) → Option A → Bool
valid_if_present valid none = true
valid_if_present valid (some a) = valid a

-- `isKnownRecoveryOutcome`
unfoldable pub is_known_recovery_outcome : Outcome → Bool → Bool
is_known_recovery_outcome outcome attempted = is_success outcome || is_drifted outcome && attempted

-- `requireNoReconciliation`
unfoldable pub require_no_reconciliation :
    {P : Type 0} → Reconciliation → Option P → Result ResultError (Unit {0})
require_no_reconciliation state probe = do
  require (is_not_required state) reconciliation_state
  require (not (is_present probe)) probe_present

abbrev pub is_recovered : Recovery → Bool
is_recovered retained = true
is_recovered restored = true
is_recovered _ = false

-- The `switch result.Outcome`
unfoldable pub validate_outcome_shape :
    {P : Type 0}
    → Outcome
    → Bool
    → Reconciliation
    → Option P
    → Recovery
    → Result ResultError (Unit {0})
unfolding require_no_reconciliation
validate_outcome_shape success attempted state probe recovery = do
  require attempted not_attempted
  require_no_reconciliation state probe
validate_outcome_shape failed attempted state probe recovery = do
  require attempted not_attempted
  require_no_reconciliation state probe
validate_outcome_shape indeterminate attempted state probe recovery = do
  require attempted not_attempted
  require (is_required state && is_present probe) no_probe
validate_outcome_shape drifted attempted state probe recovery = do
  require (not attempted || is_recovered recovery) drift_unrecovered
  require_no_reconciliation state probe
validate_outcome_shape (other_outcome _) attempted state probe recovery = ok tt
validate_outcome_shape outcome attempted state probe recovery = do
  require (not attempted) must_be_indeterminate
  require_no_reconciliation state probe

-- What an action that is no success may not claim.
unfoldable pub validate_claims :
    Outcome → Bool → Recovery → Bool → Bool → Result ResultError (Unit {0})
validate_claims outcome attempted recovery has_handle zero_effect =
    if is_success outcome then ok tt else (do
      require (not has_handle || is_drifted outcome && attempted && is_retained recovery)
          handle_present
      require zero_effect effect_claimed)

-- `validateRecoveryDisposition`
unfoldable pub validate_recovery_disposition :
    Recovery → Bool → Bool → Bool → Result ResultError (Unit {0})
validate_recovery_disposition not_applicable known has_handle zero_effect =
    require (not has_handle) handle_not_recovery
validate_recovery_disposition retained known has_handle zero_effect = do
  require (known && has_handle) retained_unknown
  require zero_effect effect_claimed
validate_recovery_disposition restored known has_handle zero_effect = do
  require known restored_unknown
  require (not has_handle) handle_present
  require zero_effect effect_claimed
validate_recovery_disposition disposition known has_handle zero_effect = ok tt

abbrev pub succeeds : {E A : Type 0} → Result E A → Bool
succeeds (ok a) = true
succeeds (err e) = false

module _ (p : Parts) where
  open p use {valid_kind, valid_probe, valid_handle}

  -- `ActionResult.Validate`
  unfoldable pub validate_action_result : ActionResult p → Result ResultError (Unit {0})
  validate_action_result r = do
    require (succeeds (validate_stable_id r.action_id)) bad_id
    require (valid_kind r.kind) bad_kind
    require (known_outcome r.outcome) bad_outcome
    require (known_reconciliation (reconciliation_of r.reconciliation)) bad_state
    require (known_recovery (recovery_of r.recovery)) bad_disposition
    require (valid_if_present valid_probe r.probe) bad_probe
    require (valid_if_present valid_handle r.handle) bad_handle
    require (succeeds (validate_size_facts r.verified_effect)) bad_effect
    validate_outcome_shape r.outcome r.attempted (reconciliation_of r.reconciliation) r.probe
        (recovery_of r.recovery)
    validate_claims r.outcome r.attempted (recovery_of r.recovery) (is_present r.handle)
        (is_zero_size_facts r.verified_effect)
    validate_recovery_disposition (recovery_of r.recovery)
        (is_known_recovery_outcome r.outcome r.attempted) (is_present r.handle)
        (is_zero_size_facts r.verified_effect)
