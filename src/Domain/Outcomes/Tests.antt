-- ===== src/Domain/Outcomes/Tests.antt =====
-- Runs of the checks of results at concrete actions.
use linux_deep_clean.Prelude.{
  ◌≡◌, refl, arith, Bool, true, false, none, some, [], ◌∷◌, replicate, bytes_equal, codes, ok,
}
use linux_deep_clean.Domain.Size.{
  SizeFacts, unavailable, unknown_fact, validate_size_facts, validate_quantity, validate_effect,
  validate_fact, validate_ownership,
}
use linux_deep_clean.Domain.Identifiers.{
  validate_digest, validate_stable_id, stable_bytes, stable_byte,
}
use linux_deep_clean.Domain.Outcomes.{
  success, indeterminate, reconciliation_omitted, required, recovery_omitted, retained, Parts,
  ActionResult, known_outcome, reconciliation_of, recovery_of, known_reconciliation, known_recovery,
  is_success, is_drifted, is_zero_size_facts, is_known_recovery_outcome, require_no_reconciliation,
  validate_outcome_shape, validate_claims, validate_recovery_disposition, validate_action_result,
}
use linux_deep_clean.Domain.Outcomes.Claims.{IsTerminal, validate_action_result-IsTerminal}
use linux_deep_clean.Domain.Outcomes.Summary.{derive_exit_summary, tally_actions, count_outcome}
use linux_deep_clean.Domain.Outcomes.Whole.{
  RunResult, summary_equal, bind_record, validate_probe_binding, validate_actions, validate_result,
  normalize, new_result,
}
use linux_deep_clean.Domain.Outcomes.Whole.Sound.{IsRunResult, validate_result-IsRunResult}
use linux_deep_clean.Domain.Plan.{has_key}
use linux_deep_clean.Domain.Outcomes.Counts.{Summarizes, derive_exit_summary-Summarizes}

-- A kind, a probe and a handle are valid or not, and nothing more.
abbrev flagged : Parts
flagged = record {
  Kind = Bool;
  Probe = Bool;
  Handle = Bool;
  state_record = λ probe. none;
  valid_kind = λ kind. kind;
  valid_probe = λ probe. probe;
  valid_handle = λ handle. handle;
}

abbrev no_effect : SizeFacts
no_effect = record {
  apparent = unavailable;
  allocated = unavailable;
  estimated = record { apparent = unavailable; allocated = unavailable };
  verified = record { apparent = unavailable; allocated = unavailable };
  link_count = unknown_fact;
  aggregate = false;
}

abbrev trashed : ActionResult flagged
trashed = record {
  action_id = codes "a1";
  kind = true;
  outcome = success;
  attempted = true;
  reconciliation = reconciliation_omitted;
  probe = none;
  recovery = retained;
  handle = some true;
  verified_effect = no_effect;
}

abbrev lost : ActionResult flagged
lost = record {
  action_id = codes "a2";
  kind = true;
  outcome = indeterminate;
  attempted = true;
  reconciliation = required;
  probe = some true;
  recovery = recovery_omitted;
  handle = none;
  verified_effect = no_effect;
}

trashed_valid : validate_action_result flagged trashed ≡ ok tt
unfolding validate_action_result validate_stable_id stable_bytes stable_byte known_outcome
    known_reconciliation reconciliation_of known_recovery recovery_of validate_size_facts
    validate_quantity validate_effect validate_fact validate_ownership validate_outcome_shape
    require_no_reconciliation validate_claims validate_recovery_disposition is_success is_drifted
    is_known_recovery_outcome is_zero_size_facts
trashed_valid = refl

validate_action_result-IsTerminal_example : IsTerminal trashed
validate_action_result-IsTerminal_example =
    validate_action_result-IsTerminal flagged trashed trashed_valid

derive_exit_summary-Summarizes_example :
    Summarizes flagged (derive_exit_summary flagged (trashed ∷ lost ∷ [])) (trashed ∷ lost ∷ [])
derive_exit_summary-Summarizes_example =
    derive_exit_summary-Summarizes flagged (trashed ∷ lost ∷ []) (omega arith)

abbrev given : RunResult flagged
given = record {
  schema_version = 1;
  plan_digest = replicate 32 5;
  run_id = codes "run";
  actions = trashed ∷ lost ∷ [];
  summary = derive_exit_summary flagged [];
}

abbrev made : RunResult flagged
made = record given {
  actions = normalize flagged (trashed ∷ lost ∷ []);
  summary = derive_exit_summary flagged (normalize flagged (trashed ∷ lost ∷ []));
}

made_valid : validate_result flagged made ≡ ok tt
unfolding validate_result validate_actions validate_probe_binding bind_record summary_equal
    derive_exit_summary tally_actions count_outcome validate_digest bytes_equal has_key
    validate_action_result validate_stable_id stable_bytes stable_byte known_outcome
    known_reconciliation reconciliation_of known_recovery recovery_of validate_size_facts
    validate_quantity validate_effect validate_fact validate_ownership validate_outcome_shape
    require_no_reconciliation validate_claims validate_recovery_disposition is_success is_drifted
    is_known_recovery_outcome is_zero_size_facts
made_valid = refl

result_making : new_result flagged given ≡ ok made
unfolding new_result
result_making = rw made_valid refl

validate_result-IsRunResult_example : IsRunResult flagged made
validate_result-IsRunResult_example = validate_result-IsRunResult flagged made made_valid
