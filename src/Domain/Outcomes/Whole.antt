-- ===== src/Domain/Outcomes/Whole.antt =====
-- internal/domain/result.go: a result of a run, `Result.Validate` and `NewResult`.
pub mod Sound
use linux_deep_clean.Prelude.{
  ℕ, ◌≡◌, ◌↔◌, refl, sym, ◌∙◌, ap, arith, Bool, true, false, not, ◌&&◌, ◌||◌, ◌==◌, ==_iff, List,
  [], ◌∷◌, Option, none, some, if◌then◌else◌, Bool-cases, inl, inr, All, Bytes, bytes_equal,
  bytes_equal_iff, Result, ok, err, ◌>>=◌, ◌>>◌, require, require-eq-ok, bind-eq-ok, not-eq-true,
  ok-injective,
}
use linux_deep_clean.Domain.Identifiers.{validate_stable_id, validate_digest}
use linux_deep_clean.Domain.Plan.{has_key}
use linux_deep_clean.Domain.Plan.Known.{Distinct, not_again}
use linux_deep_clean.Domain.Outcomes.{
  ResultError, bad_schema, bad_plan_digest, bad_run_id, probe_of_another_run,
  probe_of_another_action, duplicate_action, summary_mismatch, Parts, ActionResult,
  reconciliation_of, recovery_of, succeeds, validate_action_result,
}
use linux_deep_clean.Domain.Outcomes.Claims.{IsTerminal, validate_action_result-IsTerminal}
use linux_deep_clean.Domain.Outcomes.Summary.{ExitSummary, derive_exit_summary}

abbrev bool_equal : Bool → Bool → Bool
bool_equal true b = b
bool_equal false b = not b

-- `==` of two summaries
unfoldable pub summary_equal : ExitSummary → ExitSummary → Bool
summary_equal a b =
    a.total == b.total
    && a.success_count == b.success_count
    && a.skipped_count == b.skipped_count
    && a.drifted_count == b.drifted_count
    && a.denied_count == b.denied_count
    && a.unsupported_count == b.unsupported_count
    && a.failed_count == b.failed_count
    && a.interrupted_count == b.interrupted_count
    && a.indeterminate_count == b.indeterminate_count
    && bool_equal a.partial b.partial
    && bool_equal a.reconciliation_required b.reconciliation_required

pub summary_equal_iff : (a b : ExitSummary) → (summary_equal a b ≡ true) ↔ (a ≡ b)
unfolding summary_equal
summary_equal_iff a b = ground arith

module _ (p : Parts) where
  open p use {Probe, state_record}

  pub record RunResult : Type 0 where
    pub schema_version : ℕ
    pub plan_digest : Bytes
    pub run_id : Bytes
    pub actions : List (ActionResult p)
    pub summary : ExitSummary

  unfoldable pub bind_record :
      Bytes → Bytes → Option (Bytes × Bytes) → Result ResultError (Unit {0})
  bind_record run_id action_id none = ok tt
  bind_record run_id action_id (some (run, action)) = do
    require (bytes_equal run run_id) probe_of_another_run
    require (bytes_equal action action_id) probe_of_another_action

  -- `validateStateRecordProbeBinding`
  unfoldable pub validate_probe_binding :
      Bytes → Bytes → Option Probe → Result ResultError (Unit {0})
  unfolding bind_record
  validate_probe_binding run_id action_id none = ok tt
  validate_probe_binding run_id action_id (some probe) =
      bind_record run_id action_id (state_record probe)

  -- The loop over the actions, with the keys of `seenActions`.
  unfoldable pub validate_actions :
      Bytes → List Bytes → List (ActionResult p) → Result ResultError (Unit {0})
  validate_actions run_id seen [] = ok tt
  validate_actions run_id seen (action ∷ rest) = do
    validate_action_result p action
    validate_probe_binding run_id action.action_id action.probe
    require (not (has_key action.action_id seen)) duplicate_action
    validate_actions run_id (action.action_id ∷ seen) rest

  -- `Result.Validate`
  unfoldable pub validate_result : RunResult → Result ResultError (Unit {0})
  validate_result r = do
    require (r.schema_version == 1) bad_schema
    require (succeeds (validate_digest r.plan_digest)) bad_plan_digest
    require (succeeds (validate_stable_id r.run_id)) bad_run_id
    validate_actions r.run_id [] r.actions
    require (summary_equal r.summary (derive_exit_summary p r.actions)) summary_mismatch

  -- An omitted state is made explicit.
  abbrev pub normalize : List (ActionResult p) → List (ActionResult p)
  normalize [] = []
  normalize (action ∷ rest) =
      record action {
        reconciliation = reconciliation_of action.reconciliation;
        recovery = recovery_of action.recovery;
      }
      ∷ normalize rest

  -- `NewResult`
  unfoldable pub new_result : RunResult → Result ResultError RunResult
  new_result result = do
    let cloned : RunResult = record result {
      actions = normalize result.actions;
      summary = derive_exit_summary p (normalize result.actions);
    }
    validate_result cloned
    ok cloned

  abbrev pub action_ids : List (ActionResult p) → List Bytes
  action_ids [] = []
  action_ids (action ∷ rest) = action.action_id ∷ action_ids rest
