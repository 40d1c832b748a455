-- ===== src/Domain/Outcomes/Whole/Sound.antt =====
-- What `Result.Validate` and `NewResult` of internal/domain/result.go accept.
use mathlib.Core.Path.{subst}
use linux_deep_clean.Prelude.{
  ◌≡◌, refl, arith, true, false, not, ◌==◌, List, [], ◌∷◌, Bool-cases, inl, inr, All, Bytes,
  bytes_equal, bytes_equal_iff, ok, require, require-eq-ok, bind-eq-ok, not-eq-true, ok-injective,
}
use linux_deep_clean.Domain.Identifiers.{validate_stable_id, validate_digest}
use linux_deep_clean.Domain.Plan.{has_key}
use linux_deep_clean.Domain.Plan.Known.{Distinct, not_again}
use linux_deep_clean.Domain.Outcomes.{Parts, ActionResult, succeeds, validate_action_result}
use linux_deep_clean.Domain.Outcomes.Claims.{IsTerminal, validate_action_result-IsTerminal}
use linux_deep_clean.Domain.Outcomes.Summary.{derive_exit_summary}
use linux_deep_clean.Domain.Outcomes.Whole.{
  summary_equal_iff, RunResult, validate_probe_binding, validate_actions, validate_result,
  normalize, new_result, action_ids,
}

module _ (p : Parts) where
  pub record IsRunResult (r : RunResult p) : Type 0 where
    pub terminal : All (IsTerminal {p = p}) r.actions
    pub distinct : Distinct (action_ids p r.actions)
    pub derived : r.summary ≡ derive_exit_summary p r.actions

  -- What the loop over the actions has checked, from the keys that it starts with.
  record Checks (seen : List Bytes) (actions : List (ActionResult p)) : Type 0 where
    terminal : All (IsTerminal {p = p}) actions
    distinct : Distinct (action_ids p actions)
    fresh : (k : Bytes) → has_key k (action_ids p actions) ≡ true → has_key k seen ≡ false

  validate_actions-Checks :
      (run_id : Bytes) (seen : List Bytes) (actions : List (ActionResult p))
      → validate_actions p run_id seen actions ≡ ok tt
      → Checks seen actions
  unfolding validate_actions has_key
  validate_actions-Checks run_id seen [] h = record {
    terminal = tt;
    distinct = tt;
    fresh = λ k e. cc;
  }
  validate_actions-Checks run_id seen (action ∷ rest) h =
      let (_, one, h1) = bind-eq-ok (validate_action_result p action) _ h in
      let (_, _, h2) =
        bind-eq-ok (validate_probe_binding p run_id action.action_id action.probe) _ h1 in
      let (_, new, h3) = bind-eq-ok (require (not (has_key action.action_id seen)) _) _ h2 in
      let is_new = not-eq-true _ (require-eq-ok _ _ new) in
      let c = validate_actions-Checks run_id (action.action_id ∷ seen) rest h3 in
      record {
        terminal = (validate_action_result-IsTerminal p action one, c.terminal);
        distinct = (
          not_again action.action_id seen (action_ids p rest) (c.fresh action.action_id),
          c.distinct,
        );
        fresh = λ k e. elim (Bool-cases (bytes_equal k action.action_id)) [
          | inl same ↦ rw ((bytes_equal_iff k action.action_id).0 same) is_new
          | inr other ↦ ground (arith, c.fresh k)
        ];
      }

  -- In an accepted result every action is a terminal state, no action ID stands twice, and the
  -- summary is the one that is derived from the actions.
  pub validate_result-IsRunResult : (r : RunResult p) → validate_result p r ≡ ok tt → IsRunResult r
  unfolding validate_result
  validate_result-IsRunResult r h =
      let (_, _, h1) = bind-eq-ok (require (r.schema_version == 1) _) _ h in
      let (_, _, h2) = bind-eq-ok (require (succeeds (validate_digest r.plan_digest)) _) _ h1 in
      let (_, _, h3) = bind-eq-ok (require (succeeds (validate_stable_id r.run_id)) _) _ h2 in
      let (_, checked, h4) = bind-eq-ok (validate_actions p r.run_id [] r.actions) _ h3 in
      let c = validate_actions-Checks r.run_id [] r.actions checked in
      record {
        terminal = c.terminal;
        distinct = c.distinct;
        derived =
            (summary_equal_iff r.summary (derive_exit_summary p r.actions)).0
              (require-eq-ok _ _ h4);
      }

  -- Where a result is made, its actions are terminal states with distinct IDs, its summary is the
  -- one derived from them, and they are the actions given with omitted states made explicit.
  pub new_result-IsRunResult :
      (given made : RunResult p)
      → new_result p given ≡ ok made
      → IsRunResult made × (made.actions ≡ normalize p given.actions)
  unfolding new_result
  new_result-IsRunResult given made h =
      let cloned : RunResult p = record given {
        actions = normalize p given.actions;
        summary = derive_exit_summary p (normalize p given.actions);
      } in
      let (_, valid, same) = bind-eq-ok (validate_result p cloned) _ h in
      subst (λ z. IsRunResult z × (z.actions ≡ normalize p given.actions)) (ok-injective same)
        (validate_result-IsRunResult cloned valid, refl)
