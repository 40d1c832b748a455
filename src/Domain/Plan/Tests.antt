-- ===== src/Domain/Plan/Tests.antt =====
-- Runs of the check of a plan's dependencies.
use linux_deep_clean.Prelude.{
  ◌≡◌, ◌≢◌, refl, true, List, [], ◌∷◌, Bytes, bytes_equal, codes, ok, err,
}
use linux_deep_clean.Domain.Identifiers.{validate_stable_id, stable_bytes, stable_byte}
use linux_deep_clean.Domain.Plan.{
  Actions, has_key, collect_known, check_dependencies, check_every, dependencies_of, visit_actions,
  validate_plan_actions,
}
use linux_deep_clean.Domain.Plan.Visit.{cycle, out_of_fuel, set, visit_all, visit_state, visit}
use linux_deep_clean.Domain.Plan.Cycle.{Reaches}
use linux_deep_clean.Domain.Plan.Sound.{
  IsOrdered, depends, validate_plan_actions-IsOrdered, validate_plan_actions-cycle,
  validate_plan_actions-ends,
}

record Step : Type 0 where
  name : Bytes
  needs : List Bytes

-- Actions that are all valid in themselves.
abbrev steps : Actions
steps = record {
  Action = Step;
  action_id = λ s. s.name;
  dependencies = λ s. s.needs;
  validate_action = λ s. true;
}

abbrev diamond : List Step
diamond =
    record { name = codes "d"; needs = codes "b" ∷ codes "c" ∷ [] }
    ∷ record { name = codes "b"; needs = codes "a" ∷ [] }
    ∷ record { name = codes "c"; needs = codes "a" ∷ [] }
    ∷ record { name = codes "a"; needs = [] }
    ∷ []

abbrev loop : List Step
loop =
    record { name = codes "a"; needs = codes "b" ∷ [] }
    ∷ record { name = codes "b"; needs = codes "c" ∷ [] }
    ∷ record { name = codes "c"; needs = codes "b" ∷ [] }
    ∷ []

diamond_valid : validate_plan_actions steps diamond ≡ ok tt
unfolding validate_plan_actions collect_known check_every check_dependencies has_key bytes_equal
    validate_stable_id stable_bytes stable_byte visit_actions visit_all visit visit_state set
    dependencies_of
diamond_valid = refl

loop_cycle : validate_plan_actions steps loop ≡ err (cycle (codes "b"))
unfolding validate_plan_actions collect_known check_every check_dependencies has_key bytes_equal
    validate_stable_id stable_bytes stable_byte visit_actions visit_all visit visit_state set
    dependencies_of
loop_cycle = refl

validate_plan_actions-IsOrdered_example : IsOrdered steps diamond
validate_plan_actions-IsOrdered_example =
    validate_plan_actions-IsOrdered steps diamond diamond_valid

validate_plan_actions-cycle_example : Reaches (depends steps loop) (codes "b") (codes "b")
validate_plan_actions-cycle_example = validate_plan_actions-cycle steps loop (codes "b") loop_cycle

validate_plan_actions-ends_example : validate_plan_actions steps loop ≢ err out_of_fuel
validate_plan_actions-ends_example = validate_plan_actions-ends steps loop
