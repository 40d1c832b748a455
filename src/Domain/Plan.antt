-- ===== src/Domain/Plan.antt =====
-- internal/domain/plan.go: the actions of a plan, their dependencies, and the search for a cycle.
-- What `Action.Validate` checks of one action is a field of the interface, beside the two members
-- of an action that a plan reads.
pub mod Visit
pub mod Acyclic
pub mod Cycle
pub mod Fuel
pub mod Known
pub mod Sound
mod Tests
use linux_deep_clean.Prelude.{
  ℕ, zero, suc, ◌+◌, Bool, true, false, not, ◌||◌, List, [], ◌∷◌, if◌then◌else◌, Bytes, bytes_equal,
  length, Result, ok, err, ◌>>=◌, ◌>>◌, require,
}
use linux_deep_clean.Domain.Identifiers.{validate_stable_id}
use linux_deep_clean.Domain.Plan.Visit.{
  PlanError, bad_action, duplicate_action, bad_dependency, self_dependency, duplicate_dependency,
  unknown_dependency, States, dependency_unvisited, visit_all, visit,
}

pub record Actions : Type 1 where
  pub Action : Type 0
  pub action_id : Action → Bytes
  pub dependencies : Action → List Bytes
  pub validate_action : Action → Bool

-- A map with values of no interest, as the list of its keys.
unfoldable pub has_key : Bytes → List Bytes → Bool
has_key key [] = false
has_key key (k ∷ keys) = bytes_equal key k || has_key key keys

abbrev pub is_ok : {E A : Type 0} → Result E A → Bool
is_ok (ok a) = true
is_ok (err e) = false

module _ (a : Actions) where
  open a use {Action, action_id, dependencies, validate_action}

  -- The first loop: the IDs that are known.
  unfoldable pub collect_known : List Bytes → List Action → Result PlanError (List Bytes)
  collect_known known [] = ok known
  collect_known known (action ∷ rest) = do
    require (validate_action action) bad_action
    require (not (has_key (action_id action) known)) duplicate_action
    collect_known (action_id action ∷ known) rest

  -- The inner loop of the second one.
  unfoldable pub check_dependencies :
      Bytes → List Bytes → List Bytes → List Bytes → Result PlanError (Unit {0})
  check_dependencies id known seen [] = ok tt
  check_dependencies id known seen (dependency ∷ rest) = do
    require (is_ok (validate_stable_id dependency)) bad_dependency
    require (not (bytes_equal dependency id)) self_dependency
    require (not (has_key dependency seen)) duplicate_dependency
    require (has_key dependency known) unknown_dependency
    check_dependencies id known (dependency ∷ seen) rest

  unfoldable pub check_every : List Bytes → List Action → Result PlanError (Unit {0})
  check_every known [] = ok tt
  check_every known (action ∷ rest) = do
    check_dependencies (action_id action) known [] (dependencies action)
    check_every known rest

  -- The map `dependencies`; a missing key has no dependency.
  unfoldable pub dependencies_of : List Action → Bytes → List Bytes
  dependencies_of [] id = []
  dependencies_of (action ∷ rest) id =
      if bytes_equal id (action_id action) then dependencies action else dependencies_of rest id

  abbrev pub ids : List Action → List Bytes
  ids [] = []
  ids (action ∷ rest) = action_id action ∷ ids rest

  -- The third loop, from no states. There are no more nested visits than actions, and one.
  unfoldable pub visit_actions : List Action → Result PlanError States
  visit_actions actions =
      visit_all (visit (suc (length actions)) (dependencies_of actions)) (ids actions)
        (λ id. dependency_unvisited)

  -- `validatePlanActions`
  unfoldable pub validate_plan_actions : List Action → Result PlanError (Unit {0})
  validate_plan_actions actions = do
    known ← collect_known [] actions
    check_every known actions
    visit_actions actions
    ok tt
