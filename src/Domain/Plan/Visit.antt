-- ===== src/Domain/Plan/Visit.antt =====
-- internal/domain/plan.go: `visitActionDependencies`, the depth-first visit of an action.
use linux_deep_clean.Prelude.{
  ℕ, zero, suc, List, [], ◌∷◌, if◌then◌else◌, Bytes, bytes_equal, Result, ok, err, ◌>>=◌,
}

-- One constructor for each message, and one for a visit that is nested too deep for the fuel.
pub data PlanError : Type 0 where
  bad_action duplicate_action bad_dependency self_dependency : PlanError
  duplicate_dependency unknown_dependency : PlanError
  cycle : Bytes → PlanError
  out_of_fuel : PlanError

-- `dependencyVisitState`
pub data VisitState : Type 0 where
  dependency_unvisited dependency_visiting dependency_visited : VisitState

-- `map[ActionID]dependencyVisitState`; a missing key is unvisited.
abbrev pub States : Type 0
States = Bytes → VisitState

unfoldable pub set : Bytes → VisitState → States → States
set id s states = λ key. if bytes_equal key id then s else states key

-- The loop over IDs. `visit` visits one.
unfoldable pub visit_all :
    (Bytes → States → Result PlanError States) → List Bytes → States → Result PlanError States
visit_all visit [] states = ok states
visit_all visit (id ∷ rest) states = do after ← visit id states; visit_all visit rest after

-- The `switch states[id]`, and the visit of an unvisited action.
unfoldable pub visit_state :
    (Bytes → States → Result PlanError States)
    → List Bytes
    → Bytes
    → VisitState
    → States
    → Result PlanError States
visit_state visit dependencies id dependency_visited states = ok states
visit_state visit dependencies id dependency_visiting states = err (cycle id)
visit_state visit dependencies id dependency_unvisited states = do
  after ← visit_all visit dependencies (set id dependency_visiting states)
  ok (set id dependency_visited after)

-- `visitActionDependencies`, on fuel
unfoldable pub visit : ℕ → (Bytes → List Bytes) → Bytes → States → Result PlanError States
visit zero dependencies id states = err out_of_fuel
visit (suc fuel) dependencies id states =
    visit_state (visit fuel dependencies) (dependencies id) id (states id) states
