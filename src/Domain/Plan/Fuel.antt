-- ===== src/Domain/Plan/Fuel.antt =====
-- `visitActionDependencies` of internal/domain/plan.go nests no deeper than there are actions.
use linux_deep_clean.Prelude.{
  ℕ, zero, suc, ◌+◌, ◌≤◌, ◌<◌, ◌≡◌, ◌≢◌, refl, arith, true, List, [], ◌∷◌, Bool-cases, inl, inr,
  Bytes, bytes_equal, bytes_equal_iff, length, Result, err,
}
use linux_deep_clean.Domain.Plan.{has_key}
use linux_deep_clean.Domain.Plan.Visit.{
  PlanError, out_of_fuel, VisitState, dependency_unvisited, dependency_visiting, dependency_visited,
  States, set, visit_all, visit_state, visit,
}
use linux_deep_clean.Domain.Plan.Acyclic.{Visits, visit-Visits, set_same}
use linux_deep_clean.Domain.Plan.Cycle.{bind-eq-err}

weight : VisitState → ℕ
weight dependency_unvisited = 1
weight dependency_visiting = 0
weight dependency_visited = 0

-- How many of the keys are unvisited.
pub unvisited : States → List Bytes → ℕ
unvisited st [] = 0
unvisited st (k ∷ keys) = weight (st k) + unvisited st keys

weight_mono :
    (a b : VisitState) → (a ≡ dependency_unvisited → b ≡ dependency_unvisited) → weight a ≤ weight b
unfolding weight
weight_mono dependency_unvisited b h = rw (h refl) (omega arith)
weight_mono dependency_visiting b h = omega arith
weight_mono dependency_visited b h = omega arith

unvisited_mono :
    (keys : List Bytes) (after before : States)
    → ((k : Bytes) → after k ≡ dependency_unvisited → before k ≡ dependency_unvisited)
    → unvisited after keys ≤ unvisited before keys
unfolding unvisited
unvisited_mono [] after before h = omega arith
unvisited_mono (k ∷ keys) after before h =
    omega (arith, weight_mono (after k) (before k) (h k), unvisited_mono keys after before h)

mark_mono :
    (id : Bytes) (st : States) (k : Bytes)
    → set id dependency_visiting st k ≡ dependency_unvisited
    → st k ≡ dependency_unvisited
unfolding set
mark_mono id st k h = ground arith

-- An unvisited key that is marked is one less.
unvisited-set :
    (keys : List Bytes) (id : Bytes) (st : States)
    → has_key id keys ≡ true
    → st id ≡ dependency_unvisited
    → unvisited (set id dependency_visiting st) keys < unvisited st keys
unfolding unvisited has_key weight
unvisited-set [] id st m h = cc
unvisited-set (k ∷ keys) id st m h = elim (Bool-cases (bytes_equal id k)) [
  | inl same ↦
      let at : id ≡ k = (bytes_equal_iff id k).0 same in
      let rest = unvisited_mono keys (set id dependency_visiting st) st (mark_mono id st) in
      let marked : set id dependency_visiting st k ≡ dependency_visiting =
        rw (← at) (set_same id dependency_visiting st) in
      let was : st k ≡ dependency_unvisited = rw (← at) h in rw (marked, was) (omega (arith, rest))
  | inr other ↦
      let rest = unvisited-set keys id st (ground arith) h in
      let head = weight_mono (set id dependency_visiting st k) (st k) (mark_mono id st k) in
      omega (arith, rest, head)
]

module _ (dependencies : Bytes → List Bytes) (keys : List Bytes)
    (closed : (k d : Bytes)
      → has_key k keys ≡ true
      → has_key d (dependencies k) ≡ true
      → has_key d keys ≡ true) where
  -- With fuel for the unvisited keys, and one, a visit of a key has enough.
  abbrev pub Enough : ℕ → (Bytes → States → Result PlanError States) → Type 0
  Enough fuel v =
      (id : Bytes) (st : States)
      → has_key id keys ≡ true
      → unvisited st keys < fuel
      → v id st ≢ err out_of_fuel

  pub visit_all-Enough :
      (fuel : ℕ) (v : Bytes → States → Result PlanError States)
      → Visits dependencies v
      → Enough fuel v
      → (ids : List Bytes) (st : States)
      → ((d : Bytes) → has_key d ids ≡ true → has_key d keys ≡ true)
      → unvisited st keys < fuel
      → visit_all v ids st ≢ err out_of_fuel
  unfolding visit_all has_key
  visit_all-Enough fuel v good enough [] st inside below h = cc
  visit_all-Enough fuel v good enough (id ∷ rest) st inside below h =
      elim (bind-eq-err (v id st) _ h) [
        | inl here ↦ enough id st (inside id (rw ((bytes_equal_iff id id).1 refl) refl)) below here
        | inr (mid, one, more) ↦
            let (s, _) = good id st mid one in
            visit_all-Enough fuel v good enough rest mid (λ d m. inside d (ground arith))
              (omega (arith, unvisited_mono keys mid st s.no_reset)) more
      ]

  visit_state-Enough :
      (fuel : ℕ) (v : Bytes → States → Result PlanError States)
      → Visits dependencies v
      → Enough fuel v
      → (id : Bytes) (s : VisitState) (st : States) → st id ≡ s
      → has_key id keys ≡ true
      → unvisited st keys < suc fuel
      → visit_state v (dependencies id) id s st ≢ err out_of_fuel
  unfolding visit_state
  visit_state-Enough fuel v good enough id dependency_visited st e m below h = cc
  visit_state-Enough fuel v good enough id dependency_visiting st e m below h = cc
  visit_state-Enough fuel v good enough id dependency_unvisited st e m below h =
      elim (bind-eq-err (visit_all v (dependencies id) (set id dependency_visiting st)) _ h) [
        | inl inner ↦
            visit_all-Enough fuel v good enough (dependencies id) (set id dependency_visiting st)
              (λ d k. closed id d m k) (omega (arith, unvisited-set keys id st m e)) inner
        | inr (mid, one, none_left) ↦ cc
      ]

  pub visit-Enough : (fuel : ℕ) → Enough fuel (visit fuel dependencies)
  unfolding visit
  visit-Enough zero id st m below h = absurd (omega (arith, below))
  visit-Enough (suc fuel) id st m below h =
      visit_state-Enough fuel (visit fuel dependencies) (visit-Visits dependencies fuel)
        (visit-Enough fuel) id (st id) st refl m below h

pub unvisited_start : (keys : List Bytes) → unvisited (λ k. dependency_unvisited) keys ≡ length keys
unfolding unvisited weight
unvisited_start [] = refl
unvisited_start (k ∷ keys) = omega (arith, unvisited_start keys)
