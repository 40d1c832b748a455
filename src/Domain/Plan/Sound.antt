-- ===== src/Domain/Plan/Sound.antt =====
-- `validatePlanActions` of internal/domain/plan.go accepts only plans whose actions can be put in an
-- order, reports only real cycles, and always ends.
use linux_deep_clean.Prelude.{
  different, suc, ◌≡◌, ◌≢◌, refl, arith, true, List, [], ◌∷◌, inl, inr, Bytes, length, ok, err,
  bind-eq-ok,
}
use linux_deep_clean.Domain.Plan.{
  Actions, has_key, collect_known, check_every, dependencies_of, ids, visit_actions,
  validate_plan_actions,
}
use linux_deep_clean.Domain.Plan.Visit.{
  PlanError, cycle, out_of_fuel, dependency_unvisited, dependency_visiting, visit,
}
use linux_deep_clean.Domain.Plan.Acyclic.{unvisited_visited, Safe, visit_all-Step, visit-Visits}
use linux_deep_clean.Domain.Plan.Cycle.{
  Reaches, bind-eq-err, visit_all-Reports, visit-Reports, Safe-irreflexive,
}
use linux_deep_clean.Domain.Plan.Fuel.{visit_all-Enough, visit-Enough, unvisited_start}
use linux_deep_clean.Domain.Plan.Known.{
  Distinct, of_visit, collect_known-Collects, check_every-known, collect_known-err, check_every-err,
}

unvisited_visiting : dependency_unvisited ≡ dependency_visiting → ⊥
unvisited_visiting h = cc

module _ (a : Actions) where
  open a use {Action}

  -- The dependency of one action on another, and `Reaches` for a chain of them.
  abbrev pub depends : List Action → Bytes → List Bytes
  depends = dependencies_of a

  pub record IsOrdered (actions : List Action) : Type 0 where
    pub distinct : Distinct (ids a actions)
    pub known :
        (k d : Bytes) → has_key d (depends actions k) ≡ true → has_key d (ids a actions) ≡ true
    pub safe : (k : Bytes) → has_key k (ids a actions) ≡ true → Safe (depends actions) k
    pub no_cycle :
        (k : Bytes) → has_key k (ids a actions) ≡ true → Reaches (depends actions) k k → ⊥

  length-ids : (actions : List Action) → length (ids a actions) ≡ length actions
  length-ids [] = refl
  length-ids (action ∷ rest) = omega (arith, length-ids rest)

  no_key : (k : Bytes) → has_key k [] ≡ true → ⊥
  unfolding has_key
  no_key k h = cc

  known_id :
      (actions : List Action) (known : List Bytes)
      → collect_known a [] actions ≡ ok known
      → check_every a known actions ≡ ok tt
      → (k d : Bytes) → has_key d (depends actions k) ≡ true
      → has_key d (ids a actions) ≡ true
  known_id actions known h k key d m =
      let c = collect_known-Collects a [] actions known h in
      elim (c.only d (check_every-known a known actions k key d m)) [
        | inl e ↦ absurd (no_key d e)
        | inr e ↦ e
      ]

  -- An error of the visit comes from the third loop, once the others have passed.
  record Visited (actions : List Action) (e : PlanError) : Type 0 where
    known : List Bytes
    collected : collect_known a [] actions ≡ ok known
    checked : check_every a known actions ≡ ok tt
    fails : visit_actions a actions ≡ err e

  validate_plan_actions-Visited :
      (actions : List Action) (e : PlanError)
      → of_visit e ≡ true
      → validate_plan_actions a actions ≡ err e
      → Visited actions e
  unfolding validate_plan_actions
  validate_plan_actions-Visited actions e v h =
      elim (bind-eq-err (collect_known a [] actions) _ h) [
        | inl x ↦ absurd (different v (collect_known-err a [] actions e x))
        | inr (known, one, h1) ↦ elim (bind-eq-err (check_every a known actions) _ h1) [
          | inl x ↦ absurd (different v (check_every-err a known actions e x))
          | inr (_, two, h2) ↦ elim (bind-eq-err (visit_actions a actions) _ h2) [
            | inl x ↦ record { known = known; collected = one; checked = two; fails = x }
            | inr (_, _, none_left) ↦ cc
          ]
        ]
      ]

  -- An accepted plan has distinct actions, each depends only on actions of the plan, every
  -- chain of dependencies comes to an end, and no action depends on itself through any chain.
  pub validate_plan_actions-IsOrdered :
      (actions : List Action) → validate_plan_actions a actions ≡ ok tt → IsOrdered actions
  unfolding validate_plan_actions visit_actions
  validate_plan_actions-IsOrdered actions h =
      let (known, one, h1) = bind-eq-ok (collect_known a [] actions) _ h in
      let (_, two, h2) = bind-eq-ok (check_every a known actions) _ h1 in
      let (after, three, _) = bind-eq-ok (visit_actions a actions) _ h2 in
      let (s, every) =
        visit_all-Step (depends actions) (visit (suc (length actions)) (depends actions))
          (visit-Visits (depends actions) (suc (length actions))) (ids a actions)
          (λ id. dependency_unvisited) after three in
      let c = collect_known-Collects a [] actions known one in
      let all_safe = s.sound (λ k e. absurd (unvisited_visited e)) in
      record {
        distinct = c.distinct;
        known = known_id actions known one two;
        safe = λ k m. all_safe k (every k m);
        no_cycle = λ k m r. Safe-irreflexive (all_safe k (every k m)) r;
      }

  -- A cycle that is reported is one: the action named depends on itself through some chain.
  pub validate_plan_actions-cycle :
      (actions : List Action) (x : Bytes)
      → validate_plan_actions a actions ≡ err (cycle x)
      → Reaches (depends actions) x x
  unfolding visit_actions
  validate_plan_actions-cycle actions x h =
      let v = validate_plan_actions-Visited actions (cycle x) refl h in
      visit_all-Reports (depends actions) (visit (suc (length actions)) (depends actions))
        (visit-Visits (depends actions) (suc (length actions)))
        (visit-Reports (depends actions) (suc (length actions))) (ids a actions)
        (λ id. dependency_unvisited) x (λ k m y s. absurd (unvisited_visiting s)) v.fails

  -- The check of a plan always has fuel enough: there are no more nested visits than actions.
  pub validate_plan_actions-ends :
      (actions : List Action) → validate_plan_actions a actions ≢ err out_of_fuel
  unfolding visit_actions
  validate_plan_actions-ends actions h =
      let v = validate_plan_actions-Visited actions out_of_fuel refl h in
      let closed : (k d : Bytes)
          → has_key k (ids a actions) ≡ true
          → has_key d (depends actions k) ≡ true
          → has_key d (ids a actions) ≡ true =
        λ k d m. known_id actions v.known v.collected v.checked k d in
      visit_all-Enough (depends actions) (ids a actions) closed (suc (length actions))
        (visit (suc (length actions)) (depends actions))
        (visit-Visits (depends actions) (suc (length actions)))
        (visit-Enough (depends actions) (ids a actions) closed (suc (length actions)))
        (ids a actions) (λ id. dependency_unvisited) (λ d m. m)
        (omega (arith, unvisited_start (ids a actions), length-ids actions)) v.fails
