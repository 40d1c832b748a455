-- ===== src/Domain/Plan/Cycle.antt =====
-- A cycle that `visitActionDependencies` of internal/domain/plan.go reports is one.
use mathlib.Core.Path.{subst}
use linux_deep_clean.Prelude.{
  ℕ, zero, suc, ◌≡◌, refl, sym, ◌∙◌, arith, true, List, [], ◌∷◌, Bool-cases, inl, inr, ◌⊎◌, Bytes,
  bytes_equal, bytes_equal_iff, Result, ok, err, ◌>>=◌,
}
use linux_deep_clean.Domain.Plan.{has_key}
use linux_deep_clean.Domain.Plan.Visit.{
  PlanError, cycle, VisitState, dependency_unvisited, dependency_visiting, dependency_visited,
  States, set, visit_all, visit_state, visit,
}
use linux_deep_clean.Domain.Plan.Acyclic.{Safe, safe, Visits, visit-Visits, set_other}

-- One action depends on another, at once or through others.
pub data Reaches (dependencies : Bytes → List Bytes) : Bytes → Bytes → Type 0 where
  edge : {a b : Bytes} → has_key b (dependencies a) ≡ true → Reaches dependencies a b
  further :
      {a b c : Bytes}
      → has_key b (dependencies a) ≡ true
      → Reaches dependencies b c
      → Reaches dependencies a c

pub Reaches-trans :
    {dependencies : Bytes → List Bytes} {a b c : Bytes}
    → Reaches dependencies a b
    → Reaches dependencies b c
    → Reaches dependencies a c
Reaches-trans (edge m) r = further m r
Reaches-trans (further m q) r = further m (Reaches-trans q r)

-- A safe action does not depend on itself, at once or through others.
pub Safe-irreflexive :
    {dependencies : Bytes → List Bytes} {id : Bytes}
    → Safe dependencies id
    → Reaches dependencies id id
    → ⊥
Safe-irreflexive {id = id} (safe f) (edge m) = Safe-irreflexive (f id m) (edge m)
Safe-irreflexive (safe f) (further {b = b} m r) =
    Safe-irreflexive (f b m) (Reaches-trans r (edge m))

pub bind-eq-err :
    {A B : Type 0} (m : Result PlanError A) (f : A → Result PlanError B) {e : PlanError}
    → (m >>= f) ≡ err e
    → (m ≡ err e) ⊎ ((a : A) × (m ≡ ok a) × (f a ≡ err e))
bind-eq-err (ok a) f h = inr (a, refl, h)
bind-eq-err (err e') f h = inl cc

module _ (dependencies : Bytes → List Bytes) where
  -- Every action that is being visited depends on `id`.
  abbrev pub Leads : States → Bytes → Type 0
  Leads st id = (k : Bytes) → st k ≡ dependency_visiting → Reaches dependencies k id

  -- A visit that an action leads to reports real cycles only.
  abbrev pub Reports : (Bytes → States → Result PlanError States) → Type 0
  Reports v =
      (id : Bytes) (st : States) (x : Bytes)
      → Leads st id
      → v id st ≡ err (cycle x)
      → Reaches dependencies x x

  pub visit_all-Reports :
      (v : Bytes → States → Result PlanError States)
      → Visits dependencies v
      → Reports v
      → (keys : List Bytes) (st : States) (x : Bytes)
      → ((k : Bytes) → has_key k keys ≡ true → Leads st k)
      → visit_all v keys st ≡ err (cycle x)
      → Reaches dependencies x x
  unfolding visit_all has_key
  visit_all-Reports v good reports [] st x leads h = cc
  visit_all-Reports v good reports (id ∷ rest) st x leads h = elim (bind-eq-err (v id st) _ h) [
    | inl here ↦ reports id st x (leads id (rw ((bytes_equal_iff id id).1 refl) refl)) here
    | inr (mid, one, more) ↦
        let (s, _) = good id st mid one in
        visit_all-Reports v good reports rest mid x
          (λ k m y e. leads k (ground arith) y (s.no_new y e)) more
  ]

  visit_state-Reports :
      (v : Bytes → States → Result PlanError States)
      → Visits dependencies v
      → Reports v
      → (id : Bytes) (s : VisitState) (st : States) (x : Bytes) → st id ≡ s
      → Leads st id
      → visit_state v (dependencies id) id s st ≡ err (cycle x)
      → Reaches dependencies x x
  unfolding visit_state
  visit_state-Reports v good reports id dependency_visited st x e leads h = cc
  visit_state-Reports v good reports id dependency_visiting st x e leads h =
      let same : id ≡ x = cc in subst (λ z. Reaches dependencies z z) same (leads id e)
  visit_state-Reports v good reports id dependency_unvisited st x e leads h =
      elim (bind-eq-err (visit_all v (dependencies id) (set id dependency_visiting st)) _ h) [
        | inl inner ↦
            visit_all-Reports v good reports (dependencies id) (set id dependency_visiting st) x
              (λ k m y at. elim (Bool-cases (bytes_equal y id)) [
                | inl same ↦
                    subst (λ z. Reaches dependencies z k) (sym ((bytes_equal_iff y id).0 same))
                      (edge m)
                | inr other ↦
                    Reaches-trans (leads y (sym (set_other id dependency_visiting st y other) ∙ at))
                      (edge m)
              ])
              inner
        | inr (mid, one, none_left) ↦ cc
      ]

  pub visit-Reports : (fuel : ℕ) → Reports (visit fuel dependencies)
  unfolding visit
  visit-Reports zero id st x leads h = cc
  visit-Reports (suc fuel) id st x leads h =
      visit_state-Reports (visit fuel dependencies) (visit-Visits dependencies fuel)
        (visit-Reports fuel) id (st id) st x refl leads h
