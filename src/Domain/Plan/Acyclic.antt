-- ===== src/Domain/Plan/Acyclic.antt =====
-- What a visit of `visitActionDependencies` of internal/domain/plan.go that succeeds has established.
use mathlib.Core.Path.{subst}
use linux_deep_clean.Prelude.{
  ℕ, zero, suc, ◌≡◌, refl, sym, ◌∙◌, arith, true, false, List, [], ◌∷◌, Bool-cases, inl, inr, Bytes,
  bytes_equal, bytes_equal_iff, Result, ok, bind-eq-ok, ok-injective,
}
use linux_deep_clean.Domain.Plan.{has_key}
use linux_deep_clean.Domain.Plan.Visit.{
  PlanError, VisitState, dependency_unvisited, dependency_visiting, dependency_visited, States, set,
  visit_all, visit_state, visit,
}

-- Every chain of dependencies from the action comes to an end.
pub data Safe (dependencies : Bytes → List Bytes) : Bytes → Type 0 where
  safe :
      {id : Bytes}
      → ((d : Bytes) → has_key d (dependencies id) ≡ true → Safe dependencies d)
      → Safe dependencies id

pub set_same : (id : Bytes) (s : VisitState) (st : States) → set id s st id ≡ s
unfolding set
set_same id s st = rw ((bytes_equal_iff id id).1 refl) refl

pub set_other :
    (id : Bytes) (s : VisitState) (st : States) (k : Bytes)
    → bytes_equal k id ≡ false
    → set id s st k ≡ st k
unfolding set
set_other id s st k h = rw h refl

pub unvisited_visited : dependency_unvisited ≡ dependency_visited → ⊥
unvisited_visited h = cc

visited_visiting : dependency_visited ≡ dependency_visiting → ⊥
visited_visiting h = cc

module _ (dependencies : Bytes → List Bytes) where
  -- Every visited action is safe.
  abbrev pub Sound : States → Type 0
  Sound st = (k : Bytes) → st k ≡ dependency_visited → Safe dependencies k

  -- From the states before to the states after a visit.
  pub record Step (before after : States) : Type 0 where
    pub keeps : (k : Bytes) → before k ≡ dependency_visited → after k ≡ dependency_visited
    pub sound : Sound before → Sound after
    pub no_new : (k : Bytes) → after k ≡ dependency_visiting → before k ≡ dependency_visiting
    pub no_reset : (k : Bytes) → after k ≡ dependency_unvisited → before k ≡ dependency_unvisited

  pub Step-refl : (st : States) → Step st st
  Step-refl st = record { keeps = λ k h. h; sound = λ h. h; no_new = λ k h. h; no_reset = λ k h. h }

  pub Step-trans : (a b c : States) → Step a b → Step b c → Step a c
  Step-trans a b c s t = record {
    keeps = λ k h. t.keeps k (s.keeps k h);
    sound = λ h. t.sound (s.sound h);
    no_new = λ k h. s.no_new k (t.no_new k h);
    no_reset = λ k h. s.no_reset k (t.no_reset k h);
  }

  -- A visit that succeeds makes a step and leaves its action visited.
  abbrev pub Visits : (Bytes → States → Result PlanError States) → Type 0
  Visits v =
      (id : Bytes) (st after : States)
      → v id st ≡ ok after
      → Step st after × (after id ≡ dependency_visited)

  -- Each key is visited.
  abbrev pub Every : List Bytes → States → Type 0
  Every keys st = (k : Bytes) → has_key k keys ≡ true → st k ≡ dependency_visited

  pub visit_all-Step :
      (v : Bytes → States → Result PlanError States)
      → Visits v
      → (keys : List Bytes) (st after : States) → visit_all v keys st ≡ ok after
      → Step st after × Every keys after
  unfolding visit_all has_key
  visit_all-Step v good [] st after h =
      (subst (Step st) (ok-injective h) (Step-refl st), (λ k e. cc))
  visit_all-Step v good (id ∷ rest) st after h =
      let (mid, one, more) = bind-eq-ok (v id st) _ h in
      let (s, done) = good id st mid one in
      let (t, every) = visit_all-Step v good rest mid after more in
      (
        Step-trans st mid after s t,
        (λ k e. elim (Bool-cases (bytes_equal k id)) [
          | inl same ↦
              subst (λ z. after z ≡ dependency_visited) (sym ((bytes_equal_iff k id).0 same))
                (t.keeps id done)
          | inr other ↦ every k (ground arith)
        ]),
      )

  -- Around the visit of the dependencies of an unvisited action.
  module _ (id : Bytes) (st mid : States) (new : st id ≡ dependency_unvisited)
      (s : Step (set id dependency_visiting st) mid) (every : Every (dependencies id) mid) where
    at_id :
        (k : Bytes) → bytes_equal k id ≡ true → set id dependency_visited mid k ≡ dependency_visited
    unfolding set
    at_id k same = rw same refl

    was_visited :
        (k : Bytes)
        → st k ≡ dependency_visited
        → set id dependency_visiting st k ≡ dependency_visited
    was_visited k h = elim (Bool-cases (bytes_equal k id)) [
      | inl same ↦
          let at : st id ≡ dependency_visited =
            subst (λ z. st z ≡ dependency_visited) ((bytes_equal_iff k id).0 same) h in
          absurd (unvisited_visited (sym new ∙ at))
      | inr other ↦ set_other id dependency_visiting st k other ∙ h
    ]

    visited_before :
        (k : Bytes)
        → set id dependency_visiting st k ≡ dependency_visited
        → st k ≡ dependency_visited
    unfolding set
    visited_before k h = ground arith

    visiting_before :
        (k : Bytes)
        → bytes_equal k id ≡ false
        → set id dependency_visiting st k ≡ dependency_visiting
        → st k ≡ dependency_visiting
    visiting_before k other h = sym (set_other id dependency_visiting st k other) ∙ h

    unvisited_before :
        (k : Bytes)
        → bytes_equal k id ≡ false
        → set id dependency_visiting st k ≡ dependency_unvisited
        → st k ≡ dependency_unvisited
    unvisited_before k other h = sym (set_other id dependency_visiting st k other) ∙ h

    around-Step : Step st (set id dependency_visited mid)
    around-Step = record {
      keeps = λ k h. elim (Bool-cases (bytes_equal k id)) [
        | inl same ↦ at_id k same
        | inr other ↦ set_other id dependency_visited mid k other ∙ s.keeps k (was_visited k h)
      ];
      sound = λ h.
          let inner : Sound mid = s.sound (λ k e. h k (visited_before k e)) in
          (λ k e. elim (Bool-cases (bytes_equal k id)) [
            | inl same ↦
                subst (λ z. Safe dependencies z) (sym ((bytes_equal_iff k id).0 same))
                  (safe (λ d m. inner d (every d m)))
            | inr other ↦ inner k (sym (set_other id dependency_visited mid k other) ∙ e)
          ]);
      no_new = λ k h. elim (Bool-cases (bytes_equal k id)) [
        | inl same ↦ absurd (visited_visiting (sym (at_id k same) ∙ h))
        | inr other ↦
            visiting_before k other
              (s.no_new k (sym (set_other id dependency_visited mid k other) ∙ h))
      ];
      no_reset = λ k h. elim (Bool-cases (bytes_equal k id)) [
        | inl same ↦ absurd (unvisited_visited (sym h ∙ at_id k same))
        | inr other ↦
            unvisited_before k other
              (s.no_reset k (sym (set_other id dependency_visited mid k other) ∙ h))
      ];
    }

  visit_state-Step :
      (v : Bytes → States → Result PlanError States)
      → Visits v
      → (id : Bytes) (s : VisitState) (st after : States) → st id ≡ s
      → visit_state v (dependencies id) id s st ≡ ok after
      → Step st after × (after id ≡ dependency_visited)
  unfolding visit_state
  visit_state-Step v good id dependency_visited st after e h =
      subst (λ z. Step st z × (z id ≡ dependency_visited)) (ok-injective h) (Step-refl st, e)
  visit_state-Step v good id dependency_visiting st after e h = cc
  visit_state-Step v good id dependency_unvisited st after e h =
      let (mid, inner, same) =
        bind-eq-ok (visit_all v (dependencies id) (set id dependency_visiting st)) _ h in
      let (s, every) =
        visit_all-Step v good (dependencies id) (set id dependency_visiting st) mid inner in
      subst (λ z. Step st z × (z id ≡ dependency_visited)) (ok-injective same)
        (around-Step id st mid e s every, set_same id dependency_visited mid)

  pub visit-Visits : (fuel : ℕ) → Visits (visit fuel dependencies)
  unfolding visit
  visit-Visits zero id st after h = cc
  visit-Visits (suc fuel) id st after h =
      visit_state-Step (visit fuel dependencies) (visit-Visits fuel) id (st id) st after refl h
