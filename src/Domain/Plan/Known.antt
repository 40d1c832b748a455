-- ===== src/Domain/Plan/Known.antt =====
-- The first two loops of `validatePlanActions` of internal/domain/plan.go: distinct actions, whose
-- dependencies are actions of the plan.
use linux_deep_clean.Prelude.{
  ◌≡◌, refl, arith, Bool, true, false, not, List, [], ◌∷◌, Bool-cases, inl, inr, ◌⊎◌, Bytes,
  bytes_equal, bytes_equal_iff, ok, err, bind-eq-ok, ok-injective, require, require-eq-ok,
  not-eq-true,
}
use linux_deep_clean.Domain.Identifiers.{validate_stable_id}
use linux_deep_clean.Domain.Plan.{
  Actions, has_key, is_ok, collect_known, check_dependencies, check_every, dependencies_of, ids,
}
use linux_deep_clean.Domain.Plan.Visit.{PlanError, cycle, out_of_fuel, bad_action, duplicate_action}
use linux_deep_clean.Domain.Plan.Cycle.{bind-eq-err}

-- No key stands twice.
abbrev pub Distinct : List Bytes → Type 0
Distinct [] = Unit {0}
Distinct (k ∷ keys) = (has_key k keys ≡ false) × Distinct keys

-- An error of the visit.
abbrev pub of_visit : PlanError → Bool
of_visit (cycle x) = true
of_visit out_of_fuel = true
of_visit _ = false

require-of_visit :
    (b : Bool) (e e' : PlanError) → of_visit e ≡ false → require b e ≡ err e' → of_visit e' ≡ false
require-of_visit true e e' k h = cc
require-of_visit false e e' k h = cc

pub not_again :
    (k : Bytes) (known keys : List Bytes)
    → (has_key k keys ≡ true → has_key k (k ∷ known) ≡ false)
    → has_key k keys ≡ false
unfolding has_key
not_again k known keys h = ground (arith, h, (bytes_equal_iff k k).1 refl)

module _ (a : Actions) where
  open a use {Action, action_id, dependencies, validate_action}

  -- What the first loop has found, from the keys that it starts with.
  pub record Collects (known : List Bytes) (actions : List Action) (after : List Bytes)
      : Type 0 where
    pub distinct : Distinct (ids a actions)
    pub fresh : (k : Bytes) → has_key k (ids a actions) ≡ true → has_key k known ≡ false
    pub only :
        (k : Bytes)
        → has_key k after ≡ true
        → (has_key k known ≡ true) ⊎ (has_key k (ids a actions) ≡ true)

  pub collect_known-Collects :
      (known : List Bytes) (actions : List Action) (after : List Bytes)
      → collect_known a known actions ≡ ok after
      → Collects known actions after
  unfolding collect_known has_key
  collect_known-Collects known [] after h = record {
    distinct = tt;
    fresh = λ k e. cc;
    only = λ k e. inl (rw (ok-injective h) e);
  }
  collect_known-Collects known (action ∷ rest) after h =
      let (_, _, h1) = bind-eq-ok (require (validate_action action) _) _ h in
      let (_, new, h2) = bind-eq-ok (require (not (has_key (action_id action) known)) _) _ h1 in
      let is_new = not-eq-true _ (require-eq-ok _ _ new) in
      let c = collect_known-Collects (action_id action ∷ known) rest after h2 in
      record {
        distinct = (
          not_again (action_id action) known (ids a rest) (c.fresh (action_id action)),
          c.distinct,
        );
        fresh = λ k e. elim (Bool-cases (bytes_equal k (action_id action))) [
          | inl same ↦ rw ((bytes_equal_iff k (action_id action)).0 same) is_new
          | inr other ↦ ground (arith, c.fresh k)
        ];
        only = λ k e. elim (c.only k e) [
          | inl m ↦ elim (Bool-cases (bytes_equal k (action_id action))) [
            | inl same ↦ inr (ground arith)
            | inr other ↦ inl (ground arith)
          ]
          | inr m ↦ inr (ground arith)
        ];
      }

  check_dependencies-known :
      (id : Bytes) (known seen deps : List Bytes)
      → check_dependencies a id known seen deps ≡ ok tt
      → (d : Bytes) → has_key d deps ≡ true
      → has_key d known ≡ true
  unfolding check_dependencies has_key
  check_dependencies-known id known seen [] h d m = cc
  check_dependencies-known id known seen (x ∷ deps) h d m =
      let (_, _, h1) = bind-eq-ok (require (is_ok (validate_stable_id x)) _) _ h in
      let (_, _, h2) = bind-eq-ok (require (not (bytes_equal x id)) _) _ h1 in
      let (_, _, h3) = bind-eq-ok (require (not (has_key x seen)) _) _ h2 in
      let (_, here, h4) = bind-eq-ok (require (has_key x known) _) _ h3 in
      elim (Bool-cases (bytes_equal d x)) [
        | inl same ↦ rw ((bytes_equal_iff d x).0 same) (require-eq-ok _ _ here)
        | inr other ↦ check_dependencies-known id known (x ∷ seen) deps h4 d (ground arith)
      ]

  pub check_every-known :
      (known : List Bytes) (actions : List Action)
      → check_every a known actions ≡ ok tt
      → (k d : Bytes) → has_key d (dependencies_of a actions k) ≡ true
      → has_key d known ≡ true
  unfolding check_every dependencies_of has_key
  check_every-known known [] h k d m = cc
  check_every-known known (action ∷ rest) h k d m =
      let (_, one, more) =
        bind-eq-ok (check_dependencies a (action_id action) known [] (dependencies action)) _ h in
      elim (Bool-cases (bytes_equal k (action_id action))) [
        | inl same ↦
            check_dependencies-known (action_id action) known [] (dependencies action) one d
              (rw same at m)
        | inr other ↦ check_every-known known rest more k d (rw other at m)
      ]

  pub collect_known-err :
      (known : List Bytes) (actions : List Action) (e : PlanError)
      → collect_known a known actions ≡ err e
      → of_visit e ≡ false
  unfolding collect_known
  collect_known-err known [] e h = cc
  collect_known-err known (action ∷ rest) e h =
      elim (bind-eq-err (require (validate_action action) bad_action) _ h) [
        | inl e1 ↦ require-of_visit _ bad_action e refl e1
        | inr (_, _, h1) ↦
            elim (bind-eq-err (require (not (has_key (action_id action) known)) duplicate_action) _
              h1) [
                | inl e2 ↦ require-of_visit _ duplicate_action e refl e2
                | inr (_, _, h2) ↦ collect_known-err (action_id action ∷ known) rest e h2
              ]
      ]

  check_dependencies-err :
      (id : Bytes) (known seen deps : List Bytes) (e : PlanError)
      → check_dependencies a id known seen deps ≡ err e
      → of_visit e ≡ false
  unfolding check_dependencies
  check_dependencies-err id known seen [] e h = cc
  check_dependencies-err id known seen (x ∷ deps) e h =
      let more = check_dependencies-err id known (x ∷ seen) deps e in ground arith

  pub check_every-err :
      (known : List Bytes) (actions : List Action) (e : PlanError)
      → check_every a known actions ≡ err e
      → of_visit e ≡ false
  unfolding check_every
  check_every-err known [] e h = cc
  check_every-err known (action ∷ rest) e h =
      elim (bind-eq-err (check_dependencies a (action_id action) known [] (dependencies action)) _
        h) [
          | inl e1 ↦ check_dependencies-err (action_id action) known [] (dependencies action) e e1
          | inr (_, _, more) ↦ check_every-err known rest e more
        ]
