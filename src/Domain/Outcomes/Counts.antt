-- ===== src/Domain/Outcomes/Counts.antt =====
-- The exit summary of internal/domain/result.go counts what the actions are.
use linux_deep_clean.Prelude.{
  ℕ, ◌+◌, ◌%◌, ◌^◌, ◌<◌, ◌≤◌, ◌≡◌, refl, ◌∙◌, arith, Bool, true, false, ◌&&◌, ◌||◌, List, [], ◌∷◌,
  length, if◌then◌else◌, ◌==◌,
}
use linux_deep_clean.Domain.Outcomes.{
  Outcome, success, skipped, drifted, denied, unsupported, failed, interrupted, indeterminate,
  other_outcome, Reconciliation, reconciliation_of, is_required, is_success, known_outcome, Parts,
  ActionResult,
}
use linux_deep_clean.Domain.Outcomes.Summary.{
  ExitSummary, Tally, count_outcome, note_reconciliation, tally_actions, empty_tally,
  settle_partial, derive_exit_summary,
}

-- The counter of an outcome.
unfoldable pub counter : Outcome → ExitSummary → ℕ
counter success s = s.success_count
counter skipped s = s.skipped_count
counter drifted s = s.drifted_count
counter denied s = s.denied_count
counter unsupported s = s.unsupported_count
counter failed s = s.failed_count
counter interrupted s = s.interrupted_count
counter indeterminate s = s.indeterminate_count
counter (other_outcome _) s = 0

-- A number for each outcome.
unfoldable pub outcome_index : Outcome → ℕ
outcome_index success = 0
outcome_index skipped = 1
outcome_index drifted = 2
outcome_index denied = 3
outcome_index unsupported = 4
outcome_index failed = 5
outcome_index interrupted = 6
outcome_index indeterminate = 7
outcome_index (other_outcome _) = 8

abbrev pub hit : Outcome → Outcome → ℕ
hit o o' = if outcome_index o == outcome_index o' then 1 else 0

-- Neither a success nor skipped.
unfoldable pub is_non_success : Outcome → Bool
is_non_success success = false
is_non_success skipped = false
is_non_success (other_outcome _) = false
is_non_success _ = true

unfoldable pub is_indeterminate : Outcome → Bool
is_indeterminate indeterminate = true
is_indeterminate _ = false

counter-count_outcome :
    (o o' : Outcome) (t : Tally)
    → known_outcome o ≡ true
    → counter o t.summary + 1 < 2 ^ 32
    → counter o (count_outcome o' t).summary ≡ counter o t.summary + hit o o'
unfolding counter count_outcome outcome_index known_outcome
counter-count_outcome o o' t k h = ground arith

counter-note_reconciliation :
    (o : Outcome) (state : Reconciliation) (t : Tally)
    → counter o (note_reconciliation state t).summary ≡ counter o t.summary
unfolding counter
counter-note_reconciliation o state t = ground arith

hit-le : (o o' : Outcome) → hit o o' ≤ 1
hit-le o o' = ground arith

step_success :
    (o : Outcome) (t : Tally) (b : Bool)
    → ((count_outcome o t).any_success || b) ≡ (t.any_success || (is_success o || b))
unfolding count_outcome is_success
step_success o t b = ground arith

step_non_success :
    (o : Outcome) (t : Tally) (b : Bool)
    → ((count_outcome o t).any_non_success || b) ≡ (t.any_non_success || (is_non_success o || b))
unfolding count_outcome is_non_success
step_non_success o t b = ground arith

step_partial :
    (o : Outcome) (t : Tally) (b : Bool)
    → ((count_outcome o t).summary.partial || b) ≡ (t.summary.partial || (is_indeterminate o || b))
unfolding count_outcome is_indeterminate
step_partial o t b = ground arith

step_required :
    (o : Outcome) (state : Reconciliation) (t : Tally) (b : Bool)
    → ((note_reconciliation state (count_outcome o t)).summary.reconciliation_required || b)
      ≡ (t.summary.reconciliation_required || (is_required (reconciliation_of state) || b))
unfolding count_outcome
step_required o state t b = ground arith

step_total : (o : Outcome) (t : Tally) → (count_outcome o t).summary.total ≡ t.summary.total
unfolding count_outcome
step_total o t = ground arith

start_counter : (o : Outcome) (n : ℕ) → counter o (empty_tally n).summary ≡ 0
unfolding counter
start_counter o n = ground arith

counter-settle_partial :
    (o : Outcome) (t : Tally) → counter o (settle_partial t) ≡ counter o t.summary
unfolding counter
counter-settle_partial o t = ground arith

module _ (p : Parts) where
  -- How many actions have the outcome.
  abbrev pub count : Outcome → List (ActionResult p) → ℕ
  count o [] = 0
  count o (action ∷ rest) = hit o action.outcome + count o rest

  -- Whether some action has an outcome, or a state, of a kind.
  abbrev pub any_outcome : (Outcome → Bool) → List (ActionResult p) → Bool
  any_outcome test [] = false
  any_outcome test (action ∷ rest) = test action.outcome || any_outcome test rest

  abbrev pub any_required : List (ActionResult p) → Bool
  any_required [] = false
  any_required (action ∷ rest) =
      is_required (reconciliation_of action.reconciliation) || any_required rest

  tally-counter :
      (o : Outcome) (t : Tally) (actions : List (ActionResult p))
      → known_outcome o ≡ true
      → counter o t.summary + length actions < 2 ^ 32
      → counter o (tally_actions p t actions).summary ≡ counter o t.summary + count o actions
  unfolding tally_actions
  tally-counter o t [] k h = omega arith
  tally-counter o t (action ∷ rest) k h =
      let one = counter-count_outcome o action.outcome t k (omega arith) in
      let next = note_reconciliation action.reconciliation (count_outcome action.outcome t) in
      let same =
        counter-note_reconciliation o action.reconciliation (count_outcome action.outcome t) in
      let more = tally-counter o next rest k (omega (arith, same, one, hit-le o action.outcome)) in
      omega (arith, more, same, one)

  -- The flags of a tally.
  record Flags (t : Tally) (actions : List (ActionResult p)) (u : Tally) : Type 0 where
    any_success : u.any_success ≡ (t.any_success || any_outcome is_success actions)
    any_non_success : u.any_non_success ≡ (t.any_non_success || any_outcome is_non_success actions)
    partial : u.summary.partial ≡ (t.summary.partial || any_outcome is_indeterminate actions)
    required :
        u.summary.reconciliation_required
        ≡ (t.summary.reconciliation_required || any_required actions)
    total : u.summary.total ≡ t.summary.total

  tally-Flags :
      (t : Tally) (actions : List (ActionResult p)) → Flags t actions (tally_actions p t actions)
  unfolding tally_actions
  tally-Flags t [] = record {
    any_success = ground arith;
    any_non_success = ground arith;
    partial = ground arith;
    required = ground arith;
    total = refl;
  }
  tally-Flags t (action ∷ rest) =
      let o = action.outcome in
      let next = note_reconciliation action.reconciliation (count_outcome action.outcome t) in
      let f = tally-Flags next rest in
      record {
        any_success = f.any_success ∙ step_success o t (any_outcome is_success rest);
        any_non_success =
            f.any_non_success ∙ step_non_success o t (any_outcome is_non_success rest);
        partial = f.partial ∙ step_partial o t (any_outcome is_indeterminate rest);
        required =
            f.required ∙ step_required action.outcome action.reconciliation t (any_required rest);
        total = f.total ∙ step_total o t;
      }

  -- What the derived summary says.
  pub record Summarizes (s : ExitSummary) (actions : List (ActionResult p)) : Type 0 where
    pub total : s.total ≡ length actions
    pub counts : (o : Outcome) → known_outcome o ≡ true → counter o s ≡ count o actions
    pub partial : s.partial ≡ (
        any_outcome is_indeterminate actions
        || any_outcome is_success actions && any_outcome is_non_success actions)
    pub required : s.reconciliation_required ≡ any_required actions

  -- For fewer than 2 ^ 32 actions, the summary has their number, the number of each outcome, is
  -- partial exactly when an action is indeterminate or when some succeeded and some neither
  -- succeeded nor were skipped, and requires reconciliation exactly when an action does.
  pub derive_exit_summary-Summarizes :
      (actions : List (ActionResult p))
      → length actions < 2 ^ 32
      → Summarizes (derive_exit_summary p actions) actions
  unfolding derive_exit_summary
  derive_exit_summary-Summarizes actions h =
      let start = empty_tally (length actions % 2 ^ 32) in
      let f = tally-Flags start actions in
      record {
        total = f.total ∙ omega arith;
        counts = λ o k.
            counter-settle_partial o (tally_actions p start actions)
            ∙ tally-counter o start actions k
                (omega (arith, start_counter o (length actions % 2 ^ 32)))
            ∙ omega (arith, start_counter o (length actions % 2 ^ 32));
        partial = ground (arith, f.any_success, f.any_non_success, f.partial);
        required = f.required;
      }
