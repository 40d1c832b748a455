-- ===== src/Domain/Outcomes/Summary.antt =====
-- internal/domain/result.go: `deriveExitSummary`. The counters are uint32 values.
use linux_deep_clean.Prelude.{
  ℕ, ◌+◌, ◌%◌, ◌^◌, Bool, true, false, ◌&&◌, List, [], ◌∷◌, length, if◌then◌else◌,
}
use linux_deep_clean.Domain.Outcomes.{
  Outcome, success, skipped, drifted, denied, unsupported, failed, interrupted, indeterminate,
  other_outcome, Reconciliation, reconciliation_of, is_required, Parts, ActionResult,
}

pub record ExitSummary : Type 0 where
  pub total : ℕ
  pub success_count : ℕ
  pub skipped_count : ℕ
  pub drifted_count : ℕ
  pub denied_count : ℕ
  pub unsupported_count : ℕ
  pub failed_count : ℕ
  pub interrupted_count : ℕ
  pub indeterminate_count : ℕ
  pub partial : Bool
  pub reconciliation_required : Bool

-- The summary so far, with `anySuccess` and `anyNonSuccess`.
pub record Tally : Type 0 where
  pub summary : ExitSummary
  pub any_success : Bool
  pub any_non_success : Bool

abbrev pub settle_partial : Tally → ExitSummary
settle_partial t = record t.summary {
  partial = if t.any_success && t.any_non_success then true else t.summary.partial;
}

-- `count++` of a uint32
abbrev pub bump : ℕ → ℕ
bump n = (n + 1) % 2 ^ 32

-- The `switch action.Outcome`
unfoldable pub count_outcome : Outcome → Tally → Tally
count_outcome success t = record t {
  summary = record t.summary { success_count = bump t.summary.success_count };
  any_success = true;
}
count_outcome skipped t = record t {
  summary = record t.summary { skipped_count = bump t.summary.skipped_count };
}
count_outcome drifted t = record t {
  summary = record t.summary { drifted_count = bump t.summary.drifted_count };
  any_non_success = true;
}
count_outcome denied t = record t {
  summary = record t.summary { denied_count = bump t.summary.denied_count };
  any_non_success = true;
}
count_outcome unsupported t = record t {
  summary = record t.summary { unsupported_count = bump t.summary.unsupported_count };
  any_non_success = true;
}
count_outcome failed t = record t {
  summary = record t.summary { failed_count = bump t.summary.failed_count };
  any_non_success = true;
}
count_outcome interrupted t = record t {
  summary = record t.summary { interrupted_count = bump t.summary.interrupted_count };
  any_non_success = true;
}
count_outcome indeterminate t = record t {
  summary = record t.summary {
    indeterminate_count = bump t.summary.indeterminate_count;
    partial = true;
  };
  any_non_success = true;
}
count_outcome (other_outcome _) t = t

abbrev pub note_reconciliation : Reconciliation → Tally → Tally
note_reconciliation state t = record t {
  summary = record t.summary {
    reconciliation_required =
        if is_required (reconciliation_of state) then true else t.summary.reconciliation_required;
  };
}

abbrev pub empty_tally : ℕ → Tally
empty_tally total = record {
  summary = record {
    total = total;
    success_count = 0;
    skipped_count = 0;
    drifted_count = 0;
    denied_count = 0;
    unsupported_count = 0;
    failed_count = 0;
    interrupted_count = 0;
    indeterminate_count = 0;
    partial = false;
    reconciliation_required = false;
  };
  any_success = false;
  any_non_success = false;
}

module _ (p : Parts) where
  -- The loop over the actions.
  unfoldable pub tally_actions : Tally → List (ActionResult p) → Tally
  unfolding count_outcome reconciliation_of
  tally_actions t [] = t
  tally_actions t (action ∷ rest) =
      tally_actions (note_reconciliation action.reconciliation (count_outcome action.outcome t))
        rest

  -- `deriveExitSummary`
  unfoldable pub derive_exit_summary : List (ActionResult p) → ExitSummary
  derive_exit_summary actions =
      settle_partial (tally_actions (empty_tally (length actions % 2 ^ 32)) actions)
