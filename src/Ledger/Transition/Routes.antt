-- ===== src/Ledger/Transition/Routes.antt =====
-- The shortest ways to a closed phase of internal/state/recovery_ledger.go.
use linux_deep_clean.Prelude.{ℕ, suc, ◌≤◌, true, ◌≡◌, refl, arith}
use linux_deep_clean.Ledger.Vocabulary.{Destination}
use linux_deep_clean.Ledger.Transition.Lifecycle.{
  Phase, reserved, metadata_dispatched, metadata_written, metadata_unknown, move_dispatched, moved,
  move_unknown, restore_dispatched, restore_unknown, untouched, returned, Edge, drop_reservation,
  lose_metadata, drop_metadata, settle_metadata, move, settle_unmoved, dispatch_restore, restore,
  settle_returned,
}
use linux_deep_clean.Ledger.Transition.Graph.{is_end}

-- Edges of the diagram to an end, and how many.
pub data Route (d : Destination) : Phase → ℕ → Type 0 where
  arrived : {p : Phase} → is_end p ≡ true → Route d p 0
  onward : {p q : Phase} {n : ℕ} → Edge d p q → Route d q n → Route d p (suc n)

pub record Way (d : Destination) (p : Phase) : Type 0 where
  pub steps : ℕ
  pub few : steps ≤ 3
  pub route : Route d p steps

back : (d : Destination) → Route d restore_dispatched 1
unfolding is_end
back d = onward restore (arrived refl)

pub way : (d : Destination) (p : Phase) → Way d p
unfolding is_end
way d reserved = record {
  steps = 1;
  few = omega arith;
  route = onward drop_reservation (arrived refl);
}
way d metadata_dispatched = record {
  steps = 2;
  few = omega arith;
  route = onward lose_metadata (onward settle_metadata (arrived refl));
}
way d metadata_written = record {
  steps = 1;
  few = omega arith;
  route = onward drop_metadata (arrived refl);
}
way d metadata_unknown = record {
  steps = 1;
  few = omega arith;
  route = onward settle_metadata (arrived refl);
}
way d move_dispatched = record {
  steps = 3;
  few = omega arith;
  route = onward move (onward dispatch_restore (back d));
}
way d moved = record { steps = 2; few = omega arith; route = onward dispatch_restore (back d) }
way d move_unknown = record {
  steps = 1;
  few = omega arith;
  route = onward settle_unmoved (arrived refl);
}
way d restore_dispatched = record { steps = 1; few = omega arith; route = back d }
way d restore_unknown = record {
  steps = 1;
  few = omega arith;
  route = onward settle_returned (arrived refl);
}
way d untouched = record { steps = 0; few = omega arith; route = arrived refl }
way d returned = record { steps = 0; few = omega arith; route = arrived refl }
