-- ===== src/Ledger/Replay/Order.antt =====
-- The order of facts in a history that `replayRecoveryFrames` of internal/state/recovery_ledger.go
-- accepts.
use mathlib.Core.Path.{subst₂}
use linux_deep_clean.Prelude.{
  ◌≡◌, refl, sym, ap, ◌∙◌, arith, List, [], ◌∷◌, ◌++◌, length, length-append, some, ok,
}
use linux_deep_clean.Ledger.Vocabulary.{
  Destination, trash, Event, metadata_verified, move_dispatch_recorded, restore_dispatch_recorded,
  Outcome,
}
use linux_deep_clean.Ledger.Frame.{Frame, Recovery, Bindings}
use linux_deep_clean.Ledger.Transition.Lifecycle.{
  Phase, metadata_written, move_dispatched, moved, restore_dispatched, phase_of, Edge,
  dispatch_quarantine, dispatch_move, dispatch_restore,
}
use linux_deep_clean.Ledger.Replay.{replay_frames}
use linux_deep_clean.Ledger.Replay.Chain.{Link, Chain, end, link, replay_frames-IsHistory}

metadata_phase :
    (e : Event) (o : Outcome) → phase_of e o ≡ some metadata_written → e ≡ metadata_verified
unfolding phase_of
metadata_phase e o h = ground arith

move_phase :
    (e : Event) (o : Outcome) (p : Phase)
    → e ≡ move_dispatch_recorded
    → phase_of e o ≡ some p
    → p ≡ move_dispatched
unfolding phase_of
move_phase e o p k h = ground arith

restore_phase :
    (e : Event) (o : Outcome) (p : Phase)
    → e ≡ restore_dispatch_recorded
    → phase_of e o ≡ some p
    → p ≡ restore_dispatched
unfolding phase_of
restore_phase e o p k h = ground arith

into_move_dispatched :
    {d : Destination} {p q : Phase}
    → Edge d p q
    → q ≡ move_dispatched
    → d ≡ trash
    → p ≡ metadata_written
into_move_dispatched (dispatch_quarantine k) h t = cc
into_move_dispatched dispatch_move h t = refl
into_move_dispatched _ h t = cc

into_restore_dispatched :
    {d : Destination} {p q : Phase} → Edge d p q → q ≡ restore_dispatched → p ≡ moved
into_restore_dispatched dispatch_restore h = refl
into_restore_dispatched _ h = cc

cons-injective {ℓ} : {A : Type ℓ} {x y : A} {xs ys : List A} → x ∷ xs ≡ y ∷ ys → (x ≡ y) × (xs ≡ ys)
cons-injective h = (cc, cc)

module _ (b : Bindings) where
  open b use {Binding, destination}

  Chain-adjacent :
      (before : List (Frame Binding)) {x : Binding} (f g : Frame Binding)
      (after : List (Frame Binding)) {f0 : Frame Binding} {rest : List (Frame Binding)}
      → Chain b x f0 rest
      → f0 ∷ rest ≡ before ++ f ∷ g ∷ after
      → Link b x f g
  Chain-adjacent [] f g after (end f0) e = absurd (omega (arith, ap length e))
  Chain-adjacent [] {x = x} f g after (link l c) e =
      let (same_first, rest_same) = cons-injective e in
      let (same_second, _) = cons-injective rest_same in subst₂ (Link b x) same_first same_second l
  Chain-adjacent (h ∷ before) f g after (end f0) e =
      absurd (omega (arith, ap length e, length-append before (f ∷ g ∷ after)))
  Chain-adjacent (h ∷ before) f g after (link l c) e =
      Chain-adjacent before f g after c (cons-injective e).1

  module _ (frames before : List (Frame Binding)) (f g : Frame Binding)
      (after : List (Frame Binding)) (r : Recovery Binding)
      (replayed : replay_frames b frames ≡ ok r) (split : frames ≡ before ++ f ∷ g ∷ after) where
    -- Two frames that stand behind one another in a replayed history follow an edge of the diagram
    -- for the destination of the recovery, and the second holds the digest of the first.
    pub replay-Link : Link b r.binding f g
    replay-Link =
        let h = replay_frames-IsHistory b frames r replayed in
        rw (h.binding) (Chain-adjacent before f g after h.chain (sym (h.splits) ∙ split))

    -- In a Trash history the dispatch of the move is recorded directly behind the fact that the
    -- metadata is verified.
    pub metadata_before_move :
        destination r.binding ≡ trash
        → g.event ≡ move_dispatch_recorded
        → f.event ≡ metadata_verified
    metadata_before_move to_trash moves =
        let m = replay-Link.moves in
        let into : m.to ≡ move_dispatched = move_phase g.event g.outcome m.to moves m.to_is in
        metadata_phase f.event f.outcome
          (m.from_is ∙ ap some (into_move_dispatched m.edge into to_trash))

    -- The dispatch of a restore is recorded directly behind a fact that the content was moved.
    pub move_before_restore :
        g.event ≡ restore_dispatch_recorded → phase_of f.event f.outcome ≡ some moved
    move_before_restore restores =
        let m = replay-Link.moves in
        let into : m.to ≡ restore_dispatched =
          restore_phase g.event g.outcome m.to restores m.to_is in
        m.from_is ∙ ap some (into_restore_dispatched m.edge into)
