-- ===== src/Ledger/Replay/Standing.antt =====
-- Where a recovery stands that `replayRecoveryFrames` of internal/state/recovery_ledger.go gives.
use linux_deep_clean.Prelude.{◌≡◌, refl, ap, ◌∙◌, List, some, ok, bind-eq-ok, require}
use linux_deep_clean.Ledger.Frame.{Frame, Recovery, Bindings, validate_frame, known_schema}
use linux_deep_clean.Ledger.Transition.Lifecycle.{Phase, reserved, phase_of}
use linux_deep_clean.Ledger.Transition.Graph.{phase}
use linux_deep_clean.Ledger.Replay.{replay_frames}
use linux_deep_clean.Ledger.Replay.Chain.{Chain, end, link, last_of, replay_frames-IsHistory}

module _ (b : Bindings) where
  open b use {Binding, validate_binding}

  validate_frame-binding :
      (f : Frame Binding)
      → validate_frame b f ≡ ok tt
      → validate_binding f.binding f.schema_version ≡ ok tt
  unfolding validate_frame
  validate_frame-binding f h =
      let (_, _, h1) = bind-eq-ok (require (known_schema f.schema_version) _) _ h in
      let (u, valid, _) = bind-eq-ok (validate_binding f.binding f.schema_version) _ h1 in valid

  Chain-schema :
      {x : Binding} {f : Frame Binding} {fs : List (Frame Binding)}
      → Chain b x f fs
      → (last_of b f fs).schema_version ≡ f.schema_version
  Chain-schema (end f) = refl
  Chain-schema (link l c) = Chain-schema c ∙ l.schema

  -- A frame names a phase.
  abbrev HasPhase : Frame Binding → Type 0
  HasPhase f = (p : Phase) × (phase_of f.event f.outcome ≡ some p)

  Chain-HasPhase :
      {x : Binding} {f : Frame Binding} {fs : List (Frame Binding)}
      → Chain b x f fs
      → HasPhase f
      → HasPhase (last_of b f fs)
  Chain-HasPhase (end f) h = h
  Chain-HasPhase (link l c) h = Chain-HasPhase c (l.moves.to, l.moves.to_is)

  pub record IsStanding (r : Recovery Binding) : Type 0 where
    pub valid : validate_binding r.binding r.schema_version ≡ ok tt
    pub at : Phase
    pub phase_is : phase r ≡ some at

  pub replay_frames-IsStanding :
      (frames : List (Frame Binding)) (r : Recovery Binding)
      → replay_frames b frames ≡ ok r
      → IsStanding r
  unfolding phase_of
  replay_frames-IsStanding frames r h =
      let is = replay_frames-IsHistory b frames r h in
      let schema = is.views.schema ∙ Chain-schema is.chain in
      let (p, at) =
        Chain-HasPhase is.chain (reserved, ap (λ e. phase_of e is.first.outcome) is.intent) in
      record {
        valid = rw (is.binding, schema) (validate_frame-binding is.first is.valid);
        at = p;
        phase_is = rw (is.views.event, is.views.outcome) at;
      }
