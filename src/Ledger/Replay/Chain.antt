-- ===== src/Ledger/Replay/Chain.antt =====
-- What a history is that `replayRecoveryFrames` of internal/state/recovery_ledger.go accepts.
use mathlib.Core.Path.{subst}
use linux_deep_clean.Prelude.{
  ℕ, ◌+◌, ◌≤◌, true, ◌&&◌, ◌≡◌, refl, sym, ap, ◌∙◌, arith, List, [], ◌∷◌, leb, ◌==◌, ==_iff, leb→le,
  bytes_equal, bytes_equal_iff, length, Result, ok, err, bind-eq-ok, ok-injective, and-eq-true,
  require, require-eq-ok,
}
use linux_deep_clean.Ledger.Vocabulary.{LedgerError, Event, intent_reserved}
use linux_deep_clean.Ledger.Frame.{
  Frame, Recovery, Bindings, maximum_ordinal, is_zero_digest, is_intent, as_corrupt, validate_frame,
  frame_digest, recovery_from_frame, apply_frame,
}
use linux_deep_clean.Ledger.Transition.{validate_transition}
use linux_deep_clean.Ledger.Transition.Lifecycle.{phase_of, Moves}
use linux_deep_clean.Ledger.Transition.Graph.{validate_transition-Moves}
use linux_deep_clean.Ledger.Replay.{transition_of, replay_step, replay_next, replay_frames}

as_corrupt-eq-ok :
    (r : Result LedgerError (Unit {0})) {u : Unit {0}} → as_corrupt r ≡ ok u → r ≡ ok tt
unfolding as_corrupt
as_corrupt-eq-ok (ok u) h = refl
as_corrupt-eq-ok (err e) h = cc

is_intent-eq : (e : Event) → is_intent e ≡ true → e ≡ intent_reserved
unfolding is_intent
is_intent-eq e h = ground arith

module _ (b : Bindings) where
  open b use {Binding, same_binding, destination}

  -- The recovery is what the frame says, at the binding of the reservation.
  pub record Views (r : Recovery Binding) (f : Frame Binding) : Type 0 where
    pub event : r.event ≡ f.event
    pub outcome : r.outcome ≡ f.outcome
    pub metadata : r.metadata ≡ f.metadata
    pub ordinal : r.ordinal ≡ f.ordinal
    pub schema : r.schema_version ≡ f.schema_version
    pub digest : frame_digest b f ≡ ok r.digest

  -- `g` may stand behind `f` in a history reserved for the binding `x`.
  pub record Link (x : Binding) (f g : Frame Binding) : Type 0 where
    pub valid : validate_frame b g ≡ ok tt
    pub binding : same_binding x g.binding ≡ true
    pub schema : g.schema_version ≡ f.schema_version
    pub ordinal : g.ordinal ≡ f.ordinal + 1
    pub predecessor : frame_digest b f ≡ ok g.predecessor
    pub moves : Moves (destination x) (phase_of f.event f.outcome) (phase_of g.event g.outcome)

  recovery_from_frame-Views :
      (f : Frame Binding) (r : Recovery Binding)
      → recovery_from_frame b f ≡ ok r
      → Views r f × (r.binding ≡ f.binding)
  unfolding recovery_from_frame
  recovery_from_frame-Views f r h =
      let (d, digest, same) = bind-eq-ok (frame_digest b f) _ h in
      subst (λ x. Views x f × (x.binding ≡ f.binding)) (ok-injective same)
        (
          record {
            event = refl;
            outcome = refl;
            metadata = refl;
            ordinal = refl;
            schema = refl;
            digest = digest;
          },
          refl,
        )

  apply_frame-Views :
      (r : Recovery Binding) (f : Frame Binding) (r' : Recovery Binding)
      → apply_frame b r f ≡ ok r'
      → Views r' f × (r'.binding ≡ r.binding)
  unfolding apply_frame
  apply_frame-Views r f r' h =
      let (_, schema, h1) = bind-eq-ok (require (r.schema_version == f.schema_version) _) _ h in
      let (d, digest, same) = bind-eq-ok (frame_digest b f) _ h1 in
      subst (λ x. Views x f × (x.binding ≡ r.binding)) (ok-injective same)
        (
          record {
            event = refl;
            outcome = refl;
            metadata = refl;
            ordinal = refl;
            schema = (==_iff _ _).0 (require-eq-ok _ _ schema);
            digest = digest;
          },
          refl,
        )

  replay_step-Link :
      (i : ℕ) (f g : Frame Binding) (r r' : Recovery Binding)
      → Views r f
      → i ≡ f.ordinal + 1
      → replay_step b i f r g ≡ ok r'
      → Link r.binding f g × Views r' g × (r'.binding ≡ r.binding)
  unfolding replay_step
  replay_step-Link i f g r r' v at h =
      let (_, valid, h1) = bind-eq-ok (validate_frame b g) _ h in
      let (_, ordinal, h2) = bind-eq-ok (require (g.ordinal == i) _) _ h1 in
      let (_, schema, h3) = bind-eq-ok (require (g.schema_version == r.schema_version) _) _ h2 in
      let (_, binding, h4) = bind-eq-ok (require (same_binding r.binding g.binding) _) _ h3 in
      let (d, digest, h5) = bind-eq-ok (frame_digest b f) _ h4 in
      let (_, linked, h6) = bind-eq-ok (require (bytes_equal g.predecessor d) _) _ h5 in
      let (_, follows, h7) =
        bind-eq-ok (as_corrupt (validate_transition b r (transition_of g))) _ h6 in
      let steps = validate_transition-Moves b r (transition_of g) (as_corrupt-eq-ok _ follows) in
      let (seen, kept) = apply_frame-Views r g r' h7 in
      (
        record {
          valid = valid;
          binding = require-eq-ok _ _ binding;
          schema = (==_iff _ _).0 (require-eq-ok _ _ schema) ∙ v.schema;
          ordinal = (==_iff _ _).0 (require-eq-ok _ _ ordinal) ∙ at;
          predecessor = digest ∙ ap ok (sym ((bytes_equal_iff _ _).0 (require-eq-ok _ _ linked)));
          moves = rw (← v.event, ← v.outcome) steps;
        },
        seen,
        kept,
      )

  -- A history behind its first frame: each frame is linked to the one before it.
  pub data Chain (x : Binding) : Frame Binding → List (Frame Binding) → Type 0 where
    end : (f : Frame Binding) → Chain x f []
    link :
        {f g : Frame Binding} {rest : List (Frame Binding)}
        → Link x f g
        → Chain x g rest
        → Chain x f (g ∷ rest)

  -- The frame that stands last behind `f`.
  abbrev pub last_of : Frame Binding → List (Frame Binding) → Frame Binding
  last_of f [] = f
  last_of f (g ∷ rest) = last_of g rest

  replay_next-Chain :
      (rest : List (Frame Binding)) (i : ℕ) (f : Frame Binding) (r r' : Recovery Binding)
      → Views r f
      → i ≡ f.ordinal + 1
      → replay_next b i f r rest ≡ ok r'
      → Chain r.binding f rest × Views r' (last_of f rest) × (r'.binding ≡ r.binding)
  unfolding replay_next
  replay_next-Chain [] i f r r' v at h =
      (end f, subst (λ x. Views x f) (ok-injective h) v, ap (λ x. x.binding) (sym (ok-injective h)))
  replay_next-Chain (g ∷ rest) i f r r' v at h =
      let (q, one, more) = bind-eq-ok (replay_step b i f r g) _ h in
      let (linked, seen, kept) = replay_step-Link i f g r q v at one in
      let (chain, last, same) =
        replay_next-Chain rest (i + 1) g q r' seen (omega (arith, at, linked.ordinal)) more in
      (link linked (rw kept at chain), last, same ∙ kept)

  -- What a replayed history is: a canonical reservation, and behind it a chain of linked frames.
  pub record IsHistory (frames : List (Frame Binding)) (r : Recovery Binding) : Type 0 where
    pub first : Frame Binding
    pub rest : List (Frame Binding)
    pub splits : frames ≡ first ∷ rest
    pub bounded : length frames ≤ maximum_ordinal + 1
    pub valid : validate_frame b first ≡ ok tt
    pub intent : first.event ≡ intent_reserved
    pub ordinal : first.ordinal ≡ 0
    pub unlinked : is_zero_digest first.predecessor ≡ true
    pub chain : Chain first.binding first rest
    pub binding : r.binding ≡ first.binding
    pub views : Views r (last_of first rest)

  -- Every history that replays is such a chain, and the recovery is what its last frame says.
  pub replay_frames-IsHistory :
      (frames : List (Frame Binding)) (r : Recovery Binding)
      → replay_frames b frames ≡ ok r
      → IsHistory frames r
  unfolding replay_frames
  replay_frames-IsHistory [] r h = cc
  replay_frames-IsHistory (f ∷ rest) r h =
      let (_, bound, h1) =
        bind-eq-ok (require (leb (length (f ∷ rest)) (maximum_ordinal + 1)) _) _ h in
      let (_, valid, h2) = bind-eq-ok (validate_frame b f) _ h1 in
      let (_, ordinal, h3) = bind-eq-ok (require (f.ordinal == 0) _) _ h2 in
      let (_, intent, h4) =
        bind-eq-ok (require (is_intent f.event && is_zero_digest f.predecessor) _) _ h3 in
      let (q, one, more) = bind-eq-ok (recovery_from_frame b f) _ h4 in
      let (is_first, zero_link) = and-eq-true _ _ (require-eq-ok _ _ intent) in
      let at = (==_iff _ _).0 (require-eq-ok _ _ ordinal) in
      let (seen, kept) = recovery_from_frame-Views f q one in
      let (chain, last, same) = replay_next-Chain rest 1 f q r seen (omega (arith, at)) more in
      record {
        first = f;
        rest = rest;
        splits = refl;
        bounded = leb→le _ _ (require-eq-ok _ _ bound);
        valid = valid;
        intent = is_intent-eq f.event is_first;
        ordinal = at;
        unlinked = zero_link;
        chain = rw kept at chain;
        binding = same ∙ kept;
        views = last;
      }
