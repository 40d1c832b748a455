-- ===== src/Ledger/Replay/Append.antt =====
-- `appendRecoveryTransition` of internal/state/recovery_ledger.go against the replay.
use mathlib.Core.Path.{subst}
use native.Mathlib.Nat.{add-zero}
use linux_deep_clean.Prelude.{
  ℕ, suc, ◌+◌, ◌%◌, ◌<◌, true, ◌&&◌, ◌≡◌, refl, sym, ◌∙◌, arith, List, [], ◌∷◌, ◌++◌, some, ltb,
  leb, ltb→lt, le→leb, le→ltb_false, ◌==◌, ==_iff, bytes_equal_iff, length, length-append, ok, err,
  ◌>>=◌, ◌>>◌, bind-eq-ok, ok-injective, require, require-eq-ok, >>=_congr, >>=_assoc,
  if◌then◌else◌,
}
use linux_deep_clean.Ledger.Vocabulary.{conflict, unsupported, Transition}
use linux_deep_clean.Ledger.Frame.{
  Frame, Recovery, Bindings, maximum_ordinal, is_zero_digest, is_intent, as_corrupt, validate_frame,
  frame_digest, recovery_from_frame, apply_frame,
}
use linux_deep_clean.Ledger.Transition.{validate_transition}
use linux_deep_clean.Ledger.Replay.{
  transition_of, last_frame, replay_step, replay_next, replay_frames, next_frame, append_transition,
}
use linux_deep_clean.Ledger.Replay.Chain.{
  Chain, end, link, last_of, IsHistory, replay_frames-IsHistory,
}

module _ (b : Bindings) where
  open b use {Binding, same_binding}

  replay_next-append :
      (fs gs : List (Frame Binding)) (i : ℕ) (p : Frame Binding) (r : Recovery Binding)
      → replay_next b i p r (fs ++ gs)
        ≡ (replay_next b i p r fs >>= λ q. replay_next b (i + length fs) (last_of b p fs) q gs)
  unfolding replay_next
  replay_next-append [] gs i p r = rw add-zero
  replay_next-append (f ∷ fs) gs i p r =
      let sum : i + suc (length fs) ≡ i + 1 + length fs = omega arith in
      rw sum (
        >>=_congr (replay_step b i p r f) _ _ (λ q. replay_next-append fs gs (i + 1) f q)
        ∙ sym (>>=_assoc (replay_step b i p r f) _ _))

  last_frame-last_of :
      (f : Frame Binding) (fs : List (Frame Binding)) → last_frame (f ∷ fs) ≡ some (last_of b f fs)
  last_frame-last_of f [] = refl
  last_frame-last_of f (g ∷ fs) = last_frame-last_of g fs

  Chain-ordinal :
      {x : Binding} {f : Frame Binding} {fs : List (Frame Binding)}
      → Chain b x f fs
      → (last_of b f fs).ordinal ≡ f.ordinal + length fs
  Chain-ordinal (end f) = omega arith
  Chain-ordinal (link l c) = omega (arith, l.ordinal, Chain-ordinal c)

  -- What a successful append has checked, and the frame that it gives.
  record Appended (r : Recovery Binding) (last : Frame Binding) (t : Transition) (f : Frame Binding)
      : Type 0 where
    room : last.ordinal < maximum_ordinal
    allowed : validate_transition b r t ≡ ok tt
    predecessor : frame_digest b last ≡ ok f.predecessor
    valid : validate_frame b f ≡ ok tt
    transition : transition_of f ≡ t
    schema : f.schema_version ≡ r.schema_version
    binding : f.binding ≡ r.binding
    ordinal : f.ordinal ≡ (r.ordinal + 1) % 256

  next_frame-Appended :
      (r : Recovery Binding) (last : Frame Binding) (t : Transition) (f : Frame Binding)
      → next_frame b r (some last) t ≡ ok f
      → Appended r last t f
  unfolding next_frame
  next_frame-Appended r last t f h =
      let (_, room, h1) = bind-eq-ok (require (ltb last.ordinal maximum_ordinal) _) _ h in
      let (_, allowed, h2) = bind-eq-ok (validate_transition b r t) _ h1 in
      let (d, predecessor, h3) = bind-eq-ok (frame_digest b last) _ h2 in
      let made : Frame Binding = record {
        schema_version = r.schema_version;
        binding = r.binding;
        event = t.event;
        ordinal = (r.ordinal + 1) % 256;
        predecessor = d;
        outcome = t.outcome;
        metadata = t.metadata;
      } in
      let (_, valid, same) = bind-eq-ok (validate_frame b made) _ h3 in
      subst (Appended r last t) (ok-injective same) (record {
        room = ltb→lt _ _ (require-eq-ok _ _ room);
        allowed = allowed;
        predecessor = predecessor;
        valid = valid;
        transition = refl;
        schema = refl;
        binding = refl;
        ordinal = refl;
      })

  replay_step-Appended :
      (r r' : Recovery Binding) (last : Frame Binding) (t : Transition) (f : Frame Binding) (i : ℕ)
      → Appended r last t f
      → r.ordinal ≡ last.ordinal
      → i ≡ last.ordinal + 1
      → same_binding r.binding r.binding ≡ true
      → apply_frame b r f ≡ ok r'
      → replay_step b i last r f ≡ ok r'
  unfolding replay_step as_corrupt
  replay_step-Appended r r' last t f i a at index same applied =
      let room = a.room in
      let same' : same_binding r.binding f.binding ≡ true = rw a.binding same in
      let allowed : validate_transition b r (transition_of f) ≡ ok tt =
        rw a.transition (a.allowed) in
      let ordinal : f.ordinal ≡ i = a.ordinal ∙ omega arith in
      rw
        (
          a.valid,
          (==_iff f.ordinal i).1 ordinal,
          (==_iff f.schema_version r.schema_version).1 a.schema,
          same',
          a.predecessor,
          (bytes_equal_iff f.predecessor f.predecessor).1 refl,
          allowed,
        )
        applied

  pub history_last :
      (history : List (Frame Binding)) (r : Recovery Binding) (h : IsHistory b history r)
      → last_frame history ≡ some (last_of b h.first h.rest)
  history_last history r h = rw (h.splits) (last_frame-last_of h.first h.rest)

  replay_frames-extend :
      (f0 : Frame Binding) (tail : List (Frame Binding)) (f : Frame Binding)
      (r r' : Recovery Binding)
      → replay_frames b (f0 ∷ tail) ≡ ok r
      → length tail < maximum_ordinal
      → replay_step b (1 + length tail) (last_of b f0 tail) r f ≡ ok r'
      → replay_frames b (f0 ∷ (tail ++ f ∷ [])) ≡ ok r'
  unfolding replay_frames replay_next
  replay_frames-extend f0 tail f r r' h room step =
      let (_, bound, h1) =
        bind-eq-ok (require (leb (length (f0 ∷ tail)) (maximum_ordinal + 1)) _) _ h in
      let (_, valid, h2) = bind-eq-ok (validate_frame b f0) _ h1 in
      let (_, ordinal, h3) = bind-eq-ok (require (f0.ordinal == 0) _) _ h2 in
      let (_, intent, h4) =
        bind-eq-ok (require (is_intent f0.event && is_zero_digest f0.predecessor) _) _ h3 in
      let (q, one, more) = bind-eq-ok (recovery_from_frame b f0) _ h4 in
      let fits : leb (length (f0 ∷ (tail ++ f ∷ []))) (maximum_ordinal + 1) ≡ true =
        le→leb _ _ (omega (arith, length-append tail (f ∷ []))) in
      rw (fits, valid, ordinal, intent, one)
        (replay_next-append tail (f ∷ []) 1 f0 q ∙ rw (more, step) refl)

  -- One more fact: where a history replays, its binding equals itself, a fact is appended and the
  -- new frame applies, the longer history replays, to the recovery with that frame applied.
  pub replay-append :
      (history : List (Frame Binding)) (t : Transition) (f : Frame Binding)
      (r r' : Recovery Binding)
      → replay_frames b history ≡ ok r
      → append_transition b history t ≡ ok f
      → same_binding r.binding r.binding ≡ true
      → apply_frame b r f ≡ ok r'
      → replay_frames b (history ++ f ∷ []) ≡ ok r'
  unfolding append_transition
  replay-append history t f r r' replayed appended same applied =
      let (q, again, h1) = bind-eq-ok (replay_frames b history) _ appended in
      let (_, _, h2) = bind-eq-ok (require (q.schema_version == 2) _) _ h1 in
      let is_r : q ≡ r = ok-injective (sym again ∙ replayed) in
      let history_is = replay_frames-IsHistory b history r replayed in
      let tail = history_is.rest in
      let last_is = history_last history r history_is in
      let a =
        next_frame-Appended r (last_of b history_is.first tail) t f (rw (is_r, last_is) at h2) in
      let room = a.room in
      let start = history_is.ordinal in
      let ends = Chain-ordinal history_is.chain in
      let views = history_is.views in
      let step =
        replay_step-Appended r r' (last_of b history_is.first tail) t f (1 + length tail) a
          views.ordinal (omega arith) same applied in
      rw history_is.splits (
        replay_frames-extend history_is.first tail f r r' (rw history_is.splits at replayed)
          (omega arith) step)

  no_room :
      (r : Recovery Binding) (last : Frame Binding) (t : Transition)
      → last.ordinal ≡ maximum_ordinal
      → (require (r.schema_version == 2) unsupported >> next_frame b r (some last) t)
        ≡ (if r.schema_version == 2 then err conflict else err unsupported)
  unfolding next_frame
  no_room r last t h = rw (le→ltb_false last.ordinal maximum_ordinal (omega arith)) (ground arith)

  -- At the last ordinal no further fact is taken, whatever it is, and whether the recovery is
  -- closed or not.
  pub append_full :
      (history : List (Frame Binding)) (t : Transition) (r : Recovery Binding)
      → replay_frames b history ≡ ok r
      → r.ordinal ≡ maximum_ordinal
      → append_transition b history t
        ≡ (if r.schema_version == 2 then err conflict else err unsupported)
  unfolding append_transition
  append_full history t r replayed full =
      let history_is = replay_frames-IsHistory b history r replayed in
      let last_is = history_last history r history_is in
      rw (replayed, last_is)
        (no_room r (last_of b history_is.first history_is.rest) t
          (sym history_is.views.ordinal ∙ full))
