-- ===== src/Ledger/Replay/Closing.antt =====
-- The facts that close a recovery of internal/state/recovery_ledger.go, appended one by one.
use mathlib.Core.Path.{subst}
use linux_deep_clean.Prelude.{
  ℕ, suc, ◌+◌, ◌%◌, ◌≤◌, ◌<◌, true, false, ◌≡◌, refl, ◌∙◌, arith, List, [], ◌∷◌, ◌++◌, some, leb,
  ltb, ◌==◌, ==_iff, Bytes, length, ok,
}
use linux_deep_clean.Ledger.Vocabulary.{
  Destination, Transition, validate_event, validate_outcome, validate_metadata, validate_ordinary,
}
use linux_deep_clean.Ledger.Frame.{
  Frame, Recovery, Bindings, closed, maximum_ordinal, is_zero_digest, known_schema, is_intent,
  as_corrupt, validate_facts, validate_stored_metadata, validate_frame, frame_digest, apply_frame,
}
use linux_deep_clean.Ledger.Transition.{validate_transition}
use linux_deep_clean.Ledger.Transition.Lifecycle.{
  Phase, Edge, drop_reservation, fact_of, phase_of-fact_of,
}
use linux_deep_clean.Ledger.Transition.Graph.{phase, closed_by-is_end, Edge-validate_transition}
use linux_deep_clean.Ledger.Replay.{replay_frames, next_frame, append_transition}
use linux_deep_clean.Ledger.Replay.Append.{replay-append}
use linux_deep_clean.Ledger.Replay.Standing.{replay_frames-IsStanding}
use linux_deep_clean.Ledger.Transition.Routes.{Route, arrived, onward, way}
use linux_deep_clean.Ledger.Replay.Digested.{IsDigested, IsChained, history-IsChained}

module _ (b : Bindings) where
  open b use {Binding, same_binding}

  -- Each fact is appended behind the frames before it, and at the end the history replays to a
  -- closed recovery.
  pub Closes : List (Frame Binding) → List Transition → Type 0
  Closes history [] = (r : Recovery Binding) × (replay_frames b history ≡ ok r) × (closed r ≡ true)
  Closes history (t ∷ ts) =
      (f : Frame Binding) × (append_transition b history t ≡ ok f) × Closes (history ++ f ∷ []) ts

  -- The frame for a fact.
  abbrev frame_for : Recovery Binding → Transition → Frame Binding
  frame_for r t = record {
    schema_version = r.schema_version;
    binding = r.binding;
    event = t.event;
    ordinal = (r.ordinal + 1) % 256;
    predecessor = r.digest;
    outcome = t.outcome;
    metadata = t.metadata;
  }

  -- A recovery that more facts can be appended to.
  record IsOpen (history : List (Frame Binding)) (r : Recovery Binding) (d : Destination)
      (p : Phase) (n : ℕ) : Type 0 where
    replayed : replay_frames b history ≡ ok r
    destination_is : d ≡ b.destination r.binding
    phase_is : phase r ≡ some p
    schema : r.schema_version ≡ 2
    room : r.ordinal + n ≤ maximum_ordinal
    self : same_binding r.binding r.binding ≡ true
    digested : IsDigested b r.binding

  fact_of_facts :
      {d : Destination} {p q : Phase} (x : Edge d p q)
      → (as_corrupt (validate_event (fact_of x).event) ≡ ok tt)
        × (is_intent (fact_of x).event ≡ false)
        × (validate_facts (fact_of x).event (fact_of x).outcome (fact_of x).metadata ≡ ok tt)
  unfolding fact_of validate_event as_corrupt is_intent validate_facts validate_outcome
      validate_stored_metadata validate_metadata validate_ordinary
  fact_of_facts drop_reservation = (refl, refl, refl)
  fact_of_facts _ = (refl, refl, refl)

  frame_for-valid :
      {d : Destination} {p q : Phase} (x : Edge d p q) (r : Recovery Binding)
      → b.validate_binding r.binding r.schema_version ≡ ok tt
      → r.schema_version ≡ 2
      → r.ordinal < maximum_ordinal
      → is_zero_digest r.digest ≡ false
      → validate_frame b (frame_for r (fact_of x)) ≡ ok tt
  unfolding validate_frame
  frame_for-valid x r valid schema room chained =
      let (known, no_intent, facts) = fact_of_facts x in
      let next : (r.ordinal + 1) % 256 ≡ r.ordinal + 1 = omega arith in
      let small : leb (r.ordinal + 1) maximum_ordinal ≡ true = ground arith in
      let later : (r.ordinal + 1 == 0) ≡ false = ground arith in
      let version : known_schema r.schema_version ≡ true = rw schema refl in
      rw (version, valid, known, next, small, later, no_intent, chained) facts

  -- What an appended fact leads to.
  record Grows (history : List (Frame Binding)) (r : Recovery Binding) (t : Transition)
      : Type 0 where
    frame : Frame Binding
    recovery : Recovery Binding
    appended : append_transition b history t ≡ ok frame
    replayed : replay_frames b (history ++ frame ∷ []) ≡ ok recovery
    event : recovery.event ≡ t.event
    outcome : recovery.outcome ≡ t.outcome
    schema : recovery.schema_version ≡ r.schema_version
    ordinal : recovery.ordinal ≡ r.ordinal + 1
    binding : recovery.binding ≡ r.binding

  append_transition-frame_for :
      (history : List (Frame Binding)) (r : Recovery Binding) (t : Transition)
      → replay_frames b history ≡ ok r
      → r.schema_version ≡ 2
      → r.ordinal < maximum_ordinal
      → IsChained b history r
      → validate_transition b r t ≡ ok tt
      → validate_frame b (frame_for r t) ≡ ok tt
      → append_transition b history t ≡ ok (frame_for r t)
  unfolding append_transition next_frame
  append_transition-frame_for history r t replayed schema room c accepted valid =
      let version : (r.schema_version == 2) ≡ true = ground (arith, schema) in
      let ordinal = c.ordinal in
      let fits : ltb c.last.ordinal maximum_ordinal ≡ true = ground arith in
      rw (replayed, version, c.last_is, fits, accepted, c.digest, valid) refl

  apply_frame-frame_for :
      (r : Recovery Binding) (t : Transition) (d : Bytes)
      → frame_digest b (frame_for r t) ≡ ok d
      → apply_frame b r (frame_for r t)
        ≡ ok (record r {
          event = t.event;
          ordinal = (r.ordinal + 1) % 256;
          digest = d;
          outcome = t.outcome;
          metadata = t.metadata;
        })
  unfolding apply_frame
  apply_frame-frame_for r t d h = rw ((==_iff r.schema_version r.schema_version).1 refl, h) refl

  fact-Grows :
      {d : Destination} {p q : Phase} {n : ℕ} (history : List (Frame Binding))
      (r : Recovery Binding) (x : Edge (b.destination r.binding) p q)
      → IsOpen history r d p (suc n)
      → Grows history r (fact_of x)
  fact-Grows history r x o =
      let t = fact_of x in
      let stands = replay_frames-IsStanding b history r o.replayed in
      let c = history-IsChained b history r o.replayed o.self o.digested in
      let full = o.room in
      let room : r.ordinal < maximum_ordinal = omega (arith, full) in
      let (accepted, _) = Edge-validate_transition b r stands.valid o.phase_is x in
      let valid = frame_for-valid x r stands.valid o.schema room c.nonzero in
      let (d, digest, _) = o.digested (frame_for r t) o.self valid in
      let appended =
        append_transition-frame_for history r t o.replayed o.schema room c accepted valid in
      record {
        frame = frame_for r t;
        recovery = _;
        appended = appended;
        replayed =
            replay-append b history t (frame_for r t) r _ o.replayed appended o.self
              (apply_frame-frame_for r t d digest);
        event = refl;
        outcome = refl;
        schema = refl;
        ordinal = omega (arith, room);
        binding = refl;
      }

  Route-Closes :
      {d : Destination} {p : Phase} {n : ℕ} (route : Route d p n) (history : List (Frame Binding))
      (r : Recovery Binding)
      → IsOpen history r d p n
      → (ts : List Transition) × (length ts ≡ n) × Closes history ts
  unfolding Closes
  Route-Closes (arrived e) history r o =
      ([], refl, (r, o.replayed, closed_by-is_end r.event r.outcome _ o.phase_is ∙ e))
  Route-Closes {p} (onward {q} {n} x route) history r o =
      let y = subst (λ d. Edge d p q) o.destination_is x in
      let g = fact-Grows history r y o in
      let room = o.room in
      let (ts, size, closes) = Route-Closes route (history ++ g.frame ∷ []) g.recovery (record {
        replayed = g.replayed;
        destination_is = rw g.binding o.destination_is;
        phase_is = rw (g.event, g.outcome) (phase_of-fact_of y);
        schema = g.schema ∙ o.schema;
        room = omega (arith, room, g.ordinal);
        self = rw g.binding o.self;
        digested = rw g.binding o.digested;
      }) in
      (fact_of y ∷ ts, omega (arith, size), (g.frame, g.appended, closes))

  -- Where a history of the current schema replays, at least three ordinals are left, its binding
  -- equals itself, and each valid frame of the binding encodes within its bound with a digest that is
  -- not zero, there are at most three further facts that are appended one behind the other, the
  -- longer history replaying each time, and that leave the recovery closed.
  pub Closes-exists :
      (history : List (Frame Binding)) (r : Recovery Binding)
      → replay_frames b history ≡ ok r
      → r.schema_version ≡ 2
      → r.ordinal + 3 ≤ maximum_ordinal
      → same_binding r.binding r.binding ≡ true
      → IsDigested b r.binding
      → (ts : List Transition) × (length ts ≤ 3) × Closes history ts
  Closes-exists history r replayed schema room self digested =
      let stands = replay_frames-IsStanding b history r replayed in
      let w = way (b.destination r.binding) stands.at in
      let few = w.few in
      let (ts, size, closes) = Route-Closes w.route history r (record {
        replayed = replayed;
        destination_is = refl;
        phase_is = stands.phase_is;
        schema = schema;
        room = omega (arith, room, few);
        self = self;
        digested = digested;
      }) in
      (ts, omega (arith, size, few), closes)
