-- ===== src/Ledger/Service/Publish.antt =====
-- What `Reserve` and `Transition` of internal/state/recovery_ledger.go publish.
use mathlib.Core.Path.{subst}
use linux_deep_clean.Prelude.{
  bytes_equal, ◌<◌, ◌≡◌, refl, sym, ap, ◌∙◌, arith, List, [], ◌∷◌, Option, none, some, length,
  Result, ok, err, bind-eq-ok, ok-injective,
}
use linux_deep_clean.Ledger.Vocabulary.{
  LedgerError, unsupported, intent_reserved, unresolved, unrecorded,
}
use linux_deep_clean.Ledger.Frame.{
  zero_digest, is_intent, Frame, Recovery, Bindings, validate_frame, encode_frame,
  recovery_from_frame,
}
use linux_deep_clean.Ledger.Replay.{replay_next, replay_frames}
use linux_deep_clean.Ledger.Records.{new_record_id}
use linux_deep_clean.Ledger.Sources.{Identities}
use linux_deep_clean.Ledger.Histories.{
  Record, History, maximum_records, wrap_as, require_capacity, replay_ledger_records,
  find_outstanding,
}
use linux_deep_clean.Ledger.Histories.Total.{require_capacity_iff}
use linux_deep_clean.Ledger.Histories.Unique.{Free, Lookup, find_outstanding-Lookup}
use linux_deep_clean.Ledger.Service.{
  Candidate, refuse_found, entry_of, new_intent_frame, reserve_candidate,
}

module _ (b : Bindings) (i : Identities b) where
  open b use {Binding, same_binding}

  -- The record holds the frame, under the identity of the binding.
  pub record Holds (binding : Binding) (f : Frame Binding) (r : Record) : Type 0 where
    pub identity : new_record_id (i.digest binding) (i.token binding) f.ordinal ≡ ok r.id
    pub contents : encode_frame b f ≡ ok r.contents

  wrap_as-eq-ok :
      {E A : Type 0} (e : LedgerError) (r : Result E A) {a : A} → wrap_as e r ≡ ok a → r ≡ ok a
  unfolding wrap_as
  wrap_as-eq-ok e (ok a) h = cc
  wrap_as-eq-ok e (err x) h = cc

  pub entry_of-Holds :
      (e : LedgerError) (binding : Binding) (f : Frame Binding) (r : Record)
      → entry_of b i e binding f ≡ ok r
      → Holds binding f r
  unfolding entry_of
  entry_of-Holds e binding f r h =
      let (id, named, h1) =
        bind-eq-ok (wrap_as e (new_record_id (i.digest binding) (i.token binding) f.ordinal)) _ h in
      let (contents, encoded, same) = bind-eq-ok (encode_frame b f) _ h1 in
      rw (sym (ok-injective same))
        (record { identity = wrap_as-eq-ok e _ named; contents = encoded })

  pub capacity_left :
      (records : List Record) (histories : List (History Binding)) {u : Unit {0}}
      → replay_ledger_records b i records ≡ ok histories
      → require_capacity histories ≡ ok u
      → length records < maximum_records
  capacity_left records histories h room =
      let is = require_capacity_iff b i records histories h in ground arith

  -- What a reservation publishes, over the histories of the records.
  pub record Reserves (records : List Record) (histories : List (History Binding))
      (binding : Binding) (c : Candidate Binding) : Type 0 where
    pub room : length records < maximum_records
    pub free : Free b i (i.root binding) (i.source binding) histories
    pub intent : Frame Binding
    pub bound : intent.binding ≡ binding
    pub replays : replay_frames b (intent ∷ []) ≡ ok c.recovery
    pub holds : Holds binding intent c.entry

  refuse_found-none : {A : Type 0} (o : Option A) {u : Unit {0}} → refuse_found o ≡ ok u → o ≡ none
  refuse_found-none none h = refl
  refuse_found-none (some a) h = cc

  new_intent_frame-replays :
      (binding : Binding) (f : Frame Binding) (r : Recovery Binding)
      → new_intent_frame b i binding ≡ ok f
      → recovery_from_frame b f ≡ ok r
      → (f.binding ≡ binding) × (replay_frames b (f ∷ []) ≡ ok r)
  unfolding new_intent_frame replay_frames replay_next is_intent bytes_equal
  new_intent_frame-replays binding f r h view =
      let made : Frame Binding = record {
        schema_version = 2;
        binding = binding;
        event = intent_reserved;
        ordinal = 0;
        predecessor = zero_digest;
        outcome = unresolved;
        metadata = unrecorded;
      } in
      let (_, valid, same) = bind-eq-ok (validate_frame b made) _ h in
      let is : f ≡ made = sym (ok-injective same) in
      (ap (λ g. g.binding) is, rw is (rw (valid, rw is at view) refl))

  -- Where the retained records replay, a reservation is published only with fewer than 128 records,
  -- when no open recovery has its source; the new frame is of the binding, replays on its own to
  -- the recovery that is answered, and is stored under its identity.
  pub reserve_candidate-Reserves :
      (records : List Record) (histories : List (History Binding)) (binding : Binding)
      (c : Candidate Binding)
      → replay_ledger_records b i records ≡ ok histories
      → reserve_candidate b i binding histories ≡ ok c
      → Reserves records histories binding c
  unfolding reserve_candidate
  reserve_candidate-Reserves records histories binding c replayed h =
      let at = i.root binding in
      let path = i.source binding in
      let (_, room, h1) = bind-eq-ok (require_capacity histories) _ h in
      let (existing, found, h2) = bind-eq-ok (find_outstanding b i histories at path) _ h1 in
      let (_, none_found, h3) = bind-eq-ok (refuse_found existing) _ h2 in
      let (intent, made, h4) = bind-eq-ok (new_intent_frame b i binding) _ h3 in
      let (candidate, view, h5) = bind-eq-ok (recovery_from_frame b intent) _ h4 in
      let (entry, stored, same) = bind-eq-ok (entry_of b i unsupported binding intent) _ h5 in
      let (o, looked, l) = find_outstanding-Lookup b i records histories at path replayed in
      let nothing : o ≡ none =
        ok-injective (sym looked ∙ found) ∙ refuse_found-none existing none_found in
      let (bound, replays) = new_intent_frame-replays binding intent candidate made view in
      rw (sym (ok-injective same)) (record {
        room = capacity_left records histories replayed room;
        free = subst (Lookup b i at path histories) nothing l;
        intent = intent;
        bound = bound;
        replays = replays;
        holds = entry_of-Holds _ binding intent entry stored;
      })
