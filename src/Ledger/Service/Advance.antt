-- ===== src/Ledger/Service/Advance.antt =====
-- What `Transition` of internal/state/recovery_ledger.go publishes.
use mathlib.Core.Path.{subst}
use linux_deep_clean.Prelude.{
  ℕ, ◌<◌, ◌≡◌, refl, sym, ap, true, Bool-cases, inl, inr, List, [], ◌∷◌, ◌++◌, All, bytes_equal,
  bytes_equal_iff, and-eq-true, ◌==◌, ==_iff, length, ok, bind-eq-ok, ok-injective, require,
  require-eq-ok,
}
use linux_deep_clean.Ledger.Vocabulary.{corrupt, Transition}
use linux_deep_clean.Ledger.Frame.{Frame, Recovery, Bindings, frame_digest, apply_frame}
use linux_deep_clean.Ledger.Replay.{replay_frames, append_transition}
use linux_deep_clean.Ledger.Replay.Standing.{replay_frames-IsStanding}
use linux_deep_clean.Ledger.Replay.Append.{replay-append}
use linux_deep_clean.Ledger.Sources.{Identities}
use linux_deep_clean.Ledger.Histories.{
  Record, History, Group, maximum_records, key_equal, key_of, sort, frame_before, require_capacity,
  replay_groups, replay_ledger_records, find_history,
}
use linux_deep_clean.Ledger.Histories.Total.{replay_ledger_records-Replayed}
use linux_deep_clean.Ledger.Service.{Candidate, entry_of, transition_candidate}
use linux_deep_clean.Ledger.Service.Publish.{Holds, entry_of-Holds, capacity_left}

module _ (b : Bindings) (i : Identities b) where
  open b use {Binding, validate_binding, same_binding}

  -- The recovery of a history is that of its frames.
  abbrev pub IsReplayed : History Binding → Type 0
  IsReplayed h = replay_frames b h.frames ≡ ok h.recovery

  replay_groups-IsReplayed :
      (groups : List (Group Binding)) (histories : List (History Binding))
      → replay_groups b i groups ≡ ok histories
      → All IsReplayed histories
  unfolding replay_groups
  replay_groups-IsReplayed [] histories h = subst (All IsReplayed) (ok-injective h) tt
  replay_groups-IsReplayed (g ∷ groups) histories h =
      let (recovery, one, h1) = bind-eq-ok (replay_frames b (sort frame_before g.frames)) _ h in
      let (rest, more, same) = bind-eq-ok (replay_groups b i groups) _ h1 in
      subst (All IsReplayed) (ok-injective same) (one, replay_groups-IsReplayed groups rest more)

  find_history-key :
      (P : History Binding → Type 0) (histories : List (History Binding))
      (recovery : Recovery Binding) (h : History Binding)
      → All P histories
      → find_history b i histories recovery ≡ ok h
      → P h × (key_of b i h.recovery.binding ≡ key_of b i recovery.binding)
  unfolding find_history key_equal
  find_history-key P [] recovery h _ e = cc
  find_history-key P (g ∷ histories) recovery h (p, ps) e =
      elim (Bool-cases (key_equal (key_of b i g.recovery.binding) (key_of b i recovery.binding))) [
        | inl k ↦
            let is : g ≡ h = ok-injective (rw k at e) in
            let (digests, tokens) =
              and-eq-true (bytes_equal (i.digest g.recovery.binding) (i.digest recovery.binding)) _
                k in
            let one =
              (bytes_equal_iff (i.digest g.recovery.binding) (i.digest recovery.binding)).0
                digests in
            let two =
              (bytes_equal_iff (i.token g.recovery.binding) (i.token recovery.binding)).0 tokens in
            (subst P is p, rw (sym is) (rw (one, two) refl))
        | inr k ↦ find_history-key P histories recovery h ps (rw k at e)
      ]

  apply_frame-binding :
      (r r' : Recovery Binding) (f : Frame Binding)
      → apply_frame b r f ≡ ok r'
      → r'.binding ≡ r.binding
  unfolding apply_frame
  apply_frame-binding r r' f h =
      let (_, _, h1) = bind-eq-ok (require (r.schema_version == f.schema_version) _) _ h in
      let (d, _, same) = bind-eq-ok (frame_digest b f) _ h1 in
      ap (λ q. q.binding) (sym (ok-injective same))

  -- What a transition publishes, over the histories of the records.
  pub record Advances (records : List Record) (recovery : Recovery Binding) (t : Transition)
      (c : Candidate Binding) : Type 0 where
    pub room : length records < maximum_records
    pub history : History Binding
    pub replayed : replay_frames b history.frames ≡ ok history.recovery
    pub identity : key_of b i history.recovery.binding ≡ key_of b i recovery.binding
    pub current : history.recovery.schema_version ≡ 2
    pub next : Frame Binding
    pub appended : append_transition b history.frames t ≡ ok next
    pub replays : replay_frames b (history.frames ++ next ∷ []) ≡ ok c.recovery
    pub holds : Holds b i history.recovery.binding next c.entry

  -- Where the retained records replay and each valid binding is the same as itself, a transition is
  -- published only with fewer than 128 records. It extends the retained history that has the digest
  -- and the token of the caller's recovery, of the current schema, by the frame for the fact; the
  -- longer history replays to the recovery that is answered, and the frame is stored under its
  -- identity.
  pub transition_candidate-Advances :
      (records : List Record) (histories : List (History Binding)) (recovery : Recovery Binding)
      (t : Transition) (c : Candidate Binding)
      → ((x : Binding) (version : ℕ) → validate_binding x version ≡ ok tt → same_binding x x ≡ true)
      → replay_ledger_records b i records ≡ ok histories
      → transition_candidate b i recovery t histories ≡ ok c
      → Advances records recovery t c
  unfolding transition_candidate
  transition_candidate-Advances records histories recovery t c self replayed h =
      let (history, found, h1) = bind-eq-ok (find_history b i histories recovery) _ h in
      let (_, schema, h2) = bind-eq-ok (require (history.recovery.schema_version == 2) _) _ h1 in
      let (_, room, h3) = bind-eq-ok (require_capacity histories) _ h2 in
      let (next, appended, h4) = bind-eq-ok (append_transition b history.frames t) _ h3 in
      let (candidate, applied, h5) = bind-eq-ok (apply_frame b history.recovery next) _ h4 in
      let (entry, stored, same) = bind-eq-ok (entry_of b i corrupt candidate.binding next) _ h5 in
      let records_are = replay_ledger_records-Replayed b i records histories replayed in
      let each = replay_groups-IsReplayed _ histories records_are.replayed in
      let (one, identity) = find_history-key IsReplayed histories recovery history each found in
      let bound = apply_frame-binding history.recovery candidate next applied in
      rw (sym (ok-injective same)) (record {
        room = capacity_left b i records histories replayed room;
        history = history;
        replayed = one;
        identity = identity;
        current = (==_iff _ _).0 (require-eq-ok _ _ schema);
        next = next;
        appended = appended;
        replays =
            replay-append b history.frames t next history.recovery candidate one appended
              (self history.recovery.binding _
                ((replay_frames-IsStanding b history.frames history.recovery one).valid))
              applied;
        holds = entry_of-Holds b i _ history.recovery.binding next entry (rw bound at stored);
      })
