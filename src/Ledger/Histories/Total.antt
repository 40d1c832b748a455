-- ===== src/Ledger/Histories/Total.antt =====
-- `replayRecoveryLedgerRecords` of internal/state/recovery_ledger.go keeps every frame.
use mathlib.Core.Path.{subst}
use linux_deep_clean.Prelude.{
  bytes_equal, ◌&&◌, ◌==◌, ℕ, ◌+◌, ◌≤◌, ◌<◌, ◌≡◌, if◌then◌else◌, refl, sym, ◌∙◌, arith, Bool, not,
  Bool-cases, inl, inr, List, [], ◌∷◌, leb, ltb, leb→le, length, length-append, ok, err, bind-eq-ok,
  ok-injective, require, require-eq-ok,
}
use linux_deep_clean.Ledger.Vocabulary.{conflict}
use linux_deep_clean.Ledger.Frame.{Frame, Bindings}
use linux_deep_clean.Ledger.Replay.{replay_frames}
use linux_deep_clean.Ledger.Records.{new_record_id}
use linux_deep_clean.Ledger.Sources.{Identities, decode_frame}
use linux_deep_clean.Ledger.Histories.{
  Record, Key, History, Group, maximum_records, key_equal, has_ordinal, add_frame, insert, sort,
  frame_before, group_before, wrap_as, require_capacity_from, require_capacity, group_record,
  group_records, replay_groups, ensure_unique_from, replay_ledger_records,
}

-- The frames kept, over all groups.
abbrev pub grouped : {B : Type 0} → List (Group B) → ℕ
grouped [] = 0
grouped (g ∷ groups) = length g.frames + grouped groups

-- The frames of all histories.
abbrev pub total : {B : Type 0} → List (History B) → ℕ
total [] = 0
total (h ∷ histories) = length h.frames + total histories

pub insert-length :
    {A : Type 0} (before : A → A → Bool) (x : A) (xs : List A)
    → length (insert before x xs) ≡ 1 + length xs
unfolding insert
insert-length before x [] = refl
insert-length before x (y ∷ ys) = ground (arith, insert-length before x ys)

pub sort-length :
    {A : Type 0} (before : A → A → Bool) (xs : List A) → length (sort before xs) ≡ length xs
unfolding sort
sort-length before [] = refl
sort-length before (x ∷ xs) =
    insert-length before x (sort before xs) ∙ omega (arith, sort-length before xs)

module _ {B : Type 0} where
  insert-grouped :
      (g : Group B) (gs : List (Group B))
      → grouped (insert group_before g gs) ≡ length g.frames + grouped gs
  unfolding insert
  insert-grouped g [] = refl
  insert-grouped g (h ∷ gs) = ground (arith, insert-grouped g gs)

  sort-grouped : (gs : List (Group B)) → grouped (sort group_before gs) ≡ grouped gs
  unfolding sort
  sort-grouped [] = refl
  sort-grouped (g ∷ gs) = insert-grouped g (sort group_before gs) ∙ omega (arith, sort-grouped gs)

  add_frame-grouped :
      (key : Key) (f : Frame B) (groups after : List (Group B))
      → add_frame key f groups ≡ ok after
      → grouped after ≡ 1 + grouped groups
  unfolding add_frame
  add_frame-grouped key f [] after h = rw (sym (ok-injective h)) refl
  add_frame-grouped key f (g ∷ groups) after h = elim (Bool-cases (key_equal key g.key)) [
    | inl e ↦
        let (_, _, same) =
          bind-eq-ok (require (not (has_ordinal f.ordinal g.frames)) _) _ (rw e at h) in
        rw (sym (ok-injective same)) (omega (arith, length-append g.frames (f ∷ [])))
    | inr e ↦
        let (more, added, same) = bind-eq-ok (add_frame key f groups) _ (rw e at h) in
        rw (sym (ok-injective same)) (omega (arith, add_frame-grouped key f groups more added))
  ]

  -- The capacity is left exactly where the frames are fewer than the bound.
  require_capacity_from-total :
      (count : ℕ) (histories : List (History B))
      → count < maximum_records
      → require_capacity_from count histories
        ≡ (if ltb (count + total histories) maximum_records then ok tt else err conflict)
  unfolding require_capacity_from
  require_capacity_from-total count [] h = ground arith
  require_capacity_from-total count (x ∷ histories) h =
      ground (arith, require_capacity_from-total (count + length x.frames) histories)

module _ (b : Bindings) (i : Identities b) where
  open b use {Binding}

  group_record-grouped :
      (r : Record) (groups after : List (Group Binding))
      → group_record b i r groups ≡ ok after
      → grouped after ≡ 1 + grouped groups
  unfolding group_record
  group_record-grouped r groups after h =
      let (id, _, h1) =
        bind-eq-ok (wrap_as _ (new_record_id r.id.digest r.id.token r.id.ordinal)) _ h in
      let (frame, _, h2) = bind-eq-ok (decode_frame b i r.contents) _ h1 in
      let (_, _, added) =
        bind-eq-ok
          (require
            (bytes_equal (i.digest frame.binding) id.digest
              && bytes_equal (i.token frame.binding) id.token
              && frame.ordinal == id.ordinal)
            _)
          _ h2 in
      add_frame-grouped _ frame groups after added

  group_records-grouped :
      (groups : List (Group Binding)) (records : List Record) (after : List (Group Binding))
      → group_records b i groups records ≡ ok after
      → grouped after ≡ length records + grouped groups
  unfolding group_records
  group_records-grouped groups [] after h = rw (ok-injective h) (omega arith)
  group_records-grouped groups (r ∷ records) after h =
      let (more, one, h1) = bind-eq-ok (group_record b i r groups) _ h in
      group_records-grouped more records after h1
      ∙ omega (arith, group_record-grouped r groups more one)

  replay_groups-total :
      (groups : List (Group Binding)) (histories : List (History Binding))
      → replay_groups b i groups ≡ ok histories
      → total histories ≡ grouped groups
  unfolding replay_groups
  replay_groups-total [] histories h = rw (sym (ok-injective h)) refl
  replay_groups-total (g ∷ groups) histories h =
      let (recovery, _, h1) = bind-eq-ok (replay_frames b (sort frame_before g.frames)) _ h in
      let (rest, more, same) = bind-eq-ok (replay_groups b i groups) _ h1 in
      rw (sym (ok-injective same))
        (omega (arith, sort-length frame_before g.frames, replay_groups-total groups rest more))

  -- What a replay of records has checked.
  pub record Replayed (records : List Record) (histories : List (History Binding)) : Type 0 where
    pub groups : List (Group Binding)
    pub bounded : length records ≤ maximum_records
    pub grouped_as : group_records b i [] records ≡ ok groups
    pub replayed : replay_groups b i (sort group_before groups) ≡ ok histories
    pub unique : ensure_unique_from b i [] histories ≡ ok tt

  pub replay_ledger_records-Replayed :
      (records : List Record) (histories : List (History Binding))
      → replay_ledger_records b i records ≡ ok histories
      → Replayed records histories
  unfolding replay_ledger_records
  replay_ledger_records-Replayed records histories h =
      let (_, bound, h1) = bind-eq-ok (require (leb (length records) maximum_records) _) _ h in
      let (groups, made, h2) = bind-eq-ok (group_records b i [] records) _ h1 in
      let (found, replayed, h3) = bind-eq-ok (replay_groups b i (sort group_before groups)) _ h2 in
      let (_, unique, same) = bind-eq-ok (ensure_unique_from b i [] found) _ h3 in
      subst (Replayed records) (ok-injective same) (record {
        groups = groups;
        bounded = leb→le _ _ (require-eq-ok _ _ bound);
        grouped_as = made;
        replayed = replayed;
        unique = unique;
      })

  -- Every record is one frame of one history.
  pub replay_ledger_records-total :
      (records : List Record) (histories : List (History Binding))
      → replay_ledger_records b i records ≡ ok histories
      → total histories ≡ length records
  replay_ledger_records-total records histories h =
      let is = replay_ledger_records-Replayed records histories h in
      replay_groups-total (sort group_before is.groups) histories is.replayed
      ∙ sort-grouped is.groups
      ∙ group_records-grouped [] records is.groups is.grouped_as
      ∙ omega arith

  -- Where the retained records replay, a further one may be published exactly when there are fewer
  -- than 128 of them.
  pub require_capacity_iff :
      (records : List Record) (histories : List (History Binding))
      → replay_ledger_records b i records ≡ ok histories
      → require_capacity histories
        ≡ (if ltb (length records) maximum_records then ok tt else err conflict)
  unfolding require_capacity
  require_capacity_iff records histories h =
      let start : 0 + total histories ≡ length records =
        omega (arith, replay_ledger_records-total records histories h) in
      require_capacity_from-total 0 histories (omega arith) ∙ rw start refl
