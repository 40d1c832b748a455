-- ===== src/Ledger/Histories.antt =====
-- internal/state/recovery_ledger.go: the histories that the retained records replay to.
-- The two maps by digest and token are one list of groups, in the order in which the keys appear.
-- The ordinals seen under a key are those of the frames kept under it.
pub mod Total
pub mod Unique
pub mod Outstanding
use linux_deep_clean.Prelude.{
  ℕ, ◌+◌, Bool, true, false, not, ◌&&◌, ◌||◌, List, [], ◌∷◌, ◌++◌, Option, none, some, ltb, leb,
  ◌==◌, if◌then◌else◌, Bytes, bytes_equal, Comparison, less, same, greater, bytes_compare, length,
  Result, ok, err, ◌>>=◌, ◌>>◌, require,
}
use linux_deep_clean.Domain.Plan.{has_key}
use linux_deep_clean.Pathbytes.BytePath.{BytePath, path_equal}
use linux_deep_clean.Ledger.Vocabulary.{LedgerError, conflict, corrupt, unsupported}
use linux_deep_clean.Ledger.Frame.{Frame, Recovery, Bindings, closed}
use linux_deep_clean.Ledger.Replay.{replay_frames}
use linux_deep_clean.Ledger.Records.{RecordId, new_record_id}
use linux_deep_clean.Ledger.Sources.{Identities, source_key, decode_frame}

-- `recoveryLedgerRecord`
pub record Record : Type 0 where
  pub id : RecordId
  pub contents : Bytes

pub record Key : Type 0 where
  pub digest : Bytes
  pub token : Bytes

-- `recoveryHistory`
pub record History (B : Type 0) : Type 0 where
  pub frames : List (Frame B)
  pub recovery : Recovery B

-- An entry of the map `groups`.
pub record Group (B : Type 0) : Type 0 where
  pub key : Key
  pub frames : List (Frame B)

abbrev pub maximum_records : ℕ
maximum_records = 128

unfoldable pub key_equal : Key → Key → Bool
key_equal k l = bytes_equal k.digest l.digest && bytes_equal k.token l.token

abbrev pub is_less : Comparison → Bool
is_less less = true
is_less same = false
is_less greater = false

-- The order of the keys: the digests, then the tokens.
unfoldable pub key_less : Key → Key → Bool
key_less k l =
    if bytes_equal k.digest l.digest
    then is_less (bytes_compare k.token l.token)
    else is_less (bytes_compare k.digest l.digest)

unfoldable pub has_ordinal : {B : Type 0} → ℕ → List (Frame B) → Bool
has_ordinal ordinal [] = false
has_ordinal ordinal (f ∷ frames) = ordinal == f.ordinal || has_ordinal ordinal frames

-- The frame goes behind those of its key, unless one of them has its ordinal.
unfoldable pub add_frame :
    {B : Type 0} → Key → Frame B → List (Group B) → Result LedgerError (List (Group B))
add_frame key frame [] = ok (record { key = key; frames = frame ∷ [] } ∷ [])
add_frame key frame (group ∷ groups) =
    let rest = add_frame key frame groups in
    if key_equal key group.key
    then (do
      require (not (has_ordinal frame.ordinal group.frames)) corrupt
      ok (record { key = key; frames = group.frames ++ frame ∷ [] } ∷ groups))
    else (do more ← rest; ok (group ∷ more))

-- `sort.Slice`, of elements of which no two are alike
unfoldable pub insert : {A : Type 0} → (A → A → Bool) → A → List A → List A
insert before x [] = x ∷ []
insert before x (y ∷ ys) =
    let rest = insert before x ys in if before x y then x ∷ y ∷ ys else y ∷ rest

unfoldable pub sort : {A : Type 0} → (A → A → Bool) → List A → List A
sort before [] = []
sort before (x ∷ xs) = insert before x (sort before xs)

abbrev pub frame_before : {B : Type 0} → Frame B → Frame B → Bool
frame_before f g = ltb f.ordinal g.ordinal

abbrev pub group_before : {B : Type 0} → Group B → Group B → Bool
group_before g h = key_less g.key h.key

-- `fmt.Errorf("%w: ...: %v", sentinel, err)`
unfoldable pub wrap_as : {E A : Type 0} → LedgerError → Result E A → Result LedgerError A
wrap_as sentinel (ok a) = ok a
wrap_as sentinel (err _) = err sentinel

-- `requireRecoveryLedgerPublicationCapacity`, with the count so far
unfoldable pub require_capacity_from :
    {B : Type 0} → ℕ → List (History B) → Result LedgerError (Unit {0})
require_capacity_from count [] = ok tt
require_capacity_from count (history ∷ histories) = do
  require (not (leb maximum_records (count + length history.frames))) conflict
  require_capacity_from (count + length history.frames) histories

unfoldable pub require_capacity : {B : Type 0} → List (History B) → Result LedgerError (Unit {0})
require_capacity histories = require_capacity_from 0 histories

-- `outstandingRecoveries`, with the number kept so far; the test of the limit comes first.
unfoldable pub outstanding_from :
    {B : Type 0} → ℕ → ℕ → List (History B) → Result LedgerError (List (Recovery B))
outstanding_from limit kept [] = ok []
outstanding_from limit kept (history ∷ histories) =
    let skip = outstanding_from limit kept histories in
    let keep = outstanding_from limit (kept + 1) histories in
    if closed history.recovery
    then skip
    else (do require (not (kept == limit)) unsupported; rest ← keep; ok (history.recovery ∷ rest))

unfoldable pub outstanding_recoveries :
    {B : Type 0} → List (History B) → ℕ → Result LedgerError (List (Recovery B))
outstanding_recoveries histories limit = do
  require (ltb 0 limit && leb limit maximum_records) unsupported
  outstanding_from limit 0 histories

module _ (b : Bindings) (i : Identities b) where
  open b use {Binding}
  open i use {digest, token, root, source}

  abbrev pub key_of : Binding → Key
  key_of x = record { digest = digest x; token = token x }

  -- One round of the first loop of `replayRecoveryLedgerRecords`.
  unfoldable pub group_record :
      Record → List (Group Binding) → Result LedgerError (List (Group Binding))
  group_record r groups = do
    id ← wrap_as corrupt (new_record_id r.id.digest r.id.token r.id.ordinal)
    frame ← decode_frame b i r.contents
    require
        (bytes_equal (digest frame.binding) id.digest
          && bytes_equal (token frame.binding) id.token
          && frame.ordinal == id.ordinal)
        corrupt
    add_frame (record { digest = id.digest; token = id.token }) frame groups

  unfoldable pub group_records :
      List (Group Binding) → List Record → Result LedgerError (List (Group Binding))
  group_records groups [] = ok groups
  group_records groups (r ∷ records) = do more ← group_record r groups; group_records more records

  -- The loop over the sorted keys.
  unfoldable pub replay_groups : List (Group Binding) → Result LedgerError (List (History Binding))
  replay_groups [] = ok []
  replay_groups (group ∷ groups) = do
    let frames = sort frame_before group.frames
    recovery ← replay_frames b frames
    rest ← replay_groups groups
    ok (record { frames = frames; recovery = recovery } ∷ rest)

  abbrev pub key_of_source : Recovery Binding → Bytes
  key_of_source recovery = source_key (root recovery.binding) (source recovery.binding)

  -- `ensureUniqueOutstandingSources`, with the keys seen so far
  unfoldable pub ensure_unique_from :
      List Bytes → List (History Binding) → Result LedgerError (Unit {0})
  ensure_unique_from seen [] = ok tt
  ensure_unique_from seen (history ∷ histories) =
      let skip = ensure_unique_from seen histories in
      let key = key_of_source history.recovery in
      let keep = ensure_unique_from (key ∷ seen) histories in
      if closed history.recovery then skip else (do require (not (has_key key seen)) conflict; keep)

  -- `replayRecoveryLedgerRecords`
  unfoldable pub replay_ledger_records : List Record → Result LedgerError (List (History Binding))
  replay_ledger_records records = do
    require (leb (length records) maximum_records) unsupported
    groups ← group_records [] records
    histories ← replay_groups (sort group_before groups)
    ensure_unique_from [] histories
    ok histories

  -- The test of `findOutstandingRecovery`.
  unfoldable pub retains : Bytes → BytePath → Recovery Binding → Bool
  retains at path candidate = not (
      closed candidate
      || not (bytes_equal (root candidate.binding) at)
      || not (path_equal (source candidate.binding) path))

  abbrev pub is_found : {A : Type 0} → Option A → Bool
  is_found none = false
  is_found (some a) = true

  -- `findOutstandingRecovery`. What is not found yet is the zero `Recovery`, whose token is empty.
  unfoldable pub find_from :
      Bytes
      → BytePath
      → Option (Recovery Binding)
      → List (History Binding)
      → Result LedgerError (Option (Recovery Binding))
  find_from at path found [] = ok found
  find_from at path found (history ∷ histories) =
      let skip = find_from at path found histories in
      let keep = find_from at path (some history.recovery) histories in
      if retains at path history.recovery
      then (do require (not (is_found found)) conflict; keep)
      else skip

  unfoldable pub find_outstanding :
      List (History Binding) → Bytes → BytePath → Result LedgerError (Option (Recovery Binding))
  find_outstanding histories at path = find_from at path none histories

  -- `findRecoveryHistory`
  unfoldable pub find_history :
      List (History Binding) → Recovery Binding → Result LedgerError (History Binding)
  find_history [] recovery = err conflict
  find_history (history ∷ histories) recovery =
      let rest = find_history histories recovery in
      if key_equal (key_of history.recovery.binding) (key_of recovery.binding)
      then ok history
      else rest
