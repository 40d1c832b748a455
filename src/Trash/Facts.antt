-- ===== src/Trash/Facts.antt =====
-- internal/trash/move.go and internal/recoveryport/ledger.go: tickets, and what binds one to an
-- action. The vocabulary of the port has the words of the ledger's, so its types stand for both.
-- What the domain keeps of a filesystem object, a Trash layout and a time is an interface.
use linux_deep_clean.Prelude.{
  ℕ, Bool, true, false, not, ◌&&◌, ◌||◌, List, [], ◌∷◌, Option, none, some, leb, ltb, ◌==◌,
  if◌then◌else◌, Bytes, bytes_equal, codes, length, Result, ok, ◌>>=◌,
}
use linux_deep_clean.Pathbytes.BytePath.{PathError, BytePath, new_path, path_equal}
use linux_deep_clean.Domain.Identifiers.{validate_stable_id}
use linux_deep_clean.Domain.Plan.{is_ok}
use linux_deep_clean.Ledger.Records.{cut_prefix, is_lower_hex, token_prefix}
use linux_deep_clean.Ledger.Vocabulary.{
  Destination, trash, quarantine, other_destination, Event, intent_reserved,
  metadata_dispatch_recorded, metadata_verified, metadata_indeterminate, move_dispatch_recorded,
  move_verified, move_indeterminate, restore_dispatch_recorded, restore_verified,
  restore_indeterminate, reconciliation_resolved, other_event, Outcome, unresolved, Metadata,
  unrecorded,
}

-- The sentinels of internal/linuxfs that an error wraps, and any other error.
pub data Fault : Type 0 where
  drifted unsupported interrupted : Fault
  other_fault : ℕ → Fault

-- An error value: `nil` is the empty list, and `errors.Join` appends.
abbrev pub Faults : Type 0
Faults = List Fault

pub record Kinds : Type 1 where
  -- `domain.FilesystemSnapshot`, `domain.TrashLayoutBinding`, `time.Time`
  pub Snapshot : Type 0
  pub Layout : Type 0
  pub Time : Type 0
  pub same_snapshot : Snapshot → Snapshot → Bool
  -- `FilesystemSnapshot.ValidateFor`
  pub valid_snapshot : ℕ → Snapshot → Bool
  pub same_layout : Layout → Layout → Bool
  pub valid_layout : Layout → Bool
  pub is_zero : Time → Bool
  pub nanosecond : Time → ℕ
  -- zero for a year before the first
  pub year : Time → ℕ
  -- `linuxfs.RequiredStatMask(domain.ActionTrashPath)`
  pub required_mask : ℕ

-- A filesystem target; every other kind of target is `elsewhere`.
pub data Target : Type 0 where
  filesystem : Bytes → BytePath → Target
  elsewhere : Target

pub data ActionKind : Type 0 where
  trash_path quarantine_path other_kind : ActionKind

pub record Precondition (k : Kinds) : Type 0 where
  pub target : Target
  pub required : ℕ
  pub snapshot : k.Snapshot

-- `recoveryport.Ticket`
pub record Ticket (k : Kinds) : Type 0 where
  pub token : Bytes
  pub root : Bytes
  pub source : BytePath
  pub action_id : Bytes
  pub action_kind : ActionKind
  pub destination : Destination
  pub precondition : Precondition k
  pub event : Event
  pub outcome : Outcome
  pub metadata : Metadata
  pub layout : k.Layout
  pub closed : Bool

-- `trashMoveRequest`; of the action the move reads the ID.
pub record Request (k : Kinds) : Type 0 where
  pub action_id : Bytes
  pub plan_digest : Bytes
  pub root : Bytes
  pub source : BytePath
  pub basename : Bytes
  pub precondition : Precondition k
  pub layout : k.Layout
  pub deleted_at : k.Time

-- A ticket and an error, as the operations of the port and of this package return them.
pub record Answer (k : Kinds) : Type 0 where
  pub ticket : Option (Ticket k)
  pub faults : Faults

-- The Go string of an event.
unfoldable pub event_text : Event → Bytes
event_text intent_reserved = codes "intent_reserved"
event_text metadata_dispatch_recorded = codes "metadata_dispatch_recorded"
event_text metadata_verified = codes "metadata_verified"
event_text metadata_indeterminate = codes "metadata_indeterminate"
event_text move_dispatch_recorded = codes "move_dispatch_recorded"
event_text move_verified = codes "move_verified"
event_text move_indeterminate = codes "move_indeterminate"
event_text restore_dispatch_recorded = codes "restore_dispatch_recorded"
event_text restore_verified = codes "restore_verified"
event_text restore_indeterminate = codes "restore_indeterminate"
event_text reconciliation_resolved = codes "reconciliation_resolved"
event_text (other_event text) = text

unfoldable pub event_equal : Event → Event → Bool
event_equal e f = bytes_equal (event_text e) (event_text f)

abbrev pub is_trash : Destination → Bool
is_trash trash = true
is_trash quarantine = false
is_trash (other_destination text) = false

abbrev pub is_trash_path : ActionKind → Bool
is_trash_path trash_path = true
is_trash_path quarantine_path = false
is_trash_path other_kind = false

abbrev pub no_outcome : Outcome → Bool
no_outcome unresolved = true
no_outcome _ = false

abbrev pub no_metadata : Metadata → Bool
no_metadata unrecorded = true
no_metadata _ = false

-- `validateTrashToken`
abbrev pub long_hex : Option Bytes → Bool
long_hex none = false
long_hex (some digits) = leb 16 (length digits) && is_lower_hex digits

unfoldable pub valid_token : Bytes → Bool
valid_token token =
    not (length token == 0 || ltb 245 (length token)) && long_hex (cut_prefix token_prefix token)

-- `validateTrashDeletionDate`
unfoldable pub valid_date : (k : Kinds) → k.Time → Bool
valid_date k deleted_at =
    not (k.is_zero deleted_at)
    && k.nanosecond deleted_at == 0
    && not (ltb (k.year deleted_at) 1 || ltb 9999 (k.year deleted_at))

-- `sameTrashMoveTarget`
unfoldable pub same_target : Target → Target → Bool
same_target (filesystem root path) (filesystem other more) =
    bytes_equal root other && path_equal path more
same_target _ _ = false

-- `sameTrashMovePrecondition`
unfoldable pub same_precondition : {k : Kinds} → Precondition k → Precondition k → Bool
same_precondition {k} left right =
    left.required == right.required
    && k.same_snapshot left.snapshot right.snapshot
    && same_target left.target right.target

abbrev pub last_component : List Bytes → Bytes
last_component [] = []
last_component (c ∷ []) = c
last_component (c ∷ d ∷ rest) = last_component (d ∷ rest)

-- `trashMovePathAndBasename`. Its tests of the name come behind `pathbytes.New`, which has made them.
unfoldable pub path_and_basename : BytePath → Result PathError (BytePath × Bytes)
path_and_basename path = do
  cloned ← new_path path.components
  ok (cloned, last_component path.components)

-- `Target.Validate`, of a filesystem target
unfoldable pub valid_target : Target → Bool
valid_target (filesystem root path) =
    is_ok (validate_stable_id root) && is_ok (new_path path.components)
valid_target elsewhere = false

-- `filesystemTrashMoveTarget`
unfoldable pub filesystem_target : Bytes → BytePath → Target
filesystem_target root path =
    if valid_target (filesystem root path) then filesystem root path else elsewhere

module _ {k : Kinds} where
  -- `FilesystemPrecondition.Validate`
  unfoldable pub valid_precondition : Precondition k → Bool
  valid_precondition p = valid_target p.target && k.valid_snapshot p.required p.snapshot

  -- `validateTrashMoveTicket`; every failure is unsupported.
  unfoldable pub valid_ticket : Ticket k → Request k → Bool
  valid_ticket ticket request =
      valid_token ticket.token
      && bytes_equal ticket.root request.root
      && path_equal ticket.source request.source
      && bytes_equal ticket.action_id request.action_id
      && is_trash_path ticket.action_kind
      && is_trash ticket.destination
      && k.same_layout ticket.layout request.layout
      && same_precondition ticket.precondition request.precondition
