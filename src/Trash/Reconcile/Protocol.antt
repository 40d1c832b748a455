-- ===== src/Trash/Reconcile/Protocol.antt =====
-- The evidence that internal/trash/reconcile.go and internal/trash/content_reconcile.go gather before
-- they settle a recovery, as a protocol.
use linux_deep_clean.Prelude.{
  Result, ok, err, Bool, true, false, not, ◌&&◌, ◌||◌, [], ◌∷◌, Option, none, some, if◌then◌else◌,
  Bytes, bytes_equal,
}
use linux_deep_clean.Pathbytes.BytePath.{path_equal}
use linux_deep_clean.Ledger.Vocabulary.{
  Event, reconciliation_resolved, Outcome, unresolved, resolved_not_applied, resolved_move_verified,
  resolved_restore_verified, other_outcome, Metadata, unrecorded, absent, retained, other_metadata,
  Transition,
}
use linux_deep_clean.Trash.Facts.{Faults, Kinds}
use linux_deep_clean.Trash.Program.{
  Command, reserve, record_fact, reload, write, select, move, close, probe_metadata, probe_content,
  probe_source, context, Reply, Selected, Probed, Tested,
}
use linux_deep_clean.Trash.Program.Run.{Protocol}
use linux_deep_clean.Trash.Metadata.{
  Clock, Basis, home_absolute, top_relative, InfoError, TrashInfo, parse_trash_info,
}
use linux_deep_clean.Trash.Reconcile.{Request}

-- What was seen since the directories were opened: what the metadata shows, the bytes of the record
-- that names the source, then in this order the source gone, the content there, the source gone, and
-- the same bytes again. `recorded` is an acknowledged fact.
pub record Evidence : Type 0 where
  pub opened : Bool
  pub shows : Option Metadata
  pub first : Option Bytes
  pub gone : Bool
  pub present : Bool
  pub still_gone : Bool
  pub confirmed : Bool
  pub recorded : Bool

abbrev pub nothing_seen : Evidence
nothing_seen = record {
  opened = false;
  shows = none;
  first = none;
  gone = false;
  present = false;
  still_gone = false;
  confirmed = false;
  recorded = false;
}

abbrev pub is_some : {A : Type 0} → Option A → Bool
is_some none = false
is_some (some a) = true

abbrev pub clean : Faults → Bool
clean [] = true
clean (fault ∷ faults) = false

abbrev pub is_reconciled : Event → Bool
is_reconciled reconciliation_resolved = true
is_reconciled _ = false

abbrev pub outcome_is : Outcome → Outcome → Bool
outcome_is unresolved unresolved = true
outcome_is resolved_not_applied resolved_not_applied = true
outcome_is resolved_move_verified resolved_move_verified = true
outcome_is resolved_restore_verified resolved_restore_verified = true
outcome_is (other_outcome a) (other_outcome b) = bytes_equal a b
outcome_is _ _ = false

abbrev pub metadata_is : Metadata → Metadata → Bool
metadata_is unrecorded unrecorded = true
metadata_is absent absent = true
metadata_is retained retained = true
metadata_is (other_metadata a) (other_metadata b) = bytes_equal a b
metadata_is _ _ = false

-- The fact is a resolution with this outcome and this disposition.
unfoldable pub is_resolution : Outcome → Metadata → Transition → Bool
is_resolution o m t = is_reconciled t.event && outcome_is o t.outcome && metadata_is m t.metadata

unfoldable pub is_shown : Option Metadata → Transition → Bool
is_shown none t = false
is_shown (some m) t = is_resolution resolved_not_applied m t

unfoldable pub same_bytes : Option Bytes → Option Bytes → Bool
same_bytes (some a) (some b) = bytes_equal a b
same_bytes _ _ = false

unfoldable pub evidence_allowed : {k : Kinds} → Evidence → Command k → Bool
evidence_allowed s (reserve action_id plan_digest layout) = false
evidence_allowed s (record_fact ticket t) =
    not s.recorded
    && (s.confirmed && is_resolution resolved_move_verified unrecorded t || is_shown s.shows t)
evidence_allowed s (reload ticket) = not s.opened
evidence_allowed s (write token source deleted_at) = false
evidence_allowed s select = not s.opened
evidence_allowed s (move basename publication precondition) = false
evidence_allowed s close = s.opened
evidence_allowed s (probe_metadata token) = s.opened
evidence_allowed s (probe_content token precondition) = s.opened
evidence_allowed s (probe_source basename precondition) = s.opened
evidence_allowed s context = true

abbrev pub basis_is : Basis → Basis → Bool
basis_is home_absolute home_absolute = true
basis_is top_relative top_relative = true
basis_is _ _ = false

module _ {k : Kinds} (clock : Clock k) (request : Request k) where
  -- What was parsed is a record of the token, at the path and the basis of the request.
  abbrev pub is_record : Bytes → Result InfoError (TrashInfo k) → Bool
  is_record token (err e) = false
  is_record token (ok info) =
      bytes_equal info.token token
      && basis_is info.basis request.basis
      && path_equal info.path request.metadata_path

  abbrev pub parsed : Bytes → Bytes → Result InfoError (TrashInfo k)
  parsed token contents = parse_trash_info clock contents token request.basis

  -- The bytes of such a record, where a probe read one without an error. A nil slice has no bytes.
  unfoldable pub read_record : Bytes → Option Bytes → Bool → Faults → Option Bytes
  read_record token contents present (fault ∷ faults) = none
  read_record token contents false [] = none
  read_record token none true [] = if is_record token (parsed token []) then some [] else none
  read_record token (some contents) true [] =
      if is_record token (parsed token contents) then some contents else none

  -- A probe without an error shows metadata that is absent when it read nothing, and metadata that
  -- is retained when it read such a record.
  unfoldable pub read_disposition : Bytes → Option Bytes → Bool → Faults → Option Metadata
  read_disposition token contents present (fault ∷ faults) = none
  read_disposition token none false [] = some absent
  read_disposition token (some contents) false [] = none
  read_disposition token none true [] =
      if is_record token (parsed token []) then some retained else none
  read_disposition token (some contents) true [] =
      if is_record token (parsed token contents) then some retained else none

  abbrev pub after_metadata : Evidence → Bytes → Probed → Evidence
  after_metadata s token reply =
      let bytes = read_record token reply.contents reply.present reply.faults in
      let shows = read_disposition token reply.contents reply.present reply.faults in
      if s.still_gone
      then record s { confirmed = same_bytes s.first bytes }
      else record s { shows = shows; first = bytes }

  abbrev pub after_source : Evidence → Tested → Evidence
  after_source s reply =
      if s.present
      then record s { still_gone = reply.holds && clean reply.faults }
      else record s { gone = is_some s.first && reply.holds && clean reply.faults }

  abbrev pub after_content : Evidence → Tested → Evidence
  after_content s reply = record s { present = s.gone && reply.holds && clean reply.faults }

  abbrev pub after_select : Evidence → Selected → Evidence
  after_select s reply = record s { opened = clean reply.faults && reply.directories }

  unfoldable pub evidence_next : Evidence → (c : Command k) → Reply c → Evidence
  evidence_next s (reserve action_id plan_digest layout) reply = s
  evidence_next s (record_fact ticket t) reply = record s {
    recorded = is_some reply.ticket && clean reply.faults;
  }
  evidence_next s (reload ticket) reply = s
  evidence_next s (write token source deleted_at) reply = s
  evidence_next s select reply = after_select s reply
  evidence_next s (move basename publication precondition) reply = s
  evidence_next s close reply = record s { opened = false }
  evidence_next s (probe_metadata token) reply = after_metadata s token reply
  evidence_next s (probe_content token precondition) reply = after_content s reply
  evidence_next s (probe_source basename precondition) reply = after_source s reply
  evidence_next s context reply = s

  abbrev pub evidence_protocol : Protocol k
  evidence_protocol = record { Stage = Evidence; allowed = evidence_allowed; next = evidence_next }
