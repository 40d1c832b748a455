-- ===== src/Trash/Move/Protocol.antt =====
-- The order that `moveToTrashWith` of internal/trash/move.go keeps, as a protocol.
use linux_deep_clean.Prelude.{Bool, true, false, not, ◌&&◌, [], Option, some}
use linux_deep_clean.Domain.Plan.{is_ok}
use linux_deep_clean.Ledger.Vocabulary.{
  trash, Event, intent_reserved, metadata_dispatch_recorded, metadata_verified,
  move_dispatch_recorded, Outcome, Metadata, unresolved, unrecorded, Transition,
}
use linux_deep_clean.Ledger.Transition.{follow}
use linux_deep_clean.Trash.Facts.{Kinds, Answer, Faults, event_equal}
use linux_deep_clean.Trash.Program.{
  Command, reserve, record_fact, reload, write, select, move, close, probe_metadata, probe_content,
  probe_source, context, Reply, Disposition, Selected, verified, Moved,
}
use linux_deep_clean.Trash.Program.Run.{Protocol}

-- What the ledger holds, as far as the caller knows: nothing is reserved, the last fact that it
-- acknowledged, or a reply with an error.
pub data Known : Type 0 where
  nothing uncertain : Known
  fact : Event → Outcome → Metadata → Known

-- Whether metadata was written, whether the content was moved and the move answered that it is
-- verified without an error, and whether the directories are open.
pub record Stage : Type 0 where
  pub known : Known
  pub wrote : Bool
  pub moving : Bool
  pub settled : Bool
  pub opened : Bool

-- An acknowledgement is a ticket without an error.
unfoldable pub acknowledge : {A : Type 0} → Known → Option A → Faults → Known
acknowledge known (some ticket) [] = known
acknowledge known ticket faults = uncertain

unfoldable pub is_nothing : Known → Bool
is_nothing nothing = true
is_nothing uncertain = false
is_nothing (fact e o m) = false

-- The last acknowledged fact is the event.
unfoldable pub is_fact : Event → Known → Bool
is_fact event nothing = false
is_fact event uncertain = false
is_fact event (fact e o m) = event_equal e event

-- The ledger's own rule takes the fact behind the last acknowledged one.
unfoldable pub follows : Known → Transition → Bool
follows nothing t = false
follows uncertain t = false
follows (fact e o m) t = is_ok (follow trash e t.event t.outcome t.metadata)

unfoldable pub is_verified : Disposition → Faults → Bool
is_verified verified [] = true
is_verified disposition faults = false

unfoldable pub has_opened : Bool → Faults → Bool
has_opened directories [] = directories
has_opened directories faults = false

abbrev pub acknowledged : {k : Kinds} → Known → Answer k → Known
acknowledged known answer = acknowledge known answer.ticket answer.faults

abbrev pub verified_by : Moved → Bool
verified_by reply = is_verified reply.disposition reply.faults

abbrev pub opened_by : Selected → Bool
opened_by reply = has_opened reply.directories reply.faults

unfoldable pub move_allowed : {k : Kinds} → Stage → Command k → Bool
move_allowed s (reserve action_id plan_digest layout) = is_nothing s.known
move_allowed s (record_fact ticket t) = follows s.known t
move_allowed s (reload ticket) = false
move_allowed s (write token source deleted_at) =
    is_fact metadata_dispatch_recorded s.known && not s.wrote
move_allowed s select = is_fact metadata_verified s.known && not s.opened
move_allowed s (move basename publication precondition) =
    is_fact move_dispatch_recorded s.known && s.opened && not s.moving
move_allowed s close = s.opened
move_allowed s (probe_metadata token) = false
move_allowed s (probe_content token precondition) = false
move_allowed s (probe_source basename precondition) = false
move_allowed s context = false

unfoldable pub move_next : {k : Kinds} → Stage → (c : Command k) → Reply c → Stage
move_next {k} s (reserve action_id plan_digest layout) reply = record s {
  known = acknowledged {k = k} (fact intent_reserved unresolved unrecorded) reply;
}
move_next {k} s (record_fact ticket t) reply = record s {
  known = acknowledged {k = k} (fact t.event t.outcome t.metadata) reply;
}
move_next s (reload ticket) reply = s
move_next s (write token source deleted_at) reply = record s { wrote = true }
move_next s select reply = record s { opened = opened_by reply }
move_next s (move basename publication precondition) reply = record s {
  moving = true;
  settled = verified_by reply;
}
move_next s close reply = record s { opened = false }
move_next s (probe_metadata token) reply = s
move_next s (probe_content token precondition) reply = s
move_next s (probe_source basename precondition) reply = s
move_next s context reply = s

abbrev pub move_protocol : (k : Kinds) → Protocol k
move_protocol k = record { Stage = Stage; allowed = move_allowed; next = move_next }

abbrev pub start : Stage
start = record { known = nothing; wrote = false; moving = false; settled = false; opened = false }
