-- ===== src/Ledger/Port/Tests.antt =====
-- Runs of the port on a ledger with one retained reservation.
use linux_deep_clean.Prelude.{◌≡◌, refl, true, [], ◌∷◌, bytes_equal, Result, ok, err}
use linux_deep_clean.Ledger.Vocabulary.{
  LedgerError, unsupported, interrupted, metadata_dispatch_recorded, validate_event,
  validate_ordinary,
}
use linux_deep_clean.Ledger.Frame.{
  as_corrupt, bounded, closed_by, is_intent, no_facts, validate_facts, validate_frame, encode_frame,
  frame_digest, recovery_from_frame, apply_frame,
}
use linux_deep_clean.Ledger.Transition.{follow, stage, validate_transition}
use linux_deep_clean.Ledger.Transition.Lifecycle.{plain}
use linux_deep_clean.Ledger.Replay.{replay_next, replay_frames, next_frame, append_transition}
use linux_deep_clean.Ledger.Records.{hex_byte, is_lower_hex, cut_prefix, hex_token, new_record_id}
use linux_deep_clean.Ledger.Sources.{decode_frame}
use linux_deep_clean.Ledger.Histories.{
  add_frame, insert, sort, wrap_as, require_capacity, require_capacity_from, group_record,
  group_records, replay_groups, ensure_unique_from, replay_ledger_records, outstanding_from,
  outstanding_recoveries, find_history, key_equal,
}
use linux_deep_clean.Domain.Plan.{has_key}
use linux_deep_clean.Ledger.Service.{
  Session, read_all, read_histories, list_outstanding, validate_identity, transition,
  transition_candidate, publish_candidate, answer_of, entry_of,
}
use linux_deep_clean.Ledger.Service.Tests.{single, named, intent_record, reserved, dispatched}
use linux_deep_clean.Ledger.Port.Mapping.{
  transition_from_port, known_event, known_outcome, known_metadata, destination_to_port,
}
use linux_deep_clean.Ledger.Port.{
  Port, PortTicket, ticket, PortAnswer, issued, undecided, failed, port_transition, port_list,
  transition_input, validate_port, unwrap, answered, issued_as, new_ticket, ticket_result,
}
use linux_deep_clean.Ledger.Port.Issued.{shown}
use linux_deep_clean.Ledger.Port.Served.{Serves, port_transition-Serves}
use linux_deep_clean.Ledger.Port.Inventory.{Lists, port_list-Lists}

abbrev port : Port
port = record { address = 7; initialized = true }

-- The answer of a publication is given.
abbrev session : Result LedgerError (Unit {0}) → Session
session published = record {
  list = λ limit. ok (intent_record.id ∷ []);
  read = λ id limit. ok intent_record.contents;
  publish = λ entry. published;
}

abbrev held : PortTicket (Unit {0})
held = shown single named port reserved

listed : list_outstanding single named (ok tt) 4 (session (ok tt)) ≡ ok (reserved ∷ [])
unfolding list_outstanding read_histories read_all replay_ledger_records group_records group_record
    add_frame sort insert wrap_as new_record_id is_lower_hex hex_byte cut_prefix hex_token
    decode_frame encode_frame bounded validate_frame is_intent no_facts validate_event bytes_equal
    replay_groups replay_frames replay_next recovery_from_frame frame_digest ensure_unique_from
    closed_by has_key as_corrupt outstanding_recoveries outstanding_from
listed = refl

port_list-Lists_example :
    Lists single named port
      (reserved ∷ [])
      (port_list single named port (ok tt) 4 (session (ok tt)))
port_list-Lists_example =
    port_list-Lists single named port (ok tt) 4 (session (ok tt)) (reserved ∷ []) refl listed

port_transition-Serves_example :
    Serves single named port
      (ok tt)
      (ticket held)
      (plain metadata_dispatch_recorded)
      (session (ok tt))
      (port_transition single named port
        (ok tt)
        (ticket held)
        (plain metadata_dispatch_recorded)
        (session (ok tt)))
port_transition-Serves_example =
    port_transition-Serves single named port (ok tt) (ticket held)
      (plain metadata_dispatch_recorded) (session (ok tt))

abbrev answer_when : Result LedgerError (Unit {0}) → PortAnswer (Unit {0})
answer_when publication =
    port_transition single named port (ok tt) (ticket held) (plain metadata_dispatch_recorded)
      (session publication)

-- The fact is published, and the ticket shows it; with an interruption it does so too.
published :
    (answer_when (ok tt) ≡ issued (shown single named port dispatched.recovery))
    × (answer_when (err interrupted) ≡ undecided (shown single named port dispatched.recovery))
unfolding port_transition transition_input validate_port unwrap answered transition_from_port
    known_event known_outcome known_metadata ticket_result issued_as new_ticket destination_to_port
    validate_identity transition publish_candidate answer_of transition_candidate find_history
    key_equal require_capacity require_capacity_from append_transition next_frame replay_frames
    replay_next recovery_from_frame apply_frame frame_digest encode_frame bounded validate_frame
    is_intent no_facts validate_facts validate_ordinary validate_event bytes_equal entry_of wrap_as
    new_record_id is_lower_hex hex_byte cut_prefix hex_token as_corrupt validate_transition follow
    stage closed_by read_histories read_all replay_ledger_records group_records group_record
    add_frame sort insert decode_frame replay_groups ensure_unique_from has_key
published = (refl, refl)

-- A ticket of another port is refused before the ledger sees it.
foreign_ticket :
    port_transition single named port
      (ok tt)
      (ticket (record held { port = 8 }))
      (plain metadata_dispatch_recorded)
      (session (ok tt))
    ≡ failed unsupported
unfolding port_transition transition_input validate_port unwrap answered
foreign_ticket = refl
