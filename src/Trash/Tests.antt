-- ===== src/Trash/Tests.antt =====
-- Runs of a move to the Trash and of its reconciliation, on a small domain.
use linux_deep_clean.Prelude.{
  bytes_equal, ℕ, ◌≡◌, refl, arith, true, false, [], ◌∷◌, ◌++◌, none, some, Bytes, replicate, codes,
  ok, ◌==◌,
}
use linux_deep_clean.Pathbytes.BytePath.{
  BytePath, path_equal, components_equal, new_path, validate_components, validate_from,
  validate_component, validate_bytes, validate_limits,
}
use linux_deep_clean.Domain.Identifiers.{
  validate_stable_id, stable_bytes, stable_byte, validate_digest,
}
use linux_deep_clean.Ledger.Records.{cut_prefix, is_lower_hex, hex_byte}
use linux_deep_clean.Pathbytes.TrashCodec.{
  trash_unreserved, encode_byte, encode_component, encode_from, percent_encode_trash_path,
  count_components, close_last, hex_pair, decode_escape, close_component, decode_step, decode_loop,
  percent_decode_with_limits, percent_decode_trash_path,
}
use linux_deep_clean.Ledger.Vocabulary.{
  trash, Event, intent_reserved, move_verified, move_indeterminate, unresolved, unrecorded,
}
use linux_deep_clean.Trash.Facts.{
  valid_ticket, valid_token, valid_date, same_precondition, same_target, filesystem_target,
  valid_target, valid_precondition, path_and_basename, event_equal, event_text, Kinds, filesystem,
  trash_path, Precondition, Ticket, Request, Answer,
}
use linux_deep_clean.Trash.Program.{
  chain, closing, reserve, record_fact, reload, write, select, move, close, probe_metadata,
  probe_content, probe_source, context, verified, Program,
}
use linux_deep_clean.Trash.Program.Run.{World, Keeps, Sends, run}
use linux_deep_clean.Trash.Move.{
  valid_execution, reserved, is_at, transitioned, transition_ticket, or_return, written, published,
  valid_publication, selected, moved, path_bound, move_to_trash_with,
}
use linux_deep_clean.Trash.Move.Protocol.{move_protocol, start}
use linux_deep_clean.Trash.Move.Kept.{kept_protocol, HasTicket, move_to_trash_with-HasTicket}
use linux_deep_clean.Trash.Move.Recording.{Ends}
use linux_deep_clean.Trash.Move.Asks.{Asks}
use linux_deep_clean.Trash.Move.Ordered.{move_to_trash_with-Keeps}
use linux_deep_clean.Trash.Metadata.{
  Clock, home_absolute, TrashInfo, contents_of, validate_info, known_basis, trash_info_basename,
  marshal, parse_trash_info,
}
use linux_deep_clean.Trash.Metadata.RoundTrip.{ClockLaws, ReadsBack, parse_trash_info-marshal}
use linux_deep_clean.Trash.Reconcile.{Request as Binding, of_content}
use linux_deep_clean.Trash.Reconcile.Flow.{reconcile_with}
use linux_deep_clean.Trash.Reconcile.Protocol.{nothing_seen, evidence_protocol}
use linux_deep_clean.Trash.Reconcile.Probes.{Ends as Settles}
use linux_deep_clean.Trash.Reconcile.Asks.{Concerns}
use linux_deep_clean.Trash.Reconcile.Evident.{reconcile_with-Follows}

abbrev pub kinds : Kinds
kinds = record {
  Snapshot = ℕ;
  Layout = ℕ;
  Time = ℕ;
  same_snapshot = λ a b. a == b;
  valid_snapshot = λ mask snapshot. true;
  same_layout = λ a b. a == b;
  valid_layout = λ layout. true;
  is_zero = λ t. false;
  nanosecond = λ t. 0;
  year = λ t. 2026;
  required_mask = 3;
}

abbrev pub token : Bytes
token = codes "ldc-" ++ replicate 16 b'7'

abbrev pub source : BytePath
source = record { components = codes "home" ∷ codes "cache" ∷ [] }

abbrev pub precondition : Precondition kinds
precondition = record { target = filesystem (codes "root") source; required = 3; snapshot = 9 }

abbrev pub request : Request kinds
request = record {
  action_id = codes "action";
  plan_digest = replicate 32 5;
  root = codes "root";
  source = source;
  basename = codes "cache";
  precondition = precondition;
  layout = 4;
  deleted_at = 0;
}

abbrev ticket_at : Event → Ticket kinds
ticket_at event = record {
  token = token;
  root = codes "root";
  source = source;
  action_id = codes "action";
  action_kind = trash_path;
  destination = trash;
  precondition = precondition;
  event = event;
  outcome = unresolved;
  metadata = unrecorded;
  layout = 4;
  closed = false;
}

abbrev quiet : Event → Answer kinds
quiet event = record { ticket = some (ticket_at event); faults = [] }

-- A ledger and a file system that do as they are asked.
abbrev obliging : World kinds
obliging n (reserve action_id plan_digest layout) = quiet intent_reserved
obliging n (record_fact ticket t) = quiet t.event
obliging n (reload ticket) = record { ticket = some ticket; faults = [] }
obliging n (write text path date) = record {
  publication = some (record { root = codes "root"; token = text; receipt = true });
  faults = [];
}
obliging n select = record { directories = true; faults = [] }
obliging n (move name publication held) = record { disposition = verified; faults = [] }
obliging n close = tt
obliging n (probe_metadata text) = record { contents = none; present = false; faults = [] }
obliging n (probe_content text held) = record { holds = true; faults = [] }
obliging n (probe_source name held) = record { holds = true; faults = [] }
obliging n context = []

abbrev program : Program kinds (Answer kinds)
program = move_to_trash_with [] request

-- Nine commands, and the ticket of the verified move.
moves : run obliging 0 program ≡ (quiet move_verified, 9)
unfolding run move_to_trash_with valid_execution reserved is_at transitioned transition_ticket
    or_return written published valid_publication selected moved chain closing valid_ticket
    valid_token valid_date same_precondition same_target filesystem_target valid_target
    valid_precondition path_and_basename path_bound event_equal event_text bytes_equal path_equal
    components_equal validate_stable_id stable_bytes stable_byte validate_digest new_path
    validate_components validate_from validate_component validate_bytes cut_prefix is_lower_hex
    hex_byte
moves = refl

move_to_trash_with-Keeps_example :
    Keeps (move_protocol kinds) (Ends false) start program × Asks request program
move_to_trash_with-Keeps_example = move_to_trash_with-Keeps [] request

abbrev pub clock : Clock kinds
clock = record { format = λ t. replicate 19 b'1'; parse = λ text. some 1 }

abbrev pub laws : ClockLaws kinds clock
laws = record {
  wall = λ t. 1;
  size = λ t h. refl;
  visible = λ t h. omega arith;
  reads = λ t h. refl;
  writes = λ t h. refl;
  whole = λ t h. refl;
  year = λ t h. refl;
}

abbrev info : TrashInfo kinds
info = record { token = token; basis = home_absolute; path = source; deleted_at = 0 }

written_info : marshal clock info ≡ ok (contents_of clock info)
unfolding marshal validate_info trash_info_basename known_basis valid_token valid_date cut_prefix
    is_lower_hex hex_byte new_path validate_components validate_from validate_component
    validate_bytes bytes_equal trash_unreserved encode_byte encode_component encode_from
    percent_encode_trash_path count_components close_last hex_pair decode_escape close_component
    decode_step decode_loop percent_decode_with_limits percent_decode_trash_path validate_limits
written_info = refl

parse_trash_info-marshal_example :
    ReadsBack clock laws info (parse_trash_info clock (contents_of clock info) token home_absolute)
parse_trash_info-marshal_example =
    parse_trash_info-marshal clock laws info (contents_of clock info) (omega arith) written_info

abbrev binding : Binding kinds
binding = record {
  root = codes "root";
  source = source;
  action_id = codes "action";
  precondition = precondition;
  layout = 4;
  metadata_path = source;
  basis = home_absolute;
}

reconcile_with-Follows_example :
    Keeps
      (evidence_protocol clock binding)
      (Settles clock binding false)
      nothing_seen
      (reconcile_with clock of_content (ticket_at move_indeterminate) binding)
    × Sends
        (Concerns clock binding (ticket_at move_indeterminate))
        (reconcile_with clock of_content (ticket_at move_indeterminate) binding)
reconcile_with-Follows_example =
    reconcile_with-Follows clock binding of_content (ticket_at move_indeterminate)

move_to_trash_with-HasTicket_example : Keeps (kept_protocol kinds) HasTicket false program
move_to_trash_with-HasTicket_example = move_to_trash_with-HasTicket [] request
