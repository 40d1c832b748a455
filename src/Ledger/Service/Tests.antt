-- ===== src/Ledger/Service/Tests.antt =====
-- Runs of the ledger's operations on concrete records, with small functions in place of the
-- binding's own checks, the CBOR codec and SHA-256.
use linux_deep_clean.Prelude.{
  arith, ◌≡◌, refl, true, List, [], ◌∷◌, ◌++◌, Option, some, Bytes, replicate, codes, bytes_equal,
  ok, err,
}
use linux_deep_clean.Pathbytes.BytePath.{BytePath, components_equal, path_equal}
use linux_deep_clean.Domain.Plan.{has_key}
use linux_deep_clean.Ledger.Vocabulary.{
  conflict, unsupported, trash, intent_reserved, metadata_dispatch_recorded, unresolved, unrecorded,
  validate_event, validate_ordinary,
}
use linux_deep_clean.Ledger.Frame.{
  Frame, Recovery, Bindings, zero_digest, closed_by, is_intent, no_facts, as_corrupt,
  validate_facts, validate_frame, bounded, encode_frame, frame_digest, recovery_from_frame,
  apply_frame,
}
use linux_deep_clean.Ledger.Transition.{follow, stage, validate_transition}
use linux_deep_clean.Ledger.Transition.Lifecycle.{plain}
use linux_deep_clean.Ledger.Replay.{replay_next, replay_frames, next_frame, append_transition}
use linux_deep_clean.Ledger.Records.{
  RecordId, hex_byte, is_lower_hex, cut_prefix, hex_token, new_record_id, basename,
  record_id_of_basename,
}
use linux_deep_clean.Ledger.Records.RoundTrip.{record_id_of_basename-basename}
use linux_deep_clean.Ledger.Sources.{Identities, decode_frame}
use linux_deep_clean.Ledger.Sources.Keys.{source_key-injective}
use linux_deep_clean.Ledger.Histories.{
  Record, History, key_equal, add_frame, insert, sort, wrap_as, require_capacity_from,
  require_capacity, group_record, group_records, replay_groups, ensure_unique_from,
  replay_ledger_records, retains, find_from, find_outstanding, find_history, outstanding_from,
  outstanding_recoveries,
}
use linux_deep_clean.Ledger.Histories.Total.{require_capacity_iff}
use linux_deep_clean.Ledger.Histories.Outstanding.{
  WithinLimit, still_open, outstanding_recoveries-WithinLimit,
}
use linux_deep_clean.Ledger.Histories.Unique.{Lookup, find_outstanding-Lookup}
use linux_deep_clean.Ledger.Service.{
  Candidate, entry_of, new_intent_frame, reserve_candidate, transition_candidate,
}
use linux_deep_clean.Ledger.Service.Publish.{Reserves, reserve_candidate-Reserves}
use linux_deep_clean.Ledger.Service.Advance.{Advances, transition_candidate-Advances}

abbrev pub digest_text : Bytes
digest_text = replicate 64 b'a'

abbrev pub token_text : Bytes
token_text = codes "ldc-" ++ replicate 64 b'b'

abbrev pub record_id : RecordId
record_id = record { digest = digest_text; token = token_text; ordinal = 7 }

record_id_valid : new_record_id digest_text token_text 7 ≡ ok record_id
unfolding new_record_id is_lower_hex hex_byte cut_prefix hex_token
record_id_valid = refl

record_id_of_basename-basename_example : record_id_of_basename (basename record_id) ≡ ok record_id
record_id_of_basename-basename_example =
    record_id_of_basename-basename digest_text token_text 7 record_id record_id_valid

abbrev pub cache : BytePath
cache = record { components = codes "home" ∷ codes "cache" ∷ [] }

source_key-injective_example : (codes "home" ≡ codes "home") × (cache ≡ cache)
source_key-injective_example =
    source_key-injective (codes "home") (codes "home") cache cache (omega arith) (omega arith)
      (omega arith, (omega arith, tt)) (omega arith, (omega arith, tt)) refl

-- One binding; a frame is written as its ordinal.
abbrev pub single : Bindings
single = record {
  Binding = Unit {0};
  validate_binding = λ binding version. ok tt;
  same_binding = λ x y. true;
  destination = λ binding. trash;
  marshal = λ frame. some (frame.ordinal ∷ []);
  sha256 = λ text. replicate 32 1;
}

abbrev pub intent : Frame (Unit {0})
intent = record {
  schema_version = 2;
  binding = tt;
  event = intent_reserved;
  ordinal = 0;
  predecessor = zero_digest;
  outcome = unresolved;
  metadata = unrecorded;
}

abbrev pub named : Identities single
named = record {
  valid_digest = λ binding. true;
  digest = λ binding. digest_text;
  token = λ binding. token_text;
  root = λ binding. codes "home";
  source = λ binding. cache;
  read_wire = λ text. ok intent;
}

abbrev pub intent_record : Record
intent_record = record {
  id = record { digest = digest_text; token = token_text; ordinal = 0 };
  contents = 0 ∷ [];
}

abbrev pub reserved : Recovery (Unit {0})
reserved = record {
  schema_version = 2;
  binding = tt;
  event = intent_reserved;
  ordinal = 0;
  digest = replicate 32 1;
  outcome = unresolved;
  metadata = unrecorded;
}

abbrev histories : List (History (Unit {0}))
histories = record { frames = intent ∷ []; recovery = reserved } ∷ []

retained : replay_ledger_records single named (intent_record ∷ []) ≡ ok histories
unfolding replay_ledger_records group_records group_record add_frame sort insert wrap_as
    new_record_id is_lower_hex hex_byte cut_prefix hex_token decode_frame encode_frame bounded
    validate_frame is_intent no_facts validate_event bytes_equal replay_groups replay_frames
    replay_next recovery_from_frame frame_digest ensure_unique_from closed_by has_key as_corrupt
retained = refl

find_outstanding-Lookup_example :
    (o : Option (Recovery (Unit {0}))) × (find_outstanding single named histories
        (codes "home")
        cache
      ≡ ok o)
    × Lookup single named (codes "home") cache histories o
find_outstanding-Lookup_example =
    find_outstanding-Lookup single named (intent_record ∷ []) histories (codes "home") cache
      retained

require_capacity_iff_example : require_capacity histories ≡ ok tt
require_capacity_iff_example =
    require_capacity_iff single named (intent_record ∷ []) histories retained

empty_ledger : replay_ledger_records single named [] ≡ ok []
unfolding replay_ledger_records group_records sort replay_groups ensure_unique_from
empty_ledger = refl

abbrev reservation : Candidate (Unit {0})
reservation = record { entry = intent_record; recovery = reserved }

reserves : reserve_candidate single named tt [] ≡ ok reservation
unfolding reserve_candidate require_capacity require_capacity_from find_outstanding find_from
    new_intent_frame recovery_from_frame frame_digest encode_frame bounded validate_frame is_intent
    no_facts validate_event bytes_equal entry_of wrap_as new_record_id is_lower_hex hex_byte
    cut_prefix hex_token as_corrupt
reserves = refl

reserve_candidate-Reserves_example : Reserves single named [] [] tt reservation
reserve_candidate-Reserves_example =
    reserve_candidate-Reserves single named [] [] tt reservation empty_ledger reserves

-- The reservation stands in the way of another one for its source.
blocked : reserve_candidate single named tt histories ≡ err conflict
unfolding reserve_candidate require_capacity require_capacity_from find_outstanding find_from
    retains closed_by bytes_equal path_equal components_equal
blocked = refl

abbrev pub dispatched : Candidate (Unit {0})
dispatched = record {
  entry = record {
    id = record { digest = digest_text; token = token_text; ordinal = 1 };
    contents = 1 ∷ [];
  };
  recovery = record reserved { event = metadata_dispatch_recorded; ordinal = 1 };
}

advances :
    transition_candidate single named reserved (plain metadata_dispatch_recorded) histories
    ≡ ok dispatched
unfolding transition_candidate find_history key_equal require_capacity require_capacity_from
    append_transition next_frame replay_frames replay_next recovery_from_frame apply_frame
    frame_digest encode_frame bounded validate_frame is_intent no_facts validate_facts
    validate_ordinary validate_event bytes_equal entry_of wrap_as new_record_id is_lower_hex
    hex_byte cut_prefix hex_token as_corrupt validate_transition follow stage closed_by
advances = refl

transition_candidate-Advances_example :
    Advances single named
      (intent_record ∷ [])
      reserved
      (plain metadata_dispatch_recorded)
      dispatched
transition_candidate-Advances_example =
    transition_candidate-Advances single named (intent_record ∷ []) histories reserved
      (plain metadata_dispatch_recorded) dispatched (λ x version valid. refl) retained advances

outstanding_recoveries-WithinLimit_example :
    WithinLimit (still_open histories) 1 (outstanding_recoveries histories 1)
outstanding_recoveries-WithinLimit_example =
    outstanding_recoveries-WithinLimit 1 histories (omega arith) (omega arith)

-- Two open recoveries are too many for a limit of one.
too_many : outstanding_recoveries (histories ++ histories) 1 ≡ err unsupported
unfolding outstanding_recoveries outstanding_from closed_by
too_many = refl
