-- ===== src/Ledger/Frame.antt =====
-- internal/state/recovery_ledger.go: frames, the view of a replayed history, and the frame digest.
-- The reservation binding is an interface: its own checks (`validateRecoveryBindingForSchema`) and
-- comparison (`sameRecoveryBinding`) are fields, beside the CBOR encoder and SHA-256.
use linux_deep_clean.Prelude.{
  ℕ, Bool, true, false, not, ◌&&◌, ◌||◌, [], ◌∷◌, ◌++◌, Option, none, some, ◌==◌, ltb, leb,
  if◌then◌else◌, Bytes, bytes_equal, length, replicate, codes, Result, ok, err, ◌>>=◌, ◌>>◌,
  require,
}
use linux_deep_clean.Ledger.Vocabulary.{
  LedgerError, corrupt, unsupported, Destination, Event, intent_reserved, restore_verified,
  reconciliation_resolved, Outcome, unresolved, resolved_move_verified, Metadata, unrecorded,
  validate_event, validate_outcome, validate_metadata, validate_ordinary,
}

pub record Frame (B : Type 0) : Type 0 where
  pub schema_version : ℕ
  pub binding : B
  pub event : Event
  pub ordinal : ℕ
  pub predecessor : Bytes
  pub outcome : Outcome
  pub metadata : Metadata

-- `Recovery`
pub record Recovery (B : Type 0) : Type 0 where
  pub schema_version : ℕ
  pub binding : B
  pub event : Event
  pub ordinal : ℕ
  pub digest : Bytes
  pub outcome : Outcome
  pub metadata : Metadata

pub record Bindings : Type 1 where
  pub Binding : Type 0
  pub validate_binding : Binding → ℕ → Result LedgerError (Unit {0})
  pub same_binding : Binding → Binding → Bool
  pub destination : Binding → Destination
  -- `recoveryFrameEncMode.Marshal` of the wire form for the frame's schema; `none` is an error
  pub marshal : Frame Binding → Option Bytes
  pub sha256 : Bytes → Bytes

abbrev pub maximum_ordinal : ℕ
maximum_ordinal = 15

abbrev pub maximum_frame_bytes : ℕ
maximum_frame_bytes = 65536

-- `[sha256.Size]byte{}`
abbrev pub zero_digest : Bytes
zero_digest = replicate 32 0

abbrev pub is_zero_digest : Bytes → Bool
is_zero_digest digest = bytes_equal digest zero_digest

-- `Recovery.Closed`
unfoldable pub closed_by : Event → Outcome → Bool
closed_by restore_verified outcome = true
closed_by reconciliation_resolved resolved_move_verified = false
closed_by reconciliation_resolved outcome = true
closed_by event outcome = false

abbrev pub closed : {B : Type 0} → Recovery B → Bool
closed r = closed_by r.event r.outcome

unfoldable pub is_intent : Event → Bool
is_intent intent_reserved = true
is_intent event = false

unfoldable pub no_facts : Outcome → Metadata → Bool
no_facts unresolved unrecorded = true
no_facts outcome metadata = false

-- `fmt.Errorf("%w: ...: %v", ErrRecoveryCorrupt, err)`
unfoldable pub as_corrupt : Result LedgerError (Unit {0}) → Result LedgerError (Unit {0})
as_corrupt (ok u) = ok u
as_corrupt (err e) = err corrupt

-- The metadata disposition of a stored resolution: empty, or in the vocabulary.
unfoldable pub validate_stored_metadata : Metadata → Result LedgerError (Unit {0})
validate_stored_metadata unrecorded = ok tt
validate_stored_metadata metadata = as_corrupt (validate_metadata metadata)

-- The facts of a frame that is not the first.
unfoldable pub validate_facts : Event → Outcome → Metadata → Result LedgerError (Unit {0})
unfolding as_corrupt validate_outcome validate_stored_metadata validate_metadata validate_ordinary
validate_facts reconciliation_resolved outcome metadata = do
  as_corrupt (validate_outcome outcome)
  validate_stored_metadata metadata
validate_facts event outcome metadata = as_corrupt (validate_ordinary outcome metadata)

abbrev pub known_schema : ℕ → Bool
known_schema version = version == 1 || version == 2

module _ (b : Bindings) where
  open b use {Binding, validate_binding, marshal, sha256}

  -- `validateRecoveryFrame`
  unfoldable pub validate_frame : Frame Binding → Result LedgerError (Unit {0})
  unfolding is_intent no_facts
  validate_frame frame = do
    require (known_schema frame.schema_version) corrupt
    validate_binding frame.binding frame.schema_version
    as_corrupt (validate_event frame.event)
    require (leb frame.ordinal maximum_ordinal) corrupt
    if frame.ordinal == 0
        then require
            (is_intent frame.event
              && is_zero_digest frame.predecessor
              && no_facts frame.outcome frame.metadata)
            corrupt
        else (do
          require (not (is_intent frame.event || is_zero_digest frame.predecessor)) corrupt
          validate_facts frame.event frame.outcome frame.metadata)

  unfoldable pub bounded : Option Bytes → Result LedgerError Bytes
  bounded none = err corrupt
  bounded (some encoded) =
      if length encoded == 0 || ltb maximum_frame_bytes (length encoded)
      then err unsupported
      else ok encoded

  -- `encodeRecoveryFrame`; a frame that is valid has a known schema
  unfoldable pub encode_frame : Frame Binding → Result LedgerError Bytes
  encode_frame frame = do validate_frame frame; bounded (marshal frame)

  -- the two domain separators end with a NUL
  abbrev pub digest_domain : ℕ → Bytes
  digest_domain version =
      if version == 1
      then codes "ldclean.recovery-frame.digest.v1" ++ 0 ∷ []
      else codes "ldclean.recovery-frame.digest.v2" ++ 0 ∷ []

  -- `recoveryFrameDigest`
  unfoldable pub frame_digest : Frame Binding → Result LedgerError Bytes
  frame_digest frame = do
    encoded ← encode_frame frame
    ok (sha256 (digest_domain frame.schema_version ++ encoded))

  -- `recoveryFromFrame`
  unfoldable pub recovery_from_frame : Frame Binding → Result LedgerError (Recovery Binding)
  recovery_from_frame frame = do
    digest ← frame_digest frame
    ok (record {
      schema_version = frame.schema_version;
      binding = frame.binding;
      event = frame.event;
      ordinal = frame.ordinal;
      digest = digest;
      outcome = frame.outcome;
      metadata = frame.metadata;
    })

  -- `Recovery.apply`
  unfoldable pub apply_frame :
      Recovery Binding → Frame Binding → Result LedgerError (Recovery Binding)
  apply_frame recovery frame = do
    require (recovery.schema_version == frame.schema_version) corrupt
    digest ← frame_digest frame
    ok (record recovery {
      event = frame.event;
      ordinal = frame.ordinal;
      digest = digest;
      outcome = frame.outcome;
      metadata = frame.metadata;
    })
