-- ===== src/Ledger/Sources.antt =====
-- internal/state/recovery_ledger.go: what the ledger reads of a binding, the key of its source, and
-- the decoding of a retained frame.
pub mod Keys
use linux_deep_clean.Prelude.{
  ℕ, ◌+◌, leb, err, ◌^◌, ◌/◌, ◌%◌, Bool, not, ◌||◌, List, [], ◌∷◌, ◌++◌, ltb, ◌==◌, Bytes,
  bytes_equal, length, Result, ok, ◌>>=◌, ◌>>◌, require,
}
use linux_deep_clean.Pathbytes.BytePath.{PathError, BytePath, new_path}
use linux_deep_clean.Ledger.Vocabulary.{LedgerError, corrupt}
use linux_deep_clean.Ledger.Frame.{Frame, Bindings, maximum_frame_bytes, encode_frame}

pub record Identities (b : Bindings) : Type 0 where
  -- `actionBindingDigest.Validate()`
  pub valid_digest : b.Binding → Bool
  -- `actionBindingDigest.String()`
  pub digest : b.Binding → Bytes
  pub token : b.Binding → Bytes
  pub root : b.Binding → Bytes
  pub source : b.Binding → BytePath
  -- the probe of the version, the strict CBOR decoding for it, and the frame of the wire form
  pub read_wire : Bytes → Result LedgerError (Frame b.Binding)

-- `appendRecoveryKeyPart`: the length as four bytes, then the value.
unfoldable pub append_key_part : Bytes → Bytes → Bytes
append_key_part encoded value =
    let size = length value in
    encoded ++ size / 2 ^ 24 % 256 ∷ size / 2 ^ 16 % 256 ∷ size / 2 ^ 8 % 256 ∷ size % 256 ∷ value

unfoldable pub append_components : Bytes → List Bytes → Bytes
append_components encoded [] = encoded
append_components encoded (component ∷ rest) =
    append_components (append_key_part encoded component) rest

-- `recoverySourceKey`
unfoldable pub source_key : Bytes → BytePath → Bytes
source_key root source = append_components (append_key_part [] root) source.components

-- The errors of `validateRecoveryPath`.
pub data PathFault : Type 0 where
  too_many too_long : PathFault
  not_path : PathError → PathFault

abbrev pub of_path : {A : Type 0} → Result PathError A → Result PathFault (Unit {0})
of_path (ok a) = ok tt
of_path (err e) = err (not_path e)

-- The sum of the sizes, with the bytes counted so far.
unfoldable pub bounded_bytes : ℕ → List Bytes → Result PathFault (Unit {0})
bounded_bytes decoded [] = ok tt
bounded_bytes decoded (component ∷ rest) = do
  require (leb (decoded + length component) 16384) too_long
  bounded_bytes (decoded + length component) rest

-- `validateRecoveryPath`
unfoldable pub validate_recovery_path : BytePath → Result PathFault (Unit {0})
validate_recovery_path path = do
  require (not (length path.components == 0 || ltb 128 (length path.components))) too_many
  bounded_bytes 0 path.components
  of_path (new_path path.components)

module _ (b : Bindings) (i : Identities b) where
  -- `decodeRecoveryFrame`
  unfoldable pub decode_frame : Bytes → Result LedgerError (Frame b.Binding)
  decode_frame encoded = do
    require (not (length encoded == 0 || ltb maximum_frame_bytes (length encoded))) corrupt
    frame ← i.read_wire encoded
    canonical ← encode_frame b frame
    require (bytes_equal encoded canonical) corrupt
    ok frame
