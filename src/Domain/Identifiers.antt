-- ===== src/Domain/Identifiers.antt =====
-- internal/domain/identifiers.go: identifiers are strings of a closed alphabet, digests are 32 bytes.
-- The Go types ProviderID, TrustedRootID, CandidateID, ActionID, RunID and CapabilityID are strings
-- with one check, `validateStableID`. The digest types are arrays of 32 bytes with one check.
pub mod Names
use linux_deep_clean.Prelude.{
  ℕ, zero, suc, ◌+◌, Bool, true, false, not, ◌&&◌, ◌||◌, [], ◌∷◌, ltb, leb, ◌==◌, if◌then◌else◌,
  Bytes, bytes_equal, codes, length, replicate, Result, ok, err, ◌>>=◌, ◌>>◌, require,
}

-- One constructor for each message, without the name of the field.
pub data IdError : Type 0 where
  bad_length bad_first path_like not_printable bad_character : IdError
  digest_length digest_zero : IdError

-- The bytes that an ID may have behind its first one.
unfoldable pub stable_byte : ℕ → ℕ → Bool
stable_byte index character =
    leb b'a' character && leb character b'z'
    || leb b'0' character && leb character b'9'
    || ltb 0 index && (character == b'-' || character == b'_' || character == b'.')

unfoldable pub stable_bytes : ℕ → Bytes → Result IdError (Unit {0})
stable_bytes index [] = ok tt
stable_bytes index (character ∷ rest) = do
  require (stable_byte index character) bad_character
  stable_bytes (index + 1) rest

-- `validateStableID`
unfoldable pub validate_stable_id : Bytes → Result IdError (Unit {0})
validate_stable_id [] = err bad_length
validate_stable_id (first ∷ rest) = do
  require (leb (length (first ∷ rest)) 96) bad_length
  require (not (first == b'-' || first == b'.')) bad_first
  stable_bytes 0 (first ∷ rest)

-- `NewActionID` and its five siblings
unfoldable pub new_stable_id : Bytes → Result IdError Bytes
new_stable_id value = do validate_stable_id value; ok value

-- `strings.Contains(value, "cc")` for a byte twice
unfoldable pub contains_twice : ℕ → Bytes → Bool
contains_twice c [] = false
contains_twice c (a ∷ []) = false
contains_twice c (a ∷ b ∷ rest) = a == c && b == c || contains_twice c (b ∷ rest)

-- `strings.ContainsRune(text, rune(character))` for an ASCII text
unfoldable pub contains_byte : Bytes → ℕ → Bool
contains_byte [] character = false
contains_byte (c ∷ rest) character = character == c || contains_byte rest character

unfoldable pub object_byte : ℕ → Bool
object_byte character =
    leb b'a' character && leb character b'z'
    || leb b'A' character && leb character b'Z'
    || leb b'0' character && leb character b'9'
    || contains_byte (codes "._:+@/=-") character

unfoldable pub object_bytes : Bytes → Result IdError (Unit {0})
object_bytes [] = ok tt
object_bytes (character ∷ rest) = do
  require (not (ltb character 0x21 || ltb 0x7e character)) not_printable
  require (object_byte character) bad_character
  object_bytes rest

-- `ManagerObjectID.Validate`, the checks of `NewManagerObjectID`
unfoldable pub validate_manager_object_id : Bytes → Result IdError (Unit {0})
validate_manager_object_id [] = err bad_length
validate_manager_object_id (first ∷ rest) = do
  let value = first ∷ rest
  require (leb (length value) 256) bad_length
  require (not (first == b'/' || first == b'-')) bad_first
  require (not (contains_twice b'.' value || contains_twice b'/' value)) path_like
  object_bytes value

unfoldable pub new_manager_object_id : Bytes → Result IdError Bytes
new_manager_object_id value = do validate_manager_object_id value; ok value

-- `validateDigest`, of an array of 32 bytes
unfoldable pub validate_digest : Bytes → Result IdError (Unit {0})
validate_digest value = require (not (bytes_equal value (replicate 32 0))) digest_zero

-- `newDigest`
unfoldable pub new_digest : Bytes → Result IdError Bytes
new_digest value = do require (length value == 32) digest_length; validate_digest value; ok value
