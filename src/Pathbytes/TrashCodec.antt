-- ===== src/Pathbytes/TrashCodec.antt =====
-- internal/pathbytes/trash_percent_codec.go: the canonical percent form of a Trash path.
-- The proofs are in the modules below. The decoder's loop is a recursion on the bytes that are left.
pub mod Nibbles
mod Steps
pub mod RoundTrip
pub mod Canonical
use Prim.Native.Nat.{bit_or}
use linux_deep_clean.Prelude.{
  ℕ, ◌+◌, ◌-◌, ◌*◌, ◌/◌, ◌%◌, Bool, true, false, not, ◌&&◌, ◌||◌, List, [], ◌∷◌, ◌++◌, Option, none,
  some, ltb, leb, ◌==◌, if◌then◌else◌, Bytes, length, Result, ok, err, ◌>>=◌, ◌>>◌, require,
}
use linux_deep_clean.Pathbytes.BytePath.{
  PathError, trash_empty, over_input, over_components, over_decoded, empty_component,
  incomplete_escape, bad_escape, escaped_unreserved, bad_byte, BytePath, DecodeLimits,
  default_trash_decode_limits, validate_limits, validate_components, new_path, upper_hex,
}

unfoldable pub trash_unreserved : ℕ → Bool
trash_unreserved value =
    leb b'a' value && leb value b'z'
    || leb b'A' value && leb value b'Z'
    || leb b'0' value && leb value b'9'
    || value == b'-'
    || value == b'.'
    || value == b'_'
    || value == b'~'

-- `none` is the second result `false`.
unfoldable pub canonical_hex_digit : ℕ → Option ℕ
canonical_hex_digit value =
    if leb b'0' value && leb value b'9'
    then some (value - b'0')
    else if leb b'A' value && leb value b'F'
    then some (value - b'A' + 10)
    else none

unfoldable pub encode_byte : ℕ → Bytes
encode_byte value =
    if trash_unreserved value
    then value ∷ []
    else b'%' ∷ upper_hex (value / 16) ∷ upper_hex (value % 16) ∷ []

unfoldable pub encode_component : Bytes → Bytes
encode_component [] = []
encode_component (value ∷ rest) = encode_byte value ++ encode_component rest

unfoldable pub encode_from : ℕ → List Bytes → Bytes
encode_from index [] = []
encode_from index (component ∷ rest) =
    (if ltb 0 index then b'/' ∷ [] else [])
    ++ (encode_component component ++ encode_from (index + 1) rest)

abbrev pub encode_valid : Result PathError (Unit {0}) → BytePath → Bytes
encode_valid (ok _) path = encode_from 0 path.components
encode_valid (err _) path = []

-- `PercentEncodeTrashPath`
unfoldable pub percent_encode_trash_path : BytePath → Bytes
percent_encode_trash_path path = encode_valid (validate_components path.components) path

-- The first loop: it counts the separators, and stops at the component budget.
unfoldable pub count_components : DecodeLimits → Bytes → ℕ → Result PathError ℕ
count_components limits [] count = ok count
count_components limits (value ∷ rest) count =
    if not (value == b'/')
    then count_components limits rest count
    else if leb limits.max_components count
    then err over_components
    else count_components limits rest (count + 1)

-- What is behind the loop: the last component is closed.
unfoldable pub close_last : Bytes → List Bytes → Result PathError (List Bytes)
close_last [] components = err empty_component
close_last component components = ok (components ++ component ∷ [])

unfoldable pub hex_pair : Option ℕ → Option ℕ → Result PathError ℕ
hex_pair (some high) (some low) = ok (bit_or (high * 16 % 256) low)
hex_pair _ _ = err bad_escape

-- The byte that `%`, `first`, `second` stand for.
unfoldable pub decode_escape : DecodeLimits → ℕ → ℕ → ℕ → Result PathError ℕ
decode_escape limits first second decoded_bytes = do
  decoded ← hex_pair (canonical_hex_digit first) (canonical_hex_digit second)
  if trash_unreserved decoded
      then err escaped_unreserved
      else if leb limits.max_decoded_bytes decoded_bytes
      then err over_decoded
      else ok decoded

abbrev pub Loop : Type 0
Loop = Bytes → List Bytes → ℕ → Result PathError (List Bytes)

abbrev pub close_component : Bytes → List Bytes → ℕ → Loop → Result PathError (List Bytes)
close_component [] components decoded_bytes next = err empty_component
close_component component components decoded_bytes next =
    next [] (components ++ component ∷ []) decoded_bytes

-- One round at the byte `value`. `next` is the loop one byte on. `escape` reads the two bytes
-- behind `value`, and `skip` is the loop behind them.
unfoldable pub decode_step : DecodeLimits → ℕ → Loop → (ℕ → Result PathError ℕ) → Loop → Loop
decode_step limits value next escape skip component components decoded_bytes =
    if value == b'/'
    then close_component component components decoded_bytes next
    else if trash_unreserved value
    then (if leb limits.max_decoded_bytes decoded_bytes
        then err over_decoded
        else next (component ++ value ∷ []) components (decoded_bytes + 1))
    else if value == b'%'
    then (do
      decoded ← escape decoded_bytes
      skip (component ++ decoded ∷ []) components (decoded_bytes + 1))
    else err bad_byte

-- The second loop, over the bytes that are left.
unfoldable pub decode_loop : DecodeLimits → Bytes → Loop
unfolding decode_step close_last decode_escape
decode_loop limits [] component components decoded_bytes = close_last component components
decode_loop limits (a ∷ []) component components decoded_bytes =
    decode_step limits a (λ c cs n. decode_loop limits [] c cs n) (λ n. err incomplete_escape)
      (λ c cs n. err incomplete_escape) component components decoded_bytes
decode_loop limits (a ∷ b ∷ []) component components decoded_bytes =
    decode_step limits a (λ c cs n. decode_loop limits (b ∷ []) c cs n) (λ n. err incomplete_escape)
      (λ c cs n. err incomplete_escape) component components decoded_bytes
decode_loop limits (a ∷ b ∷ d ∷ rest) component components decoded_bytes =
    decode_step limits a (λ c cs n. decode_loop limits (b ∷ d ∷ rest) c cs n)
      (λ n. decode_escape limits b d n) (λ c cs n. decode_loop limits rest c cs n) component
      components decoded_bytes

-- `PercentDecodeTrashPathWithLimits`
unfoldable pub percent_decode_with_limits : Bytes → DecodeLimits → Result PathError BytePath
percent_decode_with_limits encoded limits = do
  validate_limits limits
  require (ltb 0 (length encoded)) trash_empty
  require (leb (length encoded) limits.max_input_bytes) over_input
  count_components limits encoded 1
  components ← decode_loop limits encoded [] [] 0
  new_path components

-- `PercentDecodeTrashPath`
unfoldable pub percent_decode_trash_path : Bytes → Result PathError BytePath
percent_decode_trash_path encoded = percent_decode_with_limits encoded default_trash_decode_limits
