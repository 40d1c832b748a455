-- ===== src/Pathbytes/BytePath.antt =====
-- internal/pathbytes/byte_path.go: paths as validated raw-byte components.
-- A nil and an empty slice of components are one list here, since both are refused alike.
pub mod Names
pub mod Display
use linux_deep_clean.Prelude.{
  ℕ, ◌+◌, ◌-◌, ◌/◌, ◌%◌, Bool, true, false, not, ◌&&◌, ◌||◌, List, [], ◌∷◌, ◌++◌, ltb, leb, ◌==◌,
  if◌then◌else◌, Bytes, bytes_equal, Result, ok, err, ◌>>◌, require,
}

-- One constructor for each message that the package formats.
pub data PathError : Type 0 where
  no_components : PathError
  component_empty : ℕ → PathError
  component_not_name : ℕ → PathError
  component_nul : ℕ → PathError
  component_slash : ℕ → PathError
  limit_input limit_components limit_decoded : PathError
  trash_empty over_input over_components over_decoded : PathError
  empty_component incomplete_escape bad_escape escaped_unreserved bad_byte : PathError

pub record BytePath : Type 0 where
  pub components : List Bytes

-- The budgets are Go ints. A negative one is refused by `validate_limits` like zero.
pub record DecodeLimits : Type 0 where
  pub max_input_bytes : ℕ
  pub max_components : ℕ
  pub max_decoded_bytes : ℕ

abbrev pub default_trash_decode_limits : DecodeLimits
default_trash_decode_limits = record {
  max_input_bytes = 262144;
  max_components = 1024;
  max_decoded_bytes = 262144;
}

unfoldable pub validate_limits : DecodeLimits → Result PathError (Unit {0})
validate_limits limits = do
  require (ltb 0 limits.max_input_bytes) limit_input
  require (ltb 0 limits.max_components) limit_components
  require (ltb 0 limits.max_decoded_bytes) limit_decoded

-- The loop over the bytes of component `index`.
unfoldable pub validate_bytes : ℕ → Bytes → Result PathError (Unit {0})
validate_bytes index [] = ok tt
validate_bytes index (value ∷ rest) =
    if value == 0
    then err (component_nul index)
    else if value == b'/'
    then err (component_slash index)
    else validate_bytes index rest

unfoldable pub validate_component : ℕ → Bytes → Result PathError (Unit {0})
validate_component index [] = err (component_empty index)
validate_component index (value ∷ rest) =
    let component = value ∷ rest in
    if bytes_equal component (b'.' ∷ []) || bytes_equal component (b'.' ∷ b'.' ∷ [])
    then err (component_not_name index)
    else validate_bytes index component

unfoldable pub validate_from : ℕ → List Bytes → Result PathError (Unit {0})
validate_from index [] = ok tt
validate_from index (component ∷ rest) = do
  validate_component index component
  validate_from (index + 1) rest

unfoldable pub validate_components : List Bytes → Result PathError (Unit {0})
validate_components [] = err no_components
validate_components (component ∷ rest) = validate_from 0 (component ∷ rest)

-- `New`. Slices are values, so the copies need no counterpart.
unfoldable pub new_path : List Bytes → Result PathError BytePath
new_path components = do validate_components components; ok (record { components = components })

-- `BytePath.Equal`: the test of the lengths, then the loop over the positions.
unfoldable pub components_equal : List Bytes → List Bytes → Bool
components_equal [] [] = true
components_equal (a ∷ rest) (b ∷ more) = bytes_equal a b && components_equal rest more
components_equal _ _ = false

unfoldable pub path_equal : BytePath → BytePath → Bool
path_equal path other = components_equal path.components other.components

unfoldable pub display_plain_byte : ℕ → Bool
display_plain_byte value = leb 0x21 value && leb value 0x7e && not (value == b'\\')

-- uint8 arithmetic
unfoldable pub upper_hex : ℕ → ℕ
upper_hex value = if ltb value 10 then (b'0' + value) % 256 else (b'A' + (value + 256 - 10)) % 256

unfoldable pub display_byte : ℕ → Bytes
display_byte value =
    if display_plain_byte value
    then value ∷ []
    else b'\\' ∷ b'x' ∷ upper_hex (value / 16) ∷ upper_hex (value % 16) ∷ []

unfoldable pub display_component : Bytes → Bytes
display_component [] = []
display_component (value ∷ rest) = display_byte value ++ display_component rest

unfoldable pub display_from : ℕ → List Bytes → Bytes
display_from index [] = []
display_from index (component ∷ rest) =
    (if ltb 0 index then b'/' ∷ [] else [])
    ++ (display_component component ++ display_from (index + 1) rest)

unfoldable pub display : BytePath → Bytes
display path = display_from 0 path.components
