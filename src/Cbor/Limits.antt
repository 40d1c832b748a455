-- ===== src/Cbor/Limits.antt =====
-- internal/planproto/limits.go: the decode budgets. They are Go ints; a negative one is refused by
-- `validate_decode_limits` like zero.
use linux_deep_clean.Prelude.{ℕ, ltb, leb, Result, ◌>>◌, require}

-- A constructor for each kind of refusal, and two that no run shows: `panic` is a read outside the
-- frame, `out_of_fuel` a nesting deeper than the recursion allows for.
pub data ScanError : Type 0 where
  bad_limits empty_frame frame_too_long trailing_bytes item_truncated : ScanError
  scalar_too_long not_utf8 too_deep array_too_long map_too_long : ScanError
  duplicate_key unsorted_key path_too_long tag simple_value : ScanError
  components_not_array too_many_components actions_not_array too_many_actions : ScanError
  argument_truncated not_minimal indefinite_length reserved_argument : ScanError
  outside_frame content_truncated length_overflow : ScanError
  panic out_of_fuel : ScanError

pub record DecodeLimits : Type 0 where
  pub max_frame_bytes : ℕ
  pub max_depth : ℕ
  pub max_actions : ℕ
  pub max_map_pairs : ℕ
  pub max_array_items : ℕ
  pub max_scalar_bytes : ℕ
  pub max_path_components : ℕ
  pub max_encoded_path_bytes : ℕ

abbrev pub default_decode_limits : DecodeLimits
default_decode_limits = record {
  max_frame_bytes = 4194304;
  max_depth = 16;
  max_actions = 1024;
  max_map_pairs = 128;
  max_array_items = 2048;
  max_scalar_bytes = 1048576;
  max_path_components = 1024;
  max_encoded_path_bytes = 262144;
}

unfoldable pub validate_decode_limits : DecodeLimits → Result ScanError (Unit {0})
validate_decode_limits limits = do
  require (ltb 0 limits.max_frame_bytes) bad_limits
  require (ltb 0 limits.max_depth) bad_limits
  require (ltb 0 limits.max_actions) bad_limits
  require (ltb 0 limits.max_map_pairs) bad_limits
  require (ltb 0 limits.max_array_items) bad_limits
  require (ltb 0 limits.max_scalar_bytes) bad_limits
  require (ltb 0 limits.max_path_components) bad_limits
  require (ltb 0 limits.max_encoded_path_bytes) bad_limits
  require (leb limits.max_actions limits.max_array_items) bad_limits
  require (leb limits.max_path_components limits.max_array_items) bad_limits
  require (leb limits.max_encoded_path_bytes limits.max_frame_bytes) bad_limits
