-- ===== src/Cbor/Scan.antt =====
-- internal/planproto/limits.go: the recursive scan of a CBOR frame.
-- `fuel` bounds the nesting. A frame is scanned with one more than the depth budget.
pub mod Keys
pub mod Safety
pub mod Total
use linux_deep_clean.Prelude.{
  ℕ, zero, suc, ◌+◌, ◌-◌, ◌/◌, Bool, true, false, not, ◌&&◌, ◌||◌, Option, none, some, [], ◌∷◌, ltb,
  leb, ◌==◌, if◌then◌else◌, Bytes, codes, length, Comparison, less, same, greater, bytes_compare,
  Result, ok, err, ◌>>=◌, ◌>>◌, require,
}
use linux_deep_clean.Cbor.Limits.{
  ScanError, empty_frame, frame_too_long, trailing_bytes, item_truncated, scalar_too_long, not_utf8,
  too_deep, array_too_long, map_too_long, duplicate_key, unsorted_key, path_too_long, tag,
  simple_value, components_not_array, too_many_components, actions_not_array, too_many_actions,
  panic, out_of_fuel, DecodeLimits, validate_decode_limits,
}
use linux_deep_clean.Cbor.Reads.{byte_at, slice}
use linux_deep_clean.Cbor.Utf8.{utf8_valid}
use linux_deep_clean.Cbor.Argument.{scan_argument, scan_advance}

-- `if err != nil { return false }`; a panic is no error value
unfoldable pub or_false : Result ScanError Bool → Result ScanError Bool
or_false (ok b) = ok b
or_false (err panic) = err panic
or_false (err e) = ok false

unfoldable pub text_matches : Bytes → ℕ → Bytes → Result ScanError Bool
text_matches data' index [] = ok true
text_matches data' index (w ∷ want) = do
  c ← byte_at data' index
  if c == w then text_matches data' (index + 1) want else ok false

unfoldable pub text_content : Bytes → ℕ → Bytes → Result ScanError Bool
text_content data' offset want = do
  (length', content) ← scan_argument data' offset
  if not (length' == length want)
      then ok false
      else (do scan_advance content length' (length data'); text_matches data' content want)

-- `cborTextEquals`
unfoldable pub cbor_text_equals : Bytes → ℕ → Bytes → Result ScanError Bool
cbor_text_equals data' offset want = if leb (length data') offset then ok false else (do
  head ← byte_at data' offset
  if not (head / 32 == 3) then ok false else or_false (text_content data' offset want))

-- `scanPathComponentsHeader` and `scanActionsHeader` differ in their budget and their errors.
unfoldable pub scan_header : ScanError → ScanError → ℕ → Bytes → ℕ → Result ScanError (Unit {0})
scan_header not_array too_many budget data' offset =
    if leb (length data') offset then err not_array else (do
      head ← byte_at data' offset
      if not (head / 32 == 4)
          then err not_array
          else (do (count, _) ← scan_argument data' offset; require (leb count budget) too_many))

unfoldable pub scan_path_components_header : Bytes → ℕ → DecodeLimits → Result ScanError (Unit {0})
scan_path_components_header data' offset limits =
    scan_header components_not_array too_many_components limits.max_path_components data' offset

unfoldable pub scan_actions_header : Bytes → ℕ → DecodeLimits → Result ScanError (Unit {0})
scan_actions_header data' offset limits =
    scan_header actions_not_array too_many_actions limits.max_actions data' offset

abbrev pub ordered : Comparison → Result ScanError (Unit {0})
ordered less = ok tt
ordered same = err duplicate_key
ordered greater = err unsorted_key

-- The key at `first` to `last` against the previous one; `none` is a start below zero.
unfoldable pub check_key_order : Bytes → Option (ℕ × ℕ) → ℕ → ℕ → Result ScanError (Unit {0})
check_key_order data' none first last = ok tt
check_key_order data' (some (previous_first, previous_last)) first last = do
  previous ← slice data' previous_first previous_last
  key ← slice data' first last
  ordered (bytes_compare previous key)

abbrev pub when : Bool → Result ScanError (Unit {0}) → Result ScanError (Unit {0})
when true m = m
when false m = ok tt

-- The loops over the items of an array and over the pairs of a map. `scan` scans one item.
unfoldable pub scan_items : (ℕ → Result ScanError ℕ) → ℕ → ℕ → Result ScanError ℕ
scan_items scan zero next = ok next
scan_items scan (suc left) next = do behind ← scan next; scan_items scan left behind

unfoldable pub scan_pair :
    (ℕ → Result ScanError ℕ)
    → Bytes
    → DecodeLimits
    → Option (ℕ × ℕ)
    → ℕ
    → Result ScanError (Bool × ℕ × ℕ)
scan_pair scan data' limits previous key_offset = do
  has_components ← cbor_text_equals data' key_offset (codes "components")
  key_end ← scan key_offset
  check_key_order data' previous key_offset key_end
  is_components ← cbor_text_equals data' key_offset (codes "components")
  when is_components (scan_path_components_header data' key_end limits)
  is_actions ← cbor_text_equals data' key_offset (codes "actions")
  when is_actions (scan_actions_header data' key_end limits)
  behind ← scan key_end
  ok (has_components, key_end, behind)

unfoldable pub scan_pairs :
    (ℕ → Result ScanError ℕ)
    → Bytes
    → DecodeLimits
    → ℕ
    → Bool
    → Option (ℕ × ℕ)
    → ℕ
    → Result ScanError (Bool × ℕ)
scan_pairs scan data' limits zero has previous next = ok (has, next)
scan_pairs scan data' limits (suc left) has previous next = do
  (has_components, key_end, behind) ← scan_pair scan data' limits previous next
  scan_pairs scan data' limits left (has || has_components) (some (next, key_end)) behind

-- Major types 2 and 3.
unfoldable pub scan_scalar : Bytes → DecodeLimits → ℕ → ℕ → ℕ → Result ScanError ℕ
scan_scalar data' limits major argument next =
    if ltb limits.max_scalar_bytes argument then err scalar_too_long else (do
      end ← scan_advance next argument (length data')
      if not (major == 3)
          then ok end
          else (do text ← slice data' next end; if utf8_valid text then ok end else err not_utf8))

-- Major type 4.
unfoldable pub scan_array : (ℕ → Result ScanError ℕ) → DecodeLimits → ℕ → ℕ → ℕ → Result ScanError ℕ
scan_array scan limits depth argument next =
    if ltb limits.max_depth (depth + 1)
    then err too_deep
    else if ltb limits.max_array_items argument
    then err array_too_long
    else scan_items scan argument next

-- Major type 5, at the offset of the map's head.
unfoldable pub scan_map :
    (ℕ → Result ScanError ℕ) → Bytes → DecodeLimits → ℕ → ℕ → ℕ → ℕ → Result ScanError ℕ
scan_map scan data' limits offset depth argument next =
    if ltb limits.max_depth (depth + 1)
    then err too_deep
    else if ltb limits.max_map_pairs argument
    then err map_too_long
    else (do
      (has_components, end) ← scan_pairs scan data' limits argument false none next
      if has_components && ltb limits.max_encoded_path_bytes (end - offset)
          then err path_too_long
          else ok end)

abbrev pub scan_simple : ℕ → ℕ → Result ScanError ℕ
scan_simple argument next =
    if argument == 20 || argument == 21 || argument == 22 then ok next else err simple_value

-- The `switch major`; a major type is at most 7.
unfoldable pub scan_major :
    (ℕ → Result ScanError ℕ) → Bytes → DecodeLimits → ℕ → ℕ → ℕ → ℕ → ℕ → Result ScanError ℕ
scan_major scan data' limits offset depth major argument next =
    if major == 0 || major == 1
    then ok next
    else if major == 2 || major == 3
    then scan_scalar data' limits major argument next
    else if major == 4
    then scan_array scan limits depth argument next
    else if major == 5
    then scan_map scan data' limits offset depth argument next
    else if major == 6
    then err tag
    else scan_simple argument next

-- `scanCBORItem`
unfoldable pub scan_item : ℕ → Bytes → ℕ → ℕ → DecodeLimits → Result ScanError ℕ
scan_item zero data' offset depth limits = err out_of_fuel
scan_item (suc fuel) data' offset depth limits =
    let scan : ℕ → Result ScanError ℕ = λ next. scan_item fuel data' next (depth + 1) limits in
    if leb (length data') offset then err item_truncated else (do
      head ← byte_at data' offset
      (argument, next) ← scan_argument data' offset
      scan_major scan data' limits offset depth (head / 32) argument next)

-- `scanCanonicalCBOR`
unfoldable pub scan_canonical_cbor : Bytes → DecodeLimits → Result ScanError (Unit {0})
scan_canonical_cbor data' limits = do
  validate_decode_limits limits
  require (ltb 0 (length data')) empty_frame
  require (leb (length data') limits.max_frame_bytes) frame_too_long
  end ← scan_item (limits.max_depth + 1) data' 0 0 limits
  require (end == length data') trailing_bytes
