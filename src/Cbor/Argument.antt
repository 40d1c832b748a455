-- ===== src/Cbor/Argument.antt =====
-- internal/planproto/limits.go: the head of a CBOR item (`scanCBORArgument`), and `scanCBORAdvance`.
-- Offsets and lengths are Go ints that stay within the frame; the value is a uint64.
pub mod Bounds
pub mod Shortest
use Prim.Native.Nat.{bit_or}
use linux_deep_clean.Prelude.{
  ℕ, zero, suc, ◌+◌, ◌-◌, ◌*◌, ◌%◌, ◌^◌, ltb, leb, ◌==◌, if◌then◌else◌, Bytes, length, Result, ok,
  err, ◌>>=◌,
}
use linux_deep_clean.Cbor.Limits.{
  ScanError, argument_truncated, not_minimal, indefinite_length, reserved_argument, outside_frame,
  content_truncated, length_overflow,
}
use linux_deep_clean.Cbor.Reads.{byte_at}

-- `value << bits` in uint64
abbrev pub shl : ℕ → ℕ → ℕ
shl value bits = value * 2 ^ bits % 2 ^ 64

-- The loop of the eight-byte form, over the indexes that are left.
unfoldable pub eight_bytes : ℕ → Bytes → ℕ → ℕ → Result ScanError ℕ
eight_bytes zero data' index value = ok value
eight_bytes (suc left) data' index value = do
  b ← byte_at data' index
  eight_bytes left data' (index + 1) (bit_or (shl value 8) b)

-- A value that a shorter form could hold is refused.
abbrev pub minimal : ℕ → ℕ → ℕ → Result ScanError (ℕ × ℕ)
minimal bound value next = if leb value bound then err not_minimal else ok (value, next)

-- The forms with one, two, four and eight bytes behind the head.
unfoldable pub argument_1 : Bytes → ℕ → Result ScanError (ℕ × ℕ)
argument_1 data' offset = if leb (length data') (offset + 1) then err argument_truncated else (do
  value ← byte_at data' (offset + 1)
  if ltb value 24 then err not_minimal else ok (value, offset + 2))

unfoldable pub argument_2 : Bytes → ℕ → Result ScanError (ℕ × ℕ)
argument_2 data' offset = if leb (length data') (offset + 2) then err argument_truncated else (do
  a ← byte_at data' (offset + 1)
  b ← byte_at data' (offset + 2)
  minimal 255 (bit_or (shl a 8) b) (offset + 3))

unfoldable pub argument_4 : Bytes → ℕ → Result ScanError (ℕ × ℕ)
argument_4 data' offset = if leb (length data') (offset + 4) then err argument_truncated else (do
  a ← byte_at data' (offset + 1)
  b ← byte_at data' (offset + 2)
  c ← byte_at data' (offset + 3)
  d ← byte_at data' (offset + 4)
  minimal 65535 (bit_or (bit_or (bit_or (shl a 24) (shl b 16)) (shl c 8)) d) (offset + 5))

unfoldable pub argument_8 : Bytes → ℕ → Result ScanError (ℕ × ℕ)
argument_8 data' offset =
    if leb (length data') (offset + 8)
    then err argument_truncated
    else (do value ← eight_bytes 8 data' (offset + 1) 0; minimal 4294967295 value (offset + 9))

-- The `switch additional`
unfoldable pub argument_form : ℕ → Bytes → ℕ → Result ScanError (ℕ × ℕ)
argument_form additional data' offset =
    if ltb additional 24
    then ok (additional, offset + 1)
    else if additional == 24
    then argument_1 data' offset
    else if additional == 25
    then argument_2 data' offset
    else if additional == 26
    then argument_4 data' offset
    else if additional == 27
    then argument_8 data' offset
    else if additional == 31
    then err indefinite_length
    else err reserved_argument

unfoldable pub scan_argument : Bytes → ℕ → Result ScanError (ℕ × ℕ)
scan_argument data' offset = do head ← byte_at data' offset; argument_form (head % 32) data' offset

unfoldable pub scan_advance : ℕ → ℕ → ℕ → Result ScanError ℕ
scan_advance offset count length' =
    if ltb length' offset
    then err outside_frame
    else if ltb (length' - offset) count
    then err content_truncated
    else if ltb (offset + count) offset
    then err length_overflow
    else ok (offset + count)
