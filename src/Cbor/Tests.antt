-- ===== src/Cbor/Tests.antt =====
-- Runs of the CBOR scanner at concrete frames.
use linux_deep_clean.Prelude.{◌≡◌, ok, refl, ok, [], ◌∷◌, Bytes}
use linux_deep_clean.Cbor.Limits.{default_decode_limits}
use linux_deep_clean.Cbor.Reads.{byte_at}
use linux_deep_clean.Cbor.Argument.{argument_form, argument_2, scan_argument}
use linux_deep_clean.Cbor.Argument.Shortest.{IsShortest, scan_argument-IsShortest}
use linux_deep_clean.Cbor.Scan.{scan_canonical_cbor}
use linux_deep_clean.Cbor.Scan.Total.{Answers, WithinBudget, scan_canonical_cbor-Answers}

-- {"a": [1, true], "b": "x"}
abbrev small_map : Bytes
small_map = 162 ∷ 97 ∷ 97 ∷ 130 ∷ 1 ∷ 245 ∷ 97 ∷ 98 ∷ 97 ∷ 120 ∷ []

scan_canonical_cbor-Answers_example :
    Answers
      (λ _. WithinBudget small_map default_decode_limits)
      (scan_canonical_cbor small_map default_decode_limits)
scan_canonical_cbor-Answers_example = scan_canonical_cbor-Answers small_map default_decode_limits

-- A byte string of 256 bytes starts so.
abbrev long_head : Bytes
long_head = 89 ∷ 1 ∷ 0 ∷ []

long_head_scanned : scan_argument long_head 0 ≡ ok (256, 3)
unfolding scan_argument argument_form argument_2 byte_at
long_head_scanned = refl

scan_argument-IsShortest_example : IsShortest 0 256 3
scan_argument-IsShortest_example = scan_argument-IsShortest long_head 0 256 3 long_head_scanned
