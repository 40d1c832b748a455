-- ===== src/Cbor/Argument/Shortest.antt =====
-- `scanCBORArgument` of internal/planproto/limits.go accepts the shortest head of a value only.
use linux_deep_clean.Prelude.{
  ℕ, ◌+◌, ◌≤◌, ◌<◌, ◌%◌, ◌≡◌, arith, leb, if◌then◌else◌, ◌⊎◌, Bytes, length, Result, ok, err,
  bind-eq-ok,
}
use linux_deep_clean.Cbor.Limits.{ScanError, argument_truncated}
use linux_deep_clean.Cbor.Reads.{byte_at}
use linux_deep_clean.Cbor.Argument.{
  eight_bytes, minimal, argument_1, argument_2, argument_4, argument_8, argument_form,
  scan_argument,
}

-- A form of `size` bytes, and the value above the ones that the next shorter form holds.
abbrev pub Form : ℕ → ℕ → ℕ → ℕ → ℕ → Type 0
Form size least offset value next = (next ≡ offset + size) × (least ≤ value)

-- The five forms.
abbrev pub IsShortest : ℕ → ℕ → ℕ → Type 0
IsShortest offset value next =
    ((next ≡ offset + 1) × (value < 24))
    ⊎ (Form 2 24 offset value next
        ⊎ (Form 3 256 offset value next
            ⊎ (Form 5 65536 offset value next ⊎ Form 9 4294967296 offset value next)))

module _ (data' : Bytes) (offset value next : ℕ) where
  form_body :
      (size : ℕ) (m : Result ScanError (ℕ × ℕ))
      → (if leb (length data') (offset + size) then err argument_truncated else m)
        ≡ ok (value, next)
      → m ≡ ok (value, next)
  form_body size m h = ground arith

  minimal-Form :
      (bound v n : ℕ) → minimal bound v n ≡ ok (value, next) → (n ≡ next) × (bound < value)
  minimal-Form bound v n h = ground arith

  argument_1-Form : argument_1 data' offset ≡ ok (value, next) → Form 2 24 offset value next
  unfolding argument_1
  argument_1-Form h =
      let (v, _, h1) = bind-eq-ok (byte_at data' (offset + 1)) _ (form_body 1 _ h) in ground arith

  argument_2-Form : argument_2 data' offset ≡ ok (value, next) → Form 3 256 offset value next
  unfolding argument_2
  argument_2-Form h =
      let (_, _, h1) = bind-eq-ok (byte_at data' (offset + 1)) _ (form_body 2 _ h) in
      let (_, _, h2) = bind-eq-ok (byte_at data' (offset + 2)) _ h1 in
      let (same, above) = minimal-Form 255 _ (offset + 3) h2 in (omega arith, omega arith)

  argument_4-Form : argument_4 data' offset ≡ ok (value, next) → Form 5 65536 offset value next
  unfolding argument_4
  argument_4-Form h =
      let (_, _, h1) = bind-eq-ok (byte_at data' (offset + 1)) _ (form_body 4 _ h) in
      let (_, _, h2) = bind-eq-ok (byte_at data' (offset + 2)) _ h1 in
      let (_, _, h3) = bind-eq-ok (byte_at data' (offset + 3)) _ h2 in
      let (_, _, h4) = bind-eq-ok (byte_at data' (offset + 4)) _ h3 in
      let (same, above) = minimal-Form 65535 _ (offset + 5) h4 in (omega arith, omega arith)

  argument_8-Form : argument_8 data' offset ≡ ok (value, next) → Form 9 4294967296 offset value next
  unfolding argument_8
  argument_8-Form h =
      let (v, _, h1) = bind-eq-ok (eight_bytes 8 data' (offset + 1) 0) _ (form_body 8 _ h) in
      let (same, above) = minimal-Form 4294967295 v (offset + 9) h1 in (omega arith, omega arith)

  argument_form-IsShortest :
      (additional : ℕ)
      → argument_form additional data' offset ≡ ok (value, next)
      → IsShortest offset value next
  unfolding argument_form
  argument_form-IsShortest additional h =
      ground (arith, argument_1-Form, argument_2-Form, argument_4-Form, argument_8-Form)

  -- An accepted head has one, two, three, five or nine bytes, and its value is one that no
  -- shorter form holds.
  pub scan_argument-IsShortest :
      scan_argument data' offset ≡ ok (value, next) → IsShortest offset value next
  unfolding scan_argument
  scan_argument-IsShortest h =
      let (head, _, h1) = bind-eq-ok (byte_at data' offset) _ h in
      argument_form-IsShortest (head % 32) h1
