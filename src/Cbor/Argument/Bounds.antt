-- ===== src/Cbor/Argument/Bounds.antt =====
-- `scanCBORArgument` and `scanCBORAdvance` of internal/planproto/limits.go stay inside the frame.
use linux_deep_clean.Prelude.{
  ℕ, zero, suc, ◌+◌, ◌≤◌, ◌<◌, ◌%◌, ◌≡◌, refl, arith, leb, if◌then◌else◌, Bool-cases, inl, inr,
  Bytes, length, Result, err, ◌>>=◌,
}
use linux_deep_clean.Cbor.Limits.{ScanError, argument_truncated}
use linux_deep_clean.Cbor.Reads.{byte_at}
use linux_deep_clean.Cbor.Argument.{
  eight_bytes, minimal, argument_1, argument_2, argument_4, argument_8, argument_form,
  scan_argument, scan_advance,
}
use linux_deep_clean.Cbor.Ensures.{is_refusal, Ensures, Ensures-bind, byte_at-Ensures, leb_false→lt}

eight_bytes-Ensures :
    (left : ℕ) (data' : Bytes) (index value : ℕ)
    → index + left ≤ length data'
    → Ensures (λ _. Unit {0}) (eight_bytes left data' index value)
unfolding eight_bytes
eight_bytes-Ensures zero data' index value h = tt
eight_bytes-Ensures (suc left) data' index value h =
    Ensures-bind (λ _. Unit {0}) (λ _. Unit {0}) (byte_at data' index) _
      (byte_at-Ensures data' index (omega arith))
      (λ b _. eight_bytes-Ensures left data' (index + 1) _ (omega arith))

-- A head ends behind its first byte, and inside the frame.
abbrev pub Behind : ℕ → Bytes → ℕ × ℕ → Type 0
Behind offset data' (value, next) = (offset < next) × (next ≤ length data')

minimal-Ensures :
    (offset : ℕ) (data' : Bytes) (bound value next : ℕ)
    → (offset < next) × (next ≤ length data')
    → Ensures (Behind offset data') (minimal bound value next)
unfolding is_refusal
minimal-Ensures offset data' bound value next h = ground arith

pub scan_advance-Ensures :
    (offset count length' : ℕ)
    → Ensures (λ end. (end ≡ offset + count) × (end ≤ length')) (scan_advance offset count length')
unfolding scan_advance is_refusal
scan_advance-Ensures offset count length' = ground arith

module _ (data' : Bytes) (offset : ℕ) where
  -- The test that the bytes of a form are there.
  form-Ensures :
      (size : ℕ) (m : Result ScanError (ℕ × ℕ))
      → (offset + size < length data' → Ensures (Behind offset data') m)
      → Ensures
          (Behind offset data')
          (if leb (length data') (offset + size) then err argument_truncated else m)
  unfolding is_refusal
  form-Ensures size m h = elim (Bool-cases (leb (length data') (offset + size))) [
    | inl e ↦ rw e refl
    | inr e ↦ rw e (h (leb_false→lt _ _ e))
  ]

  -- A read of a byte that is there.
  read-Ensures :
      (index : ℕ) (f : ℕ → Result ScanError (ℕ × ℕ))
      → index < length data'
      → ((b : ℕ) → Ensures (Behind offset data') (f b))
      → Ensures (Behind offset data') (byte_at data' index >>= f)
  read-Ensures index f h k =
      Ensures-bind (λ _. Unit {0}) (Behind offset data') (byte_at data' index) f
        (byte_at-Ensures data' index h) (λ b _. k b)

  argument_1-Ensures : Ensures (Behind offset data') (argument_1 data' offset)
  unfolding argument_1 is_refusal
  argument_1-Ensures = form-Ensures 1 _ (λ h. read-Ensures (offset + 1) _ h (λ value. ground arith))

  argument_2-Ensures : Ensures (Behind offset data') (argument_2 data' offset)
  unfolding argument_2
  argument_2-Ensures = form-Ensures 2 _ (λ h. read-Ensures (offset + 1) _ (omega arith) (λ a.
      read-Ensures (offset + 2) _ (omega arith)
        (λ b. minimal-Ensures offset data' 255 _ (offset + 3) (omega arith, omega arith))))

  argument_4-Ensures : Ensures (Behind offset data') (argument_4 data' offset)
  unfolding argument_4
  argument_4-Ensures = form-Ensures 4 _ (λ h. read-Ensures (offset + 1) _ (omega arith) (λ a.
      read-Ensures (offset + 2) _ (omega arith) (λ b.
        read-Ensures (offset + 3) _ (omega arith) (λ c.
          read-Ensures (offset + 4) _ (omega arith)
            (λ d. minimal-Ensures offset data' 65535 _ (offset + 5) (omega arith, omega arith))))))

  argument_8-Ensures : Ensures (Behind offset data') (argument_8 data' offset)
  unfolding argument_8
  argument_8-Ensures = form-Ensures 8 _ (λ h.
      Ensures-bind (λ _. Unit {0}) (Behind offset data') (eight_bytes 8 data' (offset + 1) 0) _
        (eight_bytes-Ensures 8 data' (offset + 1) 0 (omega arith))
        (λ value _.
          minimal-Ensures offset data' 4294967295 value (offset + 9) (omega arith, omega arith)))

  argument_form-Ensures :
      (additional : ℕ)
      → offset < length data'
      → Ensures (Behind offset data') (argument_form additional data' offset)
  unfolding argument_form is_refusal
  argument_form-Ensures additional h =
      let h1 = argument_1-Ensures in
      let h2 = argument_2-Ensures in
      let h4 = argument_4-Ensures in let h8 = argument_8-Ensures in ground arith

  pub scan_argument-Ensures :
      offset < length data' → Ensures (Behind offset data') (scan_argument data' offset)
  unfolding scan_argument
  scan_argument-Ensures h = read-Ensures offset _ h (λ head. argument_form-Ensures (head % 32) h)
