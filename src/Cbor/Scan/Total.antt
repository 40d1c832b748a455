-- ===== src/Cbor/Scan/Total.antt =====
-- What a caller of `scanCBORItem` and `scanCanonicalCBOR` of internal/planproto/limits.go relies on.
use linux_deep_clean.Prelude.{
  ℕ, ◌+◌, ◌≤◌, ◌<◌, ◌≡◌, true, refl, arith, ltb, leb, ◌⊎◌, inl, inr, Bytes, length, Result, ok, err,
  require, bind-eq-ok, require-eq-ok, ==_iff, ltb→lt, leb→le,
}
use linux_deep_clean.Cbor.Limits.{
  ScanError, empty_frame, frame_too_long, DecodeLimits, validate_decode_limits,
}
use linux_deep_clean.Cbor.Ensures.{is_refusal, Ensures, Ensures-bind}
use linux_deep_clean.Cbor.Scan.{scan_item, scan_canonical_cbor}
use linux_deep_clean.Cbor.Scan.Keys.{Some, Ensures-require_any}
use linux_deep_clean.Cbor.Scan.Safety.{After, scan_item-Ensures}

-- A result of a scan that a caller sees: a value, or an error that the source formats.
abbrev pub Answers : {A : Type 0} → (A → Type 0) → Result ScanError A → Type 0
Answers {A} P m =
    ((a : A) × (m ≡ ok a) × P a) ⊎ ((e : ScanError) × (m ≡ err e) × (is_refusal e ≡ true))

Ensures-Answers : {A : Type 0} (P : A → Type 0) (m : Result ScanError A) → Ensures P m → Answers P m
Ensures-Answers P (ok a) h = inl (a, refl, h)
Ensures-Answers P (err e) h = inr (e, refl, h)

-- For every frame, offset and limits, the scan of an item at a depth within the budget, with fuel
-- for one more level than the budget has left, never reads outside the frame and never
-- runs out of fuel: it gives an end behind the offset and inside the frame, or a formatted error.
pub scan_item-Answers :
    (data' : Bytes) (fuel offset depth : ℕ) (limits : DecodeLimits)
    → fuel + depth ≡ limits.max_depth + 1
    → depth ≤ limits.max_depth
    → Answers
        (λ end. (offset < end) × (end ≤ length data'))
        (scan_item fuel data' offset depth limits)
scan_item-Answers data' fuel offset depth limits h k =
    Ensures-Answers _ _ (scan_item-Ensures data' fuel offset depth limits h k)

validate-Ensures : (limits : DecodeLimits) → Ensures Some (validate_decode_limits limits)
unfolding validate_decode_limits is_refusal
validate-Ensures limits = ground arith

-- A frame that starts and ends where its one item does, and is within the budget.
abbrev pub WithinBudget : Bytes → DecodeLimits → Type 0
WithinBudget data' limits =
    (0 < length data')
    × (length data' ≤ limits.max_frame_bytes)
    × (scan_item (limits.max_depth + 1) data' 0 0 limits ≡ ok (length data'))

scan_canonical_cbor-Ensures :
    (data' : Bytes) (limits : DecodeLimits) → Ensures Some (scan_canonical_cbor data' limits)
unfolding scan_canonical_cbor is_refusal
scan_canonical_cbor-Ensures data' limits =
    Ensures-bind Some Some (validate_decode_limits limits) _ (validate-Ensures limits) (λ _ _.
      Ensures-bind Some Some (require (ltb 0 (length data')) empty_frame) _
        (Ensures-require_any _ _ refl)
        (λ _ _.
          Ensures-bind Some Some
            (require (leb (length data') limits.max_frame_bytes) frame_too_long) _
            (Ensures-require_any _ _ refl)
            (λ _ _.
              Ensures-bind (After data' 0) Some (scan_item (limits.max_depth + 1) data' 0 0 limits)
                _
                (scan_item-Ensures data' (limits.max_depth + 1) 0 0 limits (omega arith)
                  (omega arith))
                (λ end _. Ensures-require_any _ _ refl))))

scan_canonical_cbor-WithinBudget :
    (data' : Bytes) (limits : DecodeLimits)
    → scan_canonical_cbor data' limits ≡ ok tt
    → WithinBudget data' limits
unfolding scan_canonical_cbor
scan_canonical_cbor-WithinBudget data' limits h =
    let (_, _, h1) = bind-eq-ok (validate_decode_limits limits) _ h in
    let (_, e2, h2) = bind-eq-ok (require (ltb 0 (length data')) empty_frame) _ h1 in
    let (_, e3, h3) =
      bind-eq-ok (require (leb (length data') limits.max_frame_bytes) frame_too_long) _ h2 in
    let (end, e4, h4) = bind-eq-ok (scan_item (limits.max_depth + 1) data' 0 0 limits) _ h3 in
    let at_end : end ≡ length data' = (==_iff end (length data')).0 (require-eq-ok _ _ h4) in
    (ltb→lt _ _ (require-eq-ok _ _ e2), leb→le _ _ (require-eq-ok _ _ e3), cc)

-- For every byte string and every limits, zero ones included, the scan of a frame ends with an
-- answer: it accepts, and then the frame is not empty, is no longer than the byte budget and is
-- exactly one item with no bytes behind it, or it gives one of the errors that the source formats. It
-- neither reads outside the frame nor runs out of fuel.
pub scan_canonical_cbor-Answers :
    (data' : Bytes) (limits : DecodeLimits)
    → Answers (λ _. WithinBudget data' limits) (scan_canonical_cbor data' limits)
scan_canonical_cbor-Answers data' limits =
    elim (Ensures-Answers Some (scan_canonical_cbor data' limits)
      (scan_canonical_cbor-Ensures data' limits)) [
        | inl (u, e, _) ↦ inl (u, e, scan_canonical_cbor-WithinBudget data' limits e)
        | inr refused ↦ inr refused
      ]
