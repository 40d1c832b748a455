-- ===== src/Cbor/Scan/Keys.antt =====
-- The look at a map key in `scanCBORItem` of internal/planproto/limits.go reads inside the frame.
use linux_deep_clean.Prelude.{
  ℕ, ◌+◌, ◌≤◌, ◌<◌, ◌/◌, Bool, true, false, not, ◌≡◌, refl, arith, leb, ◌==◌, [], ◌∷◌, Option, none,
  some, Bytes, length, Comparison, less, same, greater, bytes_compare, Result, ok, err, require,
}
use linux_deep_clean.Cbor.Limits.{ScanError, panic}
use linux_deep_clean.Cbor.Reads.{byte_at, slice}
use linux_deep_clean.Cbor.Argument.{scan_argument, scan_advance}
use linux_deep_clean.Cbor.Argument.Bounds.{Behind, scan_argument-Ensures, scan_advance-Ensures}
use linux_deep_clean.Cbor.Ensures.{
  is_refusal, Ensures, Ensures-bind, Ensures-if, byte_at-Ensures, slice-Ensures, leb_false→lt,
}
use linux_deep_clean.Cbor.Scan.{
  or_false, text_matches, text_content, cbor_text_equals, scan_header, ordered, check_key_order,
  when,
}

-- Any success will do.
abbrev pub Some : {A : Type 0} → A → Type 0
Some _ = Unit {0}

or_false-Ensures : (m : Result ScanError Bool) → Ensures Some m → Ensures Some (or_false m)
unfolding or_false is_refusal
or_false-Ensures (ok b) h = tt
or_false-Ensures (err panic) h = h
or_false-Ensures (err _) h = tt

pub Ensures-require_any :
    (b : Bool) (e : ScanError) → is_refusal e ≡ true → Ensures Some (require b e)
Ensures-require_any true e h = tt
Ensures-require_any false e h = h

ordered-Ensures : (c : Comparison) → Ensures Some (ordered c)
unfolding is_refusal
ordered-Ensures less = tt
ordered-Ensures same = refl
ordered-Ensures greater = refl

pub when-Ensures :
    (b : Bool) (m : Result ScanError (Unit {0})) → Ensures Some m → Ensures Some (when b m)
when-Ensures true m h = h
when-Ensures false m h = tt

-- A key that `advance` found in the frame, as long as the text wanted.
fits :
    (content end count size bound : ℕ)
    → not (count == size) ≡ false
    → end ≡ content + count
    → end ≤ bound
    → content + size ≤ bound
fits content end count size bound e h1 h2 = ground arith

module _ (data' : Bytes) where
  -- The range of the previous key.
  abbrev pub WithinFrame : Option (ℕ × ℕ) → Type 0
  WithinFrame none = Unit {0}
  WithinFrame (some (first, last)) = (first ≤ last) × (last ≤ length data')

  text_matches-Ensures :
      (index : ℕ) (want : Bytes)
      → index + length want ≤ length data'
      → Ensures Some (text_matches data' index want)
  unfolding text_matches
  text_matches-Ensures index [] h = tt
  text_matches-Ensures index (w ∷ want) h =
      Ensures-bind Some Some (byte_at data' index) _ (byte_at-Ensures data' index (omega arith))
        (λ c _.
          Ensures-if Some (c == w) _ _ (λ _. text_matches-Ensures (index + 1) want (omega arith))
            (λ _. tt))

  text_content-Ensures :
      (offset : ℕ) (want : Bytes)
      → offset < length data'
      → Ensures Some (text_content data' offset want)
  unfolding text_content
  text_content-Ensures offset want h =
      Ensures-bind (Behind offset data') Some (scan_argument data' offset) _
        (scan_argument-Ensures data' offset h)
        (λ (length', content) _.
          Ensures-if Some (not (length' == length want)) _ _ (λ _. tt)
            (λ e.
              Ensures-bind (λ end. (end ≡ content + length') × (end ≤ length data')) Some
                (scan_advance content length' (length data')) _
                (scan_advance-Ensures content length' (length data'))
                (λ end (h1, h2).
                  text_matches-Ensures content want
                    (fits content end length' (length want) (length data') e h1 h2))))

  pub cbor_text_equals-Ensures :
      (offset : ℕ) (want : Bytes) → Ensures Some (cbor_text_equals data' offset want)
  unfolding cbor_text_equals
  cbor_text_equals-Ensures offset want =
      Ensures-if Some (leb (length data') offset) _ _ (λ _. tt)
        (λ e.
          Ensures-bind Some Some (byte_at data' offset) _
            (byte_at-Ensures data' offset (leb_false→lt _ _ e))
            (λ head _.
              Ensures-if Some (not (head / 32 == 3)) _ _ (λ _. tt)
                (λ _.
                  or_false-Ensures (text_content data' offset want)
                    (text_content-Ensures offset want (leb_false→lt _ _ e)))))

  pub scan_header-Ensures :
      (not_array too_many : ScanError) (budget offset : ℕ)
      → is_refusal not_array ≡ true
      → is_refusal too_many ≡ true
      → Ensures Some (scan_header not_array too_many budget data' offset)
  unfolding scan_header
  scan_header-Ensures not_array too_many budget offset h k =
      Ensures-if Some (leb (length data') offset) _ _ (λ _. h)
        (λ e.
          Ensures-bind Some Some (byte_at data' offset) _
            (byte_at-Ensures data' offset (leb_false→lt _ _ e))
            (λ head _.
              Ensures-if Some (not (head / 32 == 4)) _ _ (λ _. h)
                (λ _.
                  Ensures-bind (Behind offset data') Some (scan_argument data' offset) _
                    (scan_argument-Ensures data' offset (leb_false→lt _ _ e))
                    (λ (count, next) _. Ensures-require_any (leb count budget) too_many k))))

  pub check_key_order-Ensures :
      (previous : Option (ℕ × ℕ)) (first last : ℕ)
      → WithinFrame previous
      → first ≤ last
      → last ≤ length data'
      → Ensures Some (check_key_order data' previous first last)
  unfolding check_key_order
  check_key_order-Ensures none first last h1 h2 h3 = tt
  check_key_order-Ensures (some (previous_first, previous_last)) first last (h, k) h2 h3 =
      Ensures-bind Some Some (slice data' previous_first previous_last) _
        (slice-Ensures data' previous_first previous_last h k)
        (λ previous _.
          Ensures-bind Some Some (slice data' first last) _ (slice-Ensures data' first last h2 h3)
            (λ key _. ordered-Ensures (bytes_compare previous key)))
