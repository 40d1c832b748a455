-- ===== src/Cbor/Scan/Safety.antt =====
-- `scanCBORItem` and `scanCanonicalCBOR` of internal/planproto/limits.go answer every frame.
use linux_deep_clean.Prelude.{
  ℕ, zero, suc, ◌+◌, ◌-◌, ◌≤◌, ◌<◌, ◌/◌, Bool, false, not, ◌&&◌, ◌||◌, ◌≡◌, refl, arith, ltb, leb,
  ◌==◌, Option, none, some, Bytes, codes, length, Result,
}
use linux_deep_clean.Cbor.Limits.{ScanError, DecodeLimits}
use linux_deep_clean.Cbor.Reads.{byte_at, slice}
use linux_deep_clean.Cbor.Utf8.{utf8_valid}
use linux_deep_clean.Cbor.Argument.{scan_argument, scan_advance}
use linux_deep_clean.Cbor.Argument.Bounds.{Behind, scan_argument-Ensures, scan_advance-Ensures}
use linux_deep_clean.Cbor.Ensures.{
  is_refusal, Ensures, Ensures-bind, Ensures-weaken, Ensures-if, byte_at-Ensures, slice-Ensures,
  leb_false→lt, ltb_false→le,
}
use linux_deep_clean.Cbor.Scan.{
  cbor_text_equals, scan_path_components_header, scan_actions_header, check_key_order, when,
  scan_items, scan_pair, scan_pairs, scan_scalar, scan_array, scan_map, scan_major, scan_item,
}
use linux_deep_clean.Cbor.Scan.Keys.{
  Some, WithinFrame, cbor_text_equals-Ensures, scan_header-Ensures, check_key_order-Ensures,
  when-Ensures,
}

module _ (data' : Bytes) where
  -- An end of an item that starts at `offset`.
  abbrev pub After : ℕ → ℕ → Type 0
  After offset end = (offset < end) × (end ≤ length data')

  -- An end of any number of items that start at `offset`.
  abbrev pub NotBefore : ℕ → ℕ → Type 0
  NotBefore offset end = (offset ≤ end) × (end ≤ length data')

  -- The ends of a key that starts at `offset` and of its value.
  abbrev pub Pair : ℕ → Bool × ℕ × ℕ → Type 0
  Pair offset (_, key_end, behind) =
      (offset < key_end) × (key_end < behind) × (behind ≤ length data')

  module _ (scan : ℕ → Result ScanError ℕ) (safe : (n : ℕ) → Ensures (After n) (scan n)) where
    scan_items-Ensures :
        (count next : ℕ)
        → next ≤ length data'
        → Ensures (NotBefore next) (scan_items scan count next)
    unfolding scan_items
    scan_items-Ensures zero next h = (omega arith, h)
    scan_items-Ensures (suc left) next h =
        Ensures-bind (After next) (NotBefore next) (scan next) _ (safe next) (λ behind (h1, h2).
          Ensures-weaken (NotBefore behind) (NotBefore next) (scan_items scan left behind)
            (λ end (h3, h4). (omega arith, h4)) (scan_items-Ensures left behind h2))

    scan_pair-Ensures :
        (limits : DecodeLimits) (previous : Option (ℕ × ℕ)) (offset : ℕ)
        → WithinFrame data' previous
        → Ensures
            (λ (_, key_end, behind).
              (offset < key_end) × (key_end < behind) × (behind ≤ length data'))
            (scan_pair scan data' limits previous offset)
    unfolding scan_pair scan_path_components_header scan_actions_header is_refusal
    scan_pair-Ensures limits previous offset h =
        Ensures-bind Some (Pair offset) (cbor_text_equals data' offset (codes "components")) _
          (cbor_text_equals-Ensures data' offset _)
          (λ has_components _.
            Ensures-bind (After offset) (Pair offset) (scan offset) _ (safe offset)
              (λ key_end (h1, h2).
                Ensures-bind Some (Pair offset) (check_key_order data' previous offset key_end) _
                  (check_key_order-Ensures data' previous offset key_end h (omega arith) h2)
                  (λ _ _.
                    Ensures-bind Some (Pair offset)
                      (cbor_text_equals data' offset (codes "components")) _
                      (cbor_text_equals-Ensures data' offset _)
                      (λ is_components _.
                        Ensures-bind Some (Pair offset)
                          (when is_components (scan_path_components_header data' key_end limits)) _
                          (when-Ensures is_components _
                            (scan_header-Ensures data' _ _ _ key_end refl refl))
                          (λ _ _.
                            Ensures-bind Some (Pair offset)
                              (cbor_text_equals data' offset (codes "actions")) _
                              (cbor_text_equals-Ensures data' offset _)
                              (λ is_actions _.
                                Ensures-bind Some (Pair offset)
                                  (when is_actions (scan_actions_header data' key_end limits)) _
                                  (when-Ensures is_actions _
                                    (scan_header-Ensures data' _ _ _ key_end refl refl))
                                  (λ _ _.
                                    Ensures-bind (After key_end) (Pair offset) (scan key_end) _
                                      (safe key_end) (λ behind (h3, h4). (h1, h3, h4)))))))))

    scan_pairs-Ensures :
        (limits : DecodeLimits) (count : ℕ) (has : Bool) (previous : Option (ℕ × ℕ)) (next : ℕ)
        → next ≤ length data'
        → WithinFrame data' previous
        → Ensures
            (λ (_, end). NotBefore next end)
            (scan_pairs scan data' limits count has previous next)
    unfolding scan_pairs
    scan_pairs-Ensures limits zero has previous next h k = (omega arith, h)
    scan_pairs-Ensures limits (suc left) has previous next h k =
        Ensures-bind (Pair next) (λ (_, end). NotBefore next end)
          (scan_pair scan data' limits previous next) _ (scan_pair-Ensures limits previous next k)
          (λ (has_components, key_end, behind) (h1, h2, h3).
            Ensures-weaken (λ (_, end). NotBefore behind end) (λ (_, end). NotBefore next end)
              (scan_pairs scan data' limits left (has || has_components) (some (next, key_end))
                behind)
              (λ (_, end) (h4, h5). (omega arith, h5))
              (scan_pairs-Ensures limits left _ _ behind h3 (omega arith, omega arith)))

  scan_scalar-Ensures :
      (limits : DecodeLimits) (major argument next : ℕ)
      → Ensures (NotBefore next) (scan_scalar data' limits major argument next)
  unfolding scan_scalar is_refusal
  scan_scalar-Ensures limits major argument next =
      Ensures-if (NotBefore next) (ltb limits.max_scalar_bytes argument) _ _ (λ _. refl)
        (λ _.
          Ensures-bind (λ end. (end ≡ next + argument) × (end ≤ length data')) (NotBefore next)
            (scan_advance next argument (length data')) _
            (scan_advance-Ensures next argument (length data'))
            (λ end (h1, h2).
              Ensures-if (NotBefore next) (not (major == 3)) _ _ (λ _. (omega arith, h2))
                (λ _.
                  Ensures-bind Some (NotBefore next) (slice data' next end) _
                    (slice-Ensures data' next end (omega arith) h2)
                    (λ text _.
                      Ensures-if (NotBefore next) (utf8_valid text) _ _ (λ _. (omega arith, h2))
                        (λ _. refl)))))

  module _ (scan : ℕ → Result ScanError ℕ) (limits : DecodeLimits) (depth : ℕ)
      (safe : depth + 1 ≤ limits.max_depth → (n : ℕ) → Ensures (After n) (scan n)) where
    scan_array-Ensures :
        (argument next : ℕ)
        → next ≤ length data'
        → Ensures (NotBefore next) (scan_array scan limits depth argument next)
    unfolding scan_array is_refusal
    scan_array-Ensures argument next h =
        Ensures-if (NotBefore next) (ltb limits.max_depth (depth + 1)) _ _ (λ _. refl)
          (λ e.
            Ensures-if (NotBefore next) (ltb limits.max_array_items argument) _ _ (λ _. refl)
              (λ _. scan_items-Ensures scan (safe (ltb_false→le _ _ e)) argument next h))

    scan_map-Ensures :
        (offset argument next : ℕ)
        → next ≤ length data'
        → Ensures (NotBefore next) (scan_map scan data' limits offset depth argument next)
    unfolding scan_map is_refusal
    scan_map-Ensures offset argument next h =
        Ensures-if (NotBefore next) (ltb limits.max_depth (depth + 1)) _ _ (λ _. refl)
          (λ e.
            Ensures-if (NotBefore next) (ltb limits.max_map_pairs argument) _ _ (λ _. refl)
              (λ _.
                Ensures-bind (λ (_, end). NotBefore next end) (NotBefore next)
                  (scan_pairs scan data' limits argument false none next) _
                  (scan_pairs-Ensures scan (safe (ltb_false→le _ _ e)) limits argument false none
                    next h tt)
                  (λ (has_components, end) k.
                    Ensures-if (NotBefore next)
                      (has_components && ltb limits.max_encoded_path_bytes (end - offset)) _ _
                      (λ _. refl) (λ _. k))))

    scan_major-Ensures :
        (offset major argument next : ℕ)
        → next ≤ length data'
        → Ensures (NotBefore next) (scan_major scan data' limits offset depth major argument next)
    unfolding scan_major is_refusal
    scan_major-Ensures offset major argument next h =
        let h1 = scan_scalar-Ensures limits major argument next in
        let h2 = scan_array-Ensures argument next h in
        let h3 = scan_map-Ensures offset argument next h in ground arith

  pub scan_item-Ensures :
      (fuel offset depth : ℕ) (limits : DecodeLimits)
      → fuel + depth ≡ limits.max_depth + 1
      → depth ≤ limits.max_depth
      → Ensures (After offset) (scan_item fuel data' offset depth limits)
  unfolding scan_item is_refusal
  scan_item-Ensures zero offset depth limits h k = ground arith
  scan_item-Ensures (suc fuel) offset depth limits h k =
      Ensures-if (After offset) (leb (length data') offset) _ _ (λ _. refl)
        (λ e.
          Ensures-bind Some (After offset) (byte_at data' offset) _
            (byte_at-Ensures data' offset (leb_false→lt _ _ e))
            (λ head _.
              Ensures-bind (Behind offset data') (After offset) (scan_argument data' offset) _
                (scan_argument-Ensures data' offset (leb_false→lt _ _ e))
                (λ (argument, next) (h1, h2).
                  Ensures-weaken (NotBefore next) (After offset) _
                    (λ end (h3, h4). (omega arith, h4))
                    (scan_major-Ensures _ limits depth
                      (λ deeper n. scan_item-Ensures fuel n (depth + 1) limits (omega arith) deeper)
                      offset (head / 32) argument next h2))))
