-- ===== src/Pathbytes/TrashCodec/Canonical.antt =====
-- The decoder of internal/pathbytes/trash_percent_codec.go accepts only what the encoder writes.
use linux_deep_clean.Prelude.{
  ℕ, zero, suc, ◌+◌, ◌≤◌, ◌<◌, ◌≡◌, ◌≢◌, refl, ap, ◌∙◌, List, [], ◌∷◌, ◌++◌, inl, inr, arith, ltb,
  leb, leb→le, lt→ltb, require, require-eq-ok, Bool-cases, All, All-append, Bytes, IsBytes, length,
  length-append, append-nil, append_assoc, ok, err, bind-eq-ok,
}
use linux_deep_clean.Pathbytes.BytePath.{BytePath, DecodeLimits, over_components, validate_limits}
use linux_deep_clean.Pathbytes.BytePath.Names.{IsPath, new_path_iff}
use linux_deep_clean.Pathbytes.TrashCodec.{
  encode_byte, encode_component, encode_from, percent_encode_trash_path, count_components,
  close_last, decode_loop, percent_decode_with_limits,
}
use linux_deep_clean.Pathbytes.TrashCodec.Steps.{slash, byte, decode_loop-Round}
use linux_deep_clean.Pathbytes.TrashCodec.RoundTrip.{
  total, count_components-encode_component, percent_encode-IsPath,
}

encode_component-append :
    (c d : Bytes) → encode_component (c ++ d) ≡ encode_component c ++ encode_component d
unfolding encode_component
encode_component-append [] d = refl
encode_component-append (v ∷ c) d = simp (encode_component-append c d, append_assoc)

encode_component-one : (v : ℕ) → encode_component (v ∷ []) ≡ encode_byte v
unfolding encode_component
encode_component-one v = append-nil (encode_byte v)

-- A byte more in the last component, and a component more.
encode_from-byte :
    (cs : List Bytes) (i : ℕ) (c : Bytes) (v : ℕ)
    → encode_from i (cs ++ (c ++ v ∷ []) ∷ []) ≡ encode_from i (cs ++ c ∷ []) ++ encode_byte v
unfolding encode_from
encode_from-byte [] i c v =
    simp (encode_component-append, encode_component-one, append_assoc, append-nil)
encode_from-byte (d ∷ cs) i c v = simp (encode_from-byte cs (i + 1) c v, append_assoc)

encode_from-slash :
    (cs : List Bytes) (i : ℕ) (c : Bytes)
    → encode_from i ((cs ++ c ∷ []) ++ [] ∷ []) ≡ encode_from i (cs ++ c ∷ []) ++ b'/' ∷ []
unfolding encode_from encode_component
encode_from-slash [] i c = rw (lt→ltb 0 (i + 1) (omega arith)) (simp (append_assoc, append-nil))
encode_from-slash (d ∷ cs) i c = simp (encode_from-slash cs (i + 1) c, append_assoc)

encode_byte_pos : (v : ℕ) → 0 < length (encode_byte v)
unfolding encode_byte
encode_byte_pos v = ground arith

total-append : (cs ds : List Bytes) → total (cs ++ ds) ≡ total cs + total ds
total-append [] ds = omega arith
total-append (c ∷ cs) ds = omega (arith, total-append cs ds)

total-byte :
    (cs : List Bytes) (c : Bytes) (v : ℕ)
    → total (cs ++ (c ++ v ∷ []) ∷ []) ≡ total (cs ++ c ∷ []) + 1
total-byte [] c v = omega (arith, length-append c (v ∷ []))
total-byte (d ∷ cs) c v = omega (arith, total-byte cs c v)

IsBytes-byte :
    (cs : List Bytes) (c : Bytes) (v : ℕ)
    → v < 256
    → All IsBytes (cs ++ c ∷ [])
    → All IsBytes (cs ++ (c ++ v ∷ []) ∷ [])
IsBytes-byte [] c v h b = (All-append (λ x. x < 256) c (v ∷ []) b.0 (h, tt), tt)
IsBytes-byte (d ∷ cs) c v h b = (b.0, IsBytes-byte cs c v h b.1)

-- What the loop has read, and what it may still read.
record Reads (limits : DecodeLimits) (cs : List Bytes) (c s : Bytes) (n : ℕ) (out : List Bytes)
    : Type 0 where
  canonical : encode_from 0 out ≡ encode_from 0 (cs ++ c ∷ []) ++ s
  bytes : All IsBytes out
  decoded : total out ≤ limits.max_decoded_bytes

module _ (limits : DecodeLimits) (out : List Bytes) where
  closed :
      (c : Bytes) (cs : List Bytes) (n : ℕ)
      → All IsBytes (cs ++ c ∷ [])
      → total (cs ++ c ∷ []) ≤ limits.max_decoded_bytes
      → close_last c cs ≡ ok out
      → Reads limits cs c [] n out
  unfolding close_last
  closed [] cs n b m h = cc
  closed (v ∷ c) cs n b m h =
      let same : cs ++ (v ∷ c) ∷ [] ≡ out = ground arith in
      record { canonical = rw (append-nil, same); bytes = rw same at b; decoded = rw same at m }

  decode_loop-Reads :
      (k : ℕ) (s c : Bytes) (cs : List Bytes) (n : ℕ)
      → length s ≤ k
      → All IsBytes (cs ++ c ∷ [])
      → total (cs ++ c ∷ []) ≡ n
      → n ≤ limits.max_decoded_bytes
      → decode_loop limits s c cs n ≡ ok out
      → Reads limits cs c s n out
  unfolding decode_loop
  decode_loop-Reads k [] c cs n l b t m h = closed c cs n b (rw t m) h
  decode_loop-Reads zero (a ∷ s) c cs n l b t m h = absurd (omega arith)
  decode_loop-Reads (suc k) (a ∷ s) c cs n l b t m h =
      elim (decode_loop-Round limits out cs n a s c h) [
        | slash rest e ne later ↦
            let r =
              decode_loop-Reads k rest [] (cs ++ c ∷ []) n (omega (arith, ap length e))
                (All-append IsBytes (cs ++ c ∷ []) ([] ∷ []) b (tt, tt))
                (total-append (cs ++ c ∷ []) ([] ∷ []) ∙ omega arith) m later in
            record {
              canonical =
                  r.canonical ∙ rw (encode_from-slash cs 0 c, e) (append_assoc _ (b'/' ∷ []) rest);
              bytes = r.bytes;
              decoded = r.decoded;
            }
        | byte v rest e small below later ↦
            let r =
              decode_loop-Reads k rest (c ++ v ∷ []) cs (n + 1)
                (omega (arith, ap length e, length-append (encode_byte v) rest, encode_byte_pos v))
                (IsBytes-byte cs c v small b) (total-byte cs c v ∙ omega arith) (omega arith)
                later in
            record {
              canonical =
                  r.canonical
                  ∙ rw (encode_from-byte cs 0 c v, e) (append_assoc _ (encode_byte v) rest);
              bytes = r.bytes;
              decoded = r.decoded;
            }
      ]

-- The first loop, on what the encoder writes, gives the number of components.
module _ (limits : DecodeLimits) where
  count_components-le :
      (ds : List Bytes) (i k m : ℕ)
      → 0 < i
      → All IsBytes ds
      → k ≤ limits.max_components
      → count_components limits (encode_from i ds) k ≡ ok m
      → (m ≡ k + length ds) × (m ≤ limits.max_components)
  unfolding encode_from count_components
  count_components-le [] i k m pos b le h = ground arith
  count_components-le (d ∷ ds) i k m pos b le h =
      let opened = rw (lt→ltb 0 i pos) at h in
      elim (Bool-cases (leb limits.max_components k)) [
        | inl full ↦ absurd (refused (rw full at opened))
        | inr room ↦
            let rest =
              rw
                (
                  room,
                  count_components-encode_component limits d (encode_from (i + 1) ds) (k + 1) b.0,
                )
                at opened in
            let (same, below) =
              count_components-le ds (i + 1) (k + 1) m (omega arith) b.1 (ground arith) rest in
            (omega arith, below)
      ]
    where
      refused : err over_components ≡ ok m → ⊥
      refused = λ q. cc

  count_components-text :
      (cs : List Bytes) (m : ℕ)
      → 0 < limits.max_components
      → All IsBytes cs
      → cs ≢ []
      → count_components limits (encode_from 0 cs) 1 ≡ ok m
      → length cs ≤ limits.max_components
  unfolding encode_from
  count_components-text [] m pos b ne h = absurd (ne refl)
  count_components-text (c ∷ cs) m pos b ne h =
      let rest = rw (count_components-encode_component limits c (encode_from 1 cs) 1 b.0) at h in
      let (same, below) = count_components-le cs 1 1 m (omega arith) b.1 (omega arith) rest in
      omega arith

-- What an accepted text is.
pub record IsCanonical (limits : DecodeLimits) (encoded : Bytes) (path : BytePath) : Type 0 where
  pub encodes : percent_encode_trash_path path ≡ encoded
  pub valid : IsPath path.components
  pub bytes : All IsBytes path.components
  pub input : length encoded ≤ limits.max_input_bytes
  pub count : length path.components ≤ limits.max_components
  pub decoded : total path.components ≤ limits.max_decoded_bytes

validate_limits-pos :
    (limits : DecodeLimits) {u : Unit {0}}
    → validate_limits limits ≡ ok u
    → (0 < limits.max_components) × (0 < limits.max_decoded_bytes)
unfolding validate_limits
validate_limits-pos limits h = ground arith

empty_text : (s : Bytes) → encode_from 0 ([] ∷ []) ++ s ≡ s
unfolding encode_from encode_component
empty_text s = refl

-- Whatever the decoder accepts is the canonical text of the path that it returns, and that path
-- is valid and within the budgets.
pub percent_decode-IsCanonical :
    (limits : DecodeLimits) (encoded : Bytes) (path : BytePath)
    → percent_decode_with_limits encoded limits ≡ ok path
    → IsCanonical limits encoded path
unfolding percent_decode_with_limits
percent_decode-IsCanonical limits encoded path h =
    let (_, positive, h1) = bind-eq-ok (validate_limits limits) _ h in
    let (_, some_input, h2) = bind-eq-ok (require (ltb 0 (length encoded)) _) _ h1 in
    let (_, in_budget, h3) =
      bind-eq-ok (require (leb (length encoded) limits.max_input_bytes) _) _ h2 in
    let (m, counted, h4) = bind-eq-ok (count_components limits encoded 1) _ h3 in
    let (cs, looped, h5) = bind-eq-ok (decode_loop limits encoded [] [] 0) _ h4 in
    let (valid, same) = (new_path_iff cs path).0 h5 in
    let (some_count, some_decoded) = validate_limits-pos limits positive in
    let r =
      decode_loop-Reads limits cs (length encoded) encoded [] [] 0 (omega arith) (tt, tt) refl
        (omega arith) looped in
    let written : encode_from 0 cs ≡ encoded = r.canonical ∙ empty_text encoded in
    record {
      encodes = percent_encode-IsPath path.components (rw (← same) at valid) ∙ rw same written;
      valid = rw (← same) at valid;
      bytes = rw (← same) at (r.bytes);
      input = leb→le _ _ (require-eq-ok _ _ in_budget);
      count = rw same (
          count_components-text limits cs m some_count r.bytes valid.some_component
            (rw (← written) at counted));
      decoded = rw same (r.decoded);
    }
