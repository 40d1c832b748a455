-- ===== src/Pathbytes/TrashCodec/RoundTrip.antt =====
-- The Trash percent codec both ways: what is encoded is read back, and only what the encoder
-- writes is accepted.
use mathlib.Core.Path.{ap₂}
use native.Mathlib.Nat.{add-zero}
use linux_deep_clean.Prelude.{
  ℕ, ◌+◌, ◌/◌, ◌%◌, ◌≤◌, ◌<◌, ◌≡◌, ◌≢◌, refl, ap, ◌∙◌, List, [], ◌∷◌, ◌++◌, inl, inr, arith, lt→ltb,
  le→leb, lt→leb_false, Bool-cases, All, Bytes, IsBytes, length, append-nil, append_assoc, ok,
}
use linux_deep_clean.Pathbytes.BytePath.{BytePath, DecodeLimits, validate_limits}
use linux_deep_clean.Pathbytes.BytePath.Names.{
  IsName, IsPath, validate_components_iff, new_path_iff,
}
use linux_deep_clean.Pathbytes.TrashCodec.{
  trash_unreserved, encode_byte, encode_component, encode_from, percent_encode_trash_path,
  count_components, close_last, decode_loop, percent_decode_with_limits,
}
use linux_deep_clean.Pathbytes.TrashCodec.Nibbles.{unreserved-ne-slash, upper_hex-ne-slash}
use linux_deep_clean.Pathbytes.TrashCodec.Steps.{decode_loop-slash, decode_loop-encode_byte}

-- The raw bytes of a path.
abbrev pub total : List Bytes → ℕ
total [] = 0
total (c ∷ cs) = length c + total cs

close_last-ok : (c : Bytes) (cs : List Bytes) → c ≢ [] → close_last c cs ≡ ok (cs ++ c ∷ [])
unfolding close_last
close_last-ok [] cs h = absurd (h refl)
close_last-ok (x ∷ c) cs h = refl

module _ (limits : DecodeLimits) where
  decode_loop-encode_component :
      (d rest c : Bytes) (cs : List Bytes) (n : ℕ)
      → IsBytes d
      → n + length d ≤ limits.max_decoded_bytes
      → decode_loop limits (encode_component d ++ rest) c cs n
        ≡ decode_loop limits rest (c ++ d) cs (n + length d)
  unfolding encode_component
  decode_loop-encode_component [] rest c cs n b m = rw (append-nil, add-zero)
  decode_loop-encode_component (v ∷ d) rest c cs n b m = rw append_assoc (
      decode_loop-encode_byte limits v _ c cs n b.0 (omega arith)
      ∙ decode_loop-encode_component d rest (c ++ v ∷ []) cs (n + 1) b.1 (omega arith)
      ∙ ap₂ (λ e k. decode_loop limits rest e cs k) (append_assoc c (v ∷ []) d) (omega arith))

  decode_loop-encode_from :
      (ds : List Bytes) (i : ℕ) (c : Bytes) (cs : List Bytes) (n : ℕ)
      → 0 < i
      → c ≢ []
      → All IsName ds
      → All IsBytes ds
      → n + total ds ≤ limits.max_decoded_bytes
      → decode_loop limits (encode_from i ds) c cs n ≡ ok (cs ++ c ∷ ds)
  unfolding encode_from decode_loop
  decode_loop-encode_from [] i c cs n pos ne names bytes m = close_last-ok c cs ne
  decode_loop-encode_from (d ∷ ds) i c cs n pos ne names bytes m = rw (lt→ltb 0 i pos) (
      decode_loop-slash limits _ c cs n ne
      ∙ decode_loop-encode_component d _ [] (cs ++ c ∷ []) n bytes.0 (omega arith)
      ∙ decode_loop-encode_from ds (i + 1) d (cs ++ c ∷ []) (n + length d) (omega arith)
          names.0.ne_nil names.1 bytes.1 (omega arith)
      ∙ ap ok (append_assoc cs (c ∷ []) (d ∷ ds)))

  -- No separator is written inside a component, so the first loop counts the components.
  count_components-encode_byte :
      (v : ℕ) (rest : Bytes) (k : ℕ)
      → v < 256
      → count_components limits (encode_byte v ++ rest) k ≡ count_components limits rest k
  unfolding count_components encode_byte
  count_components-encode_byte v rest k b = elim (Bool-cases (trash_unreserved v)) [
    | inl u ↦ rw (u, unreserved-ne-slash v u)
    | inr u ↦
        rw (u, upper_hex-ne-slash (v / 16) (omega arith), upper_hex-ne-slash (v % 16) (omega arith))
  ]

  pub count_components-encode_component :
      (c rest : Bytes) (k : ℕ)
      → IsBytes c
      → count_components limits (encode_component c ++ rest) k ≡ count_components limits rest k
  unfolding encode_component
  count_components-encode_component [] rest k b = refl
  count_components-encode_component (v ∷ c) rest k b =
      rw append_assoc
        (count_components-encode_byte v _ k b.0 ∙ count_components-encode_component c rest k b.1)

  count_components-encode_from :
      (ds : List Bytes) (i k : ℕ)
      → 0 < i
      → All IsBytes ds
      → k + length ds ≤ limits.max_components
      → count_components limits (encode_from i ds) k ≡ ok (k + length ds)
  unfolding encode_from count_components
  count_components-encode_from [] i k pos b m = rw add-zero
  count_components-encode_from (d ∷ ds) i k pos b m =
      rw (lt→ltb 0 i pos, lt→leb_false limits.max_components k (omega arith))
        (count_components-encode_component d _ (k + 1) b.0
          ∙ count_components-encode_from ds (i + 1) (k + 1) (omega arith) b.1 (omega arith)
          ∙ ap ok (omega arith))

encode_byte_pos : (v : ℕ) (rest : Bytes) → 0 < length (encode_byte v ++ rest)
unfolding encode_byte
encode_byte_pos v rest = ground arith

encode_first_pos : (c : Bytes) (rest : Bytes) → c ≢ [] → 0 < length (encode_component c ++ rest)
unfolding encode_component
encode_first_pos [] rest h = absurd (h refl)
encode_first_pos (v ∷ c) rest h = rw append_assoc (encode_byte_pos v _)

-- The budgets allow the path and its encoded form.
pub record Fits (limits : DecodeLimits) (path : BytePath) : Type 0 where
  pub positive : validate_limits limits ≡ ok tt
  pub input : length (percent_encode_trash_path path) ≤ limits.max_input_bytes
  pub count : length path.components ≤ limits.max_components
  pub decoded : total path.components ≤ limits.max_decoded_bytes

pub percent_encode-IsPath :
    (cs : List Bytes)
    → IsPath cs
    → percent_encode_trash_path (record { components = cs }) ≡ encode_from 0 cs
unfolding percent_encode_trash_path
percent_encode-IsPath cs p = rw ((validate_components_iff cs).1 p)

module _ (limits : DecodeLimits) (c : Bytes) (cs : List Bytes) where
  abbrev text : Bytes
  text = encode_component c ++ encode_from 1 cs

  text-encode_from : encode_from 0 (c ∷ cs) ≡ text
  unfolding encode_from
  text-encode_from = refl

  module _ (p : IsPath (c ∷ cs)) (b : All IsBytes (c ∷ cs)) where
    decode_loop-text :
        total (c ∷ cs) ≤ limits.max_decoded_bytes → decode_loop limits text [] [] 0 ≡ ok (c ∷ cs)
    decode_loop-text m =
        decode_loop-encode_component limits c (encode_from 1 cs) [] [] 0 b.0 (omega arith)
        ∙ decode_loop-encode_from limits cs 1 c [] (0 + length c) (omega arith) p.names.0.ne_nil
            p.names.1 b.1 (omega arith)

    count_components-text :
        length (c ∷ cs) ≤ limits.max_components
        → count_components limits text 1 ≡ ok (1 + length cs)
    count_components-text m =
        count_components-encode_component limits c (encode_from 1 cs) 1 b.0
        ∙ count_components-encode_from limits cs 1 1 (omega arith) b.1 (omega arith)

decode_text :
    (limits : DecodeLimits) (cs : List Bytes)
    → IsPath cs
    → All IsBytes cs
    → Fits limits (record { components = cs })
    → percent_decode_with_limits (encode_from 0 cs) limits ≡ ok (record { components = cs })
unfolding percent_decode_with_limits
decode_text limits [] p b f = absurd (p.some_component refl)
decode_text limits (c ∷ cs) p b f =
    let written = percent_encode-IsPath (c ∷ cs) p ∙ text-encode_from limits c cs in
    rw
      (
        text-encode_from limits c cs,
        f.positive,
        lt→ltb _ _ (encode_first_pos c (encode_from 1 cs) p.names.0.ne_nil),
        le→leb _ _ (rw written at (f.input)),
        count_components-text limits c cs p b f.count,
        decode_loop-text limits c cs p b f.decoded,
      )
      ((new_path_iff (c ∷ cs) _).1 (p, refl))

-- Decoding undoes encoding: a valid path of bytes, within the budgets, comes back unchanged.
pub percent_decode-percent_encode :
    (limits : DecodeLimits) (path : BytePath)
    → IsPath path.components
    → All IsBytes path.components
    → Fits limits path
    → percent_decode_with_limits (percent_encode_trash_path path) limits ≡ ok path
percent_decode-percent_encode limits path p b f =
    rw (percent_encode-IsPath path.components p) (decode_text limits path.components p b f)
