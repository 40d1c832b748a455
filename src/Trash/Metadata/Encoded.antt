-- ===== src/Trash/Metadata/Encoded.antt =====
-- The encoded path in a .trashinfo record of internal/trash/metadata.go, and texts by lines.
use linux_deep_clean.Prelude.{
  ℕ, ◌+◌, ◌/◌, ◌%◌, ◌<◌, ◌≡◌, refl, sym, ap, ◌∙◌, arith, false, ◌||◌, Bool-cases, inl, inr, List,
  [], ◌∷◌, ◌++◌, All, All-append, IsBytes, ltb, Bytes, length, ok, ok-injective,
}
use linux_deep_clean.Pathbytes.BytePath.{DecodeLimits, BytePath, upper_hex, validate_limits}
use linux_deep_clean.Pathbytes.BytePath.Names.{IsPath}
use linux_deep_clean.Pathbytes.TrashCodec.{
  trash_unreserved, encode_byte, encode_component, encode_from, percent_encode_trash_path,
  percent_decode_with_limits,
}
use linux_deep_clean.Pathbytes.TrashCodec.RoundTrip.{total, percent_decode-percent_encode}
use linux_deep_clean.Domain.Identifiers.{contains_byte}
use linux_deep_clean.Ledger.Records.{split}

-- Neither a space nor a control byte.
abbrev pub IsVisible : ℕ → Type 0
IsVisible v = 32 < v

upper_hex-IsVisible : (n : ℕ) → n < 16 → IsVisible (upper_hex n)
unfolding upper_hex
upper_hex-IsVisible n h = ground arith

encode_byte-IsVisible : (v : ℕ) → v < 256 → All IsVisible (encode_byte v)
unfolding encode_byte trash_unreserved
encode_byte-IsVisible v h =
    let high = upper_hex-IsVisible (v / 16) (omega arith) in
    let low = upper_hex-IsVisible (v % 16) (omega arith) in ground arith

encode_component-IsVisible : (c : Bytes) → IsBytes c → All IsVisible (encode_component c)
unfolding encode_component
encode_component-IsVisible [] _ = tt
encode_component-IsVisible (v ∷ c) (h, hs) =
    All-append IsVisible (encode_byte v) (encode_component c) (encode_byte-IsVisible v h)
      (encode_component-IsVisible c hs)

pub encode_from-IsVisible :
    (n : ℕ) (cs : List Bytes) → All IsBytes cs → All IsVisible (encode_from n cs)
unfolding encode_from
encode_from-IsVisible n [] _ = tt
encode_from-IsVisible n (c ∷ cs) (h, hs) =
    let rest =
      All-append IsVisible (encode_component c) (encode_from (n + 1) cs)
        (encode_component-IsVisible c h) (encode_from-IsVisible (n + 1) cs hs) in
    elim (Bool-cases (ltb 0 n)) [ inl e ↦ rw e (omega arith, rest) | inr e ↦ rw e rest ]

pub visible-contains : (c : ℕ) (v : Bytes) → c < 32 → All IsVisible v → contains_byte v c ≡ false
unfolding contains_byte
visible-contains c [] h _ = refl
visible-contains c (a ∷ v) h (x, xs) = ground (arith, visible-contains c v h xs)

pub contains_byte-append :
    (a b : Bytes) (c : ℕ) → contains_byte (a ++ b) c ≡ (contains_byte a c || contains_byte b c)
unfolding contains_byte
contains_byte-append [] b c = refl
contains_byte-append (x ∷ a) b c = ground (arith, contains_byte-append a b c)

pub split_line :
    (c : ℕ) (a b : Bytes) → contains_byte a c ≡ false → split c (a ++ c ∷ b) ≡ a ∷ split c b
unfolding split contains_byte
split_line c [] b h = ground arith
split_line c (x ∷ a) b h = ground (arith, split_line c a b)

positive_limits :
    (a b c : ℕ)
    → validate_limits
        (record { max_input_bytes = a + 1; max_components = b + 1; max_decoded_bytes = c + 1 })
      ≡ ok tt
unfolding validate_limits
positive_limits a b c = ground arith

-- Two valid paths of bytes with one encoding are equal.
pub percent_encode-injective :
    (p q : BytePath)
    → IsPath p.components
    → IsPath q.components
    → All IsBytes p.components
    → All IsBytes q.components
    → percent_encode_trash_path p ≡ percent_encode_trash_path q
    → p ≡ q
percent_encode-injective p q hp hq bp bq same =
    let limits : DecodeLimits = record {
      max_input_bytes = length (percent_encode_trash_path p) + 1;
      max_components = length p.components + length q.components + 1;
      max_decoded_bytes = total p.components + total q.components + 1;
    } in
    let size : length (percent_encode_trash_path p) ≡ length (percent_encode_trash_path q) =
      ap length same in
    let one = percent_decode-percent_encode limits p hp bp (record {
      positive = positive_limits _ _ _;
      input = omega arith;
      count = omega arith;
      decoded = omega arith;
    }) in
    let two = percent_decode-percent_encode limits q hq bq (record {
      positive = positive_limits _ _ _;
      input = omega (arith, size);
      count = omega arith;
      decoded = omega arith;
    }) in
    ok-injective (sym one ∙ ap (λ e. percent_decode_with_limits e limits) same ∙ two)
