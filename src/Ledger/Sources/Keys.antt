-- ===== src/Ledger/Sources/Keys.antt =====
-- The key of a source in internal/state/recovery_ledger.go tells sources apart.
use linux_deep_clean.Prelude.{
  ℕ, ◌^◌, ◌/◌, ◌%◌, ◌<◌, ◌≡◌, refl, sym, ap, ◌∙◌, arith, List, [], ◌∷◌, ◌++◌, append-nil,
  append_assoc, All, Bytes, length,
}
use linux_deep_clean.Pathbytes.BytePath.{BytePath}
use linux_deep_clean.Ledger.Sources.{append_key_part, append_components, source_key}

-- The length fits the four bytes in front.
abbrev pub Short : Bytes → Type 0
Short value = length value < 4294967296

-- A value behind its length.
abbrev part : Bytes → Bytes
part value = append_key_part [] value

abbrev parts : List Bytes → Bytes
parts [] = []
parts (value ∷ rest) = part value ++ parts rest

append_key_part-part :
    (encoded value : Bytes) → append_key_part encoded value ≡ encoded ++ part value
unfolding append_key_part
append_key_part-part encoded value = refl

append_components-parts :
    (encoded : Bytes) (values : List Bytes)
    → append_components encoded values ≡ encoded ++ parts values
unfolding append_components
append_components-parts encoded [] = sym (append-nil encoded)
append_components-parts encoded (value ∷ rest) =
    append_components-parts (append_key_part encoded value) rest
    ∙ rw (append_key_part-part encoded value, append_assoc encoded (part value) (parts rest)) refl

four_bytes :
    (n m : ℕ)
    → n < 4294967296
    → m < 4294967296
    → n / 2 ^ 24 % 256 ≡ m / 2 ^ 24 % 256
    → n / 2 ^ 16 % 256 ≡ m / 2 ^ 16 % 256
    → n / 2 ^ 8 % 256 ≡ m / 2 ^ 8 % 256
    → n % 256 ≡ m % 256
    → n ≡ m
four_bytes n m hn hm a b c d = omega arith

append_split : (a b x y : Bytes) → length a ≡ length b → a ++ x ≡ b ++ y → (a ≡ b) × (x ≡ y)
append_split [] [] x y size h = (refl, h)
append_split [] (d ∷ b) x y size h = absurd (omega (arith, size))
append_split (c ∷ a) [] x y size h = absurd (omega (arith, size))
append_split (c ∷ a) (d ∷ b) x y size h = ground (arith, append_split a b x y)

cons_split : {c d : ℕ} {x y : Bytes} → ◌≡◌ {A = Bytes} (c ∷ x) (d ∷ y) → (c ≡ d) × (x ≡ y)
cons_split h = (cc, cc)

-- A value and what stands behind it are read off.
part_split : (a b x y : Bytes) → Short a → Short b → part a ++ x ≡ part b ++ y → (a ≡ b) × (x ≡ y)
unfolding append_key_part
part_split a b x y ha hb h =
    let (top, h1) = cons_split h in
    let (upper, h2) = cons_split h1 in
    let (lower, h3) = cons_split h2 in
    let (low, h4) = cons_split h3 in
    append_split a b x y (four_bytes (length a) (length b) ha hb top upper lower low) h4

parts-injective :
    (one other : List Bytes)
    → All Short one
    → All Short other
    → parts one ≡ parts other
    → one ≡ other
unfolding append_key_part
parts-injective [] [] _ _ h = refl
parts-injective [] (b ∷ other) _ _ h = cc
parts-injective (a ∷ one) [] _ _ h = cc
parts-injective (a ∷ one) (b ∷ other) (sa, all_a) (sb, all_b) h =
    let (same, rest) = part_split a b (parts one) (parts other) sa sb h in
    let more = parts-injective one other all_a all_b rest in cc

-- Sources with parts that are shorter than 2^32 bytes and the same key have the same root and the
-- same path.
pub source_key-injective :
    (root other_root : Bytes) (source other : BytePath)
    → Short root
    → Short other_root
    → All Short source.components
    → All Short other.components
    → source_key root source ≡ source_key other_root other
    → (root ≡ other_root) × (source ≡ other)
unfolding source_key
source_key-injective root other_root source other hr ho hs hc h =
    let apart =
      (sym (append_components-parts (part root) source.components)
        ∙ h
        ∙ append_components-parts (part other_root) other.components) in
    let (roots, rest) =
      part_split root other_root (parts source.components) (parts other.components) hr ho apart in
    let paths = parts-injective source.components other.components hs hc rest in
    (roots, ap (λ components. record { components = components }) paths)
